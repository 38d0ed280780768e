-- ===== src/EpollServer/Ownership.antt =====
-- Which descriptors src/epoll_server/src/main.rs holds and has open, as a ledger like that of
-- src/fd_server.
use l4rerust.Base.{
  ℕ, refl, ap, inl, inr, Bool, Option, arith, Bool-cases, both, Option-cases, ◌==◌, ==_iff, List,
}
use l4rerust.Base.Int.{ℤ, is_neg}
use l4rerust.Base.Word.{as_i32}
use l4rerust.Ipc.Slab.{Slab, SlabLaws, get-insert, get-remove}
use l4rerust.Ipc.Loop.{Wake, serve_keeps}
use l4rerust.FdServer.Ledger.{Move, keep, opens, closes, Ledger, Move-Ledger}
use l4rerust.FdServer.Moves.{fd_of}
use l4rerust.EpollServer.Host.{Sys, Kernel}
use l4rerust.EpollServer.{
  EpollInstance, Instances, handle_ctl, handle_wait, wait_done, handle_close, handle_create,
  handle_request, run,
}

module _ (slab : Slab) (laws : SlabLaws slab) (sys : Sys) (kernel : Kernel sys) where
  -- The descriptor that each handle holds.
  abbrev pub held : slab.Table EpollInstance → ℕ → Option ℤ
  held t k = fd_of (λ e. e.fd) (slab.get k t)

  abbrev pub Step : Instances slab sys → Instances slab sys → Type 0
  Step c d = Move ◌==◌ (held c.table) (held d.table) (kernel.is_open c.os) (kernel.is_open d.os)

  module _ (c : Instances slab sys) where
    create-Step : Step c (handle_create slab sys c)
    unfolding handle_create
    create-Step =
        let call = sys.epoll_create1 (as_i32 (c.utcb.mr 1)) c.os in
        let o = kernel.create_opens (as_i32 (c.utcb.mr 1)) c.os in
        let entry : EpollInstance = record { fd = call.0 } in
        elim (Bool-cases (is_neg call.0)) [
          | inl failed ↦ rw failed (keep (λ j. refl) (o.failed failed))
          | inr valid ↦ rw valid (
              opens (slab.insert entry c.table).0 call.0
                (ap (fd_of (λ e. e.fd)) (laws.insert_vacant entry c.table)) (o.unopened valid)
                (λ j. ground (arith, get-insert slab laws j entry c.table)) (o.opened valid))
        ]

    close-Step : Step c (handle_close slab sys c)
    unfolding handle_close
    close-Step = elim (Option-cases (slab.get (c.utcb.mr 1) c.table)) [
      | inl e ↦ keep (λ j. rw (e, handle_close) refl) (λ g. rw (e, handle_close) refl)
      | inr (entry, e) ↦
          closes (c.utcb.mr 1) entry.fd (rw e refl)
            (λ j. ground (arith, get-remove slab laws (c.utcb.mr 1) j c.table))
            (λ g. rw (e, handle_close) (kernel.close_closes entry.fd c.os g))
    ]

    ctl-Step : Step c (handle_ctl slab sys c)
    unfolding handle_ctl
    ctl-Step = keep (λ j. ground arith) (λ g. grind (arith, kernel.ctl_keeps))

    wait-Step : Step c (handle_wait slab sys c)
    unfolding handle_wait wait_done
    wait-Step = keep (λ j. ground arith) (λ g. grind (arith, kernel.wait_keeps))

    -- Every request is one step of the ledger: it opens one descriptor under a free handle, closes the
    -- one that a handle names, or changes neither the handles nor the open descriptors.
    pub request-Step : Step c (handle_request slab sys c)
    unfolding handle_request
    request-Step =
        let op = c.utcb.mr 0 in
        both (Step c) (op == 0) _ _ create-Step (
          both (Step c) (op == 1) _ _ ctl-Step (
            both (Step c) (op == 2) _ _ wait-Step
              (both (Step c) (op == 3) _ _ close-Step (keep (λ j. refl) (λ g. refl)))))

  -- Every descriptor in the table is open, no two handles hold the same one, and every open descriptor
  -- is in the table or in `base`.
  abbrev pub Accounts : (ℤ → Bool) → slab.Table EpollInstance → sys.World → Type 0
  Accounts base t w = Ledger ◌==◌ base (held t) (kernel.is_open w)

  -- Over any messages and IPC errors: every epoll descriptor in the table is open, no two handles hold
  -- the same one, and every open descriptor is in the table or was open before (`base`), if this holds
  -- at the start.
  pub run-Accounts :
      (base : ℤ → Bool) (wakes : List Wake) (c : Instances slab sys)
      → Accounts base c.table c.os
      → Accounts base (run slab sys wakes c).1.table (run slab sys wakes c).1.os
  unfolding run
  run-Accounts base =
      serve_keeps (handle_request slab sys) (Accounts base)
        (λ c l. Move-Ledger ◌==◌ ==_iff (request-Step c) l)
