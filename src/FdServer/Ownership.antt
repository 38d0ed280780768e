-- ===== src/FdServer/Ownership.antt =====
-- Every handler of src/fd_server/src/main.rs as a step of the ledger.
use l4rerust.Base.{
  ℕ, ◌≡◌, refl, inl, inr, true, not, some, arith, Bool-cases, Option-cases, ◌==◌, ==_iff, List,
}
use l4rerust.Base.Int.{ℤ, is_neg, to_ℕ}
use l4rerust.Base.Word.{as_i32, as_u32, as_i64, to_le_bytes}
use l4rerust.Ipc.Slab.{Slab, SlabLaws, get-set}
use l4rerust.FdServer.Host.{Sys, Signalfd}
use l4rerust.FdServer.Kernel.{Kernel}
use l4rerust.FdServer.Ledger.{keep}
use l4rerust.FdServer.Counters.{
  Eventfds, Timerfds, handle_eventfd_create, handle_eventfd_write, handle_timerfd_create,
  handle_timerfd_settime, handle_timerfd_gettime, read_itimerspec,
}
use l4rerust.FdServer.Records.{
  Signalfds, Inotifies, read_sigset, signalfd_new, signalfd_update, handle_signalfd_create,
  handle_inotify_init, handle_inotify_add_watch, handle_inotify_rm_watch, remove_key,
}
use l4rerust.FdServer.Moves.{Keeps, CtxMove, Keeps-CtxMove, creates-CtxMove}
use l4rerust.FdServer.Strings.{add_watch_refused}

module _ (slab : Slab) (sys : Sys) (kernel : Kernel sys) where
  pub eventfd_create-CtxMove :
      SlabLaws slab
      → (c : Eventfds slab sys)
      → CtxMove slab sys kernel (λ e. e.fd) c (handle_eventfd_create slab sys c)
  unfolding handle_eventfd_create
  eventfd_create-CtxMove laws c =
      creates-CtxMove slab sys kernel (λ e. e.fd) laws c _ _ _
        (kernel.eventfd_opens (as_u32 (c.utcb.mr 1)) (as_i32 (c.utcb.mr 2)) c.os)

  pub timerfd_create-CtxMove :
      SlabLaws slab
      → (c : Timerfds slab sys)
      → CtxMove slab sys kernel (λ e. e.fd) c (handle_timerfd_create slab sys c)
  unfolding handle_timerfd_create
  timerfd_create-CtxMove laws c =
      creates-CtxMove slab sys kernel (λ e. e.fd) laws c _ _ _
        (kernel.timerfd_opens (as_i32 (c.utcb.mr 1)) (as_i32 (c.utcb.mr 2)) c.os)

  pub inotify_init-CtxMove :
      SlabLaws slab
      → (c : Inotifies slab sys)
      → CtxMove slab sys kernel (λ e. e.fd) c (handle_inotify_init slab sys c)
  unfolding handle_inotify_init
  inotify_init-CtxMove laws c =
      creates-CtxMove slab sys kernel (λ e. e.fd) laws c _ _ _
        (kernel.inotify_opens (as_i32 (c.utcb.mr 1)) c.os)

  pub eventfd_write-Keeps :
      (c : Eventfds slab sys) → Keeps slab sys kernel c (handle_eventfd_write slab sys c)
  unfolding handle_eventfd_write
  eventfd_write-Keeps c = elim (Option-cases (slab.get (c.utcb.mr 1) c.table)) [
    | inl e ↦ record { same_table = ground arith; same_fds = λ g. ground arith }
    | inr (entry, e) ↦ record {
      same_table = ground arith;
      same_fds =
          λ g. ground (arith, kernel.write_keeps entry.fd (to_le_bytes 8 (c.utcb.mr 2)) c.os g);
    }
  ]

  pub timerfd_settime-Keeps :
      (c : Timerfds slab sys) → Keeps slab sys kernel c (handle_timerfd_settime slab sys c)
  unfolding handle_timerfd_settime
  timerfd_settime-Keeps c = elim (Option-cases (slab.get (c.utcb.mr 1) c.table)) [
    | inl e ↦ record { same_table = ground arith; same_fds = λ g. ground arith }
    | inr (entry, e) ↦ elim (Option-cases (read_itimerspec slab sys c.utcb)) [
      | inl n ↦ record { same_table = ground arith; same_fds = λ g. ground arith }
      | inr (spec, s) ↦ record {
        same_table = ground arith;
        same_fds = λ g. ground (
          arith,
          kernel.settime_keeps entry.fd (as_i32 (c.utcb.mr 2)) spec (not (c.utcb.mr 3 == 0)) c.os g,
        );
      }
    ]
  ]

  pub timerfd_gettime-Keeps :
      (c : Timerfds slab sys) → Keeps slab sys kernel c (handle_timerfd_gettime slab sys c)
  unfolding handle_timerfd_gettime
  timerfd_gettime-Keeps c = elim (Option-cases (slab.get (c.utcb.mr 1) c.table)) [
    | inl e ↦ record { same_table = ground arith; same_fds = λ g. ground arith }
    | inr (entry, e) ↦ record {
      same_table = ground arith;
      same_fds = λ g. ground (arith, kernel.gettime_keeps entry.fd c.os g);
    }
  ]

  signalfd_new-CtxMove :
      SlabLaws slab
      → (mask : List ℕ) (c : Signalfds slab sys)
      → CtxMove slab sys kernel (λ e. e.fd) c (signalfd_new slab sys mask c)
  unfolding signalfd_new
  signalfd_new-CtxMove laws mask c =
      creates-CtxMove slab sys kernel (λ e. e.fd) laws c _ _ _
        (kernel.signalfd_opens mask (c.utcb.mr 3) (as_i32 (c.utcb.mr 2)) c.os)

  signalfd_update-Keeps :
      (fd : ℤ) (mask : List ℕ) (c : Signalfds slab sys)
      → kernel.is_open c.os fd ≡ true
      → Keeps slab sys kernel c (signalfd_update slab sys fd mask c)
  unfolding signalfd_update
  signalfd_update-Keeps fd mask c live = record {
    same_table = ground arith;
    same_fds = λ g.
        ground
          (arith, kernel.signalfd_keeps fd mask (c.utcb.mr 3) (as_i32 (c.utcb.mr 2)) c.os g live);
  }

  -- The one handler that needs the ledger: it passes an existing descriptor to `signalfd4`.
  pub signalfd_create-CtxMove :
      SlabLaws slab
      → (c : Signalfds slab sys)
      → ((k : ℕ) (entry : Signalfd)
          → slab.get k c.table ≡ some entry
          → kernel.is_open c.os entry.fd ≡ true)
      → CtxMove slab sys kernel (λ e. e.fd) c (handle_signalfd_create slab sys c)
  unfolding handle_signalfd_create
  signalfd_create-CtxMove laws c live =
      elim (Option-cases (read_sigset slab sys (c.utcb.mr 3) c.utcb)) [
        | inl n ↦ rw (n, handle_signalfd_create) (keep (λ j. refl) (λ g. refl))
        | inr (mask, m) ↦ elim (Bool-cases (is_neg (as_i64 (c.utcb.mr 1)))) [
          | inl t ↦ rw (m, handle_signalfd_create) (rw t (signalfd_new-CtxMove laws mask c))
          | inr t ↦ elim (Option-cases (slab.get (to_ℕ (as_i64 (c.utcb.mr 1))) c.table)) [
            | inl e ↦ rw (m, handle_signalfd_create) (rw t (rw e (keep (λ j. refl) (λ g. refl))))
            | inr (entry, e) ↦
                rw (m, handle_signalfd_create)
                  (rw t (
                    rw e (
                      Keeps-CtxMove slab sys kernel (λ e. e.fd)
                        (signalfd_update-Keeps entry.fd mask c (live _ entry e)))))
          ]
        ]
      ]

  pub inotify_add_watch-Keeps :
      (c : Inotifies slab sys) → Keeps slab sys kernel c (handle_inotify_add_watch slab sys c)
  inotify_add_watch-Keeps c = elim (add_watch_refused slab sys c) [
    | inl e ↦ rw e (record { same_table = refl; same_fds = λ g. refl })
    | inr (_, e) ↦ rw e (record { same_table = refl; same_fds = λ g. refl })
  ]

  pub inotify_rm_watch-CtxMove :
      SlabLaws slab
      → (c : Inotifies slab sys)
      → CtxMove slab sys kernel (λ e. e.fd) c (handle_inotify_rm_watch slab sys c)
  unfolding handle_inotify_rm_watch
  inotify_rm_watch-CtxMove laws c =
      let wd = as_i32 (c.utcb.mr 2) in
      let handle = c.utcb.mr 1 in
      elim (Option-cases (slab.get handle c.table)) [
        | inl e ↦ rw (e, handle_inotify_rm_watch) (keep (λ j. refl) (λ g. refl))
        | inr (entry, e) ↦
            let kept = record entry { watches = remove_key wd entry.watches } in
            keep
              (λ j.
                ground (arith, e, ==_iff handle j, get-set slab laws handle j kept entry c.table e))
              (λ g. ground (arith, e, kernel.rm_watch_keeps entry.fd wd c.os g))
      ]
