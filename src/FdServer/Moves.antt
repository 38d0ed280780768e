-- ===== src/FdServer/Moves.antt =====
-- Each handler of src/fd_server/src/main.rs as a step on the view of `FdServer.Ledger`.
use l4rerust.Base.{
  ◌≡◌, refl, ap, inl, inr, false, Option, none, some, arith, Bool-cases, Option-cases, min,
  if◌then◌else◌, ◌==◌, replicate,
}
use l4rerust.Base.Int.{ℤ, is_neg}
use l4rerust.Ipc.{Ctx, Utcb, br_data_bytes}
use l4rerust.Ipc.Slab.{Slab, SlabLaws, get-remove, get-insert}
use l4rerust.FdServer.Host.{Sys}
use l4rerust.FdServer.Kernel.{Kernel, Opens}
use l4rerust.FdServer.Ledger.{Move, keep, opens, closes}
use l4rerust.FdServer.Handlers.{read_counter, read_records, close_entry, open_entry}

abbrev pub fd_of : {A : Type 0} → (A → ℤ) → Option A → Option ℤ
fd_of fd none = none
fd_of fd (some e) = some (fd e)

module _ (slab : Slab) (sys : Sys) (kernel : Kernel sys) where
  -- Neither the table nor what is open changes.
  pub record Keeps {T : Type 0} (c d : Ctx T sys.World) : Type 0 where
    pub same_table : d.table ≡ c.table
    pub same_fds : (g : ℤ) → kernel.is_open d.os g ≡ kernel.is_open c.os g

  module _ {A : Type 0} (fd : A → ℤ) where
    abbrev pub CtxMove : Ctx (slab.Table A) sys.World → Ctx (slab.Table A) sys.World → Type 0
    CtxMove c d =
        Move ◌==◌ (λ k. fd_of fd (slab.get k c.table)) (λ k. fd_of fd (slab.get k d.table))
          (kernel.is_open c.os) (kernel.is_open d.os)

    pub Keeps-CtxMove : {c d : Ctx (slab.Table A) sys.World} → Keeps c d → CtxMove c d
    Keeps-CtxMove k = keep (λ j. ap (λ t. fd_of fd (slab.get j t)) k.same_table) k.same_fds

    pub read_counter-Keeps :
        (c : Ctx (slab.Table A) sys.World) → Keeps c (read_counter slab sys fd c)
    unfolding read_counter
    read_counter-Keeps c = elim (Option-cases (slab.get (c.utcb.mr 1) c.table)) [
      | inl e ↦ record { same_table = ground arith; same_fds = λ g. ground arith }
      | inr (entry, e) ↦ record {
        same_table = ground arith;
        same_fds = λ g. ground (arith, kernel.read_keeps (fd entry) (replicate 8 0) c.os g);
      }
    ]

    pub close_entry-CtxMove :
        SlabLaws slab → (c : Ctx (slab.Table A) sys.World) → CtxMove c (close_entry slab sys fd c)
    unfolding close_entry
    close_entry-CtxMove laws c = elim (Option-cases (slab.get (c.utcb.mr 1) c.table)) [
      | inl e ↦ keep (λ j. rw (e, close_entry) refl) (λ g. rw (e, close_entry) refl)
      | inr (entry, e) ↦
          closes (c.utcb.mr 1) (fd entry) (rw e refl)
            (λ j. ground (arith, get-remove slab laws (c.utcb.mr 1) j c.table))
            (λ g. rw (e, close_entry) (kernel.close_closes (fd entry) c.os g))
    ]

    pub read_records-Keeps :
        (c : Ctx (slab.Table A) sys.World) → Keeps c (read_records slab sys fd c)
    unfolding read_records
    read_records-Keeps c = elim (Option-cases (slab.get (c.utcb.mr 1) c.table)) [
      | inl e ↦ record { same_table = ground arith; same_fds = λ g. ground arith }
      | inr (entry, e) ↦ record {
        same_table = ground arith;
        same_fds = λ g. ground (
          arith,
          kernel.read_keeps (fd entry)
              (replicate (min (c.utcb.mr 2) (br_data_bytes sys.br_words)) 0) c.os g,
        );
      }
    ]

    -- A descriptor that the kernel has just opened gets a handle that was free.
    pub open_entry-CtxMove :
        SlabLaws slab
        → (c : Ctx (slab.Table A) sys.World) (u : Utcb) (os : sys.World) (entry : A)
        → is_neg (fd entry) ≡ false
        → Opens (kernel.is_open c.os) (kernel.is_open os) (fd entry)
        → CtxMove c (open_entry slab sys entry (record c { utcb = u; os = os }))
    unfolding open_entry
    open_entry-CtxMove laws c u os entry valid o =
        opens (slab.insert entry c.table).0 (fd entry)
          (ap (fd_of fd) (laws.insert_vacant entry c.table)) (o.unopened valid)
          (λ j. ground (arith, get-insert slab laws j entry c.table)) (o.opened valid)

    -- The shape of every handler that opens a descriptor: a reply `u` if the call fails, or an entry.
    pub creates-CtxMove :
        SlabLaws slab
        → (c : Ctx (slab.Table A) sys.World) (u : Utcb) (os : sys.World) (entry : A)
        → Opens (kernel.is_open c.os) (kernel.is_open os) (fd entry)
        → CtxMove c (
            if is_neg (fd entry)
            then record c { utcb = u; os = os }
            else open_entry slab sys entry (record c { os = os }))
    creates-CtxMove laws c u os entry o = elim (Bool-cases (is_neg (fd entry))) [
      | inl n ↦ rw n (keep (λ j. refl) (o.failed n))
      | inr p ↦ rw p (open_entry-CtxMove laws c c.utcb os entry p o)
    ]
