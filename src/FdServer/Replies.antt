-- ===== src/FdServer/Replies.antt =====
-- What the handlers of src/fd_server/src/main.rs leave in the UTCB.
use l4rerust.Base.{
  ℕ, ◌≤◌, ◌<◌, ◌≡◌, ◌≢◌, refl, ap, false, none, some, List, arith, min, length, take, replicate,
  length-take, take_all, ◌∙◌, length-replicate, ◌^◌,
}
use l4rerust.Base.Int.{ℤ, pos, is_neg, to_ℕ}
use l4rerust.Base.Word.{as_i32, as_u32, to_le_bytes}
use l4rerust.Ipc.{Ctx, Utcb, set_mr, reply, br_write_bytes, br_read_bytes, br_data_bytes, encode}
use l4rerust.Ipc.Slab.{Slab, SlabLaws, get-remove}
use l4rerust.Ipc.Buffer.{br_read_bytes-br_write_bytes, from_le_bytes-to_le_bytes}
use l4rerust.FdServer.Host.{Sys, Eventfd}
use l4rerust.FdServer.Kernel.{Kernel}
use l4rerust.FdServer.Handlers.{read_counter, read_records, close_entry, open_entry}
use l4rerust.FdServer.Counters.{
  Eventfds, handle_eventfd_create, handle_eventfd_read, handle_eventfd_write, handle_eventfd_close,
}

module _ (slab : Slab) (sys : Sys) where
  -- A client's message to the server as the last one left it.
  abbrev pub next : {T : Type 0} → Ctx T sys.World → Utcb → Ctx T sys.World
  next c u = record c { utcb = u }

  -- What `handle_eventfd_create` asks of the kernel.
  abbrev pub eventfd_call : Eventfds slab sys → ℤ × sys.World
  eventfd_call c = sys.eventfd (as_u32 (c.utcb.mr 1)) (as_i32 (c.utcb.mr 2)) c.os

  -- A successful create replies a handle that was free. A value written through that handle goes to
  -- the kernel's new descriptor, and if a read of the descriptor then returns the bytes written, a
  -- read through the handle replies the value.
  pub create-write-read :
      SlabLaws slab
      → (c : Eventfds slab sys) (u v : Utcb) (written read : sys.World)
      → is_neg (eventfd_call c).0 ≡ false
      → u.mr 1 ≡ (handle_eventfd_create slab sys c).utcb.mr 0
      → v.mr 1 ≡ (handle_eventfd_create slab sys c).utcb.mr 0
      → u.mr 2 < 2 ^ 64
      → sys.write (eventfd_call c).0 (to_le_bytes 8 (u.mr 2)) (eventfd_call c).1 ≡ (pos 8, written)
      → sys.read (eventfd_call c).0 (replicate 8 0) written ≡ (pos 8, to_le_bytes 8 (u.mr 2), read)
      → let d = handle_eventfd_create slab sys c in
        let e = handle_eventfd_write slab sys (next d u) in
        let r = handle_eventfd_read slab sys (next e v) in
        (slab.get (d.utcb.mr 0) c.table ≡ none)
        × (e.utcb.mr 0 ≡ 0)
        × (r.utcb.mr 0 ≡ 0)
        × (r.utcb.mr 1 ≡ u.mr 2)
        × (r.os ≡ read)
  unfolding handle_eventfd_create handle_eventfd_read handle_eventfd_write read_counter open_entry
  create-write-read laws c u v written read valid hu hv small wrote got =
      let entry : Eventfd = record { fd = (eventfd_call c).0 } in
      ground (
        arith,
        laws.insert_vacant entry c.table,
        laws.get-insert_self entry c.table,
        from_le_bytes-to_le_bytes 8 (u.mr 2) small,
      )

  -- Closing a live handle replies 0, closes its descriptor and no other, and frees the handle and no
  -- other. If the next request is a read, a write or a close through it, it replies EBADF and
  -- reaches neither the kernel nor the table.
  pub close-stale :
      SlabLaws slab
      → (c : Eventfds slab sys) (entry : Eventfd) (u : Utcb)
      → slab.get (c.utcb.mr 1) c.table ≡ some entry
      → u.mr 1 ≡ c.utcb.mr 1
      → let d = handle_eventfd_close slab sys c in
        let refused = reply (encode (pos sys.errno.ebadf)) (next d u) in
        (d.utcb.mr 0 ≡ 0)
        × (d.os ≡ sys.close entry.fd c.os)
        × ((k : ℕ) → k ≢ c.utcb.mr 1 → slab.get k d.table ≡ slab.get k c.table)
        × (handle_eventfd_read slab sys (next d u) ≡ refused)
        × (handle_eventfd_write slab sys (next d u) ≡ refused)
        × (handle_eventfd_close slab sys (next d u) ≡ refused)
  unfolding handle_eventfd_close close_entry handle_eventfd_read handle_eventfd_write read_counter
  close-stale laws c entry u live same = (
    ground arith,
    ground arith,
    λ k other. ground (arith, get-remove slab laws (c.utcb.mr 1) k c.table),
    ground (arith, get-remove slab laws (c.utcb.mr 1) (u.mr 1) c.table),
    ground (arith, get-remove slab laws (c.utcb.mr 1) (u.mr 1) c.table),
    ground (arith, get-remove slab laws (c.utcb.mr 1) (u.mr 1) c.table),
  )

  module _ {A : Type 0} (fd : A → ℤ) (c : Ctx (slab.Table A) sys.World) where
    -- The size of the buffer that `read_records` offers the kernel.
    abbrev pub room : ℕ
    room = min (c.utcb.mr 2) (br_data_bytes sys.br_words)

    read_records_ok :
        (entry : A) (res : ℤ) (buf : List ℕ) (os : sys.World)
        → slab.get (c.utcb.mr 1) c.table ≡ some entry
        → 0 < room
        → sys.read (fd entry) (replicate room 0) c.os ≡ (res, buf, os)
        → is_neg res ≡ false
        → read_records slab sys fd c ≡ record c {
          utcb = set_mr 0 (to_ℕ res) (br_write_bytes sys.br_words (take (to_ℕ res) buf) c.utcb);
          os = os;
        }
    unfolding read_records
    read_records_ok entry res buf os live space call valid = ground arith

    -- A successful read of records replies the number of bytes that the kernel returned, at most what
    -- the client asked for and what the buffer registers hold, puts exactly those bytes there, and
    -- leaves the table alone.
    read_records_lem :
        Kernel sys
        → (entry : A) (res : ℤ) (buf : List ℕ) (os : sys.World)
        → slab.get (c.utcb.mr 1) c.table ≡ some entry
        → 0 < room
        → sys.read (fd entry) (replicate room 0) c.os ≡ (res, buf, os)
        → is_neg res ≡ false
        → let d = read_records slab sys fd c in
          (d.utcb.mr 0 ≡ to_ℕ res)
          × (d.utcb.len ≡ to_ℕ res)
          × (d.utcb.len ≤ room)
          × (br_read_bytes sys.br_words d.utcb ≡ take (to_ℕ res) buf)
          × (d.table ≡ c.table)
          × (d.os ≡ os)
    unfolding br_read_bytes br_write_bytes
    read_records_lem kernel entry res buf os live space call valid =
        let fits : to_ℕ res ≤ room = omega (
          arith,
          ap (λ (r : ℤ × List ℕ × sys.World). to_ℕ r.0) call,
          kernel.read_fits (fd entry) (replicate room 0) c.os,
          length-replicate {A = ℕ} room 0,
        ) in
        let size : length buf ≡ room = omega (
          arith,
          ap (λ (r : ℤ × List ℕ × sys.World). length r.1) call,
          kernel.length-read (fd entry) (replicate room 0) c.os,
          length-replicate {A = ℕ} room 0,
        ) in
        let taken : length (take (to_ℕ res) buf) ≡ to_ℕ res =
          omega (arith, length-take (to_ℕ res) buf) in
        rw (read_records_ok entry res buf os live space call valid) (
          refl,
          omega arith,
          omega arith,
          br_read_bytes-br_write_bytes sys.br_words (take (to_ℕ res) buf) c.utcb
              ∙ take_all _ _ (omega arith),
          refl,
          refl,
        )
