-- ===== src/FdServer/Handlers.antt =====
-- The handlers of src/fd_server/src/main.rs that several kinds of descriptor repeat word for word:
-- reading a counter, reading records into the buffer registers, and closing. `fd` is the field of
-- the entry that the handler passes on.
use l4rerust.Base.{ℕ, none, some, replicate, take, min, ◌==◌, if◌then◌else◌}
use l4rerust.Base.Int.{ℤ, pos, is_neg, equals, to_ℕ}
use l4rerust.Base.Word.{from_le_bytes}
use l4rerust.Ipc.{Ctx, set_mr, reply, encode, encode_errno, br_clear, br_data_bytes, br_write_bytes}
use l4rerust.Ipc.Slab.{Slab}
use l4rerust.FdServer.Host.{Sys}

module _ (slab : Slab) (sys : Sys) where
  -- `mr[0] = encode_errno(); br_clear(); return`
  abbrev pub fail : {T : Type 0} → Ctx T sys.World → Ctx T sys.World
  fail c = reply (encode_errno sys.errno (sys.last_os_error c.os)) c

  -- `mr[0] = (-(err as i64)) as u64; br_clear(); return` for a constant of libc
  abbrev pub refuse : {T : Type 0} → ℕ → Ctx T sys.World → Ctx T sys.World
  refuse err c = reply (encode (pos err)) c

  -- `handle_eventfd_read` and `handle_timerfd_read`: eight bytes go to `mr[1]`.
  unfoldable pub read_counter :
      {A : Type 0} → (A → ℤ) → Ctx (slab.Table A) sys.World → Ctx (slab.Table A) sys.World
  read_counter fd c = elim (slab.get (c.utcb.mr 1) c.table) [
    | none ↦ refuse sys.errno.ebadf c
    | some entry ↦
        let (res, value, os) = sys.read (fd entry) (replicate 8 0) c.os in
        if equals res 8
        then record c {
          utcb = br_clear (set_mr 1 (from_le_bytes value) (set_mr 0 0 c.utcb));
          os = os;
        }
        else fail (record c { os = os })
  ]

  -- `handle_signalfd_read` and `handle_inotify_read`: up to `mr[2]` bytes go to the buffer
  -- registers.
  unfoldable pub read_records :
      {A : Type 0} → (A → ℤ) → Ctx (slab.Table A) sys.World → Ctx (slab.Table A) sys.World
  read_records fd c =
      let max_bytes = min (c.utcb.mr 2) (br_data_bytes sys.br_words) in
      elim (slab.get (c.utcb.mr 1) c.table) [
        | none ↦ refuse sys.errno.ebadf c
        | some entry ↦
            if max_bytes == 0
            then refuse sys.errno.einval c
            else let (res, buf, os) = sys.read (fd entry) (replicate max_bytes 0) c.os in
              if is_neg res then fail (record c { os = os }) else record c {
                utcb =
                    set_mr 0 (to_ℕ res) (br_write_bytes sys.br_words (take (to_ℕ res) buf) c.utcb);
                os = os;
              }
      ]

  -- `handle_*_close`: `contains`, then `remove`, which drops the entry, and `Drop` closes its
  -- descriptor.
  unfoldable pub close_entry :
      {A : Type 0} → (A → ℤ) → Ctx (slab.Table A) sys.World → Ctx (slab.Table A) sys.World
  close_entry fd c =
      let handle = c.utcb.mr 1 in
      elim (slab.get handle c.table) [
        | some entry ↦
            reply 0
              (record c { table = slab.remove handle c.table; os = sys.close (fd entry) c.os })
        | none ↦ refuse sys.errno.ebadf c
      ]

  -- The end of a handler that opened `res`: a new entry, whose key is the reply.
  unfoldable pub open_entry :
      {A : Type 0} → A → Ctx (slab.Table A) sys.World → Ctx (slab.Table A) sys.World
  open_entry entry c =
      let (slot, table) = slab.insert entry c.table in reply slot (record c { table = table })
