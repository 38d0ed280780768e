-- ===== src/AioServer.antt =====
-- src/aio_server/src/main.rs, which serves the aio calls over IPC: an operation is done when it is
-- submitted, and its result is kept under a handle until `aio_return` or `aio_cancel` takes it.
pub mod Libc
pub mod Completed
pub mod Results
mod Tests
use l4rerust.Base.{
  ℕ, zero, suc, ◌+◌, ◌-◌, ◌^◌, List, [], ◌∷◌, ◌++◌, Option, none, some, length, take, drop,
  replicate, min, ltb, ◌==◌, ◌||◌, if◌then◌else◌, Bool,
}
use l4rerust.Base.Int.{ℤ, pos, is_neg, to_ℕ, eq_ℤ}
use l4rerust.Base.Word.{as_u64, as_i32}
use l4rerust.Ipc.{
  Utcb, Ctx, set_mr, br_clear, br_data_bytes, br_read_bytes, br_write_bytes, encode, reply,
}
use l4rerust.Ipc.Slab.{Slab}
use l4rerust.Ipc.Loop.{Wake, serve}
use Libc.{Sys, OperationKind, read, write, fsync, Operation}

-- `Result<A, c_int>`
pub data Outcome (A : Type 0) : Type 0 where
  ok : A → Outcome A
  err : ℤ → Outcome A

module _ (sys : Sys) where
  -- `min(expected, size_of::<aiocb>())` bytes over a zeroed control block.
  abbrev pub copy_aiocb : ℕ → Utcb → List ℕ
  copy_aiocb n u =
      let k = min n sys.aiocb_size in take k u.payload ++ replicate (sys.aiocb_size - k) 0

  -- `none` is `Err(())`.
  unfoldable pub read_aiocb : ℕ → Utcb → Option (List ℕ)
  read_aiocb expected u =
      if expected == 0 || ltb (br_data_bytes sys.br_words) expected
      then none
      else if ltb (min u.len (br_data_bytes sys.br_words)) expected
      then none
      else some (copy_aiocb expected u)

  unfoldable pub perform_read : ℤ → ℕ → ℤ → sys.World → Outcome (List ℕ × ℤ) × sys.World
  perform_read fd len offset w =
      if ltb (br_data_bytes sys.br_words) len
      then (err (pos sys.errno.eoverflow), w)
      else let (res, buf, w') = sys.pread fd (replicate len 0) offset w in
        (if is_neg res then err (sys.errno_location w') else ok (take (to_ℕ res) buf, res), w')

  unfoldable pub perform_write : ℤ → List ℕ → ℤ → sys.World → Outcome ℤ × sys.World
  perform_write fd payload offset w =
      let (res, w') = sys.pwrite fd payload offset w in
      (if is_neg res then err (sys.errno_location w') else ok res, w')

  unfoldable pub perform_fsync : ℤ → ℤ → sys.World → Outcome ℤ × sys.World
  perform_fsync fd op w =
      let (res, w') = if eq_ℤ op sys.o_dsync then sys.fdatasync fd w else sys.fsync fd w in
      (if is_neg res then err (sys.errno_location w') else ok (pos 0), w')

module _ (slab : Slab) (sys : Sys) where
  abbrev pub Ops : Type 0
  Ops = Ctx (slab.Table Operation) sys.World

  -- The arms `Ok` and `Err` of a request that submits: a new operation, whose handle is the reply,
  -- or the encoded error.
  abbrev pub submitted : OperationKind → ℤ → Outcome (List ℕ × ℤ) → Ops → Ops
  submitted kind fd outcome c = elim outcome [
    | ok (buffer, result) ↦
        let op : Operation = record {
          kind = kind;
          fd = fd;
          result = result;
          error = pos 0;
          buffer = buffer;
        } in
        let (slot, table) = slab.insert op c.table in reply slot (record c { table = table })
    | err e ↦ reply (encode e) c
  ]

  abbrev pub without_buffer : Outcome ℤ → Outcome (List ℕ × ℤ)
  without_buffer (ok result) = ok ([], result)
  without_buffer (err e) = err e

  unfoldable pub handle_aio_read : Ops → Ops
  handle_aio_read c = elim (read_aiocb sys (c.utcb.mr 1) c.utcb) [
    | none ↦ reply (encode (pos sys.errno.einval)) c
    | some cb ↦
        let (outcome, w) =
          perform_read sys (sys.aio_fildes cb) (sys.aio_nbytes cb) (sys.aio_offset cb) c.os in
        submitted read (sys.aio_fildes cb) outcome (record c { os = w })
  ]

  unfoldable pub handle_aio_write : Ops → Ops
  handle_aio_write c =
      let struct_len = c.utcb.mr 1 in
      let payload_len = c.utcb.mr 2 in
      let total = min c.utcb.len (br_data_bytes sys.br_words) in
      if ltb total (min (struct_len + payload_len) (2 ^ 64 - 1))
      then reply (encode (pos sys.errno.einval)) c
      else let cb = copy_aiocb sys struct_len c.utcb in
        let payload = take payload_len (drop struct_len c.utcb.payload) in
        let (outcome, w) = perform_write sys (sys.aio_fildes cb) payload (sys.aio_offset cb) c.os in
        submitted write (sys.aio_fildes cb) (without_buffer outcome) (record c { os = w })

  unfoldable pub handle_aio_fsync : Ops → Ops
  handle_aio_fsync c = elim (read_aiocb sys (c.utcb.mr 1) c.utcb) [
    | none ↦ reply (encode (pos sys.errno.einval)) c
    | some cb ↦
        let (outcome, w) = perform_fsync sys (sys.aio_fildes cb) (as_i32 (c.utcb.mr 3)) c.os in
        submitted fsync (sys.aio_fildes cb) (without_buffer outcome) (record c { os = w })
  ]

  unfoldable pub handle_aio_error : Ops → Ops
  handle_aio_error c = elim (slab.get (c.utcb.mr 1) c.table) [
    | some op ↦ reply (as_u64 op.error) c
    | none ↦ reply (encode (pos sys.errno.einval)) c
  ]

  -- What `handle_aio_return` replies for an operation that it has removed.
  unfoldable pub return_result : Operation → Utcb → Utcb
  return_result op u =
      if eq_ℤ op.error (pos 0)
      then elim op.kind [
        | read ↦
            br_write_bytes sys.br_words op.buffer
              (set_mr 1 (length op.buffer) (set_mr 0 (as_u64 op.result) u))
        | write ↦ br_clear (set_mr 1 0 (set_mr 0 (as_u64 op.result) u))
        | fsync ↦ br_clear (set_mr 1 0 (set_mr 0 (as_u64 op.result) u))
      ]
      else br_clear (set_mr 0 (encode op.error) u)

  unfoldable pub handle_aio_return : Ops → Ops
  handle_aio_return c =
      let handle = c.utcb.mr 1 in
      elim (slab.get handle c.table) [
        | some op ↦ record c { table = slab.remove handle c.table; utcb = return_result op c.utcb }
        | none ↦ reply (encode (pos sys.errno.einval)) c
      ]

  unfoldable pub handle_aio_cancel : Ops → Ops
  handle_aio_cancel c =
      let handle = c.utcb.mr 1 in
      elim (slab.get handle c.table) [
        | some op ↦ reply (as_u64 sys.aio_alldone) (record c { table = slab.remove handle c.table })
        | none ↦ reply (as_u64 sys.aio_alldone) c
      ]

  unfoldable pub handle_aio_suspend : Ops → Ops
  handle_aio_suspend c = reply 0 c

  unfoldable pub handle_lio_listio : Ops → Ops
  handle_lio_listio c = reply (encode (pos sys.errno.enosys)) c

  -- The constants of `mod opcode`, in their order.
  unfoldable pub handle_request : Ops → Ops
  handle_request c =
      let op = c.utcb.mr 0 in
      if op == 0
      then handle_aio_read c
      else if op == 1
      then handle_aio_write c
      else if op == 2
      then handle_aio_error c
      else if op == 3
      then handle_aio_return c
      else if op == 4
      then handle_aio_cancel c
      else if op == 5
      then handle_aio_suspend c
      else if op == 6
      then handle_aio_fsync c
      else if op == 7
      then handle_lio_listio c
      else reply (encode (pos sys.errno.enosys)) c

  unfoldable pub run : List Wake → Ops → List Utcb × Ops
  run wakes c = serve handle_request wakes c
