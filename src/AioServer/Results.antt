-- ===== src/AioServer/Results.antt =====
-- What a client of src/aio_server/src/main.rs gets back: the result of an operation once, and the
-- bytes that the control block and the payload name.
use l4rerust.Base.{
  ℕ, ◌^◌, ◌≤◌, ◌<◌, ◌≡◌, refl, ap, ◌∙◌, List, length, length-replicate, replicate, length-take,
  take, none, some, arith,
}
use l4rerust.Base.{subst, take_all}
use l4rerust.Base.Int.{ℤ, pos, to_ℕ}
use l4rerust.Base.Word.{as_u64}
use l4rerust.Ipc.{Utcb, set_mr, br_data_bytes, br_read_bytes, br_write_bytes, encode}
use l4rerust.Ipc.Slab.{Slab, SlabLaws, get-insert, get-remove}
use l4rerust.Ipc.Buffer.{br_read_bytes-br_write_bytes}
use l4rerust.AioServer.Libc.{Sys, PreadLaws, Operation, read}
use l4rerust.AioServer.{
  Ops, read_aiocb, perform_read, return_result, handle_aio_read, handle_aio_return, ok, submitted,
}

module _ (slab : Slab) (laws : SlabLaws slab) (sys : Sys) where
  -- A read that libc completes with `n` bytes gives a handle that was free.
  module _ (c : Ops slab sys) (cb : List ℕ) (n : ℕ) (buf : List ℕ) (w : sys.World) where
    abbrev operation : Operation
    operation = record {
      kind = read;
      fd = sys.aio_fildes cb;
      result = pos n;
      error = pos 0;
      buffer = take n buf;
    }

    module _ (parsed : read_aiocb sys (c.utcb.mr 1) c.utcb ≡ some cb)
        (fits : sys.aio_nbytes cb ≤ br_data_bytes sys.br_words)
        (done : sys.pread
            (sys.aio_fildes cb)
            (replicate (sys.aio_nbytes cb) 0)
            (sys.aio_offset cb)
            c.os
          ≡ (pos n, buf, w)) where
      performed :
          perform_read sys (sys.aio_fildes cb) (sys.aio_nbytes cb) (sys.aio_offset cb) c.os
          ≡ (ok (take n buf, pos n), w)
      unfolding perform_read
      performed = ground (arith, done)

      pub aio_read_ok :
          handle_aio_read slab sys c
          ≡ submitted slab sys read
              (sys.aio_fildes cb)
              (ok (take n buf, pos n))
              (record c { os = w })
      unfolding handle_aio_read
      aio_read_ok =
          rw (parsed, handle_aio_read)
            (ap (λ r. submitted slab sys read (sys.aio_fildes cb) r.0 (record c { os = r.1 }))
              performed)

  -- Returning an operation that has no error takes it out of the table.
  module _ (c : Ops slab sys) (op : Operation)
      (held : slab.get (c.utcb.mr 1) c.table ≡ some op) where
    pub aio_return_ok : handle_aio_return slab sys c ≡ record c {
      table = slab.remove (c.utcb.mr 1) c.table;
      utcb = return_result slab sys op c.utcb;
    }
    unfolding handle_aio_return
    aio_return_ok = rw (held, handle_aio_return) refl

  pub aio_return_stale :
      (c : Ops slab sys)
      → slab.get (c.utcb.mr 1) c.table ≡ none
      → (handle_aio_return slab sys c).utcb.mr 0 ≡ encode (pos sys.errno.einval)
  unfolding handle_aio_return
  aio_return_stale c gone = rw (gone, handle_aio_return) refl

  module _ (fd : ℤ) (n : ℕ) (bytes : List ℕ) (u : Utcb) (small : n < 2 ^ 64)
      (size : length bytes ≡ n) where
    abbrev done_read : Operation
    done_read = record { kind = read; fd = fd; result = pos n; error = pos 0; buffer = bytes }

    returned_count : (return_result slab sys done_read u).mr 0 ≡ n
    unfolding return_result br_write_bytes
    returned_count = omega arith

    returned_length : (return_result slab sys done_read u).mr 1 ≡ n
    unfolding return_result br_write_bytes
    returned_length = size

    returned_bytes :
        n ≤ br_data_bytes sys.br_words
        → br_read_bytes sys.br_words (return_result slab sys done_read u) ≡ bytes
    unfolding return_result
    returned_bytes fits =
        br_read_bytes-br_write_bytes sys.br_words bytes
          (set_mr 1 (length bytes) (set_mr 0 (as_u64 (pos n)) u))
        ∙ ap (λ m. take m bytes) {y = length bytes} (omega (arith, size))
        ∙ take_all (length bytes) bytes (omega arith)

  -- A read of a control block that the client has sent, done by libc with `n` bytes, replies a handle
  -- that was free. Returning it replies `n` twice and exactly those bytes, leaves every other
  -- operation in the table, and a second return of it replies EINVAL; `n` is below 2 ^ 64.
  pub read-return :
      (c : Ops slab sys) (cb : List ℕ) (n : ℕ) (buf : List ℕ) (w : sys.World) (u v : Utcb)
      → PreadLaws sys
      → n < 2 ^ 64
      → read_aiocb sys (c.utcb.mr 1) c.utcb ≡ some cb
      → sys.aio_nbytes cb ≤ br_data_bytes sys.br_words
      → sys.pread (sys.aio_fildes cb) (replicate (sys.aio_nbytes cb) 0) (sys.aio_offset cb) c.os
        ≡ (pos n, buf, w)
      → u.mr 1 ≡ (handle_aio_read slab sys c).utcb.mr 0
      → v.mr 1 ≡ u.mr 1
      → let c₁ = handle_aio_read slab sys c in
        let c₂ = handle_aio_return slab sys (record c₁ { utcb = u }) in
        let c₃ = handle_aio_return slab sys (record c₂ { utcb = v }) in
        (slab.get (u.mr 1) c.table ≡ none)
        × (c₂.utcb.mr 0 ≡ n)
        × (c₂.utcb.mr 1 ≡ n)
        × (br_read_bytes sys.br_words c₂.utcb ≡ take n buf)
        × ((k : ℕ) → slab.get k c₂.table ≡ slab.get k c.table)
        × (c₃.utcb.mr 0 ≡ encode (pos sys.errno.einval))
  read-return c cb n buf w u v laws_of_pread small parsed fits done named again =
      let c₁ = handle_aio_read slab sys c in
      let op = operation c cb n buf w in
      let new = slab.insert op c.table in
      let submits = aio_read_ok c cb n buf w parsed fits done in
      let handle : u.mr 1 ≡ new.0 = named ∙ ap (λ x. x.utcb.mr 0) submits in
      let table : c₁.table ≡ new.1 = ap (λ x. x.table) submits in
      let held : slab.get (u.mr 1) c₁.table ≡ some op =
        ap (λ t. slab.get (u.mr 1) t) table
        ∙ ap (λ k. slab.get k new.1) handle
        ∙ laws.get-insert_self op c.table in
      let returns = aio_return_ok (record c₁ { utcb = u }) op held in
      let after : (k : ℕ)
          → slab.get k (handle_aio_return slab sys (record c₁ { utcb = u })).table
            ≡ slab.get k c.table =
        λ k.
          ap (λ x. slab.get k x.table) returns
          ∙ get-remove slab laws (u.mr 1) k c₁.table
          ∙ ground (
            arith,
            ap (λ t. slab.get k t) table,
            handle,
            get-insert slab laws k op c.table,
            laws.insert_vacant op c.table,
          ) in
      let free : slab.get (u.mr 1) c.table ≡ none =
        ap (λ k. slab.get k c.table) handle ∙ laws.insert_vacant op c.table in
      let c₂ = handle_aio_return slab sys (record c₁ { utcb = u }) in
      let len = sys.aio_nbytes cb in
      let room : n ≤ length (replicate {A = ℕ} len 0) =
        subst (λ r. to_ℕ r.0 ≤ length (replicate {A = ℕ} len 0)) done
          (laws_of_pread.pread_fits (sys.aio_fildes cb) (replicate len 0) (sys.aio_offset cb)
            c.os) in
      let size : length buf ≡ length (replicate {A = ℕ} len 0) =
        subst (λ r. length r.1 ≡ length (replicate {A = ℕ} len 0)) done
          (laws_of_pread.length-pread (sys.aio_fildes cb) (replicate len 0) (sys.aio_offset cb)
            c.os) in
      let count : length (take n buf) ≡ n = omega (arith, length-take n buf) in
      let fd = sys.aio_fildes cb in
      (
        free,
        ap (λ x. x.utcb.mr 0) returns ∙ returned_count fd n (take n buf) u small count,
        ap (λ x. x.utcb.mr 1) returns ∙ returned_length fd n (take n buf) u small count,
        ap (λ x. br_read_bytes sys.br_words x.utcb) returns
            ∙ returned_bytes fd n (take n buf) u small count
                (omega (arith, length-replicate {A = ℕ} len 0)),
        after,
        aio_return_stale (record (handle_aio_return slab sys (record c₁ { utcb = u })) { utcb = v })
            (ap (λ k. slab.get k c₂.table) again ∙ after (u.mr 1) ∙ free),
      )
