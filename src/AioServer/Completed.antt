-- ===== src/AioServer/Completed.antt =====
-- The operations in the table of src/aio_server/src/main.rs are done: what each of them holds.
use l4rerust.Base.{
  ℕ, ◌+◌, ◌-◌, ◌≤◌, ◌≡◌, refl, List, length, replicate, length-replicate, length-take, take, subst,
  some, Option-cases, false, Bool-cases, both, inl, inr, ◌==◌, min, arith,
}
use l4rerust.Base.Int.{ℤ, pos, is_neg, to_ℕ}
use l4rerust.Base.{drop, ltb, ◌^◌}
use l4rerust.Base.Word.{as_i32}
use l4rerust.Ipc.{br_data_bytes}
use l4rerust.Ipc.Slab.{Slab, SlabLaws, get-insert, get-remove}
use l4rerust.Ipc.Loop.{Wake, serve_keeps}
use l4rerust.AioServer.Libc.{Sys, PreadLaws, Operation, OperationKind, read, write, fsync}
use l4rerust.AioServer.{
  Outcome, ok, err, read_aiocb, perform_read, perform_write, perform_fsync, Ops, copy_aiocb,
  submitted, without_buffer, handle_aio_read, handle_aio_write, handle_aio_fsync, handle_aio_error,
  handle_aio_return, handle_aio_cancel, handle_aio_suspend, handle_lio_listio, handle_request, run,
}

module _ (slab : Slab) (laws : SlabLaws slab) (sys : Sys) (pread : PreadLaws sys) where
  -- An operation that has succeeded; a read holds as many bytes as its result says, and they fit the
  -- buffer registers.
  pub record Completed (op : Operation) : Type 0 where
    pub no_error : op.error ≡ pos 0
    pub succeeded : is_neg op.result ≡ false
    pub buffered : op.kind ≡ read → length op.buffer ≡ to_ℕ op.result
    pub fits : length op.buffer ≤ br_data_bytes sys.br_words

  abbrev pub AllCompleted : slab.Table Operation → sys.World → Type 0
  AllCompleted t w = (k : ℕ) (op : Operation) → slab.get k t ≡ some op → Completed op

  -- What a request that submits must give.
  abbrev pub Fine : OperationKind → Outcome (List ℕ × ℤ) → Type 0
  Fine kind outcome =
      (bytes : List ℕ) (result : ℤ)
      → outcome ≡ ok (bytes, result)
      → Completed
          (record { kind = kind; fd = pos 0; result = result; error = pos 0; buffer = bytes })

  perform_read-Fine :
      (fd : ℤ) (len : ℕ) (offset : ℤ) (w : sys.World)
      → Fine read (perform_read sys fd len offset w).0
  unfolding perform_read
  perform_read-Fine fd len offset w bytes result e =
      let call = sys.pread fd (replicate len 0) offset w in
      let fits = pread.pread_fits fd (replicate len 0) offset w in
      let size = pread.length-pread fd (replicate len 0) offset w in
      let full = length-replicate {A = ℕ} len 0 in
      let taken = length-take (to_ℕ call.0) call.1 in
      record {
        no_error = refl;
        succeeded = ground arith;
        buffered = λ k. ground arith;
        fits = ground arith;
      }

  submitted-AllCompleted :
      (kind : OperationKind) (fd : ℤ) (outcome : Outcome (List ℕ × ℤ)) (c : Ops slab sys)
      → Fine kind outcome
      → AllCompleted c.table c.os
      → AllCompleted
          (submitted slab sys kind fd outcome c).table
          (submitted slab sys kind fd outcome c).os
  submitted-AllCompleted kind fd (err e) c fine all k op h = all k op h
  submitted-AllCompleted kind fd (ok (bytes, result)) c fine all k op e =
      let new : Operation = record {
        kind = kind;
        fd = fd;
        result = result;
        error = pos 0;
        buffer = bytes;
      } in
      let f = fine bytes result refl in
      elim (Bool-cases ((slab.insert new c.table).0 == k)) [
        | inl hit ↦
            let same : new ≡ op = ground (arith, get-insert slab laws k new c.table) in
            subst Completed same (record {
              no_error = refl;
              succeeded = f.succeeded;
              buffered = f.buffered;
              fits = f.fits;
            })
        | inr miss ↦ all k op (ground (arith, get-insert slab laws k new c.table))
      ]

  perform_write-Fine :
      (fd : ℤ) (payload : List ℕ) (offset : ℤ) (w : sys.World)
      → Fine write (without_buffer slab sys (perform_write sys fd payload offset w).0)
  unfolding perform_write
  perform_write-Fine fd payload offset w bytes result e = record {
    no_error = refl;
    succeeded = ground arith;
    buffered = λ k. ground arith;
    fits = ground arith;
  }

  perform_fsync-Fine :
      (fd op : ℤ) (w : sys.World)
      → Fine fsync (without_buffer slab sys (perform_fsync sys fd op w).0)
  unfolding perform_fsync
  perform_fsync-Fine fd op w bytes result e = record {
    no_error = refl;
    succeeded = ground arith;
    buffered = λ k. ground arith;
    fits = ground arith;
  }

  removed-AllCompleted :
      (k : ℕ) (t : slab.Table Operation) (w : sys.World)
      → AllCompleted t w
      → AllCompleted (slab.remove k t) w
  removed-AllCompleted k t w all j op e = all j op (ground (arith, get-remove slab laws k j t))

  module _ (c : Ops slab sys) (all : AllCompleted c.table c.os) where
    aio_read-AllCompleted :
        AllCompleted (handle_aio_read slab sys c).table (handle_aio_read slab sys c).os
    unfolding handle_aio_read
    aio_read-AllCompleted = elim (Option-cases (read_aiocb sys (c.utcb.mr 1) c.utcb)) [
      | inl e ↦ rw (e, handle_aio_read) all
      | inr (cb, e) ↦
          let call =
            perform_read sys (sys.aio_fildes cb) (sys.aio_nbytes cb) (sys.aio_offset cb) c.os in
          rw (e, handle_aio_read)
            (submitted-AllCompleted read (sys.aio_fildes cb) call.0 (record c { os = call.1 })
              (perform_read-Fine (sys.aio_fildes cb) (sys.aio_nbytes cb) (sys.aio_offset cb) c.os)
              all)
    ]

    aio_fsync-AllCompleted :
        AllCompleted (handle_aio_fsync slab sys c).table (handle_aio_fsync slab sys c).os
    unfolding handle_aio_fsync
    aio_fsync-AllCompleted = elim (Option-cases (read_aiocb sys (c.utcb.mr 1) c.utcb)) [
      | inl e ↦ rw (e, handle_aio_fsync) all
      | inr (cb, e) ↦
          let call = perform_fsync sys (sys.aio_fildes cb) (as_i32 (c.utcb.mr 3)) c.os in
          rw (e, handle_aio_fsync)
            (submitted-AllCompleted fsync (sys.aio_fildes cb) (without_buffer slab sys call.0)
              (record c { os = call.1 })
              (perform_fsync-Fine (sys.aio_fildes cb) (as_i32 (c.utcb.mr 3)) c.os) all)
    ]

    aio_write-AllCompleted :
        AllCompleted (handle_aio_write slab sys c).table (handle_aio_write slab sys c).os
    unfolding handle_aio_write
    aio_write-AllCompleted =
        let total = min c.utcb.len (br_data_bytes sys.br_words) in
        elim (Bool-cases (ltb total (min (c.utcb.mr 1 + c.utcb.mr 2) (2 ^ 64 - 1)))) [
          | inl short ↦ rw short all
          | inr room ↦
              let cb = copy_aiocb sys (c.utcb.mr 1) c.utcb in
              let payload = take (c.utcb.mr 2) (drop (c.utcb.mr 1) c.utcb.payload) in
              let call = perform_write sys (sys.aio_fildes cb) payload (sys.aio_offset cb) c.os in
              rw room (
                submitted-AllCompleted write (sys.aio_fildes cb) (without_buffer slab sys call.0)
                  (record c { os = call.1 })
                  (perform_write-Fine (sys.aio_fildes cb) payload (sys.aio_offset cb) c.os) all)
        ]

    aio_return-AllCompleted :
        AllCompleted (handle_aio_return slab sys c).table (handle_aio_return slab sys c).os
    unfolding handle_aio_return
    aio_return-AllCompleted = elim (Option-cases (slab.get (c.utcb.mr 1) c.table)) [
      | inl e ↦ rw (e, handle_aio_return) all
      | inr (op, e) ↦
          rw (e, handle_aio_return) (removed-AllCompleted (c.utcb.mr 1) c.table c.os all)
    ]

    aio_cancel-AllCompleted :
        AllCompleted (handle_aio_cancel slab sys c).table (handle_aio_cancel slab sys c).os
    unfolding handle_aio_cancel
    aio_cancel-AllCompleted = elim (Option-cases (slab.get (c.utcb.mr 1) c.table)) [
      | inl e ↦ rw (e, handle_aio_cancel) all
      | inr (op, e) ↦
          rw (e, handle_aio_cancel) (removed-AllCompleted (c.utcb.mr 1) c.table c.os all)
    ]

    handle_request-AllCompleted :
        AllCompleted (handle_request slab sys c).table (handle_request slab sys c).os
    unfolding handle_request handle_aio_error handle_aio_suspend handle_lio_listio
    handle_request-AllCompleted =
        let keeps : Ops slab sys → Type 0 = λ c'. AllCompleted c'.table c'.os in
        let op = c.utcb.mr 0 in
        let error_keeps : keeps (handle_aio_error slab sys c) =
          elim (Option-cases (slab.get (c.utcb.mr 1) c.table)) [
            | inl e ↦ rw (e, handle_aio_error) all
            | inr (op, e) ↦ rw (e, handle_aio_error) all
          ] in
        both keeps (op == 0) _ _ aio_read-AllCompleted (
          both keeps (op == 1) _ _ aio_write-AllCompleted (
            both keeps (op == 2) _ _ error_keeps (
              both keeps (op == 3) _ _ aio_return-AllCompleted (
                both keeps (op == 4) _ _ aio_cancel-AllCompleted (
                  both keeps (op == 5) _ _ all (
                    both keeps (op == 6) _ _ aio_fsync-AllCompleted
                      (both keeps (op == 7) _ _ all all)))))))

  -- Over any messages and IPC errors, from a table whose operations are all completed: every
  -- operation in the table has succeeded and holds no error, a read holds as many bytes as its result
  -- says, and they fit the buffer registers.
  pub run-AllCompleted :
      (wakes : List Wake) (c : Ops slab sys)
      → AllCompleted c.table c.os
      → AllCompleted (run slab sys wakes c).1.table (run slab sys wakes c).1.os
  unfolding run
  run-AllCompleted = serve_keeps (handle_request slab sys) AllCompleted handle_request-AllCompleted
