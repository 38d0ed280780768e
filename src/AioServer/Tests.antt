-- ===== src/AioServer/Tests.antt =====
-- Runs of src/aio_server/src/main.rs over a libc whose only file holds nines.
use l4rerust.Base.{
  ℕ, ◌+◌, ◌-◌, ◌≡◌, refl, List, [], ◌∷◌, ◌++◌, length, length-replicate, replicate, take, none,
  get_or, arith,
}
use l4rerust.Base.Int.{pos}
use l4rerust.Ipc.{Errno, Utcb, br_read_bytes, encode}
use l4rerust.Ipc.Slab.{list_slab, list_slab_laws}
use l4rerust.Ipc.Loop.{message, ipc_error}
use l4rerust.AioServer.Libc.{Sys, PreadLaws, Operation}
use l4rerust.AioServer.{Ops, read_aiocb, perform_read, handle_aio_read, handle_aio_return, run}
use l4rerust.AioServer.Completed.{AllCompleted, run-AllCompleted}
use l4rerust.AioServer.Results.{read-return}

abbrev errno : Errno
errno = record { eio = 5; enoent = 2; ebadf = 9; einval = 22; enosys = 38; eoverflow = 75 }

-- A control block of three bytes: the descriptor, the length and the offset.
abbrev libc : Sys
libc = record {
  World = ℕ;
  errno = errno;
  br_words = 3;
  aiocb_size = 3;
  aio_fildes = λ cb. pos (get_or cb 0 0);
  aio_nbytes = λ cb. get_or cb 1 0;
  aio_offset = λ cb. pos (get_or cb 2 0);
  o_dsync = pos 4096;
  aio_alldone = pos 2;
  errno_location = λ w. pos 5;
  pread = λ fd buf offset w. (pos (length buf), replicate (length buf) 9, w);
  pwrite = λ fd payload offset w. (pos (length payload), w + length payload);
  fdatasync = λ fd w. (pos 0, w);
  fsync = λ fd w. (pos 0, w);
}

libc-PreadLaws : PreadLaws libc
libc-PreadLaws = record {
  pread_fits = λ fd buf offset w. omega arith;
  length-pread = λ fd buf offset w. length-replicate (length buf) 9;
}

-- A request `op` with the arguments `a` and `b` and the buffer registers `payload`.
abbrev request : ℕ → ℕ → ℕ → List ℕ → Utcb
request op a b payload = record {
  mr = λ i. get_or (op ∷ a ∷ b ∷ []) i 0;
  len = length payload;
  payload = payload ++ replicate (16 - length payload) 0;
}

abbrev empty : Ops list_slab libc
empty = record { table = []; utcb = request 0 3 0 (7 ∷ 4 ∷ 0 ∷ []); os = 0 }

empty-AllCompleted : AllCompleted list_slab list_slab_laws libc libc-PreadLaws empty.table empty.os
empty-AllCompleted k op e = cc

run-AllCompleted_example :
    let wakes =
      message (request 0 3 0 (7 ∷ 4 ∷ 0 ∷ [])) ∷ ipc_error ∷ message (request 3 0 0 []) ∷ [] in
    AllCompleted list_slab list_slab_laws libc libc-PreadLaws
      (run list_slab libc wakes empty).1.table
      (run list_slab libc wakes empty).1.os
run-AllCompleted_example =
    run-AllCompleted list_slab list_slab_laws libc libc-PreadLaws
      (message (request 0 3 0 (7 ∷ 4 ∷ 0 ∷ [])) ∷ ipc_error ∷ message (request 3 0 0 []) ∷ []) empty
      empty-AllCompleted

read-return_example :
    let c₁ = handle_aio_read list_slab libc empty in
    let c₂ = handle_aio_return list_slab libc (record c₁ { utcb = request 3 0 0 [] }) in
    let c₃ = handle_aio_return list_slab libc (record c₂ { utcb = request 3 0 0 [] }) in
    (list_slab.get {A = Operation} 0 [] ≡ none)
    × (c₂.utcb.mr 0 ≡ 4)
    × (c₂.utcb.mr 1 ≡ 4)
    × (br_read_bytes libc.br_words c₂.utcb ≡ take 4 (9 ∷ 9 ∷ 9 ∷ 9 ∷ []))
    × ((k : ℕ) → list_slab.get k c₂.table ≡ list_slab.get {A = Operation} k [])
    × (c₃.utcb.mr 0 ≡ encode (pos errno.einval))
unfolding read_aiocb handle_aio_read perform_read
read-return_example =
    read-return list_slab list_slab_laws libc empty (7 ∷ 4 ∷ 0 ∷ []) 4 (9 ∷ 9 ∷ 9 ∷ 9 ∷ []) 0
      (request 3 0 0 []) (request 3 0 0 []) libc-PreadLaws (omega arith) refl (omega arith) refl
      refl refl

abbrev writing : Ops list_slab libc
writing = record { table = []; utcb = request 1 3 2 (7 ∷ 0 ∷ 0 ∷ 5 ∷ 6 ∷ []); os = 0 }
