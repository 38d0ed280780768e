-- ===== src/AioServer/Libc.antt =====
-- What src/aio_server/src/main.rs calls in libc, and the entries of its table. `World` is all that
-- these calls read and change; a control block is its bytes, which libc's layout gives a meaning.
use l4rerust.Base.{ℕ, ◌≤◌, ◌≡◌, List, length}
use l4rerust.Base.Int.{ℤ, to_ℕ}
use l4rerust.Ipc.{Errno}

pub record Sys : Type 1 where
  pub World : Type 0
  pub errno : Errno
  pub br_words : ℕ
  pub aiocb_size : ℕ
  pub aio_fildes : List ℕ → ℤ
  pub aio_nbytes : List ℕ → ℕ
  pub aio_offset : List ℕ → ℤ
  pub o_dsync : ℤ
  pub aio_alldone : ℤ
  pub errno_location : World → ℤ
  pub pread : ℤ → List ℕ → ℤ → World → ℤ × List ℕ × World
  pub pwrite : ℤ → List ℕ → ℤ → World → ℤ × World
  pub fdatasync : ℤ → World → ℤ × World
  pub fsync : ℤ → World → ℤ × World

-- `pread` returns no more than the buffer holds and does not change its size.
pub record PreadLaws (sys : Sys) : Type 0 where
  pub pread_fits :
      (fd : ℤ) (buf : List ℕ) (offset : ℤ) (w : sys.World)
      → to_ℕ (sys.pread fd buf offset w).0 ≤ length buf
  pub length-pread :
      (fd : ℤ) (buf : List ℕ) (offset : ℤ) (w : sys.World)
      → length (sys.pread fd buf offset w).1 ≡ length buf

pub data OperationKind : Type 0 where
  read write fsync : OperationKind

pub record Operation : Type 0 where
  pub kind : OperationKind
  pub fd : ℤ
  pub result : ℤ
  pub error : ℤ
  pub buffer : List ℕ
