-- ===== src/FsServer/Files/Tests.antt =====
-- Runs of src/fs_server/src/main.rs over a file system whose files hold nines.
use l4rerust.Base.{
  ℕ, ◌+◌, ◌-◌, ◌≡◌, refl, true, [], ◌∷◌, length, take, replicate, get_or, some, arith,
}
use l4rerust.Ipc.{Errno, Utcb, br_read_bytes}
use l4rerust.Ipc.Slab.{list_slab, list_slab_laws}
use l4rerust.FsServer.Files.{Fat, ok, Files, read_file}
use l4rerust.FsServer.Files.Handles.{read_file-bytes}

abbrev errno : Errno
errno = record { eio = 5; enoent = 2; ebadf = 9; einval = 22; enosys = 38; eoverflow = 75 }

-- A file is its position, and the world counts the files that are open.
abbrev nines : Fat
nines = record {
  World = ℕ;
  File = ℕ;
  errno = errno;
  br_words = 3;
  from_utf8 = λ bytes. true;
  count_entries = λ w. (w, w);
  create_file = λ p w. (ok 0, w + 1);
  open_file = λ p w. (ok 0, w + 1);
  read = λ f buf w. (ok (length buf, replicate (length buf) 9), f + length buf, w);
  write = λ f bytes w. (ok (length bytes), f + length bytes, w);
  seek_end = λ f w. (ok 100, 100, w);
  drop = λ f w. w - 1;
}

abbrev request : ℕ → ℕ → ℕ → Utcb
request op a b = record {
  mr = λ i. get_or (op ∷ a ∷ b ∷ []) i 0;
  len = 0;
  payload = replicate 16 0;
}

abbrev one_file : Files list_slab nines
one_file = record { table = some 0 ∷ []; utcb = request 2 0 4; os = 1 }

read_file-bytes_example :
    let d = read_file list_slab nines one_file in
    (d.utcb.mr 0 ≡ 4)
    × (br_read_bytes 3 d.utcb ≡ take 4 (replicate 4 9))
    × (d.table ≡ some 4 ∷ [])
    × (d.os ≡ 1)
read_file-bytes_example =
    read_file-bytes list_slab list_slab_laws nines one_file 0 4 4 (replicate 4 9) 1 refl refl
      (omega arith) refl
