-- ===== src/FsServer/Files.antt =====
-- The requests of src/fs_server/src/main.rs: paths, open files under handles, and the loop. The FAT
-- file system is the parameter `Fat`; text is its bytes.
pub mod Handles
mod Tests
use l4rerust.Base.{
  ℕ, ◌-◌, ◌*◌, ◌%◌, ◌^◌, Bool, true, false, ◌||◌, ◌&&◌, List, [], ◌∷◌, Option, none, some, length,
  take, replicate, min, ◌==◌, if◌then◌else◌,
}
use l4rerust.Base.Int.{ℤ, pos}
use l4rerust.Ipc.{Errno, Utcb, Ctx, set_mr, encode, br_read_bytes, br_write_bytes}
use l4rerust.Ipc.Slab.{Slab}
use l4rerust.Ipc.Loop.{Wake, serve}

-- `std::io::ErrorKind`, as far as the server tells the kinds apart.
pub data IoErrorKind : Type 0 where
  not_found : IoErrorKind
  any_other : IoErrorKind

pub data IoResult (A : Type 0) : Type 0 where
  ok : A → IoResult A
  err : IoErrorKind → IoResult A

-- What the server calls in fatfs and in the standard library. A call on a file gives the file back,
-- with its position moved; `drop` is what happens when a file is no longer used.
pub record Fat : Type 1 where
  pub World : Type 0
  pub File : Type 0
  pub errno : Errno
  pub br_words : ℕ
  pub from_utf8 : List ℕ → Bool
  pub count_entries : World → ℕ × World
  pub create_file : List ℕ → World → IoResult File × World
  pub open_file : List ℕ → World → IoResult File × World
  pub read : File → List ℕ → World → IoResult (ℕ × List ℕ) × File × World
  pub write : File → List ℕ → World → IoResult ℕ × File × World
  pub seek_end : File → World → IoResult ℕ × File × World
  pub drop : File → World → World

abbrev pub starts_with : List ℕ → List ℕ → Bool
starts_with [] p = true
starts_with (c ∷ cs) [] = false
starts_with (c ∷ cs) (d ∷ ds) = c == d && starts_with cs ds

-- "bin/", "etc/" and "usr/"
abbrev pub bin_dir : List ℕ
bin_dir = 98 ∷ 105 ∷ 110 ∷ 47 ∷ []

abbrev pub etc_dir : List ℕ
etc_dir = 101 ∷ 116 ∷ 99 ∷ 47 ∷ []

abbrev pub usr_dir : List ℕ
usr_dir = 117 ∷ 115 ∷ 114 ∷ 47 ∷ []

-- The test of `resolve_path` on what follows the slash.
unfoldable pub in_lsb_dir : List ℕ → Bool
in_lsb_dir rel = starts_with bin_dir rel || (starts_with etc_dir rel || starts_with usr_dir rel)

unfoldable pub resolve_path : List ℕ → Option (List ℕ)
resolve_path [] = none
resolve_path (c ∷ rel) = if c == 47 then (if in_lsb_dir rel then some rel else none) else none

module _ (slab : Slab) (fat : Fat) where
  abbrev pub Files : Type 0
  Files = Ctx (slab.Table fat.File) fat.World

  -- `BR_DATA_MAX`
  abbrev pub br_data_max : ℕ
  br_data_max = fat.br_words * 8 - 8

  abbrev pub io_to_errno : IoErrorKind → ℕ
  io_to_errno not_found = fat.errno.enoent
  io_to_errno any_other = fat.errno.eio

  -- `mr[0] = v`, which is all that most arms do to the UTCB
  abbrev pub answer : ℕ → Files → Files
  answer v c = record c { utcb = set_mr 0 v c.utcb }

  abbrev pub refuse : ℕ → Files → Files
  refuse e c = answer (encode (pos e)) c

  -- `br_read_path().and_then(|p| resolve_path(&p))`
  unfoldable pub requested_path : Utcb → Option (List ℕ)
  requested_path u =
      let bytes = br_read_bytes fat.br_words u in
      if fat.from_utf8 bytes then resolve_path bytes else none

  unfoldable pub list_root : Files → Files
  list_root c = let (count, w) = fat.count_entries c.os in answer count (record c { os = w })

  unfoldable pub open_path : Files → Files
  open_path c = elim (requested_path c.utcb) [
    | none ↦ refuse fat.errno.enoent c
    | some p ↦
        let (result, w) = fat.create_file p c.os in
        elim result [
          | ok f ↦
              let (fd, table) = slab.insert f c.table in
              answer fd (record c { table = table; os = w })
          | err e ↦ refuse (io_to_errno e) (record c { os = w })
        ]
  ]

  -- `read_buf` is empty between requests, so `resize` makes it zeroes.
  unfoldable pub read_file : Files → Files
  read_file c =
      let fd = c.utcb.mr 1 in
      let read_len = min (c.utcb.mr 2) br_data_max in
      elim (slab.get fd c.table) [
        | none ↦ refuse fat.errno.ebadf c
        | some file ↦
            let (result, file', w) = fat.read file (replicate read_len 0) c.os in
            let c' : Files = record c { table = slab.set fd file' c.table; os = w } in
            elim result [
              | ok answered ↦
                  let (n, buf) = answered in
                  answer n (record c' { utcb = br_write_bytes fat.br_words (take n buf) c.utcb })
              | err e ↦ refuse (io_to_errno e) c'
            ]
      ]

  unfoldable pub write_file : Files → Files
  write_file c =
      let fd = c.utcb.mr 1 in
      elim (slab.get fd c.table) [
        | none ↦ refuse fat.errno.ebadf c
        | some file ↦
            let (result, file', w) = fat.write file (br_read_bytes fat.br_words c.utcb) c.os in
            let c' : Files = record c { table = slab.set fd file' c.table; os = w } in
            elim result [ ok n ↦ answer n c' | err e ↦ refuse (io_to_errno e) c' ]
      ]

  unfoldable pub close_file : Files → Files
  close_file c =
      let fd = c.utcb.mr 1 in
      elim (slab.get fd c.table) [
        | some file ↦
            answer 0 (record c { table = slab.remove fd c.table; os = fat.drop file c.os })
        | none ↦ refuse fat.errno.ebadf c
      ]

  unfoldable pub stat_path : Files → Files
  stat_path c = elim (requested_path c.utcb) [
    | none ↦ refuse fat.errno.enoent c
    | some p ↦
        let (result, w) = fat.open_file p c.os in
        elim result [
          | ok f ↦
              let (end, f', w') = fat.seek_end f w in
              let c' : Files = record c { os = fat.drop f' w' } in
              elim end [
                | ok size ↦ record c' { utcb = set_mr 1 (size % 2 ^ 64) (set_mr 0 0 c.utcb) }
                | err e ↦ refuse fat.errno.eio c'
              ]
          | err e ↦ refuse (io_to_errno e) (record c { os = w })
        ]
  ]

  -- The arms of `match mr[0]`.
  unfoldable pub handle_request : Files → Files
  handle_request c =
      let op = c.utcb.mr 0 in
      if op == 0
      then list_root c
      else if op == 1
      then open_path c
      else if op == 2
      then read_file c
      else if op == 3
      then write_file c
      else if op == 4
      then close_file c
      else if op == 5
      then stat_path c
      else refuse fat.errno.enoent c

  unfoldable pub run : List Wake → Files → List Utcb × Files
  run wakes c = serve handle_request wakes c
