-- ===== src/FsServer/Disk.antt =====
-- `VirtioDisk` of src/fs_server/src/virtio.rs: byte-wise reading, writing and seeking over sectors.
pub mod Bytes
pub mod Sectors
pub mod Reading
pub mod Blocks
pub mod Round
pub mod Writing
pub mod RoundTrip
use l4rerust.Base.{
  ℕ, zero, suc, ◌+◌, ◌-◌, ◌/◌, ◌%◌, ◌^◌, ◌≡◌, Bool, true, false, ◌||◌, not, Option, none, some,
  List, ◌++◌, length, take, drop, replicate, min, ltb, ◌==◌, if◌then◌else◌,
}
use l4rerust.Base.Int.{ℤ, pos, is_neg, ◌+ℤ◌}
use l4rerust.Base.Word.{as_i64, as_u64}
use l4rerust.FsServer.Blk.{Device, Driver, read_sector, write_sector}

-- `std::io::ErrorKind`, as far as the disk returns it.
pub data ErrorKind : Type 0 where
  other unsupported invalid_input : ErrorKind

pub data Result (A : Type 0) : Type 0 where
  ok : A → Result A
  err : ErrorKind → Result A

pub data SeekFrom : Type 0 where
  from_start : ℕ → SeekFrom
  from_current : ℤ → SeekFrom
  from_end : ℤ → SeekFrom

-- `buf[i..i + bytes.len()].copy_from_slice(bytes)`
abbrev pub copy_at : ℕ → List ℕ → List ℕ → List ℕ
copy_at i bytes buf = take i buf ++ (bytes ++ drop (i + length bytes) buf)

-- `buf[i..i + n]`
abbrev pub slice : ℕ → ℕ → List ℕ → List ℕ
slice i n buf = take n (drop i buf)

module _ (dev : Device) where
  pub record VirtioDisk : Type 0 where
    pub driver : Driver dev
    pub pos : ℕ
    pub sector_size : ℕ

  -- `pos += count as u64`
  abbrev pub advance : ℕ → VirtioDisk → VirtioDisk
  advance count d = record d { pos = (d.pos + count) % 2 ^ 64 }

  -- The loop of `read` from `done` on. Each round copies at least one byte, so fuel for the bytes
  -- that are left is enough.
  unfoldable pub read_loop : ℕ → ℕ → List ℕ → VirtioDisk → Result (ℕ × List ℕ) × VirtioDisk
  read_loop zero done buf d = (ok (done, buf), d)
  read_loop (suc fuel) done buf d =
      let sector = d.pos / d.sector_size in
      let offset = d.pos % d.sector_size in
      let (answer, driver) = read_sector dev sector (replicate 512 0) d.driver in
      let count = min (d.sector_size - offset) (length buf - done) in
      if ltb done (length buf)
      then elim answer [
        | none ↦ (err other, record d { driver = driver })
        | some blk ↦
            read_loop fuel (done + count) (copy_at done (slice offset count blk) buf)
              (advance count (record d { driver = driver }))
      ]
      else (ok (done, buf), d)

  unfoldable pub read : List ℕ → VirtioDisk → Result (ℕ × List ℕ) × VirtioDisk
  read buf d = read_loop (length buf) 0 buf d

  -- The block that a round of `write` changes: what the sector holds if only a part of it is
  -- written, and zeroes otherwise.
  unfoldable pub block_before : ℕ → ℕ → VirtioDisk → Option (List ℕ) × VirtioDisk
  block_before offset left d =
      if not (offset == 0) || ltb left d.sector_size
      then (let (answer, driver) =
            read_sector dev (d.pos / d.sector_size) (replicate 512 0) d.driver in
          (answer, record d { driver = driver }))
      else (some (replicate 512 0), d)

  -- One round of the loop of `write`: the number of bytes written.
  unfoldable pub write_round : ℕ → List ℕ → VirtioDisk → Result ℕ × VirtioDisk
  write_round done buf d =
      let sector = d.pos / d.sector_size in
      let offset = d.pos % d.sector_size in
      let count = min (d.sector_size - offset) (length buf - done) in
      let (before, d₁) = block_before offset (length buf - done) d in
      elim before [
        | none ↦ (err other, d₁)
        | some blk ↦
            let (answer, driver) =
              write_sector dev sector (copy_at offset (slice done count buf) blk) d₁.driver in
            elim answer [
              | none ↦ (err other, record d₁ { driver = driver })
              | some _ ↦ (ok count, advance count (record d₁ { driver = driver }))
            ]
      ]

  unfoldable pub write_loop : ℕ → ℕ → List ℕ → VirtioDisk → Result ℕ × VirtioDisk
  write_loop zero done buf d = (ok done, d)
  write_loop (suc fuel) done buf d =
      let (round, d') = write_round done buf d in
      if ltb done (length buf)
      then elim round [ err e ↦ (err e, d') | ok count ↦ write_loop fuel (done + count) buf d' ]
      else (ok done, d)

  unfoldable pub write : List ℕ → VirtioDisk → Result ℕ × VirtioDisk
  write buf d = write_loop (length buf) 0 buf d

  -- The end of `seek`, from the test on.
  abbrev pub seek_to : ℤ → VirtioDisk → Result ℕ × VirtioDisk
  seek_to new d =
      if is_neg new
      then (err invalid_input, d)
      else (ok (as_u64 new), record d { pos = as_u64 new })

  unfoldable pub seek : SeekFrom → VirtioDisk → Result ℕ × VirtioDisk
  seek (from_start off) d = seek_to (as_i64 off) d
  seek (from_current off) d = seek_to (as_i64 d.pos +ℤ off) d
  seek (from_end off) d = (err unsupported, d)
