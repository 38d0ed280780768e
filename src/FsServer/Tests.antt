-- ===== src/FsServer/Tests.antt =====
-- A disk in memory that meets the contract of FsServer/Contract.antt, and runs of the disk over it.
use l4rerust.Base.{
  ℕ, ◌≡◌, refl, sym, List, [], ◌∷◌, ◌++◌, length, take, replicate, length-append, length-replicate,
  length-take, take-append, ◌==◌, if◌then◌else◌, arith,
}
use l4rerust.Virtio.{new_queue}
use l4rerust.FsServer.Blk.{Device}
use l4rerust.FsServer.Contract.{Contract}
use l4rerust.FsServer.Disk.{VirtioDisk}

-- 512 bytes of a list, with zeroes behind its end.
abbrev padded : List ℕ → List ℕ
padded xs = take 512 (xs ++ replicate 512 0)

length-padded : (xs : List ℕ) → length (padded xs) ≡ 512
length-padded xs = omega (
  arith,
  length-take 512 (xs ++ replicate 512 0),
  length-append xs (replicate 512 0),
  length-replicate {A = ℕ} 512 0,
)

padded_full : (xs : List ℕ) → length xs ≡ 512 → padded xs ≡ xs
padded_full xs size = take-append xs (replicate 512 0) 512 (sym size)

-- The device of a disk that keeps its sectors in memory.
abbrev memory : Device
memory = record {
  World = ℕ → List ℕ;
  header_addr = 4096;
  buf_addr = 8192;
  status_addr = 12288;
  complete = λ q r buf w.
      if r.req_type == 0
      then (0, padded (w r.sector), w)
      else (0, buf, λ t. if r.sector == t then buf else w t);
}

abbrev memory_contract : Contract memory
memory_contract = record {
  capacity = 4;
  sectors = λ w s. padded (w s);
  length-sectors = λ w s. length-padded (w s);
  read_status = λ q s buf w ready inside size. refl;
  read_bytes = λ q s buf w ready inside size. refl;
  read_keeps = λ q s t buf w ready inside size. refl;
  write_status = λ q s buf w ready inside size. refl;
  write_sectors = λ q s t buf w ready inside size. ground (arith, padded_full buf size);
}

-- A disk of four sectors of sevens, at the last two bytes of its first sector.
abbrev disk : VirtioDisk memory
disk = record {
  driver = record { queue = new_queue; world = λ s. replicate 512 7 };
  pos = 510;
  sector_size = 512;
}

abbrev three : List ℕ
three = 1 ∷ 2 ∷ 3 ∷ []
