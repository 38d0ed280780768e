-- ===== src/FsServer/Disk/Round.antt =====
-- One round of `VirtioDisk::write` of src/fs_server/src/virtio.rs: the block that it changes, and what it
-- leaves of the disk.
use l4rerust.Base.{
  ℕ, ◌+◌, ◌-◌, ◌/◌, ◌%◌, ◌≤◌, ◌<◌, ◌≡◌, refl, ap, ap₂, ◌∙◌, sym, inl, inr, List, length, drop,
  replicate, length-replicate, length-take, length-drop, ltb, ◌==◌, not, ◌||◌, arith, Bool-cases,
  Option, none, some, if◌then◌else◌, false, Bool, get_or,
}
use l4rerust.Virtio.Chain.{IsQueue}
use l4rerust.FsServer.Blk.{Device, submit, read_sector, write_sector}
use l4rerust.FsServer.Contract.{Contract}
use l4rerust.FsServer.Disk.{
  Result, ok, err, other, VirtioDisk, copy_at, slice, advance, block_before, write_round,
}
use l4rerust.FsServer.Disk.Bytes.{byte}
use l4rerust.FsServer.Disk.Blocks.{in_range, get_or-slice, patched}
use l4rerust.FsServer.Disk.Sectors.{Transfers, read_sector-Transfers, write_sector-Transfers}
use l4rerust.FsServer.Disk.Reading.{CanMove, round_count, length-copy_at}

module _ (dev : Device) (k : Contract dev) where
  -- What `block_before` gives: a block of 512 bytes, which is the sector as it is unless the round
  -- writes all of it, and a disk at the same place with the same sectors.
  record Before (d : VirtioDisk dev) (count : ℕ) (blk : List ℕ) (d' : VirtioDisk dev) : Type 0 where
    size : length blk ≡ 512
    kept :
        (j : ℕ)
        → in_range (d.pos % 512) count j ≡ false
        → j < 512
        → get_or blk j 0 ≡ get_or (k.sectors d.driver.world (d.pos / 512)) j 0
    position : d'.pos ≡ d.pos
    sector_size : d'.sector_size ≡ d.sector_size
    same : (s : ℕ) → k.sectors d'.driver.world s ≡ k.sectors d.driver.world s
    queue : IsQueue d'.driver.queue

  block_before-Before :
      (left : ℕ) (d : VirtioDisk dev)
      → 0 < left
      → CanMove dev k left d
      → (blk : List ℕ) × (d' : VirtioDisk dev) × (block_before dev (d.pos % d.sector_size) left d
          ≡ (some blk, d'))
        × Before d (round_count dev k left d) blk d'
  unfolding block_before
  block_before-Before left d more can =
      let sector : d.pos / d.sector_size ≡ d.pos / 512 = ap (λ z. d.pos / z) can.size in
      let offset : d.pos % d.sector_size ≡ d.pos % 512 = ap (λ z. d.pos % z) can.size in
      elim (Bool-cases (not (d.pos % d.sector_size == 0) || ltb left d.sector_size)) [
        | inr whole ↦ (
          replicate 512 0,
          d,
          rw whole refl,
          record {
            size = length-replicate {A = ℕ} 512 0;
            kept = λ j out inside. absurd (ground arith);
            position = refl;
            sector_size = refl;
            same = λ s. refl;
            queue = can.queue;
          },
        )
        | inl part ↦
            let t =
              read_sector-Transfers dev k (d.pos / d.sector_size) (replicate 512 0) d.driver
                can.queue (omega arith) (length-replicate {A = ℕ} 512 0) in
            let answer = read_sector dev (d.pos / d.sector_size) (replicate 512 0) d.driver in
            (
              k.sectors d.driver.world (d.pos / d.sector_size),
              record d { driver = answer.1 },
              rw part (rw t.answers refl),
              record {
                size = k.length-sectors d.driver.world (d.pos / d.sector_size);
                kept = λ j out inside. ap (λ s. get_or (k.sectors d.driver.world s) j 0) sector;
                position = refl;
                sector_size = refl;
                same = t.holds;
                queue = t.queue;
              },
            )
      ]

  -- What a write of `n` bytes of `buf` from index `done` on leaves.
  pub record Written (done n : ℕ) (buf : List ℕ) (d d' : VirtioDisk dev) : Type 0 where
    pub position : d'.pos ≡ d.pos + n
    pub size : d'.sector_size ≡ 512
    pub queue : IsQueue d'.driver.queue
    pub holds :
        (q : ℕ)
        → byte dev k d'.driver.world q ≡ (
            if in_range d.pos n q
            then get_or buf (done + (q - d.pos)) 0
            else byte dev k d.driver.world q)

  -- The second half of a round, on the block and the disk that `block_before` gave.
  module _ (done : ℕ) (buf : List ℕ) (d d₁ : VirtioDisk dev) (blk : List ℕ)
      (more : done < length buf) (can : CanMove dev k (length buf - done) d)
      (got : block_before dev (d.pos % d.sector_size) (length buf - done) d ≡ (some blk, d₁))
      (b : Before d (round_count dev k (length buf - done) d) blk d₁) where
    abbrev count : ℕ
    count = round_count dev k (length buf - done) d

    abbrev new_block : List ℕ
    new_block = copy_at (d.pos % d.sector_size) (slice done count buf) blk

    abbrev disk_after : VirtioDisk dev
    disk_after =
        advance dev count
          (record d₁ { driver = (write_sector dev (d.pos / d.sector_size) new_block d₁.driver).1 })

    sector_of_pos : d.pos / d.sector_size ≡ d.pos / 512
    sector_of_pos = ap (λ z. d.pos / z) can.size

    offset_of_pos : d.pos % d.sector_size ≡ d.pos % 512
    offset_of_pos = ap (λ z. d.pos % z) can.size

    abbrev in_range_of : ℕ → ℕ → Bool
    in_range_of j n = in_range (d.pos % 512) n j

    length-part : length (slice done count buf) ≡ count
    length-part = omega (arith, length-take count (drop done buf), length-drop done buf)

    room : d.pos % 512 + length (slice done count buf) ≤ 512
    room = omega (arith, length-part, offset_of_pos, can.size)

    new_block-Transfers :
        Transfers dev k
          (d.pos / d.sector_size)
          new_block
          d₁.driver
          (λ t. if d.pos / d.sector_size == t then new_block else k.sectors d₁.driver.world t)
          (dev.complete
            (submit dev 512 false d₁.driver.queue)
            (record { req_type = 1; reserved = 0; sector = d.pos / d.sector_size })
            new_block
            d₁.driver.world).1
          (write_sector dev (d.pos / d.sector_size) new_block d₁.driver)
    new_block-Transfers =
        write_sector-Transfers dev k (d.pos / d.sector_size) new_block d₁.driver b.queue
          (omega (arith, sector_of_pos, can.inside))
          (length-copy_at (d.pos % d.sector_size) (slice done count buf) blk
              (omega (arith, b.size, room, offset_of_pos))
            ∙ b.size)

    changed_sectors :
        (s : ℕ)
        → k.sectors disk_after.driver.world s ≡ (
            if d.pos / 512 == s
            then copy_at (d.pos % 512) (slice done count buf) blk
            else k.sectors d.driver.world s)
    changed_sectors s =
        new_block-Transfers.holds s
        ∙ ap₂
            (λ p o.
              if p == s then copy_at o (slice done count buf) blk else k.sectors d₁.driver.world s)
            sector_of_pos offset_of_pos
        ∙ ap
            (λ xs.
              if d.pos / 512 == s then copy_at (d.pos % 512) (slice done count buf) blk else xs)
            (b.same s)

    round_bytes :
        (q : ℕ)
        → byte dev k disk_after.driver.world q ≡ (
            if in_range d.pos count q
            then get_or buf (done + (q - d.pos)) 0
            else byte dev k d.driver.world q)
    round_bytes q =
        patched (k.sectors d.driver.world) (k.sectors disk_after.driver.world) d.pos
          (slice done count buf) blk changed_sectors b.size room
          (λ j out inside. b.kept j (ap (in_range_of j) (sym length-part) ∙ out) inside) q
        ∙ ap
            (λ n.
              if in_range d.pos n q
              then get_or (slice done count buf) (q - d.pos) 0
              else byte dev k d.driver.world q)
            length-part
        ∙ elim (Bool-cases (in_range d.pos count q)) [
          | inl h ↦ rw h (get_or-slice done count buf (q - d.pos) (ground arith))
          | inr h ↦ rw h refl
        ]

    -- The rest of the round, from the block on.
    abbrev second_half : Option (List ℕ) × VirtioDisk dev → Result ℕ × VirtioDisk dev
    second_half r = elim r.0 [
      | none ↦ (err other, r.1)
      | some bytes ↦
          let (answer, driver) =
            write_sector dev (d.pos / d.sector_size)
              (copy_at (d.pos % d.sector_size) (slice done count buf) bytes) r.1.driver in
          elim answer [
            | none ↦ (err other, record r.1 { driver = driver })
            | some _ ↦ (ok count, advance dev count (record r.1 { driver = driver }))
          ]
    ]

    round_split :
        write_round dev done buf d
        ≡ second_half (block_before dev (d.pos % d.sector_size) (length buf - done) d)
    unfolding write_round
    round_split = refl

    round_ok : write_round dev done buf d ≡ (ok count, disk_after)
    round_ok = round_split ∙ ap second_half got ∙ rw (new_block-Transfers.answers, second_half) refl

    round-Written : Written done count buf d disk_after
    round-Written = record {
      position = omega (arith, b.position, can.fits);
      size = b.sector_size ∙ can.size;
      queue = new_block-Transfers.queue;
      holds = round_bytes;
    }

  -- One round writes as many bytes as fit the sector.
  pub write_round_lem :
      (done : ℕ) (buf : List ℕ) (d : VirtioDisk dev)
      → done < length buf
      → CanMove dev k (length buf - done) d
      → (d' : VirtioDisk dev) × (write_round dev done buf d
          ≡ (ok (round_count dev k (length buf - done) d), d'))
        × Written done (round_count dev k (length buf - done) d) buf d d'
  write_round_lem done buf d more can =
      let (blk, d₁, got, b) = block_before-Before (length buf - done) d (omega arith) can in
      (
        disk_after done buf d d₁ blk more can got b,
        round_ok done buf d d₁ blk more can got b,
        round-Written done buf d d₁ blk more can got b,
      )
