-- ===== src/FsServer/Disk/Sectors.antt =====
-- `read_sector` and `write_sector` of src/fs_server/src/virtio.rs on a device that meets its contract.
use l4rerust.Base.{ℕ, ◌<◌, ◌≡◌, true, false, Option, some, List, arith, length, ◌==◌, if◌then◌else◌}
use l4rerust.Virtio.Chain.{IsQueue}
use l4rerust.FsServer.Blk.{Device, Driver, submit, transfer, read_sector, write_sector}
use l4rerust.FsServer.Contract.{Contract, submit-offered, submit-IsQueue}

module _ (dev : Device) (k : Contract dev) (s : ℕ) (buf : List ℕ) (d : Driver dev) where
  -- What a transfer that succeeds leaves.
  pub record Transfers (after : ℕ → List ℕ) (answer : List ℕ) (r : Option (List ℕ) × Driver dev)
      : Type 0 where
    pub answers : r.0 ≡ some answer
    pub holds : (t : ℕ) → k.sectors r.1.world t ≡ after t
    pub queue : IsQueue r.1.queue

  module _ (valid : IsQueue d.queue) (inside : s < k.capacity) (size : length buf ≡ 512) where
    -- A sector is read: the answer is what it holds, and no sector changes.
    pub read_sector-Transfers :
        Transfers (λ t. k.sectors d.world t) (k.sectors d.world s) (read_sector dev s buf d)
    unfolding read_sector transfer
    read_sector-Transfers =
        let q = submit dev 512 true d.queue in
        let ready = (submit-offered dev 512 true d.queue valid).0 in
        record {
          answers = rw size (
              ground (
                arith,
                k.read_status q s buf d.world ready inside size,
                k.read_bytes q s buf d.world ready inside size,
              ));
          holds = λ t. rw size (k.read_keeps q s t buf d.world ready inside size);
          queue = rw size (submit-IsQueue dev 512 true d.queue valid);
        }

    -- A sector is written: it holds the buffer, and no other sector changes.
    pub write_sector-Transfers :
        Transfers
          (λ t. if s == t then buf else k.sectors d.world t)
          (dev.complete
            (submit dev 512 false d.queue)
            (record { req_type = 1; reserved = 0; sector = s })
            buf
            d.world).1
          (write_sector dev s buf d)
    unfolding write_sector transfer
    write_sector-Transfers =
        let q = submit dev 512 false d.queue in
        let ready = (submit-offered dev 512 false d.queue valid).0 in
        record {
          answers = rw size (ground (arith, k.write_status q s buf d.world ready inside size));
          holds = λ t. rw size (k.write_sectors q s t buf d.world ready inside size);
          queue = rw size (submit-IsQueue dev 512 false d.queue valid);
        }
