-- ===== src/FsServer/Disk/Reading.antt =====
-- `VirtioDisk::read` of src/fs_server/src/virtio.rs reads the bytes of the disk in order.
use l4rerust.Base.{
  ℕ, ◌+◌, ◌-◌, ◌*◌, ◌%◌, ◌^◌, ◌≤◌, ◌<◌, ◌≡◌, List, ◌++◌, length, take, drop, length-append,
  length-take, length-drop, min, arith,
}
use l4rerust.Virtio.Chain.{IsQueue}
use l4rerust.FsServer.Blk.{Device}
use l4rerust.FsServer.Contract.{Contract}
use l4rerust.FsServer.Disk.{VirtioDisk, copy_at}

-- Copying over the middle of a buffer keeps its size, and puts the bytes behind the first `i`.
pub length-copy_at :
    (i : ℕ) (bs buf : List ℕ) → i + length bs ≤ length buf → length (copy_at i bs buf) ≡ length buf
length-copy_at i bs buf h = omega (
  arith,
  length-append (take i buf) (bs ++ drop (i + length bs) buf),
  length-append bs (drop (i + length bs) buf),
  length-take i buf,
  length-drop (i + length bs) buf,
)

module _ (dev : Device) (k : Contract dev) where
  -- The driver's queue is well-formed, sectors have 512 bytes, and the next `n` bytes are on the disk.
  pub record CanMove (n : ℕ) (d : VirtioDisk dev) : Type 0 where
    pub queue : IsQueue d.driver.queue
    pub size : d.sector_size ≡ 512
    pub inside : d.pos + n ≤ 512 * k.capacity
    pub fits : d.pos + n < 2 ^ 64

  -- What a read of `n` bytes leaves: the position behind them, and the sectors as they were.
  pub record Moved (n : ℕ) (d d' : VirtioDisk dev) : Type 0 where
    pub position : d'.pos ≡ d.pos + n
    pub same : (s : ℕ) → k.sectors d'.driver.world s ≡ k.sectors d.driver.world s
    pub queue : IsQueue d'.driver.queue
    pub size : d'.sector_size ≡ 512

  -- The number of bytes that a round copies.
  abbrev pub round_count : ℕ → VirtioDisk dev → ℕ
  round_count left d = min (d.sector_size - d.pos % d.sector_size) left
