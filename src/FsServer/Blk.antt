-- ===== src/FsServer/Blk.antt =====
-- `VirtioBlk` of src/fs_server/src/virtio.rs: a request is a chain of three descriptors, and the
-- device answers while the driver waits for its interrupt.
use l4rerust.Base.{
  ℕ, Bool, true, false, Option, none, some, List, length, ◌==◌, if◌then◌else◌, bit_or,
}
use l4rerust.Virtio.{VirtqDesc, VirtQueue, set_desc, publish}

pub record VirtioBlkReq : Type 0 where
  pub req_type : ℕ
  pub reserved : ℕ
  pub sector : ℕ

-- What the driver does not define: where its locals lie, and what the device has done when the two
-- IPC waits return. It reads the queue, the header and the buffer, and gives the status byte and the
-- buffer.
pub record Device : Type 1 where
  pub World : Type 0
  pub header_addr : ℕ
  pub buf_addr : ℕ
  pub status_addr : ℕ
  pub complete : VirtQueue → VirtioBlkReq → List ℕ → World → ℕ × List ℕ × World

module _ (dev : Device) where
  -- Descriptors 0, 1 and 2 of a request over `len` bytes.
  abbrev pub header_desc : VirtqDesc
  header_desc = record { addr = dev.header_addr; len = 16; flags = 0x0002; next = 1 }

  abbrev pub data_desc : ℕ → Bool → VirtqDesc
  data_desc len read = record {
    addr = dev.buf_addr;
    len = len;
    flags = if read then bit_or 0x0002 0x0001 else 0x0002;
    next = 2;
  }

  abbrev pub status_desc : VirtqDesc
  status_desc = record { addr = dev.status_addr; len = 1; flags = 0x0001; next = 0 }

  -- `self.queue` when the device is left to work.
  unfoldable pub submit : ℕ → Bool → VirtQueue → VirtQueue
  submit len read q =
      publish (set_desc 2 status_desc (set_desc 1 (data_desc len read) (set_desc 0 header_desc q)))

  pub record Driver : Type 0 where
    pub queue : VirtQueue
    pub world : dev.World

  -- The buffer after the transfer, or `none` for `Err(())`.
  unfoldable pub transfer : ℕ → List ℕ → Bool → Driver → Option (List ℕ) × Driver
  transfer sector buf read d =
      let q = submit (length buf) read d.queue in
      let header : VirtioBlkReq = record {
        req_type = if read then 0 else 1;
        reserved = 0;
        sector = sector;
      } in
      let (status, buf', world) = dev.complete q header buf d.world in
      (if status == 0 then some buf' else none, record { queue = q; world = world })

  unfoldable pub read_sector : ℕ → List ℕ → Driver → Option (List ℕ) × Driver
  read_sector sector buf d = transfer sector buf true d

  unfoldable pub write_sector : ℕ → List ℕ → Driver → Option (List ℕ) × Driver
  write_sector sector buf d = transfer sector buf false d
