-- ===== src/Virtio.antt =====
-- The virtqueue of src/virtio_frontend/src/queue.rs, which src/fs_server/src/virtio.rs and
-- src/net_server/src/virtio.rs declare word for word: a descriptor table and two rings of eight.
pub mod Chain
pub mod Offered
pub mod Adding
pub mod Transport
mod Tests
use l4rerust.Base.{
  ℕ, suc, ◌+◌, ◌%◌, ◌^◌, List, [], ◌∷◌, replicate, set, length, ltb, Option, none, some,
  if◌then◌else◌,
}

abbrev pub queue_size : ℕ
queue_size = 8

pub record VirtqDesc : Type 0 where
  pub addr : ℕ
  pub len : ℕ
  pub flags : ℕ
  pub next : ℕ

pub record VirtqAvail : Type 0 where
  pub flags : ℕ
  pub idx : ℕ
  pub ring : List ℕ
  pub used_event : ℕ

pub record VirtqUsedElem : Type 0 where
  pub id : ℕ
  pub len : ℕ

pub record VirtqUsed : Type 0 where
  pub flags : ℕ
  pub idx : ℕ
  pub ring : List VirtqUsedElem
  pub avail_event : ℕ

pub record VirtQueue : Type 0 where
  pub desc : List VirtqDesc
  pub avail : VirtqAvail
  pub used : VirtqUsed

abbrev pub empty_desc : VirtqDesc
empty_desc = record { addr = 0; len = 0; flags = 0; next = 0 }

-- `VirtQueue::new`
abbrev pub new_queue : VirtQueue
new_queue = record {
  desc = replicate queue_size empty_desc;
  avail = record { flags = 0; idx = 0; ring = replicate queue_size 0; used_event = 0 };
  used = record {
    flags = 0;
    idx = 0;
    ring = replicate queue_size (record { id = 0; len = 0 });
    avail_event = 0;
  };
}

-- `self.desc[i] = d`
abbrev pub set_desc : ℕ → VirtqDesc → VirtQueue → VirtQueue
set_desc i d q = record q { desc = set q.desc i d }

-- The last lines of every submission: the chain that starts at descriptor 0 goes into the slot of
-- the available ring at `idx % QUEUE_SIZE`, and `idx` is incremented with `wrapping_add`.
unfoldable pub publish : VirtQueue → VirtQueue
publish q = record q {
  avail = record a { ring = set a.ring (a.idx % queue_size) 0; idx = (a.idx + 1) % 2 ^ 16 };
}
  where
    open q use {avail as a}

-- The loop of `add`, from index `i` on.
abbrev pub set_descs : ℕ → List VirtqDesc → VirtQueue → VirtQueue
set_descs i [] q = q
set_descs i (d ∷ ds) q = set_descs (suc i) ds (set_desc i d q)

-- The slot of the available ring, or `none` for `Err(())`.
unfoldable pub add : List VirtqDesc → VirtQueue → Option ℕ × VirtQueue
add chain q =
    if ltb queue_size (length chain)
    then (none, q)
    else (some (q.avail.idx % queue_size), publish (set_descs 0 chain q))
