-- ===== src/Virtio/Chain.antt =====
-- The well-formed virtqueue, and what `publish` does to it.
use l4rerust.Base.{
  ℕ, ◌+◌, ◌-◌, ◌%◌, ◌^◌, ◌<◌, ◌≡◌, refl, Option, some, length, get_elem?, set, arith, length-set,
  get_elem?-set_self, ◌∙◌, ap,
}
use l4rerust.Virtio.{VirtqDesc, VirtQueue, set_desc, publish, queue_size, new_queue}

-- The queue has its eight descriptors and slots, and the counter is a `u16`.
pub record IsQueue (q : VirtQueue) : Type 0 where
  pub descs : length q.desc ≡ queue_size
  pub slots : length q.avail.ring ≡ queue_size
  pub counter : q.avail.idx < 2 ^ 16

-- The slot of the available ring before the counter, where the device finds the newest chain.
abbrev pub last_slot : VirtQueue → Option ℕ
last_slot q = get_elem? q.avail.ring ((q.avail.idx + 2 ^ 16 - 1) % 2 ^ 16 % queue_size)

pub new_queue-IsQueue : IsQueue new_queue
new_queue-IsQueue = record { descs = refl; slots = refl; counter = omega arith }

pub set_desc-IsQueue :
    (i : ℕ) (d : VirtqDesc) (q : VirtQueue) → IsQueue q → IsQueue (set_desc i d q)
set_desc-IsQueue i d q v = record {
  descs = length-set q.desc i d ∙ v.descs;
  slots = v.slots;
  counter = v.counter;
}

pub publish-IsQueue : (q : VirtQueue) → IsQueue q → IsQueue (publish q)
unfolding publish
publish-IsQueue q v = record {
  descs = v.descs;
  slots = length-set q.avail.ring (q.avail.idx % queue_size) 0 ∙ v.slots;
  counter = omega arith;
}

pub desc-publish : (q : VirtQueue) → (publish q).desc ≡ q.desc
unfolding publish
desc-publish q = refl

-- The device finds the published chain at descriptor 0, also where the counter wraps.
pub last_slot-publish : (q : VirtQueue) → IsQueue q → last_slot (publish q) ≡ some 0
unfolding publish
last_slot-publish q v =
    let slot : ((q.avail.idx + 1) % 2 ^ 16 + 2 ^ 16 - 1) % 2 ^ 16 % 8 ≡ q.avail.idx % 8 =
      omega (arith, v.counter) in
    ap (get_elem? (set q.avail.ring (q.avail.idx % 8) 0)) slot
    ∙ get_elem?-set_self q.avail.ring (q.avail.idx % 8) 0 (omega (arith, v.slots))
