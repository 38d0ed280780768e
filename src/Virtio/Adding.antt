-- ===== src/Virtio/Adding.antt =====
-- `VirtQueue::add` of src/virtio_frontend/src/queue.rs.
use l4rerust.Base.{
  ℕ, zero, suc, ◌+◌, ◌%◌, ◌≤◌, ◌<◌, ◌≡◌, refl, ap, ◌∙◌, sym, List, [], ◌∷◌, length, none, some,
  get_elem?, length-set, get_elem?-set_self, get_elem?-set_ne, Bool-cases, ◌⊎◌, inl, inr, subst,
  ltb, arith,
}
use l4rerust.Virtio.{VirtqDesc, VirtQueue, queue_size, set_desc, set_descs, publish, add}
use l4rerust.Virtio.Chain.{
  IsQueue, set_desc-IsQueue, publish-IsQueue, desc-publish, last_slot, last_slot-publish,
}

set_descs-IsQueue :
    (i : ℕ) (ds : List VirtqDesc) (q : VirtQueue) → IsQueue q → IsQueue (set_descs i ds q)
set_descs-IsQueue i [] q v = v
set_descs-IsQueue i (d ∷ ds) q v =
    set_descs-IsQueue (suc i) ds (set_desc i d q) (set_desc-IsQueue i d q v)

-- The rings stay as they are.
pub avail-set_descs :
    (i : ℕ) (ds : List VirtqDesc) (q : VirtQueue) → (set_descs i ds q).avail ≡ q.avail
avail-set_descs i [] q = refl
avail-set_descs i (d ∷ ds) q = avail-set_descs (suc i) ds (set_desc i d q)

-- Below the first index the table keeps its descriptors.
set_descs_below :
    (i j : ℕ) (ds : List VirtqDesc) (q : VirtQueue)
    → j < i
    → get_elem? (set_descs i ds q).desc j ≡ get_elem? q.desc j
set_descs_below i j [] q h = refl
set_descs_below i j (d ∷ ds) q h =
    set_descs_below (suc i) j ds (set_desc i d q) (omega arith)
    ∙ get_elem?-set_ne q.desc {i = i} {j = j} d (omega arith)

set_descs_at :
    (i j : ℕ) (ds : List VirtqDesc) (q : VirtQueue)
    → i + length ds ≤ length q.desc
    → j < length ds
    → get_elem? (set_descs i ds q).desc (i + j) ≡ get_elem? ds j
set_descs_at i j [] q fits h = absurd (omega arith)
set_descs_at i zero (d ∷ ds) q fits h =
    ap (get_elem? (set_descs (suc i) ds (set_desc i d q)).desc) {y = i} (omega arith)
    ∙ set_descs_below (suc i) i ds (set_desc i d q) (omega arith)
    ∙ get_elem?-set_self q.desc i d (omega arith)
set_descs_at i (suc j) (d ∷ ds) q fits h =
    ap (get_elem? (set_descs (suc i) ds (set_desc i d q)).desc) {y = suc i + j} (omega arith)
    ∙ set_descs_at (suc i) j ds (set_desc i d q) (omega (arith, length-set q.desc i d))
        (omega arith)

-- A chain that fits the table is added: the queue stays well-formed, the table begins with the chain,
-- the slot that is returned is one of the ring, and the last slot of the available ring names
-- descriptor 0. A longer chain is refused and changes nothing.
pub add_lem :
    (chain : List VirtqDesc) (q : VirtQueue)
    → IsQueue q
    → ((queue_size < length chain) × (add chain q ≡ (none, q)))
      ⊎ ((length chain ≤ queue_size)
          × (add chain q ≡ (some (q.avail.idx % queue_size), (add chain q).1))
          × IsQueue (add chain q).1
          × ((j : ℕ) → j < length chain → get_elem? (add chain q).1.desc j ≡ get_elem? chain j)
          × (last_slot (add chain q).1 ≡ some 0))
unfolding add
add_lem chain q v = elim (Bool-cases (ltb queue_size (length chain))) [
  | inl long ↦ inl (ground arith, rw (long, add) refl)
  | inr fits ↦
      let ready = set_descs-IsQueue 0 chain q v in
      let q' = set_descs 0 chain q in
      let added : add chain q ≡ (some (q.avail.idx % queue_size), publish q') =
        rw (fits, add) refl in
      inr (
        ground arith,
        added ∙ ap (λ r. (some (q.avail.idx % queue_size), r.1)) (sym added),
        subst (λ r. IsQueue r.1) (sym added) (publish-IsQueue q' ready),
        λ j h.
            ap (λ r. get_elem? r.1.desc j) added
            ∙ ap (λ ds. get_elem? ds j) (desc-publish q')
            ∙ ap (get_elem? q'.desc) {y = 0 + j} (omega arith)
            ∙ set_descs_at 0 j chain q (ground (arith, v.descs)) h,
        ap (λ r. last_slot r.1) added ∙ last_slot-publish q' ready,
      )
]
