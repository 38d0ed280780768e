-- ===== src/Virtio/Offered.antt =====
-- The newest chain of descriptors of a queue, as a device reads it from the memory that
-- src/virtio_frontend/src/queue.rs lays out.
use l4rerust.Base.{
  ℕ, zero, suc, ◌≡◌, refl, ap, not, Bool, Option, none, some, List, [], ◌∷◌, get_elem?, bit_and,
  ◌==◌, if◌then◌else◌,
}
use mathlib.Core.Option.{map}
use l4rerust.Virtio.{VirtqDesc, VirtQueue, queue_size}
use l4rerust.Virtio.Chain.{last_slot}

-- The flags of a descriptor that say that another one follows, and that the device writes its bytes.
pub record Flags : Type 0 where
  pub follows : ℕ
  pub writes : ℕ

-- "next" and "device writes", as the comments of src/fs_server/src/virtio.rs number them
abbrev pub commented : Flags
commented = record { follows = 0x0002; writes = 0x0001 }

-- VIRTQ_DESC_F_NEXT and VIRTQ_DESC_F_WRITE of the virtio standard
abbrev pub standard : Flags
standard = record { follows = 0x0001; writes = 0x0002 }

-- A run of bytes in memory, which the device reads or writes.
pub record Segment : Type 0 where
  pub addr : ℕ
  pub len : ℕ
  pub device_writes : Bool

abbrev pub has : ℕ → ℕ → Bool
has flag flags = not (bit_and flags flag == 0)

-- The chain of at most `n` descriptors that starts at descriptor `i`; `none` if it is longer or leaves
-- the table.
unfoldable pub segments : Flags → ℕ → ℕ → List VirtqDesc → Option (List Segment)
segments f zero i ds = none
segments f (suc n) i ds = elim (get_elem? ds i) [
  | none ↦ none
  | some d ↦
      let first : Segment = record {
        addr = d.addr;
        len = d.len;
        device_writes = has f.writes d.flags;
      } in
      let rest = segments f n d.next ds in
      if has f.follows d.flags then map (λ others. first ∷ others) rest else some (first ∷ [])
]

-- The newest chain of a queue
unfoldable pub offered : Flags → VirtQueue → Option (List Segment)
offered f q = elim (last_slot q) [ none ↦ none | some head ↦ segments f queue_size head q.desc ]

pub segments_at :
    (f : Flags) (n i : ℕ) (ds : List VirtqDesc) (d : VirtqDesc)
    → get_elem? ds i ≡ some d
    → segments f (suc n) i ds ≡ (
        if has f.follows d.flags
        then map
            (λ others.
              record { addr = d.addr; len = d.len; device_writes = has f.writes d.flags } ∷ others)
            (segments f n d.next ds)
        else some
            (record { addr = d.addr; len = d.len; device_writes = has f.writes d.flags } ∷ []))
unfolding segments
segments_at f n i ds d e = rw (e, segments) refl

pub offered_at :
    (f : Flags) (q : VirtQueue)
    → last_slot q ≡ some 0
    → offered f q ≡ segments f queue_size 0 q.desc
unfolding offered
offered_at f q e =
    ap (λ o. elim o [ none ↦ none | some head ↦ segments f queue_size head q.desc ]) e
