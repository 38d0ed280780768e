-- ===== src/Virtio/Transport/Config.antt =====
-- The configuration space and the features of src/virtio_frontend/src/transport.rs.
use l4rerust.Base.{
  ℕ, ◌+◌, ◌/◌, ◌%◌, ◌^◌, ◌≤◌, ◌<◌, min, ◌≡◌, refl, List, length, none, some, ◌⊎◌, inl, inr, leb,
  Bool-cases, arith,
}
use l4rerust.Base.Bits.{bit_and_bit}
use l4rerust.Base.Ranges.{
  write_at, length-write_at, read_at-write_at, read_at-write_at_before, read_at-write_at_behind,
}
use l4rerust.Virtio.Transport.{VirtioTransport, negotiate_features, read_config, write_config}

-- What a write of `bytes` at `offset` means to the reads that follow.
pub record Written (offset : ℕ) (bytes : List ℕ) (t t' : VirtioTransport) : Type 0 where
  pub read_back : read_config offset (length bytes) t' ≡ some bytes
  pub elsewhere :
      (o n : ℕ)
      → (o + n ≤ offset) ⊎ (offset + length bytes ≤ o)
      → read_config o n t' ≡ read_config o n t
  pub size : length t'.config ≡ length t.config
  pub same_queue : t'.queue ≡ t.queue
  pub same_device : t'.device_features ≡ t.device_features
  pub same_driver : t'.driver_features ≡ t.driver_features

write_at-Written :
    (offset : ℕ) (bytes : List ℕ) (t : VirtioTransport)
    → offset + length bytes ≤ length t.config
    → Written offset bytes t (record t { config = write_at t.config offset bytes })
unfolding read_config
write_at-Written offset bytes t fits =
    let size = length-write_at t.config bytes offset fits in
    let m = t.config in
    record {
      read_back = ground (arith, size, read_at-write_at m bytes offset fits);
      elsewhere = λ o n apart. elim apart [
        | inl before ↦ ground (arith, size, read_at-write_at_before m bytes offset o n fits before)
        | inr behind ↦ ground (arith, size, read_at-write_at_behind m bytes offset o n fits behind)
      ];
      size = size;
      same_queue = refl;
      same_device = refl;
      same_driver = refl;
    }

-- A write to the configuration space panics if it reaches beyond its end. Otherwise a read of the
-- range gives the bytes written, a read of any range apart from it what it gave before, its panics
-- included, and the size of the space, the queue and the features stay.
pub write_config_lem :
    (offset : ℕ) (bytes : List ℕ) (t : VirtioTransport)
    → ((length t.config < offset + length bytes) × (write_config offset bytes t ≡ none))
      ⊎ ((offset + length bytes ≤ length t.config)
          × (t' : VirtioTransport) × (write_config offset bytes t ≡ some t')
          × Written offset bytes t t')
unfolding write_config read_config
write_config_lem offset bytes t =
    elim (Bool-cases (leb (offset + length bytes) (length t.config))) [
      | inl fits ↦
          let t' : VirtioTransport = record t { config = write_at t.config offset bytes } in
          let le : offset + length bytes ≤ length t.config = ground arith in
          inr (le, t', rw (fits, write_config) refl, write_at-Written offset bytes t le)
      | inr long ↦ inl (ground arith, rw (long, write_config) refl)
    ]

-- The features that are agreed on and stored are those that both sides have, bit by bit.
pub negotiate_features_lem :
    (supported : ℕ) (t : VirtioTransport) (k : ℕ)
    → ((negotiate_features supported t).1.driver_features ≡ (negotiate_features supported t).0)
      × ((negotiate_features supported t).0 / 2 ^ k % 2
          ≡ min (t.device_features / 2 ^ k % 2) (supported / 2 ^ k % 2))
negotiate_features_lem supported t k = (refl, bit_and_bit k t.device_features supported)
