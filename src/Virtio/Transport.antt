-- ===== src/Virtio/Transport.antt =====
-- `VirtioTransport` of src/virtio_frontend/src/transport.rs, and `virtio_queue_add` of ffi.rs, which
-- makes a number of the outcome. An assertion that fails is `none`; so is the panic or the wrap-around
-- of `offset + data.len()`, after which the range of the slice is refused.
pub mod Config
pub mod Requests
use l4rerust.Base.{ℕ, ◌+◌, List, leb, replicate, length, Option, none, some, if◌then◌else◌, is_some}
use l4rerust.Base.Int.{ℤ, pos, negsuc}
use Prim.Native.Nat.{bit_and}
use l4rerust.Base.Ranges.{write_at, read_at}
use l4rerust.Virtio.{VirtqDesc, VirtQueue, new_queue, add}

pub record VirtioTransport : Type 0 where
  pub device_features : ℕ
  pub driver_features : ℕ
  pub config : List ℕ
  pub queue : VirtQueue

abbrev pub new : ℕ → ℕ → VirtioTransport
new device_features config_len = record {
  device_features = device_features;
  driver_features = 0;
  config = replicate config_len 0;
  queue = new_queue;
}

abbrev pub negotiate_features : ℕ → VirtioTransport → ℕ × VirtioTransport
negotiate_features driver_supported t =
    let negotiated = bit_and t.device_features driver_supported in
    (negotiated, record t { driver_features = negotiated })

-- `read_config` into a buffer of `len` bytes
unfoldable pub read_config : ℕ → ℕ → VirtioTransport → Option (List ℕ)
read_config offset len t =
    if leb (offset + len) (length t.config) then some (read_at t.config offset len) else none

unfoldable pub write_config : ℕ → List ℕ → VirtioTransport → Option VirtioTransport
write_config offset bytes t =
    if leb (offset + length bytes) (length t.config)
    then some (record t { config = write_at t.config offset bytes })
    else none

abbrev pub status : Option ℕ → ℤ
status (some slot) = pos 0
status none = negsuc 0

abbrev pub virtio_queue_add : List VirtqDesc → VirtioTransport → ℤ × VirtioTransport
virtio_queue_add descs t =
    let added : Option ℕ × VirtQueue = add descs t.queue in
    (status added.0, record t { queue = added.1 })
