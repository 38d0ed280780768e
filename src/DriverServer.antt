-- ===== src/DriverServer.antt =====
-- The requests of src/driver_server/src/main.rs, which serves the transport of
-- src/virtio_frontend/src/transport.rs. `none` is a panic, which ends the server.
pub mod Config
mod Tests
use l4rerust.Base.{ℕ, ◌-◌, ◌^◌, Option, none, some, List, [], ◌∷◌, take, ◌==◌, if◌then◌else◌}
use l4rerust.Base.Word.{from_le_bytes, to_le_bytes}
use l4rerust.Ipc.{Utcb, set_mr}
use l4rerust.Ipc.Loop.{Wake, ipc_error, message}
use l4rerust.Virtio.Transport.{VirtioTransport, new, negotiate_features, read_config, write_config}

-- `VirtioTransport::new(0, 8)`
abbrev pub initial : VirtioTransport
initial = new 0 8

-- The registers of the reply and the transport.
abbrev pub Handled : Type 0
Handled = Option (Utcb × VirtioTransport)

abbrev pub config_written : Utcb → Option VirtioTransport → Handled
config_written u none = none
config_written u (some t) = some (set_mr 0 0 u, t)

abbrev pub config_read : Utcb → VirtioTransport → Option (List ℕ) → Handled
config_read u t none = none
config_read u t (some bytes) = some (set_mr 0 (from_le_bytes bytes) u, t)

abbrev pub negotiated : Utcb → ℕ × VirtioTransport → Handled
negotiated u (features, t) = some (set_mr 0 features u, t)

-- The `match` on message register 0
unfoldable pub handle_request : Utcb → VirtioTransport → Handled
handle_request u t =
    if u.mr 0 == 0
    then some (set_mr 0 t.device_features u, t)
    else if u.mr 0 == 1
    then negotiated u (negotiate_features (u.mr 1) t)
    else if u.mr 0 == 2
    then config_written u (write_config (u.mr 1) (take 4 (to_le_bytes 8 (u.mr 2))) t)
    else if u.mr 0 == 3
    then config_read u t (read_config (u.mr 1) 4 t)
    else some (set_mr 0 (2 ^ 64 - 1) u, t)

-- The loop, over what each wait returns; the replies are the registers at each reply.
abbrev pub Run : Type 0
Run = Option (List Utcb × VirtioTransport)

abbrev pub reply_first : Utcb → Run → Run
reply_first u none = none
reply_first u (some (replies, t)) = some (u ∷ replies, t)

abbrev pub then_serve : (VirtioTransport → Run) → Handled → Run
then_serve rest none = none
then_serve rest (some (u, t)) = reply_first u (rest t)

unfoldable pub serve : List Wake → VirtioTransport → Run
serve [] t = some ([], t)
serve (ipc_error ∷ wakes) t = serve wakes t
serve (message u ∷ wakes) t = then_serve (λ t'. serve wakes t') (handle_request u t)
