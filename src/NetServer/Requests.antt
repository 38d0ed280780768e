-- ===== src/NetServer/Requests.antt =====
-- The requests of src/net_server/src/main.rs on a network stack.
use l4rerust.Base.{
  ℕ, ◌-◌, ◌^◌, Bool, Option, none, some, List, [], ◌∷◌, length, ◌==◌, if◌then◌else◌,
}
use l4rerust.Ipc.{Utcb, Ctx, set_mr}
use l4rerust.Ipc.Loop.{Wake, ipc_error, message}
use l4rerust.NetServer.{NetDevice, VirtioNet, consume_sent, consume_received}

-- What `poll` of smoltcp does with the device, up to its end: it takes tokens and gives them frames to
-- send, or a continuation for the frame that is received.
pub data Polling (S : Type 0) : Type 0 where
  finished : S → Polling S
  receives : (List ℕ → Polling S) → Polling S
  sends : List ℕ → Polling S → Polling S

-- What the server calls of smoltcp, on the interface with its two sockets: `poll`, `send_slice` of no bytes to the fixed endpoint and `recv` of the UDP socket, `is_open`,
-- `connect` to the fixed endpoint, `send_slice` of no bytes and `recv_slice` of the TCP socket. The
-- results that are thrown away are left out; `none` is an error.
pub record Stack : Type 1 where
  pub State : Type 0
  pub poll : State → Polling State
  pub udp_send : State → State
  pub udp_recv : State → Option (List ℕ) × State
  pub tcp_is_open : State → Bool
  pub tcp_connect : State → State
  pub tcp_send : State → State
  pub tcp_recv : ℕ → State → Option (List ℕ) × State

-- `map` of the length and `unwrap_or(0)`
abbrev pub length_or_zero : Option (List ℕ) → ℕ
length_or_zero none = 0
length_or_zero (some bytes) = length bytes

module _ (dev : NetDevice) (stack : Stack) where
  abbrev pub Net : Type 0
  Net = Ctx (VirtioNet dev) stack.State

  abbrev pub answer : ℕ → stack.State → Net → Net
  answer n s c = record c { utcb = set_mr 0 n c.utcb; os = s }

  abbrev pub received : Option (List ℕ) × stack.State → Net → Net
  received (bytes, s) c = answer (length_or_zero bytes) s c

  -- Operation 2
  abbrev pub connected : stack.State → stack.State
  connected s = if stack.tcp_is_open s then s else stack.tcp_connect s

  -- The `match` on message register 0
  unfoldable pub handle_operation : Net → Net
  handle_operation c =
      if c.utcb.mr 0 == 0
      then answer 0 (stack.udp_send c.os) c
      else if c.utcb.mr 0 == 1
      then received (stack.udp_recv c.os) c
      else if c.utcb.mr 0 == 2
      then answer 0 (connected c.os) c
      else if c.utcb.mr 0 == 3
      then answer 0 (stack.tcp_send c.os) c
      else if c.utcb.mr 0 == 4
      then received (stack.tcp_recv 512 c.os) c
      else answer (2 ^ 64 - 1) c.os c

  -- `none` is the panic of a received frame.
  unfoldable pub drive : Polling stack.State → VirtioNet dev → Option (VirtioNet dev × stack.State)
  drive (finished s) net = some (net, s)
  drive (receives next) net = elim (consume_received dev net).0 [
    | none ↦ none
    | some frame ↦ drive (next frame) (consume_received dev net).1
  ]
  drive (sends frame rest) net = drive rest (consume_sent dev frame net)

  abbrev pub polled : Net → VirtioNet dev × stack.State → Net
  polled c (net, s) = record c { table = net; os = s }

  unfoldable pub handle_request : Net → Option Net
  handle_request c = elim (drive (stack.poll c.os) c.table) [
    | none ↦ none
    | some after ↦ some (handle_operation (polled c after))
  ]

  -- The replies and the state at the end; a panic ends the server.
  abbrev pub Run : Type 0
  Run = Option (List Utcb × Net)

  abbrev pub reply_first : Utcb → Run → Run
  reply_first u none = none
  reply_first u (some (replies, c)) = some (u ∷ replies, c)

  abbrev pub then_run : (Net → Run) → Option Net → Run
  then_run rest none = none
  then_run rest (some c) = reply_first c.utcb (rest c)

  -- The loop, over what each wait returns
  unfoldable pub run : List Wake → Net → Run
  run [] c = some ([], c)
  run (ipc_error ∷ wakes) c = run wakes c
  run (message u ∷ wakes) c = then_run (λ c'. run wakes c') (handle_request (record c { utcb = u }))
