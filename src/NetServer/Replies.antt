-- ===== src/NetServer/Replies.antt =====
-- The loop of src/net_server/src/main.rs, with the device behind it: no received frame ends it.
use l4rerust.Base.{ℕ, ◌+◌, ◌-◌, ◌^◌, ◌≤◌, ◌<◌, ◌≡◌, ◌⊎◌, Option, some, List, [], ◌∷◌, if◌then◌else◌}
use l4rerust.Ipc.{Utcb, set_mr}
use l4rerust.Ipc.Loop.{Wake, ipc_error, message}
use l4rerust.Virtio.{VirtQueue}
use l4rerust.Virtio.Offered.{commented, Segment, offered}
use l4rerust.NetServer.{NetDevice, used_len}
use l4rerust.NetServer.Requests.{Stack, Net}

-- What register 0 of a reply holds: 0 after the operations that have no result, all bits after one
-- that is not supported.
abbrev pub Reply : Utcb → ℕ → Type 0
Reply u x = ((u.mr 0 ≡ 0 ⊎ u.mr 0 ≡ 2 ⊎ u.mr 0 ≡ 3) → x ≡ 0) × (4 < u.mr 0 → x ≡ 2 ^ 64 - 1)

-- The replies to what is awaited: one for each message, in order, with its other registers.
pub data Answers : List Wake → List Utcb → Type 0 where
  all_answered : Answers [] []
  no_reply :
      {wakes : List Wake} {us : List Utcb} → Answers wakes us → Answers (ipc_error ∷ wakes) us
  one_reply :
      {wakes : List Wake} {us : List Utcb} {u : Utcb} (x : ℕ)
      → Reply u x
      → Answers wakes us
      → Answers (message u ∷ wakes) (set_mr 0 x u ∷ us)

-- The bytes that a chain lets the device write
abbrev pub writable : List Segment → ℕ
writable [] = 0
writable (s ∷ ss) = (if s.device_writes then s.len else 0) + writable ss

-- A device changes nothing of a queue but the ring of used descriptors, and in its newest entry there
-- counts at most the bytes that it was let write.
pub record NetLaws (dev : NetDevice) : Type 0 where
  pub transmitted_desc :
      (q : VirtQueue) (frame : List ℕ) (w : dev.World) → (dev.transmitted q frame w).0.desc ≡ q.desc
  pub transmitted_avail :
      (q : VirtQueue) (frame : List ℕ) (w : dev.World)
      → (dev.transmitted q frame w).0.avail ≡ q.avail
  pub received_desc :
      (q : VirtQueue) (buf : List ℕ) (w : dev.World) → (dev.received q buf w).0.desc ≡ q.desc
  pub received_avail :
      (q : VirtQueue) (buf : List ℕ) (w : dev.World) → (dev.received q buf w).0.avail ≡ q.avail
  pub counts :
      (q : VirtQueue) (buf : List ℕ) (w : dev.World) (chain : List Segment)
      → offered commented q ≡ some chain
      → used_len dev (dev.received q buf w).0 ≤ writable chain

module _ (dev : NetDevice) (stack : Stack) (laws : NetLaws dev) where
  -- What an operation leaves of a state
  abbrev Operated : Net dev stack → Net dev stack → Type 0
  Operated c c' = (x : ℕ) × (c'.utcb ≡ set_mr 0 x c.utcb) × Reply c.utcb x × (c'.table ≡ c.table)
