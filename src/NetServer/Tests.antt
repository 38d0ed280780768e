-- ===== src/NetServer/Tests.antt =====
-- A device and a stack for src/net_server/src/main.rs.
use l4rerust.Base.{
  ℕ, ◌+◌, ◌==◌, if◌then◌else◌, none, some, List, [], ◌∷◌, length, take, drop, min, replicate,
}
use l4rerust.Ipc.Loop.{Wake, ipc_error, message}
use l4rerust.Virtio.{VirtQueue, VirtqUsed, new_queue}
use l4rerust.Virtio.Offered.{commented, offered}
use l4rerust.NetServer.{NetDevice}
use l4rerust.NetServer.Requests.{Stack, finished, receives, sends, Net}
use l4rerust.NetServer.Replies.{writable}

-- The bytes that a queue lets the device write
abbrev room : VirtQueue → ℕ
room q = elim (offered commented q) [ none ↦ 0 | some chain ↦ writable chain ]

-- A ring of used descriptors that count `n` bytes each.
abbrev counting : ℕ → VirtqUsed
counting n = record {
  flags = 0;
  idx = 0;
  ring = replicate 8 (record { id = 0; len = n });
  avail_event = 0;
}

-- A device that drops every frame, and receives frames of four bytes behind their header.
abbrev sink : NetDevice
sink = record {
  World = Unit;
  header_addr = 4096;
  frame_addr = 8192;
  transmitted = λ q frame w. (q, w);
  received =
      λ q buf w. (record q { used = counting (min 14 (room q)) }, 9 ∷ 8 ∷ 7 ∷ 6 ∷ drop 4 buf, w);
}

-- A stack that answers each frame with its first bytes, and counts.
abbrev echo : Stack
echo = record {
  State = ℕ;
  poll = λ n. receives (λ frame. sends (take 4 frame) (finished (n + length frame)));
  udp_send = λ n. n;
  udp_recv = λ n. (some (7 ∷ []), n);
  tcp_is_open = λ n. n == 0;
  tcp_connect = λ n. n + 1;
  tcp_send = λ n. n;
  tcp_recv = λ k n. (none, n);
}

abbrev operation : ℕ → Wake
operation n = message (record { mr = λ i. if i == 0 then n else 0; len = 0; payload = [] })

abbrev started : Net sink echo
started = record {
  table = record { queue = new_queue; world = tt };
  utcb = record { mr = λ i. 0; len = 0; payload = [] };
  os = 0;
}

abbrev twice : List Wake
twice = operation 2 ∷ ipc_error ∷ operation 2 ∷ operation 7 ∷ []
