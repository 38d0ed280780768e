-- ===== src/NetServer.antt =====
-- `VirtioNet` of src/net_server/src/virtio.rs and the tokens of src/net_server/src/main.rs that give
-- its frames to the network stack.
pub mod Requests
pub mod Replies
mod Tests
use l4rerust.Base.{
  ℕ, ◌+◌, ◌-◌, ◌%◌, ◌^◌, ◌≡◌, refl, Option, none, some, List, length, take, replicate, ltb,
  get_elem?, if◌then◌else◌, arith,
}
use l4rerust.Virtio.{VirtQueue, set_desc, publish, queue_size}
use l4rerust.Virtio.Chain.{IsQueue, set_desc-IsQueue, publish-IsQueue, last_slot, last_slot-publish}

-- What the driver does not define: where its locals lie, and what the device has done when the two
-- IPC waits return, to the queue, the buffer and the rest of the world.
pub record NetDevice : Type 1 where
  pub World : Type 0
  pub header_addr : ℕ
  pub frame_addr : ℕ
  pub transmitted : VirtQueue → List ℕ → World → VirtQueue × World
  pub received : VirtQueue → List ℕ → World → VirtQueue × List ℕ × World

-- `size_of::<VirtioNetHdr>()`
abbrev pub net_hdr_size : ℕ
net_hdr_size = 10

-- `unwrap_or(0)`
abbrev pub or_zero : Option ℕ → ℕ
or_zero none = 0
or_zero (some n) = n

module _ (dev : NetDevice) where
  pub record VirtioNet : Type 0 where
    pub queue : VirtQueue
    pub world : dev.World

  -- The chain of a header and a frame, `len` bytes of it, with the flags of both.
  unfoldable pub submit_frame : ℕ → ℕ → ℕ → VirtQueue → VirtQueue
  submit_frame header_flags frame_flags len q = publish (
      set_desc 1
        (record { addr = dev.frame_addr; len = len % 2 ^ 32; flags = frame_flags; next = 0 })
        (set_desc 0
          (record { addr = dev.header_addr; len = net_hdr_size; flags = header_flags; next = 1 })
          q))

  -- `Ok(())` in every case
  unfoldable pub send_frame : List ℕ → VirtioNet → VirtioNet
  send_frame frame d =
      let (q, w) = dev.transmitted (submit_frame 0x0002 0 (length frame) d.queue) frame d.world in
      record { queue = q; world = w }

  -- `self.queue.used.ring[used_idx].len`; the index is below `queue_size`.
  unfoldable pub used_len : VirtQueue → ℕ
  used_len q =
      let used_idx = (q.used.idx + (2 ^ 16 - 1)) % 2 ^ 16 % queue_size in
      elim (get_elem? q.used.ring used_idx) [ none ↦ 0 | some e ↦ e.len ]

  -- The result, `none` for `Err(())`, and the buffer.
  unfoldable pub receive_frame : List ℕ → VirtioNet → Option ℕ × List ℕ × VirtioNet
  receive_frame buf d =
      let (q, buf', w) =
        dev.received (submit_frame 0x0003 0x0001 (length buf) d.queue) buf d.world in
      let len = used_len q in
      (
        if ltb len net_hdr_size then none else some (len - net_hdr_size),
        buf',
        record { queue = q; world = w },
      )

  -- `VirtioRxToken::consume`: what `f` is given, or `none` where `&buf[..len]` panics.
  unfoldable pub consume_received : VirtioNet → Option (List ℕ) × VirtioNet
  consume_received d =
      let (result, buf, d') = receive_frame (replicate 1536 0) d in
      let len = or_zero result in (if ltb 1536 len then none else some (take len buf), d')

  -- `VirtioTxToken::consume`, on the bytes that `f` has put into its buffer.
  unfoldable pub consume_sent : List ℕ → VirtioNet → VirtioNet
  consume_sent buf d = send_frame buf d

  -- A submission on a well-formed queue keeps it so and puts descriptor 0 into the last slot of the
  -- available ring.
  pub submit_frame-IsQueue :
      (header_flags frame_flags len : ℕ) (q : VirtQueue)
      → IsQueue q
      → IsQueue (submit_frame header_flags frame_flags len q)
        × (last_slot (submit_frame header_flags frame_flags len q) ≡ some 0)
  unfolding submit_frame
  submit_frame-IsQueue header_flags frame_flags len q v =
      let ready = set_desc-IsQueue 1 _ _ (set_desc-IsQueue 0 _ q v) in
      (publish-IsQueue _ ready, last_slot-publish _ ready)
