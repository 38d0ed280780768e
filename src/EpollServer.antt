-- ===== src/EpollServer.antt =====
-- src/epoll_server/src/main.rs, which serves epoll over IPC: a table of epoll descriptors, and events
-- as bytes in the buffer registers.
pub mod Host
pub mod Ownership
pub mod Waiting
mod Tests
use l4rerust.Base.{
  ℕ, zero, ◌+◌, ◌-◌, ◌*◌, ◌/◌, List, [], ◌∷◌, ◌++◌, Option, none, some, length, take, drop, min,
  ltb, ◌==◌, ◌||◌, if◌then◌else◌,
}
use l4rerust.Base.Int.{ℤ, pos, is_neg, to_ℕ, eq_ℤ}
use l4rerust.Base.Word.{as_i32}
use l4rerust.Ipc.{Utcb, Ctx, set_mr, br_clear, br_data_bytes, encode, encode_errno, reply}
use l4rerust.Ipc.Slab.{Slab}
use l4rerust.Ipc.Loop.{Wake, serve}
use Host.{Sys}

pub record EpollInstance : Type 0 where
  pub fd : ℤ

abbrev pub concat : List (List ℕ) → List ℕ
concat [] = []
concat (e ∷ es) = e ++ concat es

module _ (sys : Sys) where
  abbrev pub max_serialised_events : ℕ
  max_serialised_events =
      if sys.event_size == 0 then 0 else br_data_bytes sys.br_words / sys.event_size

  unfoldable pub br_read_event : Utcb → Option (List ℕ)
  br_read_event u =
      if sys.event_size == 0
      then none
      else if ltb u.len sys.event_size
      then none
      else some (take sys.event_size u.payload)

  unfoldable pub br_write_events : List (List ℕ) → Utcb → Utcb
  br_write_events events u =
      let count = min (length events) max_serialised_events in
      let bytes = count * sys.event_size in
      if bytes == 0
      then record u { len = bytes }
      else record u { len = bytes; payload = concat (take count events) ++ drop bytes u.payload }

module _ (slab : Slab) (sys : Sys) where
  abbrev pub Instances : Type 0
  Instances = Ctx (slab.Table EpollInstance) sys.World

  abbrev pub refuse : ℕ → Instances → Instances
  refuse err c = reply (encode (pos err)) c

  abbrev pub fail : Instances → Instances
  fail c = reply (encode_errno sys.errno (sys.last_os_error c.os)) c

  -- The end of `handle_ctl`, on what `epoll_ctl` returned.
  abbrev pub ctl_done : ℤ × sys.World → Instances → Instances
  ctl_done call c =
      let (res, w) = call in
      reply (if is_neg res then encode_errno sys.errno (sys.last_os_error w) else 0)
        (record c { os = w })

  -- The refusal of a request without an event leaves the buffer registers.
  unfoldable pub handle_ctl : Instances → Instances
  handle_ctl c =
      let op = as_i32 (c.utcb.mr 2) in
      let target_fd = as_i32 (c.utcb.mr 3) in
      elim (slab.get (c.utcb.mr 1) c.table) [
        | none ↦ refuse sys.errno.ebadf c
        | some instance ↦
            if eq_ℤ op sys.ctl_del
            then ctl_done (sys.epoll_ctl instance.fd op target_fd none c.os) c
            else elim (br_read_event sys c.utcb) [
              | none ↦ record c { utcb = set_mr 0 (encode (pos sys.errno.einval)) c.utcb }
              | some event ↦ ctl_done (sys.epoll_ctl instance.fd op target_fd (some event) c.os) c
            ]
      ]

  -- The end of `handle_wait`, on what `epoll_wait` returned.
  unfoldable pub wait_done : ℤ × List (List ℕ) × sys.World → Instances → Instances
  wait_done call c =
      let (res, events, w) = call in
      if is_neg res
      then fail (record c { os = w })
      else record c { utcb = set_mr 0 (to_ℕ res) (br_write_events sys events c.utcb); os = w }

  unfoldable pub handle_wait : Instances → Instances
  handle_wait c =
      let maxevents = as_i32 (c.utcb.mr 2) in
      let timeout = as_i32 (c.utcb.mr 3) in
      let max = max_serialised_events sys in
      elim (slab.get (c.utcb.mr 1) c.table) [
        | none ↦ refuse sys.errno.ebadf c
        | some instance ↦
            if is_neg maxevents || to_ℕ maxevents == 0
            then refuse sys.errno.einval c
            else if max == 0
            then refuse sys.errno.eoverflow c
            else wait_done (sys.epoll_wait instance.fd (min (to_ℕ maxevents) max) timeout c.os) c
      ]

  unfoldable pub handle_close : Instances → Instances
  handle_close c =
      let handle = c.utcb.mr 1 in
      elim (slab.get handle c.table) [
        | some instance ↦
            reply 0
              (record c { table = slab.remove handle c.table; os = sys.close instance.fd c.os })
        | none ↦ refuse sys.errno.ebadf c
      ]

  -- The arm `CREATE1` of the loop.
  unfoldable pub handle_create : Instances → Instances
  handle_create c =
      let (fd, w) = sys.epoll_create1 (as_i32 (c.utcb.mr 1)) c.os in
      if is_neg fd
      then fail (record c { os = w })
      else let (slot, table) = slab.insert (record { fd = fd }) c.table in
        reply slot (record c { table = table; os = w })

  -- The constants of `mod opcode`, in their order.
  unfoldable pub handle_request : Instances → Instances
  handle_request c =
      let op = c.utcb.mr 0 in
      if op == 0
      then handle_create c
      else if op == 1
      then handle_ctl c
      else if op == 2
      then handle_wait c
      else if op == 3
      then handle_close c
      else refuse sys.errno.enosys c

  unfoldable pub run : List Wake → Instances → List Utcb × Instances
  run wakes c = serve handle_request wakes c
