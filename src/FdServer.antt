-- ===== src/FdServer.antt =====
-- src/fd_server/src/main.rs, the descriptor helper server: its state, the dispatch on the opcode in
-- `mr[0]`, and the loop over the messages that arrive. Each table and its handlers are in a child.
pub mod Host
pub mod Handlers
pub mod Counters
pub mod Records
pub mod Ledger
pub mod Kernel
pub mod Moves
pub mod Strings
pub mod Ownership
pub mod Books
pub mod Requests
pub mod Replies
pub mod Bounds
pub mod Tests
use l4rerust.Base.{ℕ, List, [], ◌∷◌, ◌==◌, if◌then◌else◌}
use l4rerust.Base.Int.{pos}
use l4rerust.Ipc.{Utcb, Ctx, set_mr, br_clear, encode}
use l4rerust.Ipc.Slab.{Slab}
use l4rerust.Ipc.Loop.{Wake, ipc_error, message}
use Host.{Sys, Eventfd, Timerfd, Signalfd, Inotify}
use Counters.{
  handle_eventfd_create, handle_eventfd_read, handle_eventfd_write, handle_eventfd_close,
  handle_timerfd_create, handle_timerfd_settime, handle_timerfd_gettime, handle_timerfd_read,
  handle_timerfd_close,
}
use Records.{
  handle_signalfd_create, handle_signalfd_read, handle_signalfd_close, handle_inotify_init,
  handle_inotify_add_watch, handle_inotify_rm_watch, handle_inotify_read, handle_inotify_close,
}

-- The constants of `mod opcode` by name, and any other number.
pub data Opcode : Type 0 where
  eventfd_create eventfd_read eventfd_write eventfd_close : Opcode
  timerfd_create timerfd_settime timerfd_gettime timerfd_read timerfd_close : Opcode
  signalfd_create signalfd_read signalfd_close : Opcode
  inotify_init inotify_add_watch inotify_rm_watch inotify_read inotify_close : Opcode
  unknown : Opcode

-- What `match mr[0]` compares with, in the order of the arms.
abbrev pub opcodes : List (ℕ × Opcode)
opcodes =
    (0, eventfd_create)
    ∷ (1, eventfd_read)
    ∷ (2, eventfd_write)
    ∷ (3, eventfd_close)
    ∷ (16, timerfd_create)
    ∷ (17, timerfd_settime)
    ∷ (18, timerfd_gettime)
    ∷ (19, timerfd_read)
    ∷ (20, timerfd_close)
    ∷ (32, signalfd_create)
    ∷ (33, signalfd_read)
    ∷ (34, signalfd_close)
    ∷ (48, inotify_init)
    ∷ (49, inotify_add_watch)
    ∷ (50, inotify_rm_watch)
    ∷ (51, inotify_read)
    ∷ (52, inotify_close)
    ∷ []

find_opcode : List (ℕ × Opcode) → ℕ → Opcode
find_opcode [] n = unknown
find_opcode ((k, op) ∷ rest) n = if k == n then op else find_opcode rest n

unfoldable pub opcode : ℕ → Opcode
unfolding find_opcode
opcode n = find_opcode opcodes n

module _ (slab : Slab) (sys : Sys) where
  pub record Server : Type 0 where
    pub eventfds : slab.Table Eventfd
    pub timerfds : slab.Table Timerfd
    pub signalfds : slab.Table Signalfd
    pub inotifies : slab.Table Inotify
    pub utcb : Utcb
    pub os : sys.World

  abbrev pub with_eventfds :
      (Ctx (slab.Table Eventfd) sys.World → Ctx (slab.Table Eventfd) sys.World) → Server → Server
  with_eventfds f s =
      let c = f (record { table = s.eventfds; utcb = s.utcb; os = s.os }) in
      record s { eventfds = c.table; utcb = c.utcb; os = c.os }

  abbrev pub with_timerfds :
      (Ctx (slab.Table Timerfd) sys.World → Ctx (slab.Table Timerfd) sys.World) → Server → Server
  with_timerfds f s =
      let c = f (record { table = s.timerfds; utcb = s.utcb; os = s.os }) in
      record s { timerfds = c.table; utcb = c.utcb; os = c.os }

  abbrev pub with_signalfds :
      (Ctx (slab.Table Signalfd) sys.World → Ctx (slab.Table Signalfd) sys.World) → Server → Server
  with_signalfds f s =
      let c = f (record { table = s.signalfds; utcb = s.utcb; os = s.os }) in
      record s { signalfds = c.table; utcb = c.utcb; os = c.os }

  abbrev pub with_inotifies :
      (Ctx (slab.Table Inotify) sys.World → Ctx (slab.Table Inotify) sys.World) → Server → Server
  with_inotifies f s =
      let c = f (record { table = s.inotifies; utcb = s.utcb; os = s.os }) in
      record s { inotifies = c.table; utcb = c.utcb; os = c.os }

  -- The arms of `match mr[0]`.
  unfoldable pub dispatch : Opcode → Server → Server
  dispatch eventfd_create = with_eventfds (handle_eventfd_create slab sys)
  dispatch eventfd_read = with_eventfds (handle_eventfd_read slab sys)
  dispatch eventfd_write = with_eventfds (handle_eventfd_write slab sys)
  dispatch eventfd_close = with_eventfds (handle_eventfd_close slab sys)
  dispatch timerfd_create = with_timerfds (handle_timerfd_create slab sys)
  dispatch timerfd_settime = with_timerfds (handle_timerfd_settime slab sys)
  dispatch timerfd_gettime = with_timerfds (handle_timerfd_gettime slab sys)
  dispatch timerfd_read = with_timerfds (handle_timerfd_read slab sys)
  dispatch timerfd_close = with_timerfds (handle_timerfd_close slab sys)
  dispatch signalfd_create = with_signalfds (handle_signalfd_create slab sys)
  dispatch signalfd_read = with_signalfds (handle_signalfd_read slab sys)
  dispatch signalfd_close = with_signalfds (handle_signalfd_close slab sys)
  dispatch inotify_init = with_inotifies (handle_inotify_init slab sys)
  dispatch inotify_add_watch = with_inotifies (handle_inotify_add_watch slab sys)
  dispatch inotify_rm_watch = with_inotifies (handle_inotify_rm_watch slab sys)
  dispatch inotify_read = with_inotifies (handle_inotify_read slab sys)
  dispatch inotify_close = with_inotifies (handle_inotify_close slab sys)
  dispatch unknown =
      λ s. record s { utcb = br_clear (set_mr 0 (encode (pos sys.errno.enosys)) s.utcb) }

  -- The body of the loop for one message.
  unfoldable pub handle_request : Server → Server
  handle_request s = dispatch (opcode (s.utcb.mr 0)) s

  -- The loop, over what each wait returns: an error waits again, a message is answered. The replies
  -- are the UTCB at each `l4_ipc_reply_and_wait`.
  unfoldable pub run : List Wake → Server → List Utcb × Server
  run [] s = ([], s)
  run (ipc_error ∷ wakes) s = run wakes s
  run (message u ∷ wakes) s =
      let s' = handle_request (record s { utcb = u }) in
      let (replies, end) = run wakes s' in (s'.utcb ∷ replies, end)
