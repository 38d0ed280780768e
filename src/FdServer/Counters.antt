-- ===== src/FdServer/Counters.antt =====
-- The eventfd and timerfd handlers of src/fd_server/src/main.rs.
use l4rerust.Base.{ℕ, not, Option, none, some, List, ◌==◌, if◌then◌else◌}
use l4rerust.Base.Int.{is_neg, equals}
use l4rerust.Base.Word.{as_i32, as_u32, to_le_bytes}
use l4rerust.Ipc.{Utcb, Ctx, set_mr, reply, encode_errno, br_clear, br_write_bytes, br_read_exact}
use l4rerust.Ipc.Slab.{Slab}
use l4rerust.FdServer.Host.{Sys, Eventfd, Timerfd}
use l4rerust.FdServer.Handlers.{fail, refuse, read_counter, close_entry, open_entry}

module _ (slab : Slab) (sys : Sys) where
  abbrev pub Eventfds : Type 0
  Eventfds = Ctx (slab.Table Eventfd) sys.World

  abbrev pub Timerfds : Type 0
  Timerfds = Ctx (slab.Table Timerfd) sys.World

  -- The error branch leaves the buffer registers as the client sent them.
  unfoldable pub handle_eventfd_create : Eventfds → Eventfds
  handle_eventfd_create c =
      let (fd, os) = sys.eventfd (as_u32 (c.utcb.mr 1)) (as_i32 (c.utcb.mr 2)) c.os in
      if is_neg fd
      then record c {
        utcb = set_mr 0 (encode_errno sys.errno (sys.last_os_error os)) c.utcb;
        os = os;
      }
      else open_entry slab sys (record { fd = fd }) (record c { os = os })

  unfoldable pub handle_eventfd_read : Eventfds → Eventfds
  handle_eventfd_read = read_counter slab sys (λ e. e.fd)

  unfoldable pub handle_eventfd_write : Eventfds → Eventfds
  handle_eventfd_write c =
      let value = c.utcb.mr 2 in
      elim (slab.get (c.utcb.mr 1) c.table) [
        | none ↦ refuse slab sys sys.errno.ebadf c
        | some entry ↦
            let (res, os) = sys.write entry.fd (to_le_bytes 8 value) c.os in
            if equals res 8
            then reply 0 (record c { os = os })
            else fail slab sys (record c { os = os })
      ]

  unfoldable pub handle_eventfd_close : Eventfds → Eventfds
  handle_eventfd_close = close_entry slab sys (λ e. e.fd)

  unfoldable pub handle_timerfd_create : Timerfds → Timerfds
  handle_timerfd_create c =
      let (fd, os) = sys.timerfd_create (as_i32 (c.utcb.mr 1)) (as_i32 (c.utcb.mr 2)) c.os in
      if is_neg fd
      then fail slab sys (record c { os = os })
      else open_entry slab sys (record { fd = fd }) (record c { os = os })

  -- An `itimerspec` is its bytes, which the code only copies.
  unfoldable pub read_itimerspec : Utcb → Option (List ℕ)
  read_itimerspec u = br_read_exact sys.itimerspec_size u

  unfoldable pub write_itimerspec : List ℕ → Utcb → Utcb
  write_itimerspec spec u = br_write_bytes sys.br_words spec u

  unfoldable pub handle_timerfd_settime : Timerfds → Timerfds
  handle_timerfd_settime c =
      let flags = as_i32 (c.utcb.mr 2) in
      let want_old = not (c.utcb.mr 3 == 0) in
      elim (slab.get (c.utcb.mr 1) c.table) [
        | none ↦ refuse slab sys sys.errno.ebadf c
        | some entry ↦ elim (read_itimerspec c.utcb) [
          | none ↦ refuse slab sys sys.errno.einval c
          | some new_value ↦
              let (res, old_value, os) =
                sys.timerfd_settime entry.fd flags new_value want_old c.os in
              if is_neg res
              then fail slab sys (record c { os = os })
              else if want_old
              then record c { utcb = write_itimerspec old_value (set_mr 0 0 c.utcb); os = os }
              else record c { utcb = br_clear (set_mr 0 0 c.utcb); os = os }
        ]
      ]

  unfoldable pub handle_timerfd_gettime : Timerfds → Timerfds
  handle_timerfd_gettime c = elim (slab.get (c.utcb.mr 1) c.table) [
    | none ↦ refuse slab sys sys.errno.ebadf c
    | some entry ↦
        let (res, cur, os) = sys.timerfd_gettime entry.fd c.os in
        if is_neg res
        then fail slab sys (record c { os = os })
        else record c { utcb = write_itimerspec cur (set_mr 0 0 c.utcb); os = os }
  ]

  unfoldable pub handle_timerfd_read : Timerfds → Timerfds
  handle_timerfd_read = read_counter slab sys (λ e. e.fd)

  unfoldable pub handle_timerfd_close : Timerfds → Timerfds
  handle_timerfd_close = close_entry slab sys (λ e. e.fd)
