-- ===== src/FdServer/Requests.antt =====
-- The descriptors of the whole server of src/fd_server/src/main.rs, over any sequence of messages.
use l4rerust.FdServer.Books.{
  Family, event, timer, signal, notify, Handle, same_family, same_handle, same_handle_iff,
  lift-Move,
}
use l4rerust.Base.{ℕ, ◌≡◌, refl, ap, Bool, false, Option, List, [], ◌∷◌}
use l4rerust.Base.Int.{ℤ}
use l4rerust.Ipc.{Ctx}
use l4rerust.Ipc.Slab.{Slab, SlabLaws}
use l4rerust.Ipc.Loop.{Wake, ipc_error, message}
use l4rerust.FdServer.Host.{Sys, Eventfd, Timerfd, Signalfd, Inotify}
use l4rerust.FdServer.Kernel.{Kernel}
use l4rerust.FdServer.Ledger.{Move, keep, Ledger, Move-Ledger}
use l4rerust.FdServer.Counters.{
  handle_eventfd_create, handle_eventfd_write, handle_timerfd_create, handle_timerfd_settime,
  handle_timerfd_gettime, handle_eventfd_read, handle_eventfd_close, handle_timerfd_read,
  handle_timerfd_close,
}
use l4rerust.FdServer.Records.{
  handle_signalfd_create, handle_inotify_init, handle_inotify_add_watch, handle_inotify_rm_watch,
  handle_signalfd_read, handle_signalfd_close, handle_inotify_read, handle_inotify_close,
}
use l4rerust.FdServer.Moves.{
  fd_of, CtxMove, Keeps-CtxMove, read_counter-Keeps, read_records-Keeps, close_entry-CtxMove,
}
use l4rerust.FdServer.Ownership.{
  eventfd_create-CtxMove, timerfd_create-CtxMove, inotify_init-CtxMove, eventfd_write-Keeps,
  timerfd_settime-Keeps, timerfd_gettime-Keeps, signalfd_create-CtxMove, inotify_add_watch-Keeps,
  inotify_rm_watch-CtxMove,
}
use l4rerust.FdServer.{
  Opcode, eventfd_create, eventfd_read, eventfd_write, eventfd_close, timerfd_create,
  timerfd_settime, timerfd_gettime, timerfd_read, timerfd_close, signalfd_create, signalfd_read,
  signalfd_close, inotify_init, inotify_add_watch, inotify_rm_watch, inotify_read, inotify_close,
  unknown, opcode, Server, dispatch, handle_request, run, with_eventfds, with_timerfds,
  with_signalfds, with_inotifies,
}

module _ (slab : Slab) (sys : Sys) where
  -- The descriptor that a handle names.
  abbrev pub look : Server slab sys → Handle → Option ℤ
  look s (event, k) = fd_of (λ (e : Eventfd). e.fd) (slab.get k s.eventfds)
  look s (timer, k) = fd_of (λ (e : Timerfd). e.fd) (slab.get k s.timerfds)
  look s (signal, k) = fd_of (λ (e : Signalfd). e.fd) (slab.get k s.signalfds)
  look s (notify, k) = fd_of (λ (e : Inotify). e.fd) (slab.get k s.inotifies)

  module _ (laws : SlabLaws slab) (kernel : Kernel sys) where
    abbrev pub ServerMove : Server slab sys → Server slab sys → Type 0
    ServerMove s t = Move same_handle (look s) (look t) (kernel.is_open s.os) (kernel.is_open t.os)

    event_others :
        (f : Ctx (slab.Table Eventfd) sys.World → Ctx (slab.Table Eventfd) sys.World)
        → (s : Server slab sys) (g : Family) (k : ℕ) → same_family event g ≡ false
        → look (with_eventfds slab sys f s) (g, k) ≡ look s (g, k)
    event_others f s event k h = cc
    event_others f s timer k h = refl
    event_others f s signal k h = refl
    event_others f s notify k h = refl

    timer_others :
        (f : Ctx (slab.Table Timerfd) sys.World → Ctx (slab.Table Timerfd) sys.World)
        → (s : Server slab sys) (g : Family) (k : ℕ) → same_family timer g ≡ false
        → look (with_timerfds slab sys f s) (g, k) ≡ look s (g, k)
    timer_others f s event k h = refl
    timer_others f s timer k h = cc
    timer_others f s signal k h = refl
    timer_others f s notify k h = refl

    signal_others :
        (f : Ctx (slab.Table Signalfd) sys.World → Ctx (slab.Table Signalfd) sys.World)
        → (s : Server slab sys) (g : Family) (k : ℕ) → same_family signal g ≡ false
        → look (with_signalfds slab sys f s) (g, k) ≡ look s (g, k)
    signal_others f s event k h = refl
    signal_others f s timer k h = refl
    signal_others f s signal k h = cc
    signal_others f s notify k h = refl

    notify_others :
        (f : Ctx (slab.Table Inotify) sys.World → Ctx (slab.Table Inotify) sys.World)
        → (s : Server slab sys) (g : Family) (k : ℕ) → same_family notify g ≡ false
        → look (with_inotifies slab sys f s) (g, k) ≡ look s (g, k)
    notify_others f s event k h = refl
    notify_others f s timer k h = refl
    notify_others f s signal k h = refl
    notify_others f s notify k h = cc

    module _ (s : Server slab sys) where
      event_step :
          (f : Ctx (slab.Table Eventfd) sys.World → Ctx (slab.Table Eventfd) sys.World)
          → ((c : Ctx (slab.Table Eventfd) sys.World) → CtxMove slab sys kernel (λ e. e.fd) c (f c))
          → ServerMove s (with_eventfds slab sys f s)
      event_step f moves =
          lift-Move event (event_others f s)
            (moves (record { table = s.eventfds; utcb = s.utcb; os = s.os }))

      timer_step :
          (f : Ctx (slab.Table Timerfd) sys.World → Ctx (slab.Table Timerfd) sys.World)
          → ((c : Ctx (slab.Table Timerfd) sys.World) → CtxMove slab sys kernel (λ e. e.fd) c (f c))
          → ServerMove s (with_timerfds slab sys f s)
      timer_step f moves =
          lift-Move timer (timer_others f s)
            (moves (record { table = s.timerfds; utcb = s.utcb; os = s.os }))

      notify_step :
          (f : Ctx (slab.Table Inotify) sys.World → Ctx (slab.Table Inotify) sys.World)
          → ((c : Ctx (slab.Table Inotify) sys.World) → CtxMove slab sys kernel (λ e. e.fd) c (f c))
          → ServerMove s (with_inotifies slab sys f s)
      notify_step f moves =
          lift-Move notify (notify_others f s)
            (moves (record { table = s.inotifies; utcb = s.utcb; os = s.os }))

      signal_step :
          (f : Ctx (slab.Table Signalfd) sys.World → Ctx (slab.Table Signalfd) sys.World)
          → CtxMove slab sys kernel
              (λ e. e.fd)
              (record { table = s.signalfds; utcb = s.utcb; os = s.os })
              (f (record { table = s.signalfds; utcb = s.utcb; os = s.os }))
          → ServerMove s (with_signalfds slab sys f s)
      signal_step f move = lift-Move signal (signal_others f s) move

      -- Every request opens one descriptor under a free handle, closes the one that its handle names,
      -- or leaves the tables and the open descriptors alone.
      pub dispatch-Move :
          {base : ℤ → Bool} (op : Opcode)
          → Ledger same_handle base (look s) (kernel.is_open s.os)
          → ServerMove s (dispatch slab sys op s)
      unfolding dispatch handle_eventfd_read handle_eventfd_close handle_timerfd_read
          handle_timerfd_close handle_signalfd_read handle_signalfd_close handle_inotify_read
          handle_inotify_close
      dispatch-Move eventfd_create l =
          event_step (handle_eventfd_create slab sys) (eventfd_create-CtxMove slab sys kernel laws)
      dispatch-Move eventfd_read l =
          event_step (handle_eventfd_read slab sys) (λ c.
            Keeps-CtxMove slab sys kernel _ (read_counter-Keeps slab sys kernel (λ e. e.fd) c))
      dispatch-Move eventfd_write l =
          event_step (handle_eventfd_write slab sys)
            (λ c. Keeps-CtxMove slab sys kernel (λ e. e.fd) (eventfd_write-Keeps slab sys kernel c))
      dispatch-Move eventfd_close l =
          event_step (handle_eventfd_close slab sys)
            (close_entry-CtxMove slab sys kernel (λ e. e.fd) laws)
      dispatch-Move timerfd_create l =
          timer_step (handle_timerfd_create slab sys) (timerfd_create-CtxMove slab sys kernel laws)
      dispatch-Move timerfd_settime l =
          timer_step (handle_timerfd_settime slab sys) (λ c.
            Keeps-CtxMove slab sys kernel (λ e. e.fd) (timerfd_settime-Keeps slab sys kernel c))
      dispatch-Move timerfd_gettime l =
          timer_step (handle_timerfd_gettime slab sys) (λ c.
            Keeps-CtxMove slab sys kernel (λ e. e.fd) (timerfd_gettime-Keeps slab sys kernel c))
      dispatch-Move timerfd_read l =
          timer_step (handle_timerfd_read slab sys) (λ c.
            Keeps-CtxMove slab sys kernel _ (read_counter-Keeps slab sys kernel (λ e. e.fd) c))
      dispatch-Move timerfd_close l =
          timer_step (handle_timerfd_close slab sys)
            (close_entry-CtxMove slab sys kernel (λ e. e.fd) laws)
      dispatch-Move signalfd_create l = signal_step (handle_signalfd_create slab sys) (
          signalfd_create-CtxMove slab sys kernel laws
            (record { table = s.signalfds; utcb = s.utcb; os = s.os })
            (λ k entry e. l.live (signal, k) entry.fd (ap (fd_of (λ (x : Signalfd). x.fd)) e)))
      dispatch-Move signalfd_read l = signal_step (handle_signalfd_read slab sys) (
          Keeps-CtxMove slab sys kernel _ (
            read_records-Keeps slab sys kernel (λ e. e.fd)
              (record { table = s.signalfds; utcb = s.utcb; os = s.os })))
      dispatch-Move signalfd_close l = signal_step (handle_signalfd_close slab sys) (
          close_entry-CtxMove slab sys kernel (λ e. e.fd) laws
            (record { table = s.signalfds; utcb = s.utcb; os = s.os }))
      dispatch-Move inotify_init l =
          notify_step (handle_inotify_init slab sys) (inotify_init-CtxMove slab sys kernel laws)
      dispatch-Move inotify_add_watch l = notify_step (handle_inotify_add_watch slab sys) (λ c.
          Keeps-CtxMove slab sys kernel (λ e. e.fd) (inotify_add_watch-Keeps slab sys kernel c))
      dispatch-Move inotify_rm_watch l =
          notify_step (handle_inotify_rm_watch slab sys)
            (inotify_rm_watch-CtxMove slab sys kernel laws)
      dispatch-Move inotify_read l =
          notify_step (handle_inotify_read slab sys) (λ c.
            Keeps-CtxMove slab sys kernel _ (read_records-Keeps slab sys kernel (λ e. e.fd) c))
      dispatch-Move inotify_close l =
          notify_step (handle_inotify_close slab sys)
            (close_entry-CtxMove slab sys kernel (λ e. e.fd) laws)
      dispatch-Move unknown l = keep (λ j. refl) (λ g. refl)

      pub handle_request-Ledger :
          {base : ℤ → Bool}
          → Ledger same_handle base (look s) (kernel.is_open s.os)
          → Ledger same_handle base
              (look (handle_request slab sys s))
              (kernel.is_open (handle_request slab sys s).os)
      unfolding handle_request
      handle_request-Ledger l =
          Move-Ledger same_handle same_handle_iff (dispatch-Move (opcode (s.utcb.mr 0)) l) l

    -- Over any sequence of messages and IPC errors: every descriptor in the tables is open, no two
    -- handles hold the same one, and every open descriptor is in a table or was there before.
    pub run-Ledger :
        (wakes : List Wake) (s : Server slab sys) {base : ℤ → Bool}
        → Ledger same_handle base (look s) (kernel.is_open s.os)
        → let t = (run slab sys wakes s).1 in Ledger same_handle base (look t) (kernel.is_open t.os)
    unfolding run
    run-Ledger [] s l = l
    run-Ledger (ipc_error ∷ wakes) s l = run-Ledger wakes s l
    run-Ledger (message u ∷ wakes) s l =
        run-Ledger wakes (handle_request slab sys (record s { utcb = u }))
          (handle_request-Ledger (record s { utcb = u }) l)
