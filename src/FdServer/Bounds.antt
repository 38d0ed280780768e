-- ===== src/FdServer/Bounds.antt =====
-- The buffer registers after each request of src/fd_server/src/main.rs.
use l4rerust.Base.{
  ℕ, ◌≤◌, ◌≡◌, refl, ◌⊎◌, inl, inr, arith, Option-cases, min, Bool, true, List, replicate, take,
}
use l4rerust.Base.Int.{ℤ, to_ℕ, is_neg}
use l4rerust.Base.Word.{as_i32, as_u32}
use l4rerust.Ipc.{Ctx, Utcb, br_data_bytes}
use l4rerust.Ipc.Slab.{Slab}
use l4rerust.Ipc.Buffer.{HasPayload, len-br_write_bytes, br_write_bytes-HasPayload}
use l4rerust.FdServer.Host.{Sys}
use l4rerust.FdServer.Handlers.{read_counter, read_records, close_entry, open_entry}
use l4rerust.FdServer.Counters.{
  Eventfds, Timerfds, handle_eventfd_create, handle_eventfd_read, handle_eventfd_write,
  handle_eventfd_close, handle_timerfd_create, handle_timerfd_settime, handle_timerfd_gettime,
  handle_timerfd_read, handle_timerfd_close, write_itimerspec,
}
use l4rerust.FdServer.Records.{
  Signalfds, Inotifies, signalfd_new, signalfd_update, handle_signalfd_create, handle_signalfd_read,
  handle_signalfd_close, handle_inotify_init, handle_inotify_add_watch, handle_inotify_rm_watch,
  handle_inotify_read, handle_inotify_close,
}
use l4rerust.FdServer.{
  Opcode, eventfd_create, eventfd_read, eventfd_write, eventfd_close, timerfd_create,
  timerfd_settime, timerfd_gettime, timerfd_read, timerfd_close, signalfd_create, signalfd_read,
  signalfd_close, inotify_init, inotify_add_watch, inotify_rm_watch, inotify_read, inotify_close,
  unknown, Server, dispatch,
}

module _ (slab : Slab) (sys : Sys) where
  -- The first buffer register says how much of the payload is a reply, and the payload keeps its
  -- size.
  abbrev pub Sound : Utcb → Type 0
  Sound u = (u.len ≤ br_data_bytes sys.br_words) × HasPayload sys.br_words u

  module _ {A : Type 0} (fd : A → ℤ) (c : Ctx (slab.Table A) sys.World)
      (p : HasPayload sys.br_words c.utcb) where
    read_counter-Sound : Sound (read_counter slab sys fd c).utcb
    unfolding read_counter
    read_counter-Sound = ground arith

    close_entry-Sound : Sound (close_entry slab sys fd c).utcb
    unfolding close_entry
    close_entry-Sound = ground arith

    read_records-Sound : Sound (read_records slab sys fd c).utcb
    unfolding read_records
    read_records-Sound = elim (Option-cases (slab.get (c.utcb.mr 1) c.table)) [
      | inl e ↦ ground arith
      | inr (entry, e) ↦
          let size = min (c.utcb.mr 2) (br_data_bytes sys.br_words) in
          let call = sys.read (fd entry) (replicate size 0) c.os in
          let bytes = take (to_ℕ call.0) call.1 in
          ground (
            arith,
            len-br_write_bytes sys.br_words bytes c.utcb,
            br_write_bytes-HasPayload sys.br_words bytes c.utcb p,
          )
    ]

  module _ (c : Eventfds slab sys) (p : HasPayload sys.br_words c.utcb) where
    -- The kernel refuses the new descriptor.
    abbrev refused : Bool
    refused = is_neg (sys.eventfd (as_u32 (c.utcb.mr 1)) (as_i32 (c.utcb.mr 2)) c.os).0

    -- The one handler that can leave the first register as the client set it, where it fails.
    eventfd_create-Sound :
        HasPayload sys.br_words (handle_eventfd_create slab sys c).utcb
        × ((handle_eventfd_create slab sys c).utcb.len ≤ br_data_bytes sys.br_words
            ⊎ ((refused ≡ true) × ((handle_eventfd_create slab sys c).utcb.len ≡ c.utcb.len)))
    unfolding handle_eventfd_create open_entry
    eventfd_create-Sound = ground arith

    eventfd_write-Sound : Sound (handle_eventfd_write slab sys c).utcb
    unfolding handle_eventfd_write
    eventfd_write-Sound = ground arith

  module _ (c : Timerfds slab sys) (p : HasPayload sys.br_words c.utcb) where
    timerfd_create-Sound : Sound (handle_timerfd_create slab sys c).utcb
    unfolding handle_timerfd_create open_entry
    timerfd_create-Sound = ground arith

    write_itimerspec-Sound :
        (spec : List ℕ) (u : Utcb)
        → HasPayload sys.br_words u
        → Sound (write_itimerspec slab sys spec u)
    unfolding write_itimerspec
    write_itimerspec-Sound spec u h =
        (len-br_write_bytes sys.br_words spec u, br_write_bytes-HasPayload sys.br_words spec u h)

    timerfd_settime-Sound : Sound (handle_timerfd_settime slab sys c).utcb
    unfolding handle_timerfd_settime
    timerfd_settime-Sound = grind (arith, write_itimerspec-Sound)

    timerfd_gettime-Sound : Sound (handle_timerfd_gettime slab sys c).utcb
    unfolding handle_timerfd_gettime
    timerfd_gettime-Sound = grind (arith, write_itimerspec-Sound)

  module _ (c : Signalfds slab sys) (p : HasPayload sys.br_words c.utcb) where
    signalfd_create-Sound : Sound (handle_signalfd_create slab sys c).utcb
    unfolding handle_signalfd_create signalfd_new signalfd_update open_entry
    signalfd_create-Sound = ground arith

  module _ (c : Inotifies slab sys) (p : HasPayload sys.br_words c.utcb) where
    inotify_init-Sound : Sound (handle_inotify_init slab sys c).utcb
    unfolding handle_inotify_init open_entry
    inotify_init-Sound = ground arith

    inotify_add_watch-Sound : Sound (handle_inotify_add_watch slab sys c).utcb
    unfolding handle_inotify_add_watch
    inotify_add_watch-Sound = ground arith

    inotify_rm_watch-Sound : Sound (handle_inotify_rm_watch slab sys c).utcb
    unfolding handle_inotify_rm_watch
    inotify_rm_watch-Sound = ground arith

  -- What is left of the buffer registers after a request `op` to a server in the state `s`. The
  -- length register is the client's where the kernel refuses an eventfd, and nowhere else.
  abbrev pub Leaves : Opcode → Server slab sys → Utcb → Type 0
  Leaves op s v =
      HasPayload sys.br_words v
      × (v.len ≤ br_data_bytes sys.br_words
          ⊎ ((op ≡ eventfd_create)
              × (is_neg (sys.eventfd (as_u32 (s.utcb.mr 1)) (as_i32 (s.utcb.mr 2)) s.os).0 ≡ true)
              × (v.len ≡ s.utcb.len)))

  -- After every request but a failed eventfd_create, the length register is within the payload; that
  -- one leaves it as the client set it. The payload keeps its size.
  pub dispatch-Sound :
      (op : Opcode) (s : Server slab sys)
      → HasPayload sys.br_words s.utcb
      → Leaves op s (dispatch slab sys op s).utcb
  unfolding dispatch handle_eventfd_read handle_eventfd_close handle_timerfd_read
      handle_timerfd_close handle_signalfd_read handle_signalfd_close handle_inotify_read
      handle_inotify_close
  dispatch-Sound eventfd_create s p =
      let h = eventfd_create-Sound (record { table = s.eventfds; utcb = s.utcb; os = s.os }) p in
      (h.0, elim h.1 [ inl small ↦ inl small | inr (failed, same) ↦ inr (refl, failed, same) ])
  dispatch-Sound eventfd_read s p =
      let h =
        read_counter-Sound (λ e. e.fd) (record { table = s.eventfds; utcb = s.utcb; os = s.os })
          p in
      (h.1, inl h.0)
  dispatch-Sound eventfd_write s p =
      let h = eventfd_write-Sound (record { table = s.eventfds; utcb = s.utcb; os = s.os }) p in
      (h.1, inl h.0)
  dispatch-Sound eventfd_close s p =
      let h =
        close_entry-Sound (λ e. e.fd) (record { table = s.eventfds; utcb = s.utcb; os = s.os }) p in
      (h.1, inl h.0)
  dispatch-Sound timerfd_create s p =
      let h = timerfd_create-Sound (record { table = s.timerfds; utcb = s.utcb; os = s.os }) p in
      (h.1, inl h.0)
  dispatch-Sound timerfd_settime s p =
      let h = timerfd_settime-Sound (record { table = s.timerfds; utcb = s.utcb; os = s.os }) p in
      (h.1, inl h.0)
  dispatch-Sound timerfd_gettime s p =
      let h = timerfd_gettime-Sound (record { table = s.timerfds; utcb = s.utcb; os = s.os }) p in
      (h.1, inl h.0)
  dispatch-Sound timerfd_read s p =
      let h =
        read_counter-Sound (λ e. e.fd) (record { table = s.timerfds; utcb = s.utcb; os = s.os })
          p in
      (h.1, inl h.0)
  dispatch-Sound timerfd_close s p =
      let h =
        close_entry-Sound (λ e. e.fd) (record { table = s.timerfds; utcb = s.utcb; os = s.os }) p in
      (h.1, inl h.0)
  dispatch-Sound signalfd_create s p =
      let h = signalfd_create-Sound (record { table = s.signalfds; utcb = s.utcb; os = s.os }) p in
      (h.1, inl h.0)
  dispatch-Sound signalfd_read s p =
      let h =
        read_records-Sound (λ e. e.fd) (record { table = s.signalfds; utcb = s.utcb; os = s.os })
          p in
      (h.1, inl h.0)
  dispatch-Sound signalfd_close s p =
      let h =
        close_entry-Sound (λ e. e.fd) (record { table = s.signalfds; utcb = s.utcb; os = s.os })
          p in
      (h.1, inl h.0)
  dispatch-Sound inotify_init s p =
      let h = inotify_init-Sound (record { table = s.inotifies; utcb = s.utcb; os = s.os }) p in
      (h.1, inl h.0)
  dispatch-Sound inotify_add_watch s p =
      let h =
        inotify_add_watch-Sound (record { table = s.inotifies; utcb = s.utcb; os = s.os }) p in
      (h.1, inl h.0)
  dispatch-Sound inotify_rm_watch s p =
      let h = inotify_rm_watch-Sound (record { table = s.inotifies; utcb = s.utcb; os = s.os }) p in
      (h.1, inl h.0)
  dispatch-Sound inotify_read s p =
      let h =
        read_records-Sound (λ e. e.fd) (record { table = s.inotifies; utcb = s.utcb; os = s.os })
          p in
      (h.1, inl h.0)
  dispatch-Sound inotify_close s p =
      let h =
        close_entry-Sound (λ e. e.fd) (record { table = s.inotifies; utcb = s.utcb; os = s.os })
          p in
      (h.1, inl h.0)
  dispatch-Sound unknown s p = (p, inl (omega arith))
