-- ===== src/FdServer/Tests/Runs.antt =====
-- Witnesses and tests for the server of src/fd_server/src/main.rs.
use l4rerust.Base.{
  ℕ, ◌≡◌, refl, inl, Option, none, some, List, [], ◌∷◌, arith, ◌==◌, if◌then◌else◌, replicate,
}
use l4rerust.Base.Int.{pos}
use l4rerust.Base.Word.{to_le_bytes}
use l4rerust.Ipc.{Utcb, Ctx, reply, encode}
use l4rerust.Ipc.Slab.{list_slab, list_slab_laws}
use l4rerust.Ipc.Loop.{Wake, ipc_error, message}
use l4rerust.FdServer.Host.{Eventfd}
use l4rerust.FdServer.Ledger.{Ledger}
use l4rerust.FdServer.Handlers.{open_entry}
use l4rerust.FdServer.Counters.{
  handle_eventfd_create, handle_eventfd_read, handle_eventfd_write, handle_eventfd_close,
}
use l4rerust.FdServer.Books.{event, timer, signal, notify, Handle, same_handle}
use l4rerust.FdServer.Requests.{look, ServerMove, dispatch-Move, run-Ledger}
use l4rerust.FdServer.Replies.{create-write-read, close-stale}
use l4rerust.FdServer.Bounds.{Leaves, dispatch-Sound}
use l4rerust.FdServer.Tests.{World, small_sys, small_kernel}
use l4rerust.FdServer.{Server, run, dispatch, eventfd_create, timerfd_gettime}

abbrev ask : ℕ → ℕ → ℕ → Utcb
ask op a b = record {
  mr = λ j. if j == 0 then op else if j == 1 then a else b;
  len = 0;
  payload = replicate 32 7;
}

-- Standard input, output and error are open, and no table has an entry.
abbrev boot : World
boot = record { fds = 0 ∷ 1 ∷ 2 ∷ []; stored = [] }

abbrev start : Server list_slab small_sys
start = record {
  eventfds = [];
  timerfds = [];
  signalfds = [];
  inotifies = [];
  utcb = ask 0 0 0;
  os = boot;
}

look-start : (h : Handle) → look list_slab small_sys start h ≡ none
look-start (event, k) = refl
look-start (timer, k) = refl
look-start (signal, k) = refl
look-start (notify, k) = refl

start-Ledger :
    Ledger same_handle
      (small_kernel.is_open boot)
      (look list_slab small_sys start)
      (small_kernel.is_open boot)
start-Ledger = record {
  live = λ h fd e. cc (look-start h);
  distinct = λ h k fd e e'. cc (look-start h);
  accounted = λ fd e. inl e;
}

-- Two eventfds, an error, a timer, and the first eventfd closed.
abbrev wakes : List Wake
wakes =
    message (ask 0 0 0)
    ∷ message (ask 0 5 0)
    ∷ ipc_error
    ∷ message (ask 16 1 0)
    ∷ message (ask 3 0 0)
    ∷ []

run-Ledger_example :
    Ledger same_handle
      (small_kernel.is_open boot)
      (look list_slab small_sys (run list_slab small_sys wakes start).1)
      (small_kernel.is_open (run list_slab small_sys wakes start).1.os)
run-Ledger_example =
    run-Ledger list_slab small_sys list_slab_laws small_kernel wakes start start-Ledger

dispatch-Move_example :
    ServerMove list_slab small_sys list_slab_laws small_kernel start
      (dispatch list_slab small_sys eventfd_create start)
dispatch-Move_example =
    dispatch-Move list_slab small_sys list_slab_laws small_kernel start eventfd_create start-Ledger

abbrev with_table : {A : Type 0} → List (Option A) → Utcb → Ctx (List (Option A)) World
with_table t u = record { table = t; utcb = u; os = boot }

create-write-read_example :
    (handle_eventfd_read list_slab small_sys
        (record (handle_eventfd_write list_slab small_sys
          (record (handle_eventfd_create list_slab small_sys (with_table [] (ask 0 0 0))) {
            utcb = ask 2 0 258;
          })) { utcb = ask 1 0 0 })).utcb.mr
      1
    ≡ 258
unfolding handle_eventfd_create open_entry to_le_bytes
create-write-read_example =
    (create-write-read list_slab small_sys list_slab_laws (with_table [] (ask 0 0 0)) (ask 2 0 258)
      (ask 1 0 0) (record { fds = 4 ∷ 0 ∷ 1 ∷ 2 ∷ []; stored = 2 ∷ 1 ∷ 0 ∷ 0 ∷ 0 ∷ 0 ∷ 0 ∷ 0 ∷ [] })
      (record { fds = 4 ∷ 0 ∷ 1 ∷ 2 ∷ []; stored = 2 ∷ 1 ∷ 0 ∷ 0 ∷ 0 ∷ 0 ∷ 0 ∷ 0 ∷ [] }) refl refl
      refl (omega arith) refl refl).3

abbrev third : Eventfd
third = record { fd = pos 2 }

close-stale_example :
    handle_eventfd_read list_slab small_sys
      (record (handle_eventfd_close list_slab small_sys
        (with_table (some third ∷ []) (ask 3 0 0))) { utcb = ask 1 0 0 })
    ≡ reply
        (encode (pos 9))
        (record (handle_eventfd_close list_slab small_sys
          (with_table (some third ∷ []) (ask 3 0 0))) { utcb = ask 1 0 0 })
close-stale_example =
    (close-stale list_slab small_sys list_slab_laws (with_table (some third ∷ []) (ask 3 0 0)) third
      (ask 1 0 0) refl refl).3

dispatch-Sound_example :
    Leaves list_slab small_sys timerfd_gettime start
      (dispatch list_slab small_sys timerfd_gettime start).utcb
dispatch-Sound_example = dispatch-Sound list_slab small_sys timerfd_gettime start refl
