-- ===== src/EpollServer/Tests.antt =====
-- Runs of src/epoll_server/src/main.rs over a kernel that reports one event whenever it is asked.
use l4rerust.Base.{
  ℕ, zero, suc, ◌*◌, ◌≤◌, ◌≡◌, refl, ◌⊎◌, inl, true, List, [], ◌∷◌, length, take, replicate, none,
  some, get_or, min, arith, ◌==◌,
}
use l4rerust.Base.Int.{ℤ, pos, is_neg, to_ℕ}
use l4rerust.Base.Word.{as_i32}
use l4rerust.Ipc.{Utcb, br_data_bytes}
use l4rerust.Ipc.Slab.{list_slab, list_slab_laws}
use l4rerust.Ipc.Loop.{message, ipc_error}
use l4rerust.FdServer.Ledger.{Ledger}
use l4rerust.FdServer.Tests.{small_sys, small_kernel, small_errno}
use l4rerust.EpollServer.Host.{Sys, Kernel, WaitLaws, Sized, none_left, one_more}
use l4rerust.EpollServer.{Instances, concat, handle_wait, run}
use l4rerust.EpollServer.Ownership.{held, run-Accounts}
use l4rerust.EpollServer.Waiting.{handle_wait-events}

abbrev one_event : ℕ → small_sys.World → ℤ × List (List ℕ) × small_sys.World
one_event zero w = (pos 0, [], w)
one_event (suc n) w = (pos 1, (1 ∷ 7 ∷ []) ∷ [], w)

one_event-Sized : (n : ℕ) (w : small_sys.World) → Sized 2 (one_event n w).1
one_event-Sized zero w = none_left
one_event-Sized (suc n) w = one_more refl none_left

one_event_counted :
    (n : ℕ) (w : small_sys.World) → length (one_event n w).1 ≡ to_ℕ (one_event n w).0
one_event_counted zero w = refl
one_event_counted (suc n) w = refl

one_event_limited : (n : ℕ) (w : small_sys.World) → to_ℕ (one_event n w).0 ≤ n
one_event_limited zero w = omega arith
one_event_limited (suc n) w = omega arith

wait_keeps :
    (n : ℕ) (w : small_sys.World) (g : ℤ)
    → small_kernel.is_open (one_event n w).2 g ≡ small_kernel.is_open w g
wait_keeps zero w g = refl
wait_keeps (suc n) w g = refl

abbrev libc : Sys
libc = record {
  World = small_sys.World;
  errno = small_errno;
  br_words = 4;
  event_size = 2;
  ctl_del = pos 2;
  last_os_error = λ w. none;
  close = small_sys.close;
  epoll_create1 = small_sys.inotify_init1;
  epoll_ctl = λ fd op target event w. (pos 0, w);
  epoll_wait = λ fd limit timeout w. one_event limit w;
}

abbrev kernel : Kernel libc
kernel = record {
  is_open = small_kernel.is_open;
  close_closes = small_kernel.close_closes;
  create_opens = small_kernel.inotify_opens;
  ctl_keeps = λ fd op target event w g. refl;
  wait_keeps = λ fd limit timeout w g. wait_keeps limit w g;
}

libc-WaitLaws : WaitLaws libc
libc-WaitLaws = record {
  sized = λ fd limit timeout w. one_event-Sized limit w;
  counted = λ fd limit timeout w valid. one_event_counted limit w;
  limited = λ fd limit timeout w. one_event_limited limit w;
}

-- Request `op` with the arguments `a`, `b` and `d`.
abbrev request : ℕ → ℕ → ℕ → ℕ → Utcb
request op a b d = record {
  mr = λ i. get_or (op ∷ a ∷ b ∷ d ∷ []) i 0;
  len = 0;
  payload = replicate 24 0;
}

abbrev no_instances : Instances list_slab libc
no_instances = record { table = []; utcb = request 0 0 0 0; os = record { fds = []; stored = [] } }

no_instances-Ledger :
    Ledger ◌==◌
      (small_kernel.is_open no_instances.os)
      (held list_slab list_slab_laws libc kernel no_instances.table)
      (kernel.is_open no_instances.os)
no_instances-Ledger = record {
  live = λ k fd e. cc;
  distinct = λ j k fd e f. cc;
  accounted = λ fd e. inl e;
}

abbrev one_instance : Instances list_slab libc
one_instance = record {
  table = some (record { fd = pos 1 }) ∷ [];
  utcb = request 2 0 5 0;
  os = record { fds = 1 ∷ []; stored = [] };
}

run-Accounts_example :
    let c =
      (run list_slab libc
        (message (request 0 0 0 0) ∷ ipc_error ∷ message (request 3 0 0 0) ∷ [])
        no_instances).1 in
    Ledger ◌==◌
      (small_kernel.is_open no_instances.os)
      (held list_slab list_slab_laws libc kernel c.table)
      (kernel.is_open c.os)
run-Accounts_example =
    run-Accounts list_slab list_slab_laws libc kernel (small_kernel.is_open no_instances.os)
      (message (request 0 0 0 0) ∷ ipc_error ∷ message (request 3 0 0 0) ∷ []) no_instances
      no_instances-Ledger

handle_wait-events_example :
    let limit = min (to_ℕ (as_i32 5)) 12 in
    let call = one_event limit one_instance.os in
    let u = (handle_wait list_slab libc one_instance).utcb in
    (is_neg call.0 ≡ true)
    ⊎ ((u.mr 0 ≡ length call.1)
        × (u.mr 0 ≤ to_ℕ (as_i32 5))
        × (u.len ≡ u.mr 0 * 2)
        × (u.len ≤ br_data_bytes 4)
        × (take u.len u.payload ≡ concat call.1))
handle_wait-events_example =
    handle_wait-events libc list_slab one_instance (record { fd = pos 1 }) libc-WaitLaws refl refl
      (omega arith) (omega arith)
