-- ===== src/FdServer/Host.antt =====
-- What src/fd_server/src/main.rs calls in libc and the kernel, and the entries of its tables.
-- `World` is all that these calls read and change.
use l4rerust.Base.{ℕ, Bool, Option, List}
use l4rerust.Base.Int.{ℤ}
use l4rerust.Ipc.{Errno}

-- A call that fills a buffer takes its bytes and returns the new ones. `old` of `timerfd_settime`
-- is what it writes through a pointer that is not null.
pub record Sys : Type 1 where
  pub World : Type 0
  pub errno : Errno
  pub br_words : ℕ
  pub itimerspec_size : ℕ
  pub last_os_error : World → Option ℤ
  pub close : ℤ → World → World
  pub read : ℤ → List ℕ → World → ℤ × List ℕ × World
  pub write : ℤ → List ℕ → World → ℤ × World
  pub eventfd : ℕ → ℤ → World → ℤ × World
  pub timerfd_create : ℤ → ℤ → World → ℤ × World
  pub timerfd_settime : ℤ → ℤ → List ℕ → Bool → World → ℤ × List ℕ × World
  pub timerfd_gettime : ℤ → World → ℤ × List ℕ × World
  pub signalfd4 : ℤ → List ℕ → ℕ → ℤ → World → ℤ × World
  pub inotify_init1 : ℤ → World → ℤ × World
  pub inotify_add_watch : ℤ → List ℕ → ℕ → World → ℤ × World
  pub inotify_rm_watch : ℤ → ℤ → World → ℤ × World

pub record Eventfd : Type 0 where
  pub fd : ℤ

pub record Timerfd : Type 0 where
  pub fd : ℤ

pub record Signalfd : Type 0 where
  pub fd : ℤ

-- `watches` is the hash map of watch descriptors, newest first.
pub record Inotify : Type 0 where
  pub fd : ℤ
  pub watches : List (ℤ × ℤ)
