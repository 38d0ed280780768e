-- ===== src/EpollServer/Host.antt =====
-- What src/epoll_server/src/main.rs calls in libc, and what the manual pages say of it. An epoll event
-- is its `event_size` bytes.
use l4rerust.Base.{ℕ, ◌≤◌, ◌≡◌, Bool, false, if◌then◌else◌, Option, List, [], ◌∷◌, length}
use l4rerust.Base.Int.{ℤ, to_ℕ, is_neg, eq_ℤ}
use l4rerust.Ipc.{Errno}
use l4rerust.FdServer.Kernel.{Opens}

-- `none` is the null pointer that `epoll_ctl` takes; `epoll_wait` gives the events that it has put
-- into the buffer.
pub record Sys : Type 1 where
  pub World : Type 0
  pub errno : Errno
  pub br_words : ℕ
  pub event_size : ℕ
  pub ctl_del : ℤ
  pub last_os_error : World → Option ℤ
  pub close : ℤ → World → World
  pub epoll_create1 : ℤ → World → ℤ × World
  pub epoll_ctl : ℤ → ℤ → ℤ → Option (List ℕ) → World → ℤ × World
  pub epoll_wait : ℤ → ℕ → ℤ → World → ℤ × List (List ℕ) × World

pub data Sized (n : ℕ) : List (List ℕ) → Type 0 where
  none_left : Sized n []
  one_more : {e : List ℕ} {es : List (List ℕ)} → length e ≡ n → Sized n es → Sized n (e ∷ es)

pub record Kernel (sys : Sys) : Type 0 where
  pub is_open : sys.World → ℤ → Bool
  pub close_closes :
      (fd : ℤ) (w : sys.World) (g : ℤ)
      → is_open (sys.close fd w) g ≡ (if eq_ℤ fd g then false else is_open w g)
  pub create_opens :
      (flags : ℤ) (w : sys.World)
      → let (fd, w') = sys.epoll_create1 flags w in Opens (is_open w) (is_open w') fd
  pub ctl_keeps :
      (fd op target : ℤ) (event : Option (List ℕ)) (w : sys.World) (g : ℤ)
      → is_open (sys.epoll_ctl fd op target event w).1 g ≡ is_open w g
  pub wait_keeps :
      (fd : ℤ) (limit : ℕ) (timeout : ℤ) (w : sys.World) (g : ℤ)
      → is_open (sys.epoll_wait fd limit timeout w).2 g ≡ is_open w g

-- A wait that succeeds returns the number of the events that it has put into the buffer, at most
-- `limit` of them.
pub record WaitLaws (sys : Sys) : Type 0 where
  pub sized :
      (fd : ℤ) (limit : ℕ) (timeout : ℤ) (w : sys.World)
      → Sized sys.event_size (sys.epoll_wait fd limit timeout w).1
  pub counted :
      (fd : ℤ) (limit : ℕ) (timeout : ℤ) (w : sys.World)
      → is_neg (sys.epoll_wait fd limit timeout w).0 ≡ false
      → length (sys.epoll_wait fd limit timeout w).1 ≡ to_ℕ (sys.epoll_wait fd limit timeout w).0
  pub limited :
      (fd : ℤ) (limit : ℕ) (timeout : ℤ) (w : sys.World)
      → to_ℕ (sys.epoll_wait fd limit timeout w).0 ≤ limit
