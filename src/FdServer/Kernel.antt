-- ===== src/FdServer/Kernel.antt =====
-- What the manual pages say of the calls that src/fd_server/src/main.rs makes, as far as it relies
-- on it: which descriptors are open before and after, and how much a read returns.
use l4rerust.Base.{ℕ, ◌≤◌, ◌≡◌, Bool, true, false, if◌then◌else◌, List, length}
use l4rerust.Base.Int.{ℤ, negsuc, is_neg, to_ℕ, eq_ℤ}
use l4rerust.FdServer.Host.{Sys}

-- A call that may open a descriptor: it returns a negative number and opens none, or returns one
-- that was not open and opens it alone.
pub record Opens (before after : ℤ → Bool) (fd : ℤ) : Type 0 where
  pub failed : is_neg fd ≡ true → (g : ℤ) → after g ≡ before g
  pub unopened : is_neg fd ≡ false → before fd ≡ false
  pub opened : is_neg fd ≡ false → (g : ℤ) → after g ≡ (if eq_ℤ fd g then true else before g)

pub record Kernel (sys : Sys) : Type 1 where
  pub is_open : sys.World → ℤ → Bool
  pub close_closes :
      (fd : ℤ) (w : sys.World) (g : ℤ)
      → is_open (sys.close fd w) g ≡ (if eq_ℤ fd g then false else is_open w g)
  pub eventfd_opens :
      (n : ℕ) (flags : ℤ) (w : sys.World)
      → let (fd, w') = sys.eventfd n flags w in Opens (is_open w) (is_open w') fd
  pub timerfd_opens :
      (clock flags : ℤ) (w : sys.World)
      → let (fd, w') = sys.timerfd_create clock flags w in Opens (is_open w) (is_open w') fd
  pub inotify_opens :
      (flags : ℤ) (w : sys.World)
      → let (fd, w') = sys.inotify_init1 flags w in Opens (is_open w) (is_open w') fd
  -- -1 asks for a new descriptor; one that is open is changed in place.
  pub signalfd_opens :
      (mask : List ℕ) (size : ℕ) (flags : ℤ) (w : sys.World)
      → let (fd, w') = sys.signalfd4 (negsuc 0) mask size flags w in
        Opens (is_open w) (is_open w') fd
  pub signalfd_keeps :
      (fd : ℤ) (mask : List ℕ) (size : ℕ) (flags : ℤ) (w : sys.World) (g : ℤ)
      → is_open w fd ≡ true
      → is_open (sys.signalfd4 fd mask size flags w).1 g ≡ is_open w g
  pub read_keeps :
      (fd : ℤ) (buf : List ℕ) (w : sys.World) (g : ℤ)
      → is_open (sys.read fd buf w).2 g ≡ is_open w g
  pub write_keeps :
      (fd : ℤ) (bytes : List ℕ) (w : sys.World) (g : ℤ)
      → is_open (sys.write fd bytes w).1 g ≡ is_open w g
  pub settime_keeps :
      (fd flags : ℤ) (spec : List ℕ) (want_old : Bool) (w : sys.World) (g : ℤ)
      → is_open (sys.timerfd_settime fd flags spec want_old w).2 g ≡ is_open w g
  pub gettime_keeps :
      (fd : ℤ) (w : sys.World) (g : ℤ) → is_open (sys.timerfd_gettime fd w).2 g ≡ is_open w g
  pub add_watch_keeps :
      (fd : ℤ) (path : List ℕ) (mask : ℕ) (w : sys.World) (g : ℤ)
      → is_open (sys.inotify_add_watch fd path mask w).1 g ≡ is_open w g
  pub rm_watch_keeps :
      (fd wd : ℤ) (w : sys.World) (g : ℤ) → is_open (sys.inotify_rm_watch fd wd w).1 g ≡ is_open w g
  -- A read returns no more than the buffer holds, and does not change the buffer's size.
  pub read_fits : (fd : ℤ) (buf : List ℕ) (w : sys.World) → to_ℕ (sys.read fd buf w).0 ≤ length buf
  pub length-read :
      (fd : ℤ) (buf : List ℕ) (w : sys.World) → length (sys.read fd buf w).1 ≡ length buf
