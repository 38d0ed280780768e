-- ===== src/FdServer/Tests.antt =====
-- A small kernel that meets `FdServer.Kernel`, and the server of src/fd_server/src/main.rs run on it.
mod Runs
use l4rerust.Base.{
  ℕ, zero, suc, ◌+◌, ◌≤◌, ◌≡◌, refl, ap, ◌⊎◌, inl, inr, Bool, true, false, Option, none, some, List,
  [], ◌∷◌, arith, Bool-cases, if◌then◌else◌, ◌==◌, ◌||◌, length, ==_iff,
}
use l4rerust.Base.Int.{ℤ, pos, negsuc, eq_ℤ, is_neg, to_ℕ}
use l4rerust.Ipc.{Errno}
use l4rerust.FdServer.Host.{Sys}
use l4rerust.FdServer.Kernel.{Kernel, Opens}

abbrev total : List ℕ → ℕ
total [] = 0
total (x ∷ xs) = x + total xs

abbrev contains : ℕ → List ℕ → Bool
contains n [] = false
contains n (x ∷ xs) = x == n || contains n xs

abbrev without : ℕ → List ℕ → List ℕ
without n [] = []
without n (x ∷ xs) = if x == n then without n xs else x ∷ without n xs

contains-le : (n : ℕ) (xs : List ℕ) → contains n xs ≡ true → n ≤ total xs
contains-le n [] h = cc
contains-le n (x ∷ xs) h = ground (arith, contains-le n xs)

contains-fresh : (xs : List ℕ) → contains (suc (total xs)) xs ≡ false
contains-fresh xs = elim (Bool-cases (contains (suc (total xs)) xs)) [
  | inl h ↦ absurd (omega (arith, contains-le (suc (total xs)) xs h))
  | inr h ↦ h
]

contains-without :
    (n m : ℕ) (xs : List ℕ) → contains m (without n xs) ≡ (if n == m then false else contains m xs)
contains-without n m [] = ground arith
contains-without n m (x ∷ xs) = ground (arith, contains-without n m xs)

-- The descriptors that are open, and the bytes of the last write, which a read of as many bytes
-- returns.
pub record World : Type 0 where
  pub fds : List ℕ
  pub stored : List ℕ

abbrev is_open : World → ℤ → Bool
is_open w (pos n) = contains n w.fds
is_open w (negsuc n) = false

abbrev close : ℤ → World → World
close (pos n) w = record w { fds = without n w.fds }
close (negsuc n) w = w

abbrev open_new : World → ℤ × World
open_new w = (pos (suc (total w.fds)), record w { fds = suc (total w.fds) ∷ w.fds })

abbrev read : ℤ → List ℕ → World → ℤ × List ℕ × World
read fd buf w = (pos (length buf), if length w.stored == length buf then w.stored else buf, w)

abbrev signalfd4 : ℤ → World → ℤ × World
signalfd4 (pos n) w = (pos n, w)
signalfd4 (negsuc n) w = open_new w

abbrev pub small_errno : Errno
small_errno = record { eio = 5; enoent = 2; ebadf = 9; einval = 22; enosys = 38; eoverflow = 75 }

abbrev pub small_sys : Sys
small_sys = record {
  World = World;
  errno = small_errno;
  br_words = 5;
  itimerspec_size = 32;
  last_os_error = λ w. none;
  close = close;
  read = read;
  write = λ fd bytes w. (pos (length bytes), record w { stored = bytes });
  eventfd = λ n flags w. open_new w;
  timerfd_create = λ clock flags w. open_new w;
  timerfd_settime = λ fd flags spec want_old w. (pos 0, spec, w);
  timerfd_gettime = λ fd w. (pos 0, [], w);
  signalfd4 = λ fd mask size flags w. signalfd4 fd w;
  inotify_init1 = λ flags w. open_new w;
  inotify_add_watch = λ fd path mask w. (pos 1, w);
  inotify_rm_watch = λ fd wd w. (pos 0, w);
}

close_closes :
    (fd : ℤ) (w : World) (g : ℤ)
    → is_open (close fd w) g ≡ (if eq_ℤ fd g then false else is_open w g)
close_closes (pos n) w (pos m) = contains-without n m w.fds
close_closes (pos n) w (negsuc m) = refl
close_closes (negsuc n) w (pos m) = refl
close_closes (negsuc n) w (negsuc m) = ground arith

open_new-is_open :
    (w : World) (g : ℤ)
    → is_open (open_new w).1 g ≡ (if eq_ℤ (open_new w).0 g then true else is_open w g)
open_new-is_open w (pos m) = ground arith
open_new-is_open w (negsuc m) = refl

open_new-Opens : (w : World) → Opens (is_open w) (is_open (open_new w).1) (open_new w).0
open_new-Opens w = record {
  failed = λ e g. cc;
  unopened = λ e. contains-fresh w.fds;
  opened = λ e g. open_new-is_open w g;
}

signalfd4-keeps :
    (fd : ℤ) (w : World) (g : ℤ) → is_open w fd ≡ true → is_open (signalfd4 fd w).1 g ≡ is_open w g
signalfd4-keeps (pos n) w g h = refl
signalfd4-keeps (negsuc n) w g h = cc

length-read : (fd : ℤ) (buf : List ℕ) (w : World) → length (read fd buf w).1 ≡ length buf
length-read fd buf w = ground arith

pub small_kernel : Kernel small_sys
small_kernel = record {
  is_open = is_open;
  close_closes = close_closes;
  eventfd_opens = λ n flags w. open_new-Opens w;
  timerfd_opens = λ clock flags w. open_new-Opens w;
  inotify_opens = λ flags w. open_new-Opens w;
  signalfd_opens = λ mask size flags w. open_new-Opens w;
  signalfd_keeps = λ fd mask size flags w g h. signalfd4-keeps fd w g h;
  read_keeps = λ fd buf w g. refl;
  write_keeps = λ fd bytes w g. refl;
  settime_keeps = λ fd flags spec want_old w g. refl;
  gettime_keeps = λ fd w g. refl;
  add_watch_keeps = λ fd path mask w g. refl;
  rm_watch_keeps = λ fd wd w g. refl;
  read_fits = λ fd buf w. omega arith;
  length-read = length-read;
}
