-- ===== src/LinuxShims/Cycle.antt =====
-- Modules of src/linux_shims/src/lib.rs that count: which init functions succeed and which exit
-- handlers run.
use l4rerust.Base.{
  ℕ, suc, ◌+◌, ◌≤◌, ◌≡◌, refl, sym, subst, true, false, Option, none, some, is_some, List, [], ◌∷◌,
  if◌then◌else◌, length, arith, Bool-cases, if_true, if_false, inl, inr,
}
use l4rerust.Base.Int.{ℤ, pos, eq_ℤ}
use l4rerust.LinuxShims.{Shims, initial, module_init, module_exit, module_shutdown, handled}

-- Calls of a driver; an init function is given by what it returns, an exit handler by its number.
pub data Call : Type 0 where
  inits : ℤ → Call
  exits : ℕ → Call
  shuts_down : Call

-- How many init functions have run and succeeded, and the handlers that have run, the last one first.
pub record Log : Type 0 where
  pub ran : ℕ
  pub succeeded : ℕ
  pub handlers : List ℕ

abbrev init_fn : ℤ → Log → ℤ × Log
init_fn result w = (
  result,
  record w {
    ran = w.ran + 1;
    succeeded = (if eq_ℤ result (pos 0) then w.succeeded + 1 else w.succeeded);
  },
)

abbrev exit_fn : ℕ → Log → Log
exit_fn n w = record w { handlers = n ∷ w.handlers }

abbrev pub after : Call → Shims Log → Shims Log
after (inits result) s = module_init Log (init_fn result) s
after (exits n) s = module_exit Log (exit_fn n) s
after shuts_down s = module_shutdown Log s

abbrev pub after_all : List Call → Shims Log → Shims Log
after_all [] s = s
after_all (c ∷ cs) s = after_all cs (after c s)

-- Handlers have run at most once for each init function that succeeded, with one to spare while a
-- driver is there, and one is kept only for a driver that is there.
pub record IsBalanced (s : Shims Log) : Type 0 where
  pub balance : length s.world.handlers + (if s.init_done then 1 else 0) ≤ s.world.succeeded
  pub held : is_some s.exit_handler ≡ true → s.init_done ≡ true

-- What a kept handler does to the log.
pub record IsExit (s : Shims Log) : Type 0 where
  pub adds_one :
      (h : Log → Log)
      → s.exit_handler ≡ some h
      → (w : Log)
      → (length (h w).handlers ≡ suc (length w.handlers)) × ((h w).succeeded ≡ w.succeeded)

Both : Shims Log → Type 0
Both s = IsBalanced s × IsExit s

-- The two branches of each function.
init_again : (f : Log → ℤ × Log) (s : Shims Log) → s.init_done ≡ true → module_init Log f s ≡ s
unfolding module_init
init_again f s e = if_true s.init_done s _ e

init_first :
    (f : Log → ℤ × Log) (s : Shims Log)
    → s.init_done ≡ false
    → module_init Log f s
      ≡ record s { init_done = eq_ℤ (f s.world).0 (pos 0); world = (f s.world).1 }
unfolding module_init
init_first f s e = if_false s.init_done s _ e

exit_kept :
    (h : Log → Log) (s : Shims Log)
    → s.init_done ≡ true
    → module_exit Log h s ≡ record s { exit_handler = some h }
unfolding module_exit
exit_kept h s e = if_true s.init_done _ s e

exit_ignored : (h : Log → Log) (s : Shims Log) → s.init_done ≡ false → module_exit Log h s ≡ s
unfolding module_exit
exit_ignored h s e = if_false s.init_done _ s e

shutdown_first :
    (s : Shims Log)
    → s.init_done ≡ true
    → module_shutdown Log s ≡ handled Log s.exit_handler (record s { init_done = false })
unfolding module_shutdown
shutdown_first s e = if_true s.init_done _ s e

shutdown_again : (s : Shims Log) → s.init_done ≡ false → module_shutdown Log s ≡ s
unfolding module_shutdown
shutdown_again s e = if_false s.init_done _ s e

handled-Both :
    (o : Option (Log → Log)) (s : Shims Log)
    → s.exit_handler ≡ o
    → s.init_done ≡ true
    → Both s
    → Both (handled Log o (record s { init_done = false }))
unfolding Both
handled-Both none s e done (b, x) = (
  record {
    balance = let k = b.balance in ground (arith, done);
    held = λ kept. absurd (ground (arith, e));
  },
  record { adds_one = x.adds_one },
)
handled-Both (some h) s e done (b, x) =
    let one = x.adds_one h e s.world in
    (
      record { balance = let k = b.balance in ground (arith, done, one); held = λ kept. absurd cc },
      record { adds_one = λ h' kept w. absurd cc },
    )

init_first-Both :
    (result : ℤ) (s : Shims Log)
    → s.init_done ≡ false
    → Both s
    → Both (record s { init_done = eq_ℤ result (pos 0); world = (init_fn result s.world).1 })
unfolding Both
init_first-Both result s off (b, x) = (
  record {
    balance = let k = b.balance in ground (arith, off);
    held = λ kept. absurd (let h = b.held kept in cc);
  },
  record { adds_one = x.adds_one },
)

after-Both : (c : Call) (s : Shims Log) → Both s → Both (after c s)
unfolding Both
after-Both (inits result) s v = elim (Bool-cases s.init_done) [
  | inl done ↦ subst Both (sym (init_again (init_fn result) s done)) v
  | inr off ↦ subst Both (sym (init_first (init_fn result) s off)) (init_first-Both result s off v)
]
after-Both (exits n) s (b, x) = elim (Bool-cases s.init_done) [
  | inl done ↦ subst Both (sym (exit_kept (exit_fn n) s done)) (
    record { balance = b.balance; held = λ _. done },
    record {
      adds_one = λ h e w.
          let same : exit_fn n ≡ h = cc in
          subst
            (λ g.
              (length (g w).handlers ≡ suc (length w.handlers)) × ((g w).succeeded ≡ w.succeeded))
            same (refl, refl);
    },
  )
  | inr off ↦ subst Both (sym (exit_ignored (exit_fn n) s off)) (b, x)
]
after-Both shuts_down s v = elim (Bool-cases s.init_done) [
  | inl done ↦ subst Both (sym (shutdown_first s done)) (handled-Both s.exit_handler s refl done v)
  | inr off ↦ subst Both (sym (shutdown_again s off)) v
]

all-Both : (cs : List Call) (s : Shims Log) → Both s → Both (after_all cs s)
all-Both [] s v = v
all-Both (c ∷ cs) s v = all-Both cs (after c s) (after-Both c s v)

-- Over any calls of the shims from their start on, init functions that fail included: exit handlers
-- have run at most once for each init function that succeeded, with one to spare while a driver is
-- there, and a handler is kept only while a driver is there.
pub after_all-IsBalanced :
    (cs : List Call)
    → IsBalanced (after_all cs (initial Log (record { ran = 0; succeeded = 0; handlers = [] })))
unfolding Both
after_all-IsBalanced cs =
    let start : Shims Log = initial Log (record { ran = 0; succeeded = 0; handlers = [] }) in
    (all-Both cs start (
      record { balance = omega arith; held = λ kept. absurd cc },
      record { adds_one = λ h e w. absurd cc },
    )).0
