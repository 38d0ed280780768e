-- ===== src/Scheduler/Autosar/Frames.antt =====
-- What the ready queue of src/crates/l4/scheduler/autosar.rs does not touch: the mutexes.
use l4rerust.Base.{
  ℕ, ◌≡◌, refl, Bool, true, false, [], ◌∷◌, Option, none, some, ◌||◌, subst, ltb, if◌then◌else◌,
}
use l4rerust.Scheduler.Queue.{◌>>=◌, contains, retain_ne, keys_of, Search}
use l4rerust.Scheduler.Autosar.{
  MutexState, AutosarScheduler, priority, is_current, insert_ready_sorted, run_next, preempt,
  make_ready, reschedule,
}

-- If there is a state, its mutexes are these.
abbrev pub Keeps : (ℕ → Option MutexState) → Option AutosarScheduler → Type 0
Keeps ms none = Unit
Keeps ms (some s) = s.mutexes ≡ ms

Keeps-bind :
    {A : Type 0} (ms : ℕ → Option MutexState) (o : Option A) (f : A → Option AutosarScheduler)
    → ((a : A) → Keeps ms (f a))
    → Keeps ms (o >>= f)
Keeps-bind ms none f each = tt
Keeps-bind ms (some a) f each = each a

Keeps-then :
    (ms : ℕ → Option MutexState) (o : Option AutosarScheduler)
    (f : AutosarScheduler → Option AutosarScheduler)
    → Keeps ms o
    → ((s : AutosarScheduler) → s.mutexes ≡ ms → Keeps ms (f s))
    → Keeps ms (o >>= f)
Keeps-then ms none f h each = tt
Keeps-then ms (some s) f h each = each s h

Keeps-if :
    (ms : ℕ → Option MutexState) (b : Bool) (x y : Option AutosarScheduler)
    → Keeps ms x
    → Keeps ms y
    → Keeps ms (if b then x else y)
Keeps-if ms true x y hx hy = hx
Keeps-if ms false x y hx hy = hy

module _ (search : Search) where
  Keeps-insert_ready_sorted :
      (id : ℕ) (s : AutosarScheduler) → Keeps s.mutexes (insert_ready_sorted search id s)
  unfolding insert_ready_sorted
  Keeps-insert_ready_sorted id s =
      Keeps-bind s.mutexes (priority s id) _
        (λ p. Keeps-bind s.mutexes (keys_of (priority s) s.ready) _ (λ keys. refl))

  -- `run_next` by what the ready queue holds.
  Keeps-run_next : (s : AutosarScheduler) → Keeps s.mutexes (run_next search s)
  unfolding run_next
  Keeps-run_next s =
      elim s.ready
        as (λ r. Keeps s.mutexes (elim r [
          | [] ↦ some s
          | next ∷ rest ↦ do
            t ← s.tasks next
            some (record s {
              ready = rest;
              current = some next;
              started = (s.scheduler_cap, t.thread_cap) ∷ s.started;
            })
        ])) [ [] ↦ refl | next ∷ rest ↦ Keeps-bind s.mutexes (s.tasks next) _ (λ t. refl) ]

  Keeps-preempt : (s : AutosarScheduler) → Keeps s.mutexes (preempt search s)
  unfolding preempt
  Keeps-preempt s =
      elim s.current
        as (λ c. Keeps s.mutexes (elim c [
          | none ↦ run_next search s
          | some cur ↦ do
            s₁ ← insert_ready_sorted search cur (record s { current = none })
            run_next search s₁
        ])) [
          | none ↦ Keeps-run_next s
          | some cur ↦
              Keeps-then s.mutexes (insert_ready_sorted search cur (record s { current = none }))
                (run_next search) (Keeps-insert_ready_sorted cur (record s { current = none }))
                (λ s₁ e. subst (λ ms. Keeps ms (run_next search s₁)) e (Keeps-run_next s₁))
        ]

  pub Keeps-make_ready : (id : ℕ) (s : AutosarScheduler) → Keeps s.mutexes (make_ready search id s)
  unfolding make_ready
  Keeps-make_ready id s = Keeps-if s.mutexes (is_current id s || contains id s.ready) _ _ refl (
      Keeps-then s.mutexes (insert_ready_sorted search id s) _ (Keeps-insert_ready_sorted id s)
        (λ s₁ e.
          subst (λ ms. Keeps ms (after id s₁)) e
            (elim s₁.current as (λ c. Keeps s₁.mutexes (after_at id s₁ c)) [
              | none ↦ Keeps-run_next s₁
              | some cur ↦ Keeps-bind s₁.mutexes (priority s₁ cur) _ (λ p.
                  Keeps-bind s₁.mutexes (priority s₁ id) _
                    (λ n. Keeps-if s₁.mutexes (ltb n p) _ _ (Keeps-preempt s₁) refl))
            ])))
    where
      after_at : ℕ → AutosarScheduler → Option ℕ → Option AutosarScheduler
      after_at id s₁ c = elim c [
        | none ↦ run_next search s₁
        | some cur ↦ do
          cur_prio ← priority s₁ cur
          new_prio ← priority s₁ id
          if ltb new_prio cur_prio then preempt search s₁ else some s₁
      ]

      after : ℕ → AutosarScheduler → Option AutosarScheduler
      after id s₁ = after_at id s₁ s₁.current

  pub Keeps-reschedule : (id : ℕ) (s : AutosarScheduler) → Keeps s.mutexes (reschedule search id s)
  unfolding reschedule
  Keeps-reschedule id s =
      Keeps-if s.mutexes (contains id s.ready) _ _
        (Keeps-insert_ready_sorted id (record s { ready = retain_ne id s.ready }))
        (Keeps-if s.mutexes (is_current id s) _ _
          (elim s.ready
            as (λ r. Keeps s.mutexes (elim r [
              | [] ↦ some s
              | next ∷ rest ↦ do
                next_prio ← priority s next
                prio ← priority s id
                if ltb next_prio prio then preempt search s else some s
            ])) [
              | [] ↦ refl
              | next ∷ rest ↦ Keeps-bind s.mutexes (priority s next) _ (λ p.
                  Keeps-bind s.mutexes (priority s id) _
                    (λ n. Keeps-if s.mutexes (ltb p n) _ _ (Keeps-preempt s) refl))
            ])
          refl)
