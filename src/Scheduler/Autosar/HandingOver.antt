-- ===== src/Scheduler/Autosar/HandingOver.antt =====
-- How `unlock_mutex` of src/crates/l4/scheduler/autosar.rs hands a mutex over.
use l4rerust.Base.{
  ℕ, ◌≡◌, refl, ap, sym, ◌∙◌, subst, Bool, true, false, ◌||◌, List, [], ◌∷◌, none, some, is_some,
  Option-cases, inl, inr, ◌==◌, arith,
}
use l4rerust.Scheduler.Queue.{contains, Search, SearchLaws}
use l4rerust.Scheduler.Autosar.{
  Task, MutexState, AutosarScheduler, set_task, set_mutex, insert_owned, make_ready, hand_over,
}
use l4rerust.Scheduler.Autosar.Order.{prio, has_task, runnable, IsScheduled, same_view}
use l4rerust.Scheduler.Autosar.Ready.{MadeReady, make_ready_lem}
use l4rerust.Scheduler.Autosar.Frames.{Keeps, Keeps-make_ready}
use l4rerust.Scheduler.Autosar.Inheriting.{List-cases}

-- The mutex with its first waiter as the owner, or free.
abbrev pub handed : List ℕ → MutexState
handed [] = record { owner = none; waiters = [] }
handed (next ∷ rest) = record { owner = some next; waiters = rest }

abbrev pub is_first : ℕ → List ℕ → Bool
is_first j [] = false
is_first j (next ∷ rest) = next == j

module _ (search : Search) (laws : SearchLaws search) where
  -- What `hand_over` leaves, for a task that does not wait.
  pub record Handed (task mutex : ℕ) (m : MutexState) (s s' : AutosarScheduler) : Type 0 where
    pub scheduled : IsScheduled s'
    pub same_task : s'.tasks task ≡ s.tasks task
    pub same_known : (j : ℕ) → has_task s' j ≡ has_task s j
    pub same_prio : (j : ℕ) → prio s' j ≡ prio s j
    pub can_run : (j : ℕ) → runnable s' j ≡ (is_first j m.waiters || runnable s j)
    pub passed : s'.mutexes mutex ≡ some (handed m.waiters)
    pub others : (j : ℕ) → (mutex == j) ≡ false → s'.mutexes j ≡ s.mutexes j

  hand_over_free :
      (mutex : ℕ) (m : MutexState) (s : AutosarScheduler)
      → m.waiters ≡ []
      → hand_over search mutex m s ≡ some (set_mutex mutex (handed []) s)
  unfolding hand_over
  hand_over_free mutex m s e = ground (arith, e)

  abbrev owns : ℕ → List ℕ → ℕ → Task → AutosarScheduler → AutosarScheduler
  owns next rest mutex t s =
      set_task next (record t { owned_mutexes = insert_owned mutex t.owned_mutexes })
        (set_mutex mutex (handed (next ∷ rest)) s)

  hand_over_next :
      (mutex next : ℕ) (rest : List ℕ) (m : MutexState) (t : Task) (s : AutosarScheduler)
      → m.waiters ≡ next ∷ rest
      → s.tasks next ≡ some t
      → hand_over search mutex m s ≡ make_ready search next (owns next rest mutex t s)
  unfolding hand_over
  hand_over_next mutex next rest m t s e h = ground (arith, e, h)

  passed_on :
      (task mutex next : ℕ) (rest : List ℕ) (m : MutexState) (t : Task) (s s' : AutosarScheduler)
      → m.waiters ≡ next ∷ rest
      → s.tasks next ≡ some t
      → (next == task) ≡ false
      → make_ready search next (owns next rest mutex t s) ≡ some s'
      → MadeReady search laws next (owns next rest mutex t s) s'
      → Handed task mutex m s s'
  passed_on task mutex next rest m t s s' e found differ ready r =
      let kept =
        subst (Keeps (owns next rest mutex t s).mutexes) ready
          (Keeps-make_ready search next (owns next rest mutex t s)) in
      record {
        scheduled = r.scheduled;
        same_task = ap (λ f. f task) r.same_tasks ∙ ground (arith, differ);
        same_known = λ j. ap (λ f. is_some (f j)) r.same_tasks ∙ ground (arith, found);
        same_prio = λ j. let at_j = ap (λ f. f j) r.same_tasks in ground (arith, at_j, found);
        can_run = λ j. r.now_runnable j ∙ ap (λ w. is_first j w || runnable s j) (sym e);
        passed = ap (λ f. f mutex) kept ∙ ground (arith, e);
        others = λ j h. ap (λ f. f j) kept ∙ ground (arith, h);
      }

  -- Handing over does not panic.
  pub hand_over_lem :
      (task mutex : ℕ) (m : MutexState) (s : AutosarScheduler)
      → IsScheduled s
      → contains task m.waiters ≡ false
      → ((j : ℕ) → contains j m.waiters ≡ true → has_task s j ≡ true)
      → (s' : AutosarScheduler) × (hand_over search mutex m s ≡ some s') × Handed task mutex m s s'
  hand_over_lem task mutex m s v absent known = elim (List-cases m.waiters) [
    | inl free ↦
        let s' : AutosarScheduler = set_mutex mutex (handed []) s in
        (
          s',
          hand_over_free mutex m s free,
          record {
            scheduled = same_view s s' refl refl (λ j. refl) (λ j. refl) v;
            same_task = refl;
            same_known = λ j. refl;
            same_prio = λ j. refl;
            can_run = λ j. ground (arith, free);
            passed = ground (arith, free);
            others = λ j h. ground (arith, h);
          },
        )
    | inr (next, rest, e) ↦
        let next_known = known next (ap (contains next) e ∙ ground arith) in
        let differ : (next == task) ≡ false =
          let c = sym (ap (contains task) e) ∙ absent in ground (arith, c) in
        elim (Option-cases (s.tasks next)) [
          | inl missing ↦ absurd (ground (arith, missing, next_known))
          | inr (t, found) ↦
              let v₀ =
                same_view s (owns next rest mutex t s) refl refl (λ j. ground (arith, found))
                  (λ j. ground (arith, found)) v in
              let (s', ready, r) =
                make_ready_lem search laws next (owns next rest mutex t s) v₀ (ground arith) in
              (
                s',
                hand_over_next mutex next rest m t s e found ∙ ready,
                passed_on task mutex next rest m t s s' e found differ ready r,
              )
        ]
  ]
