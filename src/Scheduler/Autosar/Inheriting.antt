-- ===== src/Scheduler/Autosar/Inheriting.antt =====
-- The priority that `unlock_mutex` of src/crates/l4/scheduler/autosar.rs gives back to a task.
use l4rerust.Base.{
  ℕ, ◌≤◌, ◌≡◌, refl, ◌∙◌, true, List, [], ◌∷◌, min, none, some, Option-cases, inl, inr, ◌⊎◌, arith,
}
use l4rerust.Scheduler.Queue.{contains, Search}
use l4rerust.Scheduler.Autosar.{Task, MutexState, AutosarScheduler, priority, inherited}
use l4rerust.Scheduler.Autosar.Order.{prio, has_task, priority-has_task}

-- The task's priority is not behind its own and not behind that of the first waiter of a mutex that it
-- owns.
pub record HasInherited (t : Task) (s : AutosarScheduler) : Type 0 where
  pub at_most_base : t.current_priority ≤ t.base_priority
  pub before_waiters :
      (id : ℕ) (m : MutexState) (w : ℕ) (rest : List ℕ)
      → contains id t.owned_mutexes ≡ true
      → s.mutexes id ≡ some m
      → m.waiters ≡ w ∷ rest
      → (has_task s w ≡ true) × (t.current_priority ≤ prio s w)

pub List-cases : (xs : List ℕ) → (xs ≡ []) ⊎ ((x : ℕ) × (rest : List ℕ) × (xs ≡ x ∷ rest))
List-cases [] = inl refl
List-cases (x ∷ rest) = inr (x, rest, refl)

module _ (search : Search) (s : AutosarScheduler) where
  inherited_absent :
      (id p : ℕ) (ids : List ℕ)
      → s.mutexes id ≡ none
      → inherited search s (id ∷ ids) p ≡ inherited search s ids p
  unfolding inherited
  inherited_absent id p ids e = ground (arith, e)

  inherited_free :
      (id p : ℕ) (ids : List ℕ) (m : MutexState)
      → s.mutexes id ≡ some m
      → m.waiters ≡ []
      → inherited search s (id ∷ ids) p ≡ inherited search s ids p
  unfolding inherited
  inherited_free id p ids m e w = ground (arith, e, w)

  inherited_waiter :
      (id p : ℕ) (ids : List ℕ) (m : MutexState) (w : ℕ) (rest : List ℕ) (k : ℕ)
      → s.mutexes id ≡ some m
      → m.waiters ≡ w ∷ rest
      → priority s w ≡ some k
      → inherited search s (id ∷ ids) p ≡ inherited search s ids (min p k)
  unfolding inherited
  inherited_waiter id p ids m w rest k e h q = ground (arith, e, h, q)

  -- The fold over the mutexes stays at or behind any bound of what it reads.
  pub inherited_bound :
      (k p : ℕ) (ids : List ℕ)
      → k ≤ p
      → ((id : ℕ) (m : MutexState) (w : ℕ) (rest : List ℕ)
          → contains id ids ≡ true
          → s.mutexes id ≡ some m
          → m.waiters ≡ w ∷ rest
          → (has_task s w ≡ true) × (k ≤ prio s w))
      → (q : ℕ) × (inherited search s ids p ≡ some q) × (k ≤ q) × (q ≤ p)
  unfolding inherited
  inherited_bound k p [] h each = (p, refl, h, omega arith)
  inherited_bound k p (id ∷ ids) h each =
      let others = λ (j : ℕ) (m : MutexState) (w : ℕ) (rest : List ℕ) (c : contains j ids ≡ true).
        each j m w rest (ground (arith, c)) in
      elim (Option-cases (s.mutexes id)) [
        | inl missing ↦
            let (q, e, low, high) = inherited_bound k p ids h others in
            (q, inherited_absent id p ids missing ∙ e, low, high)
        | inr (m, found) ↦ elim (List-cases m.waiters) [
          | inl free ↦
              let (q, e, low, high) = inherited_bound k p ids h others in
              (q, inherited_free id p ids m found free ∙ e, low, high)
          | inr (w, rest, waits) ↦
              let (known, behind) = each id m w rest (ground arith) found waits in
              let (q, e, low, high) =
                inherited_bound k (min p (prio s w)) ids (omega (arith, h, behind)) others in
              (
                q,
                inherited_waiter id p ids m w rest (prio s w) found waits
                      (priority-has_task s w known)
                    ∙ e,
                low,
                omega (arith, high),
              )
        ]
      ]
