-- ===== src/Scheduler/Autosar/Unlocking.antt =====
-- `unlock_mutex` of src/crates/l4/scheduler/autosar.rs.
use l4rerust.Base.{ℕ, ◌≤◌, ◌≡◌, refl, ap, sym, ◌∙◌, subst, true, false, ◌||◌, some, ◌==◌, arith}
use l4rerust.Scheduler.Queue.{contains, retain_ne, contains-retain_ne, Search, SearchLaws}
use l4rerust.Scheduler.Autosar.{
  Task, MutexState, AutosarScheduler, set_task, hand_over, inherited, reschedule, release,
  unlock_mutex,
}
use l4rerust.Scheduler.Autosar.Order.{prio, has_task, runnable, IsScheduled}
use l4rerust.Scheduler.Autosar.Boosting.{Boosted}
use l4rerust.Scheduler.Autosar.Ready.{Rescheduled}
use l4rerust.Scheduler.Autosar.Frames.{Keeps, Keeps-reschedule}
use l4rerust.Scheduler.Autosar.Inheriting.{HasInherited, inherited_bound}
use l4rerust.Scheduler.Autosar.Rescheduling.{reschedule_lem}
use l4rerust.Scheduler.Autosar.HandingOver.{handed, is_first, Handed, hand_over_lem}

module _ (search : Search) (laws : SearchLaws search) where
  -- The task without the mutex, and with the priority `q`.
  abbrev released : ℕ → ℕ → Task → AutosarScheduler → AutosarScheduler
  released task mutex t s =
      set_task task (record t { owned_mutexes = retain_ne mutex t.owned_mutexes }) s

  abbrev pub lowered : ℕ → Task → ℕ → Task
  lowered mutex t q = record t {
    owned_mutexes = retain_ne mutex t.owned_mutexes;
    current_priority = q;
  }

  release_split :
      (task mutex q : ℕ) (m : MutexState) (t : Task) (s s₁ : AutosarScheduler)
      → hand_over search mutex m s ≡ some s₁
      → s₁.tasks task ≡ some t
      → inherited search
          (released task mutex t s₁)
          (retain_ne mutex t.owned_mutexes)
          t.base_priority
        ≡ some q
      → release search task mutex m s
        ≡ reschedule search task (set_task task (lowered mutex t q) (released task mutex t s₁))
  unfolding release
  release_split task mutex q m t s s₁ e h i = ground (arith, e, h, i)

  unlock_split :
      (task mutex : ℕ) (m : MutexState) (s : AutosarScheduler)
      → s.mutexes mutex ≡ some m
      → m.owner ≡ some task
      → unlock_mutex search task mutex s ≡ release search task mutex m s
  unfolding unlock_mutex
  unlock_split task mutex m s e o = ground (arith, e, o)

  -- What is left to inherit is at or behind the priority of the task.
  left_over :
      (task mutex : ℕ) (m : MutexState) (t : Task) (s s₁ : AutosarScheduler)
      → s.tasks task ≡ some t
      → HasInherited t s
      → Handed search laws task mutex m s s₁
      → (q : ℕ) × (inherited search
            (released task mutex t s₁)
            (retain_ne mutex t.owned_mutexes)
            t.base_priority
          ≡ some q)
        × (t.current_priority ≤ q)
        × (q ≤ t.base_priority)
  left_over task mutex m t s s₁ found i h =
      inherited_bound search (released task mutex t s₁) t.current_priority t.base_priority
        (retain_ne mutex t.owned_mutexes) i.at_most_base
        (λ id state w rest c e waits.
          let split = contains-retain_ne id mutex t.owned_mutexes in
          let owned : contains id t.owned_mutexes ≡ true = ground (arith, c, split) in
          let other : (mutex == id) ≡ false = ground (arith, c, split) in
          let (known, before) =
            i.before_waiters id state w rest owned (sym (h.others id other) ∙ e) waits in
          let k = h.same_known w in
          let p = h.same_prio w in
          let same = h.same_task in
          (ground (arith, known, k), ground (arith, before, p, same, found)))

  -- What `unlock_mutex` leaves: a scheduled state, in which the first waiter can run too; the mutex is
  -- the first waiter's, or free; and the task has given it up, with a priority between its last and its
  -- own.
  pub record Unlocked (task mutex : ℕ) (m : MutexState) (t : Task) (s s' : AutosarScheduler)
      : Type 0 where
    pub scheduled : IsScheduled s'
    pub can_run : (j : ℕ) → runnable s' j ≡ (is_first j m.waiters || runnable s j)
    pub passed : s'.mutexes mutex ≡ some (handed m.waiters)
    pub given_up : s'.tasks task ≡ some (lowered mutex t (prio s' task))
    pub at_least : t.current_priority ≤ prio s' task
    pub at_most : prio s' task ≤ t.base_priority

  Boosted-lowered :
      (task mutex q : ℕ) (t : Task) (s : AutosarScheduler)
      → s.tasks task ≡ some t
      → Boosted task s (set_task task (lowered mutex t q) (released task mutex t s))
  Boosted-lowered task mutex q t s found = record {
    same_ready = refl;
    same_current = refl;
    all_known = λ j h. ground (arith, h);
    others = λ j h. ground (arith, h);
  }

  finish :
      (task mutex q : ℕ) (m : MutexState) (t : Task) (s s₁ s' : AutosarScheduler)
      → Handed search laws task mutex m s s₁
      → t.current_priority ≤ q
      → q ≤ t.base_priority
      → reschedule search task (set_task task (lowered mutex t q) (released task mutex t s₁))
        ≡ some s'
      → Rescheduled search laws (set_task task (lowered mutex t q) (released task mutex t s₁)) s'
      → Unlocked task mutex m t s s'
  finish task mutex q m t s s₁ s' h low high e r =
      let kept = subst (Keeps s₁.mutexes) e (
        Keeps-reschedule search task
          (set_task task (lowered mutex t q) (released task mutex t s₁))) in
      let own : s'.tasks task ≡ some (lowered mutex t q) =
        ap (λ f. f task) r.same_tasks ∙ ground arith in
      let now : prio s' task ≡ q = ground (arith, own) in
      record {
        scheduled = r.scheduled;
        can_run = λ j. r.none_lost j ∙ h.can_run j;
        passed = ap (λ f. f mutex) kept ∙ h.passed;
        given_up = own ∙ ap (λ k. some (lowered mutex t k)) (sym now);
        at_least = omega (arith, now, low);
        at_most = omega (arith, now, high);
      }

  -- The running task unlocks a mutex that it owns in a scheduled state, where the waiters are in the map
  -- and it is none of them, and its priority is not behind its own and those of the first waiters of
  -- its mutexes: `unlock_mutex` does not panic and leaves a scheduled state, in which the first waiter
  -- owns the mutex and can run, and otherwise the same tasks; the task has given up the mutex, and its
  -- priority is between the last one and its own.
  pub unlock_mutex_lem :
      (task mutex : ℕ) (m : MutexState) (t : Task) (s : AutosarScheduler)
      → IsScheduled s
      → s.current ≡ some task
      → s.tasks task ≡ some t
      → s.mutexes mutex ≡ some m
      → m.owner ≡ some task
      → contains task m.waiters ≡ false
      → ((j : ℕ) → contains j m.waiters ≡ true → has_task s j ≡ true)
      → HasInherited t s
      → (s' : AutosarScheduler) × (unlock_mutex search task mutex s ≡ some s')
        × Unlocked task mutex m t s s'
  unlock_mutex_lem task mutex m t s v runs found e owned absent known i =
      let (s₁, passes, h) = hand_over_lem search laws task mutex m s v absent known in
      let there = h.same_task ∙ found in
      let (q, inherits, low, high) = left_over task mutex m t s s₁ found i h in
      let can = h.can_run task in
      let before = h.same_prio task in
      let (s', ends, r) =
        reschedule_lem search laws task s₁
          (set_task task (lowered mutex t q) (released task mutex t s₁))
          (Boosted-lowered task mutex q t s₁ there) h.scheduled (ground (arith, can, runs))
          (ground (arith, there)) (ground (arith, there, low)) in
      (
        s',
        unlock_split task mutex m s e owned
            ∙ release_split task mutex q m t s s₁ passes there inherits
            ∙ ends,
        finish task mutex q m t s s₁ s' h low high ends r,
      )
