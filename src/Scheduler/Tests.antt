-- ===== src/Scheduler/Tests.antt =====
-- A search that meets `SearchLaws`, and runs of both policies of src/crates/l4/scheduler over it.
use l4rerust.Base.{
  ℕ, suc, ◌≤◌, ap, ◌∙◌, subst, map, ◌≡◌, refl, true, false, List, [], ◌∷◌, none, some, take, drop,
  ltb, ◌==◌, if◌then◌else◌, arith,
}
use l4rerust.Scheduler.Queue.{Search, SearchLaws, sorted, all_le, all_ge, all_ge-weaken, contains}
use l4rerust.Scheduler.Autosar
use l4rerust.Scheduler.Autosar.{
  AutosarScheduler, MutexState, set_task, make_ready, lock_mutex, unlock_mutex, new,
}
use l4rerust.Scheduler.Autosar.Inheriting.{HasInherited}
use l4rerust.Scheduler.Autosar.Unlocking.{Unlocked, unlock_mutex_lem}
use l4rerust.Scheduler.Autosar.Order.{IsScheduled, has_task, prio}
use l4rerust.Scheduler.Autosar.Locking.{Locked, lock_mutex_lem}
use l4rerust.Scheduler.Autosar.Ready.{MadeReady, make_ready_lem}
use l4rerust.Scheduler.LinuxLike.{LinuxLikeScheduler, Task, ticks}
use l4rerust.Scheduler.LinuxLike.Slices.{after_ticks, ticks_running}

-- The index of the first key that is not below `k`.
abbrev first_from : List ℕ → ℕ → ℕ
first_from [] k = 0
first_from (x ∷ xs) k = let rest = first_from xs k in if ltb x k then suc rest else 0

below : (ks : List ℕ) (k : ℕ) → sorted ks ≡ true → all_le k (take (first_from ks k) ks) ≡ true
below [] k s = refl
below (x ∷ xs) k s = ground (arith, below xs k)

above : (ks : List ℕ) (k : ℕ) → sorted ks ≡ true → all_ge k (drop (first_from ks k) ks) ≡ true
above [] k s = refl
above (x ∷ xs) k s = ground (arith, above xs k, all_ge-weaken k x xs)

abbrev linear : Search
linear = record { position = first_from }

linear-SearchLaws : SearchLaws linear
linear-SearchLaws = record { below = below; above = above }

-- Two tasks, of which none is ready.
abbrev two_tasks : AutosarScheduler
two_tasks = record (new 0) {
  tasks = λ id.
      if id == 1
      then some (record {
        period = 100;
        base_priority = 100;
        current_priority = 100;
        thread_cap = 11;
        owned_mutexes = [];
      })
      else if id == 2
      then some (record {
        period = 200;
        base_priority = 200;
        current_priority = 200;
        thread_cap = 12;
        owned_mutexes = [];
      })
      else none;
}

two_tasks-IsScheduled : IsScheduled two_tasks
two_tasks-IsScheduled = record {
  ordered = record { known = λ id c. cc; in_order = refl; distinct = refl };
  busy = λ cur e. cc;
  idle = λ e. refl;
}

make_ready_lem_example :
    (s' : AutosarScheduler) × (make_ready linear 2 two_tasks ≡ some s')
    × MadeReady linear linear-SearchLaws 2 two_tasks s'
make_ready_lem_example =
    make_ready_lem linear linear-SearchLaws 2 two_tasks two_tasks-IsScheduled refl

-- Task 1 runs, and task 2 is ready and owns the mutex 7.
abbrev contended : AutosarScheduler
contended = record two_tasks {
  ready = 2 ∷ [];
  current = some 1;
  mutexes = λ id. if id == 7 then some (record { owner = some 2; waiters = [] }) else none;
}

contended-IsScheduled : IsScheduled contended
contended-IsScheduled = record {
  ordered = record { known = λ id c. ground arith; in_order = refl; distinct = refl };
  busy = λ cur e.
      let same : 1 ≡ cur = cc in
      subst
        (λ x.
          (has_task contended x ≡ true)
          × (contains x (2 ∷ []) ≡ false)
          × (all_ge (prio contended x) (map (prio contended) (2 ∷ [])) ≡ true))
        same (refl, refl, refl);
  idle = λ e. absurd cc;
}

lock_mutex_lem_example :
    (s' : AutosarScheduler) × (lock_mutex linear 1 7 contended ≡ some s')
    × Locked linear linear-SearchLaws 1 true contended s'
lock_mutex_lem_example =
    lock_mutex_lem linear linear-SearchLaws 1 7 contended contended-IsScheduled refl
      (λ j c. absurd cc)
      (λ owner e. let same : 2 ≡ owner = cc in subst (λ x. has_task contended x ≡ true) same refl)

-- Task 1 runs and owns the mutex 7, for which task 2 waits.
abbrev owner : Autosar.Task
owner = record {
  period = 100;
  base_priority = 100;
  current_priority = 100;
  thread_cap = 11;
  owned_mutexes = 7 ∷ [];
}

abbrev waited_for : MutexState
waited_for = record { owner = some 1; waiters = 2 ∷ [] }

abbrev owning : AutosarScheduler
owning = set_task 1 owner (record two_tasks {
  current = some 1;
  mutexes = λ id. if id == 7 then some waited_for else none;
})

owning-IsScheduled : IsScheduled owning
owning-IsScheduled = record {
  ordered = record { known = λ id c. cc; in_order = refl; distinct = refl };
  busy = λ cur e.
      let same : 1 ≡ cur = cc in
      subst
        (λ x.
          (has_task owning x ≡ true)
          × (contains x [] ≡ false)
          × (all_ge (prio owning x) (map (prio owning) []) ≡ true))
        same (refl, refl, refl);
  idle = λ e. refl;
}

owner-HasInherited : HasInherited owner owning
owner-HasInherited = record {
  at_most_base = omega arith;
  before_waiters = λ id m w rest c e waits.
      let mutex : id ≡ 7 = ground (arith, c) in
      let is_m : waited_for ≡ m = ground (arith, mutex, e) in
      let first : 2 ≡ w = let q = ap MutexState.waiters is_m ∙ waits in cc in
      subst (λ x. (has_task owning x ≡ true) × (100 ≤ prio owning x)) first (refl, omega arith);
}

unlock_mutex_lem_example :
    (s' : AutosarScheduler) × (unlock_mutex linear 1 7 owning ≡ some s')
    × Unlocked linear linear-SearchLaws 1 7 waited_for owner owning s'
unlock_mutex_lem_example =
    unlock_mutex_lem linear linear-SearchLaws 1 7 waited_for owner owning owning-IsScheduled refl
      refl refl refl refl
      (λ j c.
        let same : 2 ≡ j = ground (arith, c) in subst (λ x. has_task owning x ≡ true) same refl)
      owner-HasInherited

abbrev worker : Task
worker = record {
  weight = 1024;
  vruntime = 0;
  runtime = 0;
  thread_cap = 11;
  slice = 5;
  remaining = 5;
}

abbrev working : LinuxLikeScheduler
working = record {
  scheduler_cap = 0;
  tasks = λ id. if 1 == id then some worker else none;
  ready = 2 ∷ [];
  current = some 1;
  started = [];
}

ticks_running_example :
    (s' : LinuxLikeScheduler) × (ticks linear 4 working ≡ some s')
    × (s'.current ≡ some 1)
    × (s'.ready ≡ 2 ∷ [])
    × (s'.tasks 1 ≡ some (after_ticks 4 worker))
    × ((j : ℕ) → (1 == j) ≡ false → s'.tasks j ≡ working.tasks j)
ticks_running_example =
    ticks_running linear 4 1 worker working refl refl (omega arith) (omega arith) (omega arith)
      (omega arith)
