-- ===== src/Scheduler/Autosar/Locking.antt =====
-- `lock_mutex` of src/crates/l4/scheduler/autosar.rs.
use l4rerust.Base.{
  ℕ, ◌≡◌, refl, ap, sym, ◌∙◌, subst, Bool, true, false, not, ◌&&◌, List, map, min, none, some,
  is_some, Option-cases, inl, inr, ◌==◌, arith,
}
use l4rerust.Scheduler.Queue.{
  ◌>>=◌, insert_at, contains, retain_ne, keys_of, Search, SearchLaws, contains-retain_ne,
  keys_of-known,
}
use l4rerust.Scheduler.Autosar.{
  Task, AutosarScheduler, MutexState, set_task, set_mutex, priority, run_next, reposition, block,
  mutex_of, lock_mutex, insert_owned,
}
use l4rerust.Scheduler.Autosar.Order.{
  prio, has_task, runnable, Ordered, IsScheduled, run_next_cases, priority-has_task, same_view,
}
use l4rerust.Scheduler.Autosar.Boosting.{Boosted, without-Ordered, reposition_lem}

module _ (search : Search) (laws : SearchLaws search) where
  -- The state in which the owner has inherited the priority `p` and the task waits.
  abbrev boosted : ℕ → ℕ → ℕ → MutexState → Task → ℕ → AutosarScheduler → AutosarScheduler
  boosted task mutex owner m o p s =
      set_task owner (record o { current_priority = min o.current_priority p })
        (set_mutex mutex m (record s { ready = retain_ne task s.ready }))

  lock_contended :
      (task mutex owner p : ℕ) (keys : List ℕ) (o : Task) (s : AutosarScheduler)
      → (mutex_of search mutex s).owner ≡ some owner
      → priority s task ≡ some p
      → keys_of (priority s) (mutex_of search mutex s).waiters ≡ some keys
      → s.tasks owner ≡ some o
      → let m = mutex_of search mutex s in
        lock_mutex search task mutex s ≡ (
          reposition search owner (
            boosted task mutex owner
              (record m { waiters = insert_at (search.position keys p) task m.waiters })
              o
              p
              s)
          >>= block search task)
  unfolding lock_mutex
  lock_contended task mutex owner p keys o s e hp hk ho = ground (arith, e, hp, hk, ho)

  Boosted-boosted :
      (task mutex owner : ℕ) (m : MutexState) (o : Task) (p : ℕ) (s : AutosarScheduler)
      → s.tasks owner ≡ some o
      → Boosted owner
          (record s { ready = retain_ne task s.ready })
          (boosted task mutex owner m o p s)
  Boosted-boosted task mutex owner m o p s ho = record {
    same_ready = refl;
    same_current = refl;
    all_known = λ j h. ground (arith, h);
    others = λ j h. ground (arith, h);
  }

  -- What `lock_mutex` by the running task leaves: a scheduled state, in which the same tasks can run,
  -- without the task if somebody owns the mutex.
  pub record Locked (task : ℕ) (taken : Bool) (s s' : AutosarScheduler) : Type 0 where
    pub scheduled : IsScheduled s'
    pub can_run : (j : ℕ) → runnable s' j ≡ (not (taken && task == j) && runnable s j)

  lock_free :
      (task mutex : ℕ) (t : Task) (s : AutosarScheduler)
      → (mutex_of search mutex s).owner ≡ none
      → s.tasks task ≡ some t
      → lock_mutex search task mutex s
        ≡ some (
            set_task task
              (record t { owned_mutexes = insert_owned mutex t.owned_mutexes })
              (set_mutex mutex (record (mutex_of search mutex s) { owner = some task }) s))
  unfolding lock_mutex
  lock_free task mutex t s e ht = ground (arith, e, ht)

  free_lem :
      (task mutex : ℕ) (s : AutosarScheduler)
      → IsScheduled s
      → has_task s task ≡ true
      → (mutex_of search mutex s).owner ≡ none
      → (s' : AutosarScheduler) × (lock_mutex search task mutex s ≡ some s')
        × Locked task false s s'
  free_lem task mutex s v h free = elim (Option-cases (s.tasks task)) [
    | inl missing ↦ absurd (ground (arith, missing))
    | inr (t, found) ↦
        let s' : AutosarScheduler =
          set_task task (record t { owned_mutexes = insert_owned mutex t.owned_mutexes })
            (set_mutex mutex (record (mutex_of search mutex s) { owner = some task }) s) in
        (
          s',
          lock_free task mutex t s free found,
          record {
            scheduled =
                same_view s s' refl refl (λ j. ground (arith, found)) (λ j. ground (arith, found))
                  v;
            can_run = λ j. refl;
          },
        )
  ]

  block_running :
      (task : ℕ) (s : AutosarScheduler)
      → s.current ≡ some task
      → block search task s ≡ run_next search (record s { current = none })
  block_running task s e = ground (arith, e)

  contended_lem :
      (task mutex owner : ℕ) (s : AutosarScheduler)
      → IsScheduled s
      → s.current ≡ some task
      → ((j : ℕ) → contains j (mutex_of search mutex s).waiters ≡ true → has_task s j ≡ true)
      → has_task s owner ≡ true
      → (mutex_of search mutex s).owner ≡ some owner
      → (s' : AutosarScheduler) × (lock_mutex search task mutex s ≡ some s') × Locked task true s s'
  contended_lem task mutex owner s v runs known_waiters known taken =
      elim (Option-cases (s.tasks owner)) [
        | inl missing ↦ absurd (ground (arith, missing))
        | inr (o, found) ↦
            let m = mutex_of search mutex s in
            let b = v.busy task runs in
            let p = prio s task in
            let keys = map (prio s) m.waiters in
            let has_keys : keys_of (priority s) m.waiters ≡ some keys =
              keys_of-known (priority s) (prio s) m.waiters
                (λ j h. priority-has_task s j (known_waiters j h)) in
            let s₀ : AutosarScheduler = record s { ready = retain_ne task s.ready } in
            let s₀-Ordered : Ordered s₀ =
              without-Ordered task s s
                (record {
                  same_ready = refl;
                  same_current = refl;
                  all_known = λ j h. h;
                  others = λ j h. refl;
                })
                v.ordered in
            let m' : MutexState = record m {
              waiters = insert_at (search.position keys p) task m.waiters;
            } in
            let (s₂, moved, r) =
              reposition_lem search laws owner s₀ (boosted task mutex owner m' o p s)
                (Boosted-boosted task mutex owner m' o p s found) s₀-Ordered known in
            let (s', next, d) =
              run_next_cases search laws (record s₂ { current = none }) s₂.ready refl refl
                (record {
                  known = r.ordered.known;
                  in_order = r.ordered.in_order;
                  distinct = r.ordered.distinct;
                }) in
            (
              s',
              lock_contended task mutex owner p keys o s taken (priority-has_task s task b.0)
                    has_keys found
                  ∙ ap (λ q. q >>= block search task) moved
                  ∙ block_running task s₂ (r.current_kept ∙ runs)
                  ∙ next,
              record {
                scheduled = d.scheduled;
                can_run = λ j.
                    d.none_lost j
                    ∙ r.ready_kept j
                    ∙ contains-retain_ne j task s.ready
                    ∙ ground (arith, runs);
              },
            )
      ]

  -- The running task locks a mutex in a scheduled state, where the owner and the waiters of the mutex
  -- are in the map of tasks: `lock_mutex` does not panic and leaves a scheduled state, in which the
  -- same tasks are runnable if the mutex was free, and all but the task if it was not.
  pub lock_mutex_lem :
      (task mutex : ℕ) (s : AutosarScheduler)
      → IsScheduled s
      → s.current ≡ some task
      → ((j : ℕ) → contains j (mutex_of search mutex s).waiters ≡ true → has_task s j ≡ true)
      → ((owner : ℕ) → (mutex_of search mutex s).owner ≡ some owner → has_task s owner ≡ true)
      → (s' : AutosarScheduler) × (lock_mutex search task mutex s ≡ some s')
        × Locked task (is_some (mutex_of search mutex s).owner) s s'
  lock_mutex_lem task mutex s v runs known_waiters known_owner =
      elim (Option-cases (mutex_of search mutex s).owner) [
        | inl free ↦
            let (s', e, l) = free_lem task mutex s v (v.busy task runs).0 free in
            (s', e, subst (λ o. Locked task (is_some o) s s') (sym free) l)
        | inr (owner, taken) ↦
            let (s', e, l) =
              contended_lem task mutex owner s v runs known_waiters (known_owner owner taken)
                taken in
            (s', e, subst (λ o. Locked task (is_some o) s s') (sym taken) l)
      ]
