-- ===== src/Scheduler/Autosar/Ready.antt =====
-- `preempt` and `make_ready` of src/crates/l4/scheduler/autosar.rs.
use l4rerust.Base.{
  ℕ, ◌≡◌, refl, ap, ◌∙◌, subst, true, false, ◌||◌, map, Option, none, some, Bool-cases,
  Option-cases, inl, inr, ltb, ◌==◌, if◌then◌else◌, arith,
}
use l4rerust.Scheduler.Queue.{
  ◌>>=◌, insert_at, contains, all_ge, Search, SearchLaws, map-insert_at, contains-insert_at,
  all_ge-insert_at,
}
use l4rerust.Scheduler.Autosar.{
  AutosarScheduler, priority, insert_ready_sorted, run_next, preempt, make_ready,
}
use l4rerust.Scheduler.Autosar.Order.{
  prio, has_task, runnable, Ordered, IsScheduled, place, inserted, insert_ok, inserted-Ordered,
  run_next_cases,
}

module _ (search : Search) (laws : SearchLaws search) where
  -- What a change of the running task leaves: the invariant, the same tasks, and every task runnable
  -- that was.
  pub record Rescheduled (s s' : AutosarScheduler) : Type 0 where
    pub scheduled : IsScheduled s'
    pub same_tasks : s'.tasks ≡ s.tasks
    pub none_lost : (j : ℕ) → runnable s' j ≡ runnable s j

  preempt_split :
      (s : AutosarScheduler) (cur : ℕ)
      → s.current ≡ some cur
      → preempt search s
        ≡ (do s₁ ← insert_ready_sorted search cur (record s { current = none }); run_next search s₁)
  unfolding preempt
  preempt_split s cur e = ground (arith, e)

  pub preempt_lem :
      (s : AutosarScheduler) (cur : ℕ)
      → s.current ≡ some cur
      → Ordered s
      → has_task s cur ≡ true
      → contains cur s.ready ≡ false
      → (s' : AutosarScheduler) × (preempt search s ≡ some s') × Rescheduled s s'
  preempt_lem s cur e o h fresh =
      let idle : AutosarScheduler = record s { current = none } in
      let idle-Ordered : Ordered idle = record {
        known = o.known;
        in_order = o.in_order;
        distinct = o.distinct;
      } in
      let queued = inserted search laws idle cur idle-Ordered h in
      let (s', runs, d) =
        run_next_cases search laws queued queued.ready refl refl
          (inserted-Ordered search laws idle cur idle-Ordered h fresh) in
      (
        s',
        preempt_split s cur e
            ∙ ap (λ r. r >>= run_next search) (insert_ok search laws idle cur idle-Ordered h)
            ∙ runs,
        record {
          scheduled = d.scheduled;
          same_tasks = d.same_tasks;
          none_lost = λ j.
              d.none_lost j
              ∙ contains-insert_at j (place search laws idle cur idle-Ordered h) cur s.ready
              ∙ ground (arith, e);
        },
      )

  -- What `make_ready` leaves: besides, the task is runnable.
  pub record MadeReady (id : ℕ) (s s' : AutosarScheduler) : Type 0 where
    pub scheduled : IsScheduled s'
    pub same_tasks : s'.tasks ≡ s.tasks
    pub now_runnable : (j : ℕ) → runnable s' j ≡ (id == j || runnable s j)

  -- The end of `make_ready`, on the queue with the task.
  abbrev after_insert : ℕ → AutosarScheduler → Option AutosarScheduler
  after_insert id s₁ = elim s₁.current [
    | none ↦ run_next search s₁
    | some cur ↦ do
      cur_prio ← priority s₁ cur
      new_prio ← priority s₁ id
      if ltb new_prio cur_prio then preempt search s₁ else some s₁
  ]

  after_insert_split :
      (id cur : ℕ) (s₁ : AutosarScheduler)
      → s₁.current ≡ some cur
      → has_task s₁ cur ≡ true
      → has_task s₁ id ≡ true
      → after_insert id s₁ ≡ (if ltb (prio s₁ id) (prio s₁ cur) then preempt search s₁ else some s₁)
  after_insert_split id cur s₁ e hc hi = ground (arith, e)

  make_ready_split :
      (id : ℕ) (s : AutosarScheduler)
      → runnable s id ≡ false
      → make_ready search id s ≡ (insert_ready_sorted search id s >>= after_insert id)
  unfolding make_ready
  make_ready_split id s new = rw (new, make_ready) refl

  -- A task that is put behind the running one leaves it the first.
  still_first :
      (s : AutosarScheduler) (id cur c at : ℕ)
      → s.current ≡ some cur
      → s.current ≡ some c
      → (has_task s cur ≡ true)
        × (contains cur s.ready ≡ false)
        × (all_ge (prio s cur) (map (prio s) s.ready) ≡ true)
      → contains cur (insert_at at id s.ready) ≡ false
      → ltb (prio s id) (prio s cur) ≡ false
      → (has_task s c ≡ true)
        × (contains c (insert_at at id s.ready) ≡ false)
        × (all_ge (prio s c) (map (prio s) (insert_at at id s.ready)) ≡ true)
  still_first s id cur c at running e b not_ready behind =
      let same : cur ≡ c = ground (arith, running, e) in
      subst
        (λ x.
          (has_task s x ≡ true)
          × (contains x (insert_at at id s.ready) ≡ false)
          × (all_ge (prio s x) (map (prio s) (insert_at at id s.ready)) ≡ true))
        same
        (
          b.0,
          not_ready,
          ap (all_ge (prio s cur)) (map-insert_at (prio s) at id s.ready)
              ∙ all_ge-insert_at (prio s cur) at (prio s id) (map (prio s) s.ready) (ground arith)
                  b.2,
        )

  make_ready_again :
      (id : ℕ) (s : AutosarScheduler) → runnable s id ≡ true → make_ready search id s ≡ some s
  unfolding make_ready
  make_ready_again id s old = rw (old, make_ready) refl

  -- In a state that is scheduled, `make_ready` of a task that has been added does not panic. It makes
  -- the task runnable and loses none; then again the ready queue is in the order of the priorities and
  -- no ready task has a priority before that of the task that runs.
  pub make_ready_lem :
      (id : ℕ) (s : AutosarScheduler)
      → IsScheduled s
      → has_task s id ≡ true
      → (s' : AutosarScheduler) × (make_ready search id s ≡ some s') × MadeReady id s s'
  make_ready_lem id s v h = elim (Bool-cases (runnable s id)) [
    | inl old ↦ (
      s,
      make_ready_again id s old,
      record { scheduled = v; same_tasks = refl; now_runnable = λ j. ground arith },
    )
    | inr new ↦
        let fresh : contains id s.ready ≡ false = ground arith in
        let s₁ = inserted search laws s id v.ordered h in
        let o₁ = inserted-Ordered search laws s id v.ordered h fresh in
        let at = place search laws s id v.ordered h in
        let start =
          make_ready_split id s new
          ∙ ap (λ r. r >>= after_insert id) (insert_ok search laws s id v.ordered h) in
        elim (Option-cases s.current) [
          | inl idle ↦
              let (s', runs, d) = run_next_cases search laws s₁ s₁.ready refl idle o₁ in
              (
                s',
                start ∙ rw (idle, after_insert) runs,
                record {
                  scheduled = d.scheduled;
                  same_tasks = d.same_tasks;
                  now_runnable = λ j.
                      d.none_lost j ∙ contains-insert_at j at id s.ready ∙ ground (arith, idle);
                },
              )
          | inr (cur, running) ↦
              let b = v.busy cur running in
              let not_ready : contains cur s₁.ready ≡ false =
                contains-insert_at cur at id s.ready ∙ ground arith in
              let step = after_insert_split id cur s₁ running b.0 h in
              elim (Bool-cases (ltb (prio s id) (prio s cur))) [
                | inl before ↦
                    let (s', preempts, r) = preempt_lem s₁ cur running o₁ b.0 not_ready in
                    (
                      s',
                      start ∙ step ∙ rw before preempts,
                      record {
                        scheduled = r.scheduled;
                        same_tasks = r.same_tasks;
                        now_runnable =
                            λ j. r.none_lost j ∙ ground (arith, contains-insert_at j at id s.ready);
                      },
                    )
                | inr behind ↦ (
                  s₁,
                  start ∙ step ∙ rw behind refl,
                  record {
                    scheduled = record {
                      ordered = o₁;
                      busy = λ c e. still_first s id cur c at running e b not_ready behind;
                      idle = λ e. absurd (ground (arith, running));
                    };
                    same_tasks = refl;
                    now_runnable = λ j. ground (arith, contains-insert_at j at id s.ready);
                  },
                )
              ]
        ]
  ]
