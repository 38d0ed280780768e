-- ===== src/Scheduler/Autosar/Rescheduling.antt =====
-- The end of `unlock_mutex` of src/crates/l4/scheduler/autosar.rs, when the task has its new priority.
use l4rerust.Base.{
  ℕ, ◌≤◌, ◌≡◌, refl, ap, sym, ◌∙◌, subst, true, false, List, [], ◌∷◌, map, some, is_some,
  Bool-cases, Option-cases, inl, inr, ltb, ◌==◌, if◌then◌else◌, if_true, arith,
}
use l4rerust.Scheduler.Queue.{
  contains, all_ge, sorted, Search, SearchLaws, all_ge-contains, all_ge-of_contains, all_ge-weaken,
}
use l4rerust.Scheduler.Autosar.{AutosarScheduler, is_current, preempt, reschedule}
use l4rerust.Scheduler.Autosar.Order.{prio, has_task, runnable, Ordered, IsScheduled}
use l4rerust.Scheduler.Autosar.Boosting.{Boosted, absent-Ordered, reposition_lem, Repositioned}
use l4rerust.Scheduler.Autosar.Ready.{Rescheduled, preempt_lem}
use l4rerust.Scheduler.Autosar.Inheriting.{List-cases}

-- The task that runs is the first.
first-IsScheduled :
    (s : AutosarScheduler) (task : ℕ)
    → Ordered s
    → s.current ≡ some task
    → has_task s task ≡ true
    → contains task s.ready ≡ false
    → all_ge (prio s task) (map (prio s) s.ready) ≡ true
    → IsScheduled s
first-IsScheduled s task o runs known absent first = record {
  ordered = o;
  busy = λ cur e.
      let same : task ≡ cur = ground (arith, runs, e) in
      subst
        (λ x.
          (has_task s x ≡ true)
          × (contains x s.ready ≡ false)
          × (all_ge (prio s x) (map (prio s) s.ready) ≡ true))
        same (known, absent, first);
  idle = λ e. absurd (ground (arith, runs));
}

prio-tasks : (s s' : AutosarScheduler) → s'.tasks ≡ s.tasks → (j : ℕ) → prio s' j ≡ prio s j
prio-tasks s s' e j = let at_j = ap (λ f. f j) e in ground (arith, at_j)

current_of : (s : AutosarScheduler) (task : ℕ) → is_current task s ≡ true → s.current ≡ some task
current_of s task h = elim (Option-cases s.current) [
  | inl idle ↦ absurd (ground (arith, idle))
  | inr (cur, e) ↦ let same : cur ≡ task = ground (arith, e) in e ∙ ap some same
]

module _ (search : Search) (laws : SearchLaws search) where
  -- A ready task that goes back in the queue does not come before the one that runs.
  ready_again :
      (task : ℕ) (s₁ s₂ s' : AutosarScheduler)
      → Boosted task s₁ s₂
      → IsScheduled s₁
      → contains task s₁.ready ≡ true
      → prio s₁ task ≤ prio s₂ task
      → Repositioned search laws s₁ s₂ s'
      → IsScheduled s'
  ready_again task s₁ s₂ s' b v there behind r = record {
    ordered = r.ordered;
    busy = λ cur e.
        let bz = v.busy cur (sym r.current_kept ∙ e) in
        let differ : (task == cur) ≡ false = elim (Bool-cases (task == cur)) [
          | inl same ↦
              let eq : task ≡ cur = ground arith in
              let c : contains cur s₁.ready ≡ true =
                subst (λ x. contains x s₁.ready ≡ true) eq there in
              cc
          | inr d ↦ d
        ] in
        let cur_kept = prio-tasks s₂ s' r.tasks_kept cur ∙ b.others cur differ in
        (
          ap (λ f. is_some (f cur)) r.tasks_kept ∙ b.all_known cur bz.0,
          r.ready_kept cur ∙ bz.1,
          all_ge-of_contains (prio s' cur) (prio s') s'.ready (λ x h.
              let there_x : contains x s₁.ready ≡ true = sym (r.ready_kept x) ∙ h in
              let was = all_ge-contains (prio s₁ cur) x (prio s₁) s₁.ready bz.2 there_x in
              let now = prio-tasks s₂ s' r.tasks_kept x in
              elim (Bool-cases (task == x)) [
                | inl same ↦
                    let eq : task ≡ x = ground arith in
                    let later : prio s₁ x ≤ prio s₂ x =
                      subst (λ y. prio s₁ y ≤ prio s₂ y) eq behind in
                    omega (arith, cur_kept, was, now, later)
                | inr d ↦ let kept = b.others x d in omega (arith, cur_kept, was, now, kept)
              ]),
        );
    idle = λ e.
        let empty = v.idle (sym r.current_kept ∙ e) in
        absurd
          (let c : contains task [] ≡ true = subst (λ q. contains task q ≡ true) empty there in cc);
  }

  -- The running task keeps the processor.
  still_runs :
      (task next : ℕ) (rest : List ℕ) (s : AutosarScheduler)
      → Ordered s
      → s.current ≡ some task
      → has_task s task ≡ true
      → contains task s.ready ≡ false
      → s.ready ≡ next ∷ rest
      → ltb (prio s next) (prio s task) ≡ false
      → IsScheduled s
  still_runs task next rest s o runs known absent e behind =
      let order : sorted (map (prio s) (next ∷ rest)) ≡ true =
        subst (λ q. sorted (map (prio s) q) ≡ true) e o.in_order in
      let tail : all_ge (prio s task) (map (prio s) rest) ≡ true =
        all_ge-weaken (prio s task) (prio s next) (map (prio s) rest) (ground (arith, behind))
          (ground (arith, order)) in
      first-IsScheduled s task o runs known absent
        (ap (λ q. all_ge (prio s task) (map (prio s) q)) e ∙ ground (arith, tail, behind))

  reschedule_empty :
      (task : ℕ) (s : AutosarScheduler)
      → contains task s.ready ≡ false
      → is_current task s ≡ true
      → s.ready ≡ []
      → reschedule search task s ≡ some s
  unfolding reschedule
  reschedule_empty task s a c e = ground (arith, a, c, e)

  reschedule_next :
      (task next : ℕ) (rest : List ℕ) (s : AutosarScheduler)
      → contains task s.ready ≡ false
      → is_current task s ≡ true
      → s.ready ≡ next ∷ rest
      → has_task s next ≡ true
      → has_task s task ≡ true
      → reschedule search task s
        ≡ (if ltb (prio s next) (prio s task) then preempt search s else some s)
  unfolding reschedule
  reschedule_next task next rest s a c e hn ht = ground (arith, a, c, e, hn, ht)

  -- A task of a scheduled state that has a priority further behind now: `reschedule` gives a scheduled
  -- state with the same tasks, in which the same can run.
  pub reschedule_lem :
      (task : ℕ) (s₁ s₂ : AutosarScheduler)
      → Boosted task s₁ s₂
      → IsScheduled s₁
      → runnable s₁ task ≡ true
      → has_task s₁ task ≡ true
      → prio s₁ task ≤ prio s₂ task
      → (s' : AutosarScheduler) × (reschedule search task s₂ ≡ some s')
        × Rescheduled search laws s₂ s'
  unfolding reschedule
  reschedule_lem task s₁ s₂ b v can known behind = elim (Bool-cases (contains task s₂.ready)) [
    | inl there ↦
        let there₁ : contains task s₁.ready ≡ true =
          ap (contains task) (sym b.same_ready) ∙ there in
        let (s', moved, r) = reposition_lem search laws task s₁ s₂ b v.ordered known in
        (
          s',
          if_true (contains task s₂.ready) _ _ there
              ∙ sym (if_true (contains task s₂.ready) _ _ there)
              ∙ moved,
          record {
            scheduled = ready_again task s₁ s₂ s' b v there₁ behind r;
            same_tasks = r.tasks_kept;
            none_lost = λ j.
                let c = r.ready_kept j in
                let same_r = ap (contains j) b.same_ready in
                let now = r.current_kept in
                let was = b.same_current in ground (arith, c, same_r, now, was);
          },
        )
    | inr absent ↦
        let o = absent-Ordered task s₁ s₂ b v.ordered absent in
        let known₂ = b.all_known task known in
        let same_r = ap (contains task) b.same_ready in
        let was = b.same_current in
        let current : is_current task s₂ ≡ true = ground (arith, same_r, was, absent, can) in
        let runs = current_of s₂ task current in
        elim (List-cases s₂.ready) [
          | inl empty ↦ (
            s₂,
            reschedule_empty task s₂ absent current empty,
            record {
              scheduled =
                  first-IsScheduled s₂ task o runs known₂ absent
                    (ap (λ q. all_ge (prio s₂ task) (map (prio s₂) q)) empty);
              same_tasks = refl;
              none_lost = λ j. refl;
            },
          )
          | inr (next, rest, e) ↦
              let next_known = o.known next (ap (contains next) e ∙ ground arith) in
              let step = reschedule_next task next rest s₂ absent current e next_known known₂ in
              elim (Bool-cases (ltb (prio s₂ next) (prio s₂ task))) [
                | inl before ↦
                    let (s', preempts, r) = preempt_lem search laws s₂ task runs o known₂ absent in
                    (s', step ∙ rw before preempts, r)
                | inr later ↦ (
                  s₂,
                  step ∙ rw later refl,
                  record {
                    scheduled = still_runs task next rest s₂ o runs known₂ absent e later;
                    same_tasks = refl;
                    none_lost = λ j. refl;
                  },
                )
              ]
        ]
  ]
