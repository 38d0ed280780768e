-- ===== src/Scheduler/Autosar/Order.antt =====
-- The ready queue of src/crates/l4/scheduler/autosar.rs is in the order of the priorities, and the task
-- that runs has the least number.
use l4rerust.Base.{
  ℕ, ◌≡◌, refl, ap, ap₂, sym, ◌∙◌, subst, Bool, true, false, ◌||◌, List, [], ◌∷◌, map, Option, none,
  some, is_some, Option-cases, inl, inr, arith,
}
use l4rerust.Scheduler.Queue.{
  ◌>>=◌, insert_at, contains, keys_of, all_ge, sorted, nodup, Search, SearchLaws, map-insert_at,
  contains-insert_at, nodup-insert_at, sorted-insert_at, keys_of-known, map_congr_on,
}
use l4rerust.Scheduler.Autosar.{
  AutosarScheduler, priority, is_current, insert_ready_sorted, run_next,
}

-- The priority of a task that the map has.
abbrev pub prio : AutosarScheduler → ℕ → ℕ
prio s id = elim (s.tasks id) [ none ↦ 0 | some t ↦ t.current_priority ]

abbrev pub has_task : AutosarScheduler → ℕ → Bool
has_task s id = is_some (s.tasks id)

-- A task that runs or is ready to.
abbrev pub runnable : AutosarScheduler → ℕ → Bool
runnable s j = is_current j s || contains j s.ready

-- The tasks that are ready are in the map, in the order of their priorities, and none twice.
pub record Ordered (s : AutosarScheduler) : Type 0 where
  pub known : (id : ℕ) → contains id s.ready ≡ true → has_task s id ≡ true
  pub in_order : sorted (map (prio s) s.ready) ≡ true
  pub distinct : nodup s.ready ≡ true

-- Besides, the task that runs is in the map and not ready, and its priority is the first; when no task
-- runs, none is ready.
pub record IsScheduled (s : AutosarScheduler) : Type 0 where
  pub ordered : Ordered s
  pub busy :
      (cur : ℕ)
      → s.current ≡ some cur
      → (has_task s cur ≡ true)
        × (contains cur s.ready ≡ false)
        × (all_ge (prio s cur) (map (prio s) s.ready) ≡ true)
  pub idle : s.current ≡ none → s.ready ≡ []

pub priority-has_task :
    (s : AutosarScheduler) (id : ℕ) → has_task s id ≡ true → priority s id ≡ some (prio s id)
priority-has_task s id h = ground arith

-- The same queue over tasks of the same priorities.
pub same_view :
    (s s' : AutosarScheduler)
    → s'.ready ≡ s.ready
    → s'.current ≡ s.current
    → ((j : ℕ) → has_task s' j ≡ has_task s j)
    → ((j : ℕ) → prio s' j ≡ prio s j)
    → IsScheduled s
    → IsScheduled s'
same_view s s' r c h p v =
    let keys : map (prio s') s'.ready ≡ map (prio s) s.ready =
      ap (map (prio s')) r ∙ map_congr_on (prio s') (prio s) s.ready (λ j _. p j) in
    record {
      ordered = record {
        known = λ j e. h j ∙ v.ordered.known j (subst (λ q. contains j q ≡ true) r e);
        in_order = ap sorted keys ∙ v.ordered.in_order;
        distinct = ap nodup r ∙ v.ordered.distinct;
      };
      busy = λ cur e.
          let b = v.busy cur (sym c ∙ e) in
          (h cur ∙ b.0, ap (contains cur) r ∙ b.1, ap₂ all_ge (p cur) keys ∙ b.2);
      idle = λ e. r ∙ v.idle (sym c ∙ e);
    }

module _ (search : Search) (laws : SearchLaws search) where
  module _ (s : AutosarScheduler) (id : ℕ) (o : Ordered s) (h : has_task s id ≡ true) where
    abbrev pub place : ℕ
    place = search.position (map (prio s) s.ready) (prio s id)

    abbrev pub inserted : AutosarScheduler
    inserted = record s { ready = insert_at place id s.ready }

    pub insert_ok : insert_ready_sorted search id s ≡ some inserted
    unfolding insert_ready_sorted
    insert_ok =
        let keys : keys_of (priority s) s.ready ≡ some (map (prio s) s.ready) =
          keys_of-known (priority s) (prio s) s.ready
            (λ j c. priority-has_task s j (o.known j c)) in
        rw (priority-has_task s id h, keys, insert_ready_sorted) refl

    pub inserted-Ordered : contains id s.ready ≡ false → Ordered inserted
    inserted-Ordered fresh =
        let keys = map (prio s) s.ready in
        record {
          known = λ j c. ground (arith, contains-insert_at j place id s.ready, o.known j);
          in_order =
              ap sorted (map-insert_at (prio s) place id s.ready)
              ∙ sorted-insert_at place (prio s id) keys o.in_order
                  (laws.below keys (prio s id) o.in_order) (laws.above keys (prio s id) o.in_order);
          distinct = nodup-insert_at place id s.ready o.distinct fresh;
        }

  -- What `run_next` leaves when nothing runs.
  pub record Dispatched (s s' : AutosarScheduler) : Type 0 where
    pub scheduled : IsScheduled s'
    pub same_tasks : s'.tasks ≡ s.tasks
    pub none_lost : (j : ℕ) → runnable s' j ≡ contains j s.ready

  -- `run_next` by what the ready queue holds.
  abbrev run_from : AutosarScheduler → List ℕ → Option AutosarScheduler
  run_from s [] = some s
  run_from s (next ∷ rest) = do
    t ← s.tasks next
    some (record s {
      ready = rest;
      current = some next;
      started = (s.scheduler_cap, t.thread_cap) ∷ s.started;
    })

  run_next_split :
      (s : AutosarScheduler) (r : List ℕ) → s.ready ≡ r → run_next search s ≡ run_from s r
  unfolding run_next
  run_next_split s r e = ground (arith, e)

  pub run_next_cases :
      (s : AutosarScheduler) (r : List ℕ)
      → s.ready ≡ r
      → s.current ≡ none
      → Ordered s
      → (s' : AutosarScheduler) × (run_next search s ≡ some s') × Dispatched s s'
  unfolding run_next
  run_next_cases s [] e idle o = (
    s,
    run_next_split s [] e,
    record {
      scheduled = record { ordered = o; busy = λ cur h. cc; idle = λ h. e };
      same_tasks = refl;
      none_lost = λ j. ground arith;
    },
  )
  run_next_cases s (next ∷ rest) e idle o = elim (Option-cases (s.tasks next)) [
    | inl missing ↦ absurd (ground (arith, o.known next))
    | inr (t, found) ↦
        let s' : AutosarScheduler = record s {
          ready = rest;
          current = some next;
          started = (s.scheduler_cap, t.thread_cap) ∷ s.started;
        } in
        let order : sorted (map (prio s) (next ∷ rest)) ≡ true =
          subst (λ r. sorted (map (prio s) r) ≡ true) e o.in_order in
        let distinct : nodup (next ∷ rest) ≡ true = subst (λ r. nodup r ≡ true) e o.distinct in
        (
          s',
          run_next_split s (next ∷ rest) e ∙ rw found refl,
          record {
            scheduled = record {
              ordered = record {
                known = λ j c. ground (arith, o.known j);
                in_order = ground arith;
                distinct = ground arith;
              };
              busy = λ cur h. (ground (arith, o.known next), ground arith, ground arith);
              idle = λ h. cc;
            };
            same_tasks = refl;
            none_lost = λ j. ground arith;
          },
        )
  ]
