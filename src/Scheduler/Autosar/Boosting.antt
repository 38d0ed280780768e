-- ===== src/Scheduler/Autosar/Boosting.antt =====
-- The ready queue of src/crates/l4/scheduler/autosar.rs when a task has another priority.
use l4rerust.Base.{
  ℕ, ◌≡◌, refl, ap, ◌∙◌, subst, true, false, List, map, some, Bool-cases, inl, inr, ◌==◌, arith,
}
use l4rerust.Scheduler.Queue.{
  insert_at, contains, retain_ne, nodup, sorted, Search, SearchLaws, contains-insert_at,
  contains-retain_ne, nodup-retain_ne, sorted-retain_ne, map_congr_on, retain_ne-absent,
}
use l4rerust.Scheduler.Autosar.{AutosarScheduler, reposition}
use l4rerust.Scheduler.Autosar.Order.{
  prio, has_task, Ordered, place, inserted, insert_ok, inserted-Ordered,
}

-- A task has another priority now, and the others have theirs.
pub record Boosted (owner : ℕ) (s s' : AutosarScheduler) : Type 0 where
  pub same_ready : s'.ready ≡ s.ready
  pub same_current : s'.current ≡ s.current
  pub all_known : (j : ℕ) → has_task s j ≡ true → has_task s' j ≡ true
  pub others : (j : ℕ) → (owner == j) ≡ false → prio s' j ≡ prio s j

-- Without the task the ready queue is in order.
pub without-Ordered :
    (owner : ℕ) (s s' : AutosarScheduler)
    → Boosted owner s s'
    → Ordered s
    → Ordered (record s' { ready = retain_ne owner s'.ready })
without-Ordered owner s s' b o =
    let left = retain_ne owner s.ready in
    let same : map (prio s') left ≡ map (prio s) left =
      map_congr_on (prio s') (prio s) left
        (λ j h. b.others j (ground (arith, h, contains-retain_ne j owner s.ready))) in
    let moved : retain_ne owner s'.ready ≡ left = ap (retain_ne owner) b.same_ready in
    record {
      known = λ j h.
          let h' : contains j left ≡ true = subst (λ r. contains j r ≡ true) moved h in
          b.all_known j (o.known j (ground (arith, h', contains-retain_ne j owner s.ready)));
      in_order =
          ap (λ r. sorted (map (prio s') r)) moved
          ∙ ap sorted same
          ∙ sorted-retain_ne owner (prio s) s.ready o.in_order;
      distinct = ap nodup moved ∙ nodup-retain_ne owner s.ready o.distinct;
    }

-- A task that is not ready can change its priority.
pub absent-Ordered :
    (owner : ℕ) (s s' : AutosarScheduler)
    → Boosted owner s s'
    → Ordered s
    → contains owner s'.ready ≡ false
    → Ordered s'
absent-Ordered owner s s' b o absent =
    subst (λ r. Ordered (record s' { ready = r })) (retain_ne-absent owner s'.ready absent)
      (without-Ordered owner s s' b o)

module _ (search : Search) (laws : SearchLaws search) where
  -- What `reposition` leaves after a change of priority.
  pub record Repositioned (s s' s'' : AutosarScheduler) : Type 0 where
    pub ordered : Ordered s''
    pub tasks_kept : s''.tasks ≡ s'.tasks
    pub current_kept : s''.current ≡ s.current
    pub ready_kept : (j : ℕ) → contains j s''.ready ≡ contains j s.ready

  back_in :
      (owner j at : ℕ) (xs : List ℕ)
      → contains owner xs ≡ true
      → contains j (insert_at at owner (retain_ne owner xs)) ≡ contains j xs
  back_in owner j at xs h =
      contains-insert_at j at owner (retain_ne owner xs) ∙ elim (Bool-cases (owner == j)) [
        | inl same ↦
            let e : owner ≡ j = ground arith in
            let there : contains j xs ≡ true = subst (λ k. contains k xs ≡ true) e h in
            ground (arith, there)
        | inr differ ↦ ground (arith, contains-retain_ne j owner xs)
      ]

  pub reposition_lem :
      (owner : ℕ) (s s' : AutosarScheduler)
      → Boosted owner s s'
      → Ordered s
      → has_task s owner ≡ true
      → (s'' : AutosarScheduler) × (reposition search owner s' ≡ some s'') × Repositioned s s' s''
  reposition_lem owner s s' b o h = elim (Bool-cases (contains owner s'.ready)) [
    | inl there ↦
        let t : AutosarScheduler = record s' { ready = retain_ne owner s'.ready } in
        let t-Ordered = without-Ordered owner s s' b o in
        let known = b.all_known owner h in
        (
          inserted search laws t owner t-Ordered known,
          rw there (insert_ok search laws t owner t-Ordered known),
          record {
            ordered =
                inserted-Ordered search laws t owner t-Ordered known
                  (ground (arith, contains-retain_ne owner owner s'.ready));
            tasks_kept = refl;
            current_kept = b.same_current;
            ready_kept = λ j.
                back_in owner j (place search laws t owner t-Ordered known) s'.ready there
                ∙ ap (contains j) b.same_ready;
          },
        )
    | inr absent ↦ (
      s',
      rw absent refl,
      record {
        ordered = absent-Ordered owner s s' b o absent;
        tasks_kept = refl;
        current_kept = b.same_current;
        ready_kept = λ j. ap (contains j) b.same_ready;
      },
    )
  ]
