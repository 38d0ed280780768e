-- ===== src/Scheduler/LinuxLike/Slices.antt =====
-- How long a task of src/crates/l4/scheduler/linux_like.rs runs before `tick` takes the processor from
-- it.
use l4rerust.Base.{
  ℕ, zero, suc, ◌+◌, ◌-◌, ◌*◌, ◌/◌, ◌<◌, ◌≡◌, refl, ap, ◌∙◌, sym, false, List, ◌∷◌, none, some, max,
  ◌==◌, arith,
}
use l4rerust.Base.{◌^◌}
use l4rerust.Scheduler.Queue.{◌>>=◌, Search}
use l4rerust.Scheduler.LinuxLike.{
  Task, LinuxLikeScheduler, base_slice, set_task, add_task, charge, run_next, tick, ticks,
}

-- What `n` ticks make of a task that runs.
abbrev pub after_ticks : ℕ → Task → Task
after_ticks n t = record t {
  runtime = t.runtime + n;
  vruntime = t.vruntime + n * max 1 (1024 / t.weight);
  remaining = t.remaining - n;
}

charged : Task → ℕ → ℕ → ℕ → Task
charged t r v m = record t { runtime = r; vruntime = v; remaining = m }

after_ticks_zero : (t : Task) → after_ticks 0 t ≡ t
unfolding charged
after_ticks_zero t =
    let a : t.runtime + 0 ≡ t.runtime = omega arith in
    let b : t.vruntime + 0 * max 1 (1024 / t.weight) ≡ t.vruntime = omega arith in
    let c : t.remaining - 0 ≡ t.remaining = omega arith in
    ap (λ r. charged t r (t.vruntime + 0 * max 1 (1024 / t.weight)) (t.remaining - 0)) a
    ∙ ap (λ v. charged t t.runtime v (t.remaining - 0)) b
    ∙ ap (charged t t.runtime t.vruntime) c

after_ticks_add : (n : ℕ) (t : Task) → after_ticks n (after_ticks 1 t) ≡ after_ticks (suc n) t
unfolding charged
after_ticks_add n t =
    let k = max 1 (1024 / t.weight) in
    let a : t.runtime + 1 + n ≡ t.runtime + suc n = omega arith in
    let b : t.vruntime + 1 * k + n * k ≡ t.vruntime + suc n * k = grind arith in
    let c : t.remaining - 1 - n ≡ t.remaining - suc n = omega arith in
    ap (λ r. charged t r (t.vruntime + 1 * k + n * k) (t.remaining - 1 - n)) a
    ∙ ap (λ v. charged t (t.runtime + suc n) v (t.remaining - 1 - n)) b
    ∙ ap (charged t (t.runtime + suc n) (t.vruntime + suc n * k)) c

module _ (search : Search) where
  tick_running :
      (cur : ℕ) (t : Task) (s : LinuxLikeScheduler)
      → s.current ≡ some cur
      → s.tasks cur ≡ some t
      → 0 < t.weight
      → 1 < t.remaining
      → t.runtime + 1 < 2 ^ 64
      → t.vruntime + max 1 (1024 / t.weight) < 2 ^ 64
      → tick search s ≡ some (set_task cur (after_ticks 1 t) s)
  unfolding tick charge
  tick_running cur t s e f w r a b = ground (arith, e, f)

  -- A task that runs keeps the processor until its slice is used up: fewer ticks than it has left of
  -- its slice do not panic, leave it running and the ready queue as it is, and charge it
  -- alone, if its counters stay below 2 ^ 64.
  pub ticks_running :
      (n cur : ℕ) (t : Task) (s : LinuxLikeScheduler)
      → s.current ≡ some cur
      → s.tasks cur ≡ some t
      → 0 < t.weight
      → n < t.remaining
      → t.runtime + n < 2 ^ 64
      → t.vruntime + n * max 1 (1024 / t.weight) < 2 ^ 64
      → (s' : LinuxLikeScheduler) × (ticks search n s ≡ some s')
        × (s'.current ≡ some cur)
        × (s'.ready ≡ s.ready)
        × (s'.tasks cur ≡ some (after_ticks n t))
        × ((j : ℕ) → (cur == j) ≡ false → s'.tasks j ≡ s.tasks j)
  ticks_running zero cur t s e f w r a b =
      (s, refl, e, refl, f ∙ ap some (sym (after_ticks_zero t)), λ j h. refl)
  ticks_running (suc n) cur t s e f w r a b =
      let k = max 1 (1024 / t.weight) in
      let split : suc n * k ≡ k + n * k = grind arith in
      let s₁ = set_task cur (after_ticks 1 t) s in
      let (s', runs, cur', ready, charged, others) =
        ticks_running n cur (after_ticks 1 t) s₁ e (ground arith) w (omega arith) (omega arith)
          (omega (arith, split)) in
      (
        s',
        ap (λ q. q >>= ticks search n)
              (tick_running cur t s e f w (omega arith) (omega arith) (omega (arith, split)))
            ∙ runs,
        cur',
        ready,
        charged ∙ ap some (after_ticks_add n t),
        λ j h. others j h ∙ ground arith,
      )

  -- The overflow check stops the scheduler at the first tick of a task whose weight is below 205: its
  -- slice is 0, and `remaining` cannot go below that.
  tick_no_slice :
      (id weight thread_cap : ℕ) (rest : List ℕ) (s : LinuxLikeScheduler)
      → weight < 205
      → s.ready ≡ id ∷ rest
      → (run_next search (add_task id weight thread_cap s) >>= tick search) ≡ none
  unfolding run_next tick add_task charge
  tick_no_slice id weight thread_cap rest s small e =
      let no_slice : base_slice * weight / 1024 ≡ 0 = omega arith in ground (arith, e, no_slice)
