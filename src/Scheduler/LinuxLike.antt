-- ===== src/Scheduler/LinuxLike.antt =====
-- src/crates/l4/scheduler/linux_like.rs: tasks by virtual runtime, each for a slice of ticks. `none` is
-- a panic: a missing index of the task map, an `unwrap` of `None`, a division by zero, or a
-- subtraction below zero, which Rust's overflow check stops.
pub mod Slices
use l4rerust.Base.{
  ℕ, zero, suc, ◌+◌, ◌-◌, ◌*◌, ◌/◌, Bool, true, false, ◌||◌, List, [], ◌∷◌, Option, none, some, max,
  ltb, ◌==◌, if◌then◌else◌,
}
use l4rerust.Base.{leb, ◌^◌}
use l4rerust.Scheduler.Queue.{◌>>=◌, insert_at, contains, keys_of, Search}

abbrev pub base_slice : ℕ
base_slice = 5

pub record Task : Type 0 where
  pub weight : ℕ
  pub vruntime : ℕ
  pub runtime : ℕ
  pub thread_cap : ℕ
  pub slice : ℕ
  pub remaining : ℕ

-- `started` is the history of the calls of `run_thread`, the latest first.
pub record LinuxLikeScheduler : Type 0 where
  pub scheduler_cap : ℕ
  pub tasks : ℕ → Option Task
  pub ready : List ℕ
  pub current : Option ℕ
  pub started : List (ℕ × ℕ)

abbrev pub new : ℕ → LinuxLikeScheduler
new cap = record {
  scheduler_cap = cap;
  tasks = λ id. none;
  ready = [];
  current = none;
  started = [];
}

abbrev pub set_task : ℕ → Task → LinuxLikeScheduler → LinuxLikeScheduler
set_task id t s = record s { tasks = λ j. if id == j then some t else s.tasks j }

-- For a weight below 2 ^ 64 / 5, where the product does not overflow.
unfoldable pub add_task : ℕ → ℕ → ℕ → LinuxLikeScheduler → LinuxLikeScheduler
add_task id weight thread_cap s =
    let slice = base_slice * weight / 1024 in
    set_task id
      (record {
        weight = weight;
        vruntime = 0;
        runtime = 0;
        thread_cap = thread_cap;
        slice = slice;
        remaining = slice;
      })
      s

-- `self.tasks[&id].vruntime`
abbrev pub vruntime_of : LinuxLikeScheduler → ℕ → Option ℕ
vruntime_of s id = do t ← s.tasks id; some t.vruntime

abbrev pub is_current : ℕ → LinuxLikeScheduler → Bool
is_current id s = elim s.current [ none ↦ false | some cur ↦ cur == id ]

-- `t.runtime += 1` and the two updates behind it, each with its overflow check.
unfoldable pub charge : Task → Option Task
charge t =
    if t.weight == 0
    then none
    else let inc = max 1 (1024 / t.weight) in
      if leb (2 ^ 64) (t.runtime + 1) || leb (2 ^ 64) (t.vruntime + inc) || t.remaining == 0
      then none
      else some (record t {
        runtime = t.runtime + 1;
        vruntime = t.vruntime + inc;
        remaining = t.remaining - 1;
      })

module _ (search : Search) where
  unfoldable pub insert_ready_sorted : ℕ → LinuxLikeScheduler → Option LinuxLikeScheduler
  insert_ready_sorted id s = do
    vr ← vruntime_of s id
    keys ← keys_of (vruntime_of s) s.ready
    some (record s { ready = insert_at (search.position keys vr) id s.ready })

  unfoldable pub run_next : LinuxLikeScheduler → Option LinuxLikeScheduler
  run_next s = elim s.ready [
    | [] ↦ some s
    | next ∷ rest ↦ do
      t ← s.tasks next
      some (
          set_task next (record t { remaining = t.slice })
            (record s {
              ready = rest;
              current = some next;
              started = (s.scheduler_cap, t.thread_cap) ∷ s.started;
            }))
  ]

  unfoldable pub preempt : LinuxLikeScheduler → Option LinuxLikeScheduler
  preempt s = elim s.current [
    | none ↦ run_next s
    | some cur ↦ do s₁ ← insert_ready_sorted cur (record s { current = none }); run_next s₁
  ]

  unfoldable pub make_ready : ℕ → LinuxLikeScheduler → Option LinuxLikeScheduler
  make_ready id s = if is_current id s || contains id s.ready then some s else do
    s₁ ← insert_ready_sorted id s
    elim s₁.current [
      | none ↦ run_next s₁
      | some cur ↦ do
        new_vr ← vruntime_of s₁ id
        cur_vr ← vruntime_of s₁ cur
        if ltb new_vr cur_vr then preempt s₁ else some s₁
    ]

  unfoldable pub tick : LinuxLikeScheduler → Option LinuxLikeScheduler
  tick s = elim s.current [
    | none ↦ run_next s
    | some cur ↦ do
      t ← s.tasks cur
      t' ← charge t
      let s' = set_task cur t' s
      if t'.remaining == 0 then preempt s' else some s'
  ]

  -- `n` ticks
  abbrev pub ticks : ℕ → LinuxLikeScheduler → Option LinuxLikeScheduler
  ticks zero s = some s
  ticks (suc n) s = do s' ← tick s; ticks n s'

abbrev pub task_runtime : ℕ → LinuxLikeScheduler → Option ℕ
task_runtime id s = do t ← s.tasks id; some t.runtime
