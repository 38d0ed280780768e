-- ===== src/Scheduler/Autosar.antt =====
-- src/crates/l4/scheduler/autosar.rs: fixed priorities from periods, the least number first, with
-- priority inheritance on mutexes. `none` is a panic: an index of the task map that is missing, or an
-- `unwrap` of `None`.
pub mod Order
pub mod Ready
pub mod Boosting
pub mod Locking
pub mod Frames
pub mod Inheriting
pub mod Rescheduling
pub mod HandingOver
pub mod Unlocking
use l4rerust.Base.{
  ℕ, ◌≡◌, Bool, true, false, ◌||◌, List, [], ◌∷◌, Option, none, some, min, ltb, ◌==◌, if◌then◌else◌,
}
use l4rerust.Scheduler.Queue.{◌>>=◌, insert_at, contains, retain_ne, keys_of, Search}

pub record Task : Type 0 where
  pub period : ℕ
  pub base_priority : ℕ
  pub current_priority : ℕ
  pub thread_cap : ℕ
  pub owned_mutexes : List ℕ

pub record MutexState : Type 0 where
  pub owner : Option ℕ
  pub waiters : List ℕ

-- `started` is the history of the calls of `run_thread`, the latest first.
pub record AutosarScheduler : Type 0 where
  pub scheduler_cap : ℕ
  pub tasks : ℕ → Option Task
  pub ready : List ℕ
  pub current : Option ℕ
  pub mutexes : ℕ → Option MutexState
  pub started : List (ℕ × ℕ)

abbrev pub new : ℕ → AutosarScheduler
new cap = record {
  scheduler_cap = cap;
  tasks = λ id. none;
  ready = [];
  current = none;
  mutexes = λ id. none;
  started = [];
}

-- `self.tasks.insert(id, task)`, also a write through `get_mut`
abbrev pub set_task : ℕ → Task → AutosarScheduler → AutosarScheduler
set_task id t s = record s { tasks = λ j. if id == j then some t else s.tasks j }

abbrev pub set_mutex : ℕ → MutexState → AutosarScheduler → AutosarScheduler
set_mutex id m s = record s { mutexes = λ j. if id == j then some m else s.mutexes j }

unfoldable pub add_task : ℕ → ℕ → ℕ → AutosarScheduler → AutosarScheduler
add_task id period thread_cap s =
    set_task id
      (record {
        period = period;
        base_priority = period;
        current_priority = period;
        thread_cap = thread_cap;
        owned_mutexes = [];
      })
      s

-- `self.tasks[&id].current_priority`
abbrev pub priority : AutosarScheduler → ℕ → Option ℕ
priority s id = do t ← s.tasks id; some t.current_priority

-- `self.current == Some(id)`
abbrev pub is_current : ℕ → AutosarScheduler → Bool
is_current id s = elim s.current [ none ↦ false | some cur ↦ cur == id ]

-- The set of a task's mutexes, as a list in which none occurs twice.
abbrev pub insert_owned : ℕ → List ℕ → List ℕ
insert_owned m ms = if contains m ms then ms else m ∷ ms

module _ (search : Search) where
  unfoldable pub insert_ready_sorted : ℕ → AutosarScheduler → Option AutosarScheduler
  insert_ready_sorted id s = do
    prio ← priority s id
    keys ← keys_of (priority s) s.ready
    some (record s { ready = insert_at (search.position keys prio) id s.ready })

  unfoldable pub run_next : AutosarScheduler → Option AutosarScheduler
  run_next s = elim s.ready [
    | [] ↦ some s
    | next ∷ rest ↦ do
      t ← s.tasks next
      some (record s {
        ready = rest;
        current = some next;
        started = (s.scheduler_cap, t.thread_cap) ∷ s.started;
      })
  ]

  unfoldable pub preempt : AutosarScheduler → Option AutosarScheduler
  preempt s = elim s.current [
    | none ↦ run_next s
    | some cur ↦ do s₁ ← insert_ready_sorted cur (record s { current = none }); run_next s₁
  ]

  unfoldable pub make_ready : ℕ → AutosarScheduler → Option AutosarScheduler
  make_ready id s = if is_current id s || contains id s.ready then some s else do
    s₁ ← insert_ready_sorted id s
    elim s₁.current [
      | none ↦ run_next s₁
      | some cur ↦ do
        cur_prio ← priority s₁ cur
        new_prio ← priority s₁ id
        if ltb new_prio cur_prio then preempt s₁ else some s₁
    ]

  -- The last lines of `lock_mutex`: a task that runs gives up the processor.
  abbrev pub block : ℕ → AutosarScheduler → Option AutosarScheduler
  block task s = if is_current task s then run_next (record s { current = none }) else some s

  -- `retain` without the task and `insert_ready_sorted` of it, if it is ready
  abbrev pub reposition : ℕ → AutosarScheduler → Option AutosarScheduler
  reposition id s =
      if contains id s.ready
      then insert_ready_sorted id (record s { ready = retain_ne id s.ready })
      else some s

  abbrev pub mutex_of : ℕ → AutosarScheduler → MutexState
  mutex_of mutex s = elim (s.mutexes mutex) [
    | none ↦ record { owner = none; waiters = [] }
    | some m ↦ m
  ]

  unfoldable pub lock_mutex : ℕ → ℕ → AutosarScheduler → Option AutosarScheduler
  lock_mutex task mutex s =
      let m = mutex_of mutex s in
      elim m.owner [
        | none ↦ do
          t ← s.tasks task
          some (
              set_task task (record t { owned_mutexes = insert_owned mutex t.owned_mutexes })
                (set_mutex mutex (record m { owner = some task }) s))
        | some owner ↦ do
          prio ← priority s task
          keys ← keys_of (priority s) m.waiters
          o ← s.tasks owner
          let waiters = insert_at (search.position keys prio) task m.waiters
          let blocked = record s { ready = retain_ne task s.ready }
          let waiting = set_mutex mutex (record m { waiters = waiters }) blocked
          s₁ ←
              reposition owner (
                set_task owner (record o { current_priority = min o.current_priority prio })
                  waiting)
          block task s₁
      ]

  -- The closure that `unlock_mutex` folds over the mutexes that are left.
  unfoldable pub inherited : AutosarScheduler → List ℕ → ℕ → Option ℕ
  inherited s [] p = some p
  inherited s (m ∷ ms) p = do
    q ← elim (s.mutexes m) [
      | none ↦ some p
      | some state ↦ elim state.waiters [
        | [] ↦ some p
        | waiter ∷ rest ↦ do k ← priority s waiter; some (min p k)
      ]
    ]
    inherited s ms q

  -- The mutex goes to its first waiter, or is free.
  unfoldable pub hand_over : ℕ → MutexState → AutosarScheduler → Option AutosarScheduler
  hand_over mutex m s = elim m.waiters [
    | [] ↦ some (set_mutex mutex (record m { owner = none }) s)
    | next ∷ rest ↦ do
      t ← s.tasks next
      make_ready next (
          set_task next (record t { owned_mutexes = insert_owned mutex t.owned_mutexes })
            (set_mutex mutex (record { owner = some next; waiters = rest }) s))
  ]

  -- The end of `unlock_mutex`, when the task has its new priority.
  unfoldable pub reschedule : ℕ → AutosarScheduler → Option AutosarScheduler
  reschedule task s =
      if contains task s.ready
      then insert_ready_sorted task (record s { ready = retain_ne task s.ready })
      else if is_current task s
      then elim s.ready [
        | [] ↦ some s
        | next ∷ rest ↦ do
          next_prio ← priority s next
          prio ← priority s task
          if ltb next_prio prio then preempt s else some s
      ]
      else some s

  -- `m.owner == Some(id)`
  abbrev pub owned_by : ℕ → MutexState → Bool
  owned_by id m = elim m.owner [ none ↦ false | some o ↦ o == id ]

  -- The body of `unlock_mutex` for a task that owns the mutex.
  unfoldable pub release : ℕ → ℕ → MutexState → AutosarScheduler → Option AutosarScheduler
  release task mutex m s = do
    s₁ ← hand_over mutex m s
    t ← s₁.tasks task
    let owned = retain_ne mutex t.owned_mutexes
    let released = set_task task (record t { owned_mutexes = owned }) s₁
    prio ← inherited released owned t.base_priority
    reschedule task
        (set_task task (record t { owned_mutexes = owned; current_priority = prio }) released)

  unfoldable pub unlock_mutex : ℕ → ℕ → AutosarScheduler → Option AutosarScheduler
  unlock_mutex task mutex s = elim (s.mutexes mutex) [
    | none ↦ some s
    | some m ↦ if owned_by task m then release task mutex m s else some s
  ]

abbrev pub current_task : AutosarScheduler → Option ℕ
current_task s = s.current

abbrev pub task_priority : ℕ → AutosarScheduler → Option ℕ
task_priority id s = priority s id
