-- ===== src/Executor.antt =====
-- The executor of kernel/src/multitasking/executor.rs over tasks of kernel/src/multitasking/task.rs,
-- and the future of kernel-lib/src/futures.rs that yields once. What a poll does to the rest of the
-- kernel is a state of the tasks.
pub mod Rounds
pub mod Tests
use lemola_osv.Base.{
  ℕ, zero, suc, List, [], ◌∷◌, ◌++◌, Option, none, some, Bool, true, false, if◌then◌else◌,
}

pub data Poll (A : Type 0) : Type 0 where
  ready : A → Poll A
  pending : Poll A

-- The futures of the tasks: a poll changes the future and the state.
pub record Futures : Type 1 where
  pub State : Type 0
  pub Future : Type 0
  pub poll : Future → State → Poll (Unit {0}) × (Future × State)

pub data Priority : Type 0 where
  high : Priority
  default : Priority

module _ (F : Futures) where
  pub record Task : Type 0 where
    pub priority : Priority
    pub future : F.Future

  -- `Task::poll`
  unfoldable pub poll : Task → F.State → Poll (Unit {0}) × (Task × F.State)
  poll task s =
      let (result, (future, s)) = F.poll task.future s in
      (result, (record task { future = future }, s))

  pub record Executor : Type 0 where
    pub task_queue : List Task

  abbrev pub new : Executor
  new = record { task_queue = [] }

  abbrev pub spawn : Executor → Task → Executor
  spawn e task = record { task_queue = e.task_queue ++ task ∷ [] }

  -- The task goes to the end of the queue if it is not done.
  abbrev pub put_back : List Task → Poll (Unit {0}) → Task → List Task
  put_back rest (ready u) task = rest
  put_back rest pending task = rest ++ task ∷ []

  -- One turn of the loop of `run`.
  unfoldable pub turn : Executor → F.State → Executor × F.State
  turn e s = elim e.task_queue [
    | [] ↦ (e, s)
    | task ∷ rest ↦
        let (result, (task, s)) = poll task s in
        (record { task_queue = put_back rest result task }, s)
  ]

  -- `run`, which never returns, after so many turns.
  unfoldable pub run : ℕ → Executor → F.State → Executor × F.State
  run zero e s = (e, s)
  run (suc n) e s = let (e, s) = turn e s in run n e s

-- `PendingOnceFuture`
pub record PendingOnceFuture : Type 0 where
  pub polled : Bool

abbrev pub yield_pending : PendingOnceFuture
yield_pending = record { polled = false }

abbrev pub poll_once : PendingOnceFuture → Poll (Unit {0}) × PendingOnceFuture
poll_once f = if f.polled then (ready tt, f) else (pending, record { polled = true })
