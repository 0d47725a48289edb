-- ===== src/Executor/Rounds.antt =====
-- The executor of kernel/src/multitasking/executor.rs is fair: it polls its tasks in rounds.
use mathlib.Core.List.{append-nil, append_assoc}
use lemola_osv.Base.{◌≡◌, ◌∙◌, refl, sym, ap, List, [], ◌∷◌, ◌++◌, length}
use lemola_osv.Executor.{Futures, Poll, ready, pending, Task, poll, put_back, turn, run}

module _ (F : Futures) where
  -- What is left of a task that was polled: nothing if its future was ready.
  abbrev pub left_over : Poll (Unit {0}) → Task F → List (Task F)
  left_over (ready u) task = []
  left_over pending task = task ∷ []

  -- Every task of a list polled once, in order: the tasks whose futures were pending, and the state.
  unfoldable pub poll_each : List (Task F) → F.State → List (Task F) × F.State
  poll_each [] s = ([], s)
  poll_each (task ∷ rest) s =
      let (result, (task, s)) = poll F task s in
      let (others, s) = poll_each rest s in (left_over result task ++ others, s)

  put_back_apart :
      (rest : List (Task F)) (result : Poll (Unit {0})) (task : Task F)
      → put_back F rest result task ≡ rest ++ left_over result task
  put_back_apart rest (ready u) task = sym (append-nil rest)
  put_back_apart rest pending task = refl

  -- After one turn for each of the first tasks of the queue, each of them has been polled once, in
  -- order, the tasks behind them have moved to the front, and those whose futures were pending stand
  -- behind in their order, the others are gone.
  pub run_first :
      (first behind : List (Task F)) (s : F.State)
      → run F (length first) (record { task_queue = first ++ behind }) s
        ≡ (record { task_queue = behind ++ (poll_each first s).0 }, (poll_each first s).1)
  unfolding run turn poll_each
  run_first [] behind s = ap (λ q. (record { task_queue = q }, s)) (sym (append-nil behind))
  run_first (task ∷ first) behind s =
      let polled = poll F task s in
      let kept = left_over polled.0 polled.1.0 in
      let others = poll_each first polled.1.1 in
      ap (λ q. run F (length first) (record { task_queue = q }) polled.1.1)
        (put_back_apart (first ++ behind) polled.0 polled.1.0 ∙ append_assoc first behind kept)
      ∙ run_first first (behind ++ kept) polled.1.1
      ∙ ap (λ q. (record { task_queue = q }, others.1)) (append_assoc behind kept others.0)
