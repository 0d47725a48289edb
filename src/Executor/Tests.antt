-- ===== src/Executor/Tests.antt =====
-- Tests of kernel/src/multitasking/executor.rs with tasks that count their polls.
use lemola_osv.Base.{ℕ, zero, suc, ◌≡◌, List, [], ◌∷◌}
use lemola_osv.Executor.{Futures, Poll, ready, pending, Task, poll, run, default}
use lemola_osv.Executor.Rounds.{poll_each, run_first}

-- A future that is pending so many times; the state lists the futures polled, the last one first.
abbrev poll_counted : ℕ → List ℕ → Poll (Unit {0}) × (ℕ × List ℕ)
poll_counted zero s = (ready tt, (zero, zero ∷ s))
poll_counted (suc n) s = (pending, (n, suc n ∷ s))

abbrev counted : Futures
counted = record { State = List ℕ; Future = ℕ; poll = poll_counted }

abbrev task : ℕ → Task counted
task n = record { priority = default; future = n }

run_first_example :
    run counted 2 (record { task_queue = task 2 ∷ task 0 ∷ task 5 ∷ [] }) []
    ≡ (record { task_queue = task 5 ∷ task 1 ∷ [] }, 0 ∷ 2 ∷ [])
unfolding poll_each poll
run_first_example = run_first counted (task 2 ∷ task 0 ∷ []) (task 5 ∷ []) []
