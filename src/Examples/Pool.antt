-- ===== src/Examples/Pool.antt =====
-- The executor and the worker pool at concrete inputs: two threads, two tasks, Simpson's rule.
use distributed_integration.Base.{
  none, throw, runtime_error, ℕ, ◌+◌, ◌*◌, ◌≤◌, ◌≡◌, refl, some, List, [], ◌∷◌, arith, ok,
}
use distributed_integration.Base.Words.{u64}
use distributed_integration.Messages.{Task, Result, task_is_valid}
use distributed_integration.Methods.{Strategy, function, validate_parameters}
use distributed_integration.Methods.Simpson.{simpson_integrate}
use distributed_integration.Integrator.{
  execute_tasks, Integrator, execute_task, execute_single_task, execute_tasks_sequential,
  done_result, failed_result,
}
use distributed_integration.Integrator.Reports.{IsReport, execute_single_task-IsReport}
use distributed_integration.Integrator.Batches.{unset_result, execute_tasks-sequential}
use distributed_integration.WorkerPool.{
  working, finished, WorkerPool, Pool, worker_result, start, take, leave, write, Reach, started,
  next, IsDone, Parallel, joined,
}
use distributed_integration.WorkerPool.Progress.{
  steps, Reach-ends, Parallel-sequential, HasResults, HasResults_of_sound,
}
use distributed_integration.Examples.Sample.{whole}
use distributed_integration.Examples.Sound.{simpson, simpson-IsSound, all-IsSound}

abbrev task : ℕ → ℕ → ℕ → Task ℕ
task id begin end = record { id = id; begin = begin; end = end; step = 3 }

abbrev integrator : Integrator ℕ
integrator = record { strategy = some simpson }

-- The second task is narrower than its step.
abbrev two_tasks : List (Task ℕ)
two_tasks = task 1 2 14 ∷ task 2 14 16 ∷ []

abbrev pool : WorkerPool ℕ
pool = record { num_threads = 2; integrator = integrator }

sequential_runs :
    execute_tasks_sequential ⦃d = whole⦄ integrator two_tasks
    ≡ ok (done_result ⦃d = whole⦄ 1 12 ∷ failed_result ⦃d = whole⦄ 2 "Invalid task parameters" ∷ [])
unfolding execute_tasks_sequential execute_task task_is_valid simpson_integrate validate_parameters
    function u64
sequential_runs = refl

execute_single_task-IsReport_example :
    (r : Result ℕ) × (execute_single_task ⦃d = whole⦄ integrator (task 1 2 14) ≡ ok r)
    × IsReport ⦃d = whole⦄ simpson (task 1 2 14) r
execute_single_task-IsReport_example =
    execute_single_task-IsReport ⦃d = whole⦄ simpson (task 1 2 14) (simpson-IsSound (task 1 2 14))

has_results : HasResults ⦃d = whole⦄ integrator 2 two_tasks
has_results = HasResults_of_sound ⦃d = whole⦄ simpson 2 two_tasks (all-IsSound two_tasks)

-- Both threads have taken a task.
abbrev both_working : Pool ℕ
both_working = record {
  task_index = 2;
  results = (start ⦃d = whole⦄ 2 two_tasks).results;
  workers = working 0 ∷ working 1 ∷ [];
}

reach_both : Reach ⦃d = whole⦄ integrator 2 two_tasks both_working
unfolding start
reach_both = next (next started (take 0 refl (omega arith))) (take 1 refl (omega arith))

Reach-ends_example :
    (steps ⦃d = whole⦄ integrator 2 two_tasks reach_both ≤ 2 * 2 + 2)
    × ((t : Pool ℕ) × Reach ⦃d = whole⦄ integrator 2 two_tasks t × IsDone ⦃d = whole⦄ t)
Reach-ends_example =
    Reach-ends ⦃d = whole⦄ integrator 2 two_tasks has_results {s = both_working} reach_both

abbrev narrow : List (Task ℕ)
narrow = task 1 14 16 ∷ task 2 16 18 ∷ []

abbrev refused : ℕ → Result ℕ
refused id = failed_result ⦃d = whole⦄ id "Invalid task parameters"

-- The second thread writes its result before the first one does.
out_of_order : Parallel ⦃d = whole⦄ pool narrow (refused 1 ∷ refused 2 ∷ [])
unfolding start worker_result task_is_valid
out_of_order =
    joined narrow
      (record {
        task_index = 2;
        results = refused 1 ∷ refused 2 ∷ [];
        workers = finished ∷ finished ∷ [];
      })
      (omega arith)
      (next
        (next
          (next
            (next (next (next started (take 0 refl (omega arith))) (take 1 refl (omega arith)))
              (write 1 1 (task 2 16 18) (refused 2) refl refl refl))
            (write 0 0 (task 1 14 16) (refused 1) refl refl refl))
          (leave 1 refl (omega arith)))
        (leave 0 refl (omega arith)))
      (refl, (refl, tt))

Parallel-sequential_example :
    execute_tasks_sequential ⦃d = whole⦄ integrator narrow ≡ ok (refused 1 ∷ refused 2 ∷ [])
Parallel-sequential_example =
    Parallel-sequential ⦃d = whole⦄ pool narrow (refused 1 ∷ refused 2 ∷ []) (omega arith)
      out_of_order

execute_tasks-sequential_example :
    ((s : Strategy ℕ)
      → let g : Integrator ℕ = record { strategy = some s } in
        execute_tasks ⦃d = whole⦄ g two_tasks ≡ execute_tasks_sequential ⦃d = whole⦄ g two_tasks)
    × (execute_tasks ⦃d = whole⦄ (record { strategy = none }) two_tasks
        ≡ throw (runtime_error "Integration strategy is not set"))
    × (execute_tasks_sequential ⦃d = whole⦄ (record { strategy = none }) two_tasks
        ≡ ok
            (unset_result ⦃d = whole⦄ (task 1 2 14) ∷ unset_result ⦃d = whole⦄ (task 2 14 16) ∷ []))
execute_tasks-sequential_example = execute_tasks-sequential ⦃d = whole⦄ two_tasks
