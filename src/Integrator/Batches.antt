-- ===== src/Integrator/Batches.antt =====
-- src/client/integrator.cpp, execute_tasks, against src/client/task_executor.cpp,
-- execute_tasks_sequential.
use distributed_integration.Base.{
  ◌≡◌, refl, none, some, List, [], ◌∷◌, map, Outcome, ok, throw, undefined, runtime_error,
  Bool-cases, inl, inr, if◌then◌else◌,
}
use distributed_integration.Double.{Double}
use distributed_integration.Messages.{Task, Result, task_is_valid}
use distributed_integration.Methods.{Strategy}
use distributed_integration.Integrator.{
  Integrator, execute_task, execute_tasks, execute_each, execute_single_task,
  execute_tasks_sequential, failed_result, catch_all, report,
}

module _ {D : Type 0} ⦃d : Double D⦄ where
  -- `execute_task` catches every exception itself, so that there is nothing left to catch.
  catch_all-report : (id : _) (o : Outcome D) → catch_all id (report id o) ≡ report id o
  unfolding catch_all report
  catch_all-report id (ok v) = refl
  catch_all-report id (throw e) = refl
  catch_all-report id undefined = refl

  single-eq-execute :
      (s : Strategy D) (task : Task D)
      → let g : Integrator D = record { strategy = some s } in
        execute_single_task g task ≡ execute_task g task
  unfolding execute_single_task execute_task
  single-eq-execute s task = elim (Bool-cases (task_is_valid task)) [
    | inl valid ↦ rw valid (catch_all-report task.id (s.integrate task.begin task.end task.step))
    | inr invalid ↦ rw invalid
  ]

  each-eq-sequential :
      (s : Strategy D) (tasks : List (Task D))
      → let g : Integrator D = record { strategy = some s } in
        execute_each g tasks ≡ execute_tasks_sequential g tasks
  unfolding execute_each execute_tasks_sequential
  each-eq-sequential s [] = refl
  each-eq-sequential s (t ∷ ts) = rw (single-eq-execute s t, each-eq-sequential s ts)

  -- What the executor makes of a task when the integrator has no strategy.
  abbrev pub unset_result : Task D → Result D
  unset_result task =
      if task_is_valid task
      then failed_result task.id "Integration strategy is not set"
      else failed_result task.id "Invalid task parameters"

  single_unset :
      (task : Task D)
      → execute_single_task (record { strategy = none }) task ≡ ok (unset_result task)
  unfolding execute_single_task execute_task
  single_unset task = elim (Bool-cases (task_is_valid task)) [
    | inl valid ↦ rw valid
    | inr invalid ↦ rw invalid
  ]

  sequential_unset :
      (tasks : List (Task D))
      → execute_tasks_sequential (record { strategy = none }) tasks ≡ ok (map unset_result tasks)
  unfolding execute_tasks_sequential
  sequential_unset [] = refl
  sequential_unset (t ∷ ts) = rw (single_unset t, sequential_unset ts)

  -- With a strategy the batch call of the integrator and the sequential executor agree. With none
  -- the integrator throws, while the executor returns one failure for each task, which says whether
  -- the task or the missing strategy is to blame.
  pub execute_tasks-sequential :
      (tasks : List (Task D))
      → ((s : Strategy D)
          → let g : Integrator D = record { strategy = some s } in
            execute_tasks g tasks ≡ execute_tasks_sequential g tasks)
        × (execute_tasks (record { strategy = none }) tasks
            ≡ throw (runtime_error "Integration strategy is not set"))
        × (execute_tasks_sequential (record { strategy = none }) tasks
            ≡ ok (map unset_result tasks))
  unfolding execute_tasks
  execute_tasks-sequential tasks = ((λ s. each-eq-sequential s tasks), refl, sequential_unset tasks)
