-- ===== src/Integrator/Reports.antt =====
-- src/client/integrator.cpp and src/client/task_executor.cpp: what the result of a task says.
use distributed_integration.Base.{
  String, ◌≡◌, ◌≢◌, ◌⊎◌, inl, inr, refl, true, false, some, Outcome, ok, throw, undefined,
  Exception, Bool-cases,
}
use distributed_integration.Double.{Double}
use distributed_integration.Messages.{Task, Result, task_is_valid}
use distributed_integration.Methods.{Strategy}
use distributed_integration.Integrator.{
  Integrator, execute_task, execute_single_task, failed_result, done_result, catch_message,
}

module _ {D : Type 0} ⦃d : Double D⦄ where
  open d use {nought}

  -- The integral of the task by the strategy is defined, though it may throw.
  abbrev pub IsSound : Strategy D → Task D → Type 0
  IsSound s task = s.integrate task.begin task.end task.step ≢ undefined

  -- The result carries the identifier of the task. It is a success with the value of the integral
  -- of a valid task, or a failure with the value zero, of a task that is invalid or whose integral
  -- throws.
  pub record IsReport (s : Strategy D) (task : Task D) (r : Result D) : Type 0 where
    pub same_id : r.task_id ≡ task.id
    pub verdict :
        ((r.success ≡ true)
          × (task_is_valid task ≡ true)
          × (s.integrate task.begin task.end task.step ≡ ok r.value))
        ⊎ ((r.success ≡ false)
            × (r.value ≡ nought)
            × ((task_is_valid task ≡ false)
                ⊎ ((x : Exception) × (s.integrate task.begin task.end task.step ≡ throw x))))

  abbrev with_strategy : Strategy D → Integrator D
  with_strategy s = record { strategy = some s }

  report-cases :
      (o : Outcome D)
      → (o ≡ undefined) ⊎ (((v : D) × (o ≡ ok v)) ⊎ ((e : Exception) × (o ≡ throw e)))
  report-cases (ok v) = inr (inl (v, refl))
  report-cases (throw e) = inr (inr (e, refl))
  report-cases undefined = inl refl

  failed-IsReport :
      (s : Strategy D) (task : Task D) (message : String)
      → ((task_is_valid task ≡ false)
          ⊎ ((x : Exception) × (s.integrate task.begin task.end task.step ≡ throw x)))
      → IsReport s task (failed_result task.id message)
  unfolding failed_result
  failed-IsReport s task message why = record { same_id = refl; verdict = inr (refl, refl, why) }

  done-IsReport :
      (s : Strategy D) (task : Task D) (v : D)
      → task_is_valid task ≡ true
      → s.integrate task.begin task.end task.step ≡ ok v
      → IsReport s task (done_result task.id v)
  unfolding done_result
  done-IsReport s task v valid e = record { same_id = refl; verdict = inl (refl, valid, e) }

  -- For every task on which the strategy is defined, `execute_single_task` returns a report: no
  -- exception leaves it.
  pub execute_single_task-IsReport :
      (s : Strategy D) (task : Task D)
      → IsSound s task
      → (r : Result D) × (execute_single_task (with_strategy s) task ≡ ok r) × IsReport s task r
  unfolding execute_single_task execute_task
  execute_single_task-IsReport s task sound = elim (Bool-cases (task_is_valid task)) [
    | inr invalid ↦ (
      failed_result task.id "Invalid task parameters",
      rw invalid,
      failed-IsReport s task "Invalid task parameters" (inl invalid),
    )
    | inl valid ↦ elim (report-cases (s.integrate task.begin task.end task.step)) [
      | inl never ↦ absurd (sound never)
      | inr (inl (v, e)) ↦ (done_result task.id v, rw (valid, e), done-IsReport s task v valid e)
      | inr (inr (x, e)) ↦ (
        failed_result task.id (catch_message x),
        rw (valid, e),
        failed-IsReport s task (catch_message x) (inr (x, e)),
      )
    ]
  ]
