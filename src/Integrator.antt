-- ===== src/Integrator.antt =====
-- src/client/integrator.{h,cpp} and src/client/task_executor.{h,cpp}: one task, and a batch in
-- order. A null pointer to a strategy or an integrator is `none`.
use Prim.Native.String.{◌++◌ as str_append}
use distributed_integration.Base.{
  ℕ, String, true, false, not, Option, none, some, List, [], ◌∷◌, if◌then◌else◌, Outcome, ok, throw,
  undefined, Exception, invalid_argument, runtime_error, system_error, other_exception, what, ◌>>=◌,
}
use distributed_integration.Double.{Double}
use distributed_integration.Messages.{Task, Result, task_is_valid}
use distributed_integration.Methods.{Strategy}
pub mod Reports
pub mod Batches
pub mod Sequence

pub record Integrator (D : Type 0) : Type 0 where
  pub strategy : Option (Strategy D)

module _ {D : Type 0} where
  -- the constructor with a strategy
  unfoldable pub new_integrator : Option (Strategy D) → Outcome (Integrator D)
  new_integrator none = throw (invalid_argument "Integration strategy cannot be nullptr")
  new_integrator (some s) = ok (record { strategy = some s })

  unfoldable pub set_strategy : Integrator D → Option (Strategy D) → Outcome (Integrator D)
  set_strategy g none = throw (invalid_argument "Integration strategy cannot be nullptr")
  set_strategy g (some s) = ok (record g { strategy = some s })

  method_of : Option (Strategy D) → Outcome String
  method_of none = throw (runtime_error "Integration strategy is not set")
  method_of (some s) = ok s.get_method_name

  unfoldable pub get_current_method : Integrator D → Outcome String
  unfolding method_of
  get_current_method g = method_of g.strategy

  -- the constructor of `TaskExecutor`; its log line asks for the name of the method
  unfoldable pub new_task_executor : Option (Integrator D) → Outcome (Integrator D)
  unfolding get_current_method
  new_task_executor none = throw (invalid_argument "Integrator cannot be nullptr")
  new_task_executor (some g) = do _ ← get_current_method g; ok g

  -- `TaskExecutor::set_integrator`: the new one is stored before the log line asks for its method,
  -- and stays if that throws.
  unfoldable pub set_integrator :
      Integrator D → Option (Integrator D) → Integrator D × Outcome String
  unfolding get_current_method
  set_integrator old none = (old, throw (invalid_argument "Integrator cannot be nullptr"))
  set_integrator old (some g) = (g, get_current_method g)

-- The prefix that the `catch` clauses of `execute_task` put before `what()`.
unfoldable pub catch_message : Exception → String
unfolding what
catch_message (invalid_argument s) = str_append "Invalid argument: " s
catch_message (runtime_error s) = str_append "Runtime error: " s
catch_message (system_error s) = str_append "Runtime error: " s
catch_message (other_exception s) = str_append "Unexpected error: " s

module _ {D : Type 0} ⦃d : Double D⦄ where
  open d use {nought}

  -- a result with `success = false`
  unfoldable pub failed_result : ℕ → String → Result D
  failed_result id message = record {
    task_id = id;
    value = nought;
    success = false;
    error_message = message;
  }

  unfoldable pub done_result : ℕ → D → Result D
  done_result id value = record { task_id = id; value = value; success = true; error_message = "" }

  report : ℕ → Outcome D → Outcome (Result D)
  report id (ok value) = ok (done_result id value)
  report id (throw e) = ok (failed_result id (catch_message e))
  report id undefined = undefined

  run_strategy : Option (Strategy D) → Task D → Outcome (Result D)
  run_strategy none task = ok (failed_result task.id "Integration strategy is not set")
  run_strategy (some s) task =
      if not (task_is_valid task)
      then ok (failed_result task.id "Invalid task parameters")
      else report task.id (s.integrate task.begin task.end task.step)

  -- `Integrator::execute_task`
  unfoldable pub execute_task : Integrator D → Task D → Outcome (Result D)
  unfolding run_strategy report failed_result done_result catch_message
  execute_task g task = run_strategy g.strategy task

  execute_each : Integrator D → List (Task D) → Outcome (List (Result D))
  execute_each g [] = ok []
  execute_each g (task ∷ tasks) = do
    result ← execute_task g task
    results ← execute_each g tasks
    ok (result ∷ results)

  run_batch : Option (Strategy D) → Integrator D → List (Task D) → Outcome (List (Result D))
  run_batch none g tasks = throw (runtime_error "Integration strategy is not set")
  run_batch (some s) g tasks = execute_each g tasks

  -- `Integrator::execute_tasks`
  unfoldable pub execute_tasks : Integrator D → List (Task D) → Outcome (List (Result D))
  unfolding run_batch execute_each
  execute_tasks g tasks = run_batch g.strategy g tasks

  -- the handler `catch (const std::exception &e)` of `execute_single_task` and `worker_function`
  unfoldable pub catch_all : ℕ → Outcome (Result D) → Outcome (Result D)
  unfolding failed_result what
  catch_all id (ok r) = ok r
  catch_all id (throw e) = ok (failed_result id (str_append "Exception: " (what e)))
  catch_all id undefined = undefined

  -- `TaskExecutor::execute_single_task`
  unfoldable pub execute_single_task : Integrator D → Task D → Outcome (Result D)
  unfolding catch_all failed_result
  execute_single_task g task =
      if not (task_is_valid task)
      then ok (failed_result task.id "Invalid task parameters")
      else catch_all task.id (execute_task g task)

  -- `TaskExecutor::execute_tasks_sequential`
  unfoldable pub execute_tasks_sequential : Integrator D → List (Task D) → Outcome (List (Result D))
  unfolding execute_single_task
  execute_tasks_sequential g [] = ok []
  execute_tasks_sequential g (task ∷ tasks) = do
    result ← execute_single_task g task
    results ← execute_tasks_sequential g tasks
    ok (result ∷ results)
