-- ===== src/WorkerPool.antt =====
-- src/client/worker_pool.{h,cpp}: the threads of a pool take tasks by a shared index and write the
-- results into a shared vector. The threads interleave in any order: a state is the shared index,
-- the vector of results and where each thread stands, and a step is one critical section or one
-- write.
use distributed_integration.Base.{
  ℕ, ◌+◌, ◌≤◌, ◌<◌, ◌≡◌, String, not, Option, none, some, List, [], ◌==◌, if◌then◌else◌, length,
  get_elem?, set, replicate, All, Outcome, ok, throw, invalid_argument, ◌>>=◌,
}
use distributed_integration.Double.{Double}
use distributed_integration.Messages.{Task, Result, default_result, task_is_valid}
use distributed_integration.Integrator.{
  Integrator, get_current_method, execute_task, failed_result, catch_all,
}
pub mod Invariant
pub mod Progress

pub record WorkerPool (D : Type 0) : Type 0 where
  pub num_threads : ℕ  -- uint32_t
  pub integrator : Integrator D

module _ {D : Type 0} where
  with_integrator : ℕ → Option (Integrator D) → Outcome (WorkerPool D)
  with_integrator n none = throw (invalid_argument "Integrator cannot be nullptr")
  with_integrator n (some g) = do
    _ ← get_current_method g
    ok (record { num_threads = n; integrator = g })

  -- the constructor; its log line asks for the name of the method
  unfoldable pub new_worker_pool : ℕ → Option (Integrator D) → Outcome (WorkerPool D)
  unfolding with_integrator get_current_method
  new_worker_pool n g =
      if n == 0
      then throw (invalid_argument "Number of threads must be > 0")
      else with_integrator n g

-- Where a thread stands in `worker_function`: before the critical section, with `current_index`
-- taken, or behind the loop.
pub data Worker : Type 0 where
  ready : Worker
  working : ℕ → Worker
  finished : Worker

-- What the threads of one call of `execute_tasks_parallel` share, and the threads.
pub record Pool (D : Type 0) : Type 0 where
  pub task_index : ℕ  -- size_t
  pub results : List (Result D)
  pub workers : List Worker

module _ {D : Type 0} ⦃d : Double D⦄ where
  -- the body of the `try` block in `worker_function`, and its handler
  unfoldable pub worker_result : Integrator D → Task D → Outcome (Result D)
  unfolding failed_result catch_all
  worker_result g task =
      if not (task_is_valid task)
      then ok (failed_result task.id "Invalid task parameters")
      else catch_all task.id (execute_task g task)

  -- The state when the threads have been started.
  unfoldable pub start : ℕ → List (Task D) → Pool D
  start num_threads tasks = record {
    task_index = 0;
    results = replicate (length tasks) default_result;
    workers = replicate num_threads ready;
  }

  -- A step of thread `i`: it takes the next index, leaves the loop, or writes a result.
  pub data Step (g : Integrator D) (tasks : List (Task D)) (s : Pool D) : Pool D → Type 0 where
    take :
        (i : ℕ)
        → get_elem? s.workers i ≡ some ready
        → s.task_index < length tasks
        → Step g tasks s (record s {
          task_index = s.task_index + 1;
          workers = set s.workers i (working s.task_index);
        })
    leave :
        (i : ℕ)
        → get_elem? s.workers i ≡ some ready
        → length tasks ≤ s.task_index
        → Step g tasks s (record s { workers = set s.workers i finished })
    write :
        (i k : ℕ) (task : Task D) (r : Result D)
        → get_elem? s.workers i ≡ some (working k)
        → get_elem? tasks k ≡ some task
        → worker_result g task ≡ ok r
        → Step g tasks s (record s { results = set s.results k r; workers = set s.workers i ready })

  pub data Reach (g : Integrator D) (n : ℕ) (tasks : List (Task D)) : Pool D → Type 0 where
    started : Reach g n tasks (start n tasks)
    next : {s t : Pool D} → Reach g n tasks s → Step g tasks s t → Reach g n tasks t

  -- All threads can be joined.
  abbrev pub IsDone : Pool D → Type 0
  IsDone s = All (λ w. w ≡ finished) s.workers

  -- `WorkerPool::execute_tasks_parallel`: no thread is started for no task; else `results` is what
  -- the threads leave behind when all of them have ended.
  pub data Parallel (pool : WorkerPool D) : List (Task D) → List (Result D) → Type 0 where
    no_tasks : Parallel pool [] []
    joined :
        (tasks : List (Task D)) (s : Pool D)
        → 0 < length tasks
        → Reach pool.integrator pool.num_threads tasks s
        → IsDone s
        → Parallel pool tasks s.results
