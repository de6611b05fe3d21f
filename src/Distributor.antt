-- ===== src/Distributor.antt =====
-- src/server/task_distributor.{h,cpp}: the whole interval cut into one task for each core of each
-- client. A client is its identifier and its count of cores, which is all that is read of it here.
use distributed_integration.Base.{
  ℕ, zero, suc, ◌+◌, ◌-◌, ◌≡◌, Bool, true, false, ◌&&◌, Option, none, some, List, [], ◌∷◌, ◌++◌,
  map, foldl, ◌==◌, if◌then◌else◌, length, Outcome, ok, throw, undefined, runtime_error, ◌>>=◌,
}
use distributed_integration.Base.Words.{u32, u64}
use distributed_integration.Double.{Double}
use distributed_integration.Messages.{Task, TaskBatch}
pub mod Spec
pub mod Batch
pub mod Cut
pub mod Shares
pub mod Tiling
pub mod Faults

pub record ClientRef : Type 0 where
  pub client_id : ℕ
  pub cpu_cores : ℕ

pub record Distributor : Type 0 where
  pub total_tasks : ℕ  -- size_t
  pub next_task_id : ℕ  -- uint64_t

abbrev pub new_distributor : Distributor
new_distributor = record { total_tasks = 0; next_task_id = 1 }

-- `std::map<uint64_t, TaskBatch>`: assignment through `operator[]`, and `find`
module _ {ℓ} {V : Type ℓ} where
  unfoldable pub assign : ℕ → V → List (ℕ × V) → List (ℕ × V)
  assign k v [] = (k, v) ∷ []
  assign k v ((j, w) ∷ m) = if j == k then (k, v) ∷ m else (j, w) ∷ assign k v m

  unfoldable pub find : ℕ → List (ℕ × V) → Option V
  find k [] = none
  find k ((j, w) ∷ m) = if j == k then some w else find k m

-- `total_cores += client->get_cpu_cores()`, in `uint32_t`
unfoldable pub sum_cores : List ClientRef → ℕ
sum_cores = foldl (λ total c. u32 (total + c.cpu_cores)) 0

unfoldable pub calculate_tasks_per_client : List ClientRef → List ℕ
calculate_tasks_per_client = map (λ c. c.cpu_cores)

-- What the loops carry along: `current_position` and the counters of the distributor.
pub record Cursor (D : Type 0) : Type 0 where
  pub position : D
  pub task_id : ℕ
  pub total : ℕ

module _ {D : Type 0} ⦃d : Double D⦄ where
  open d use {add, sub, mul, div, of_uint}

  abbrev pub advance : Cursor D → D → Cursor D
  advance c end = record {
    position = end;
    task_id = u64 (c.task_id + 1);
    total = u64 (c.total + 1);
  }

  -- `task.end`: the last task of all goes exactly to the upper limit.
  unfoldable pub task_end : (upper task_range : D) → (num_tasks : ℕ) → Bool → (j : ℕ) → D → D
  task_end upper task_range num_tasks last j position =
      if j == num_tasks - 1 && last then upper else add position task_range

  -- `for (j; j < num_tasks; ++j)`, with `left` rounds to go; `last` says that this is the last
  -- client.
  unfoldable pub tasks_loop :
      (upper step task_range : D)
      → (num_tasks : ℕ) → (last : Bool) → (left j : ℕ) → Cursor D
      → List (Task D) × Cursor D
  unfolding task_end
  tasks_loop upper step task_range num_tasks last zero j c = ([], c)
  tasks_loop upper step task_range num_tasks last (suc left) j c =
      let end = task_end upper task_range num_tasks last j c.position in
      let task : Task D = record { id = c.task_id; begin = c.position; end = end; step = step } in
      let (tasks, c') =
        tasks_loop upper step task_range num_tasks last left (j + 1) (advance c end) in
      (task ∷ tasks, c')

  -- The loop over the clients, with the counts of `tasks_per_client` beside them. `front()` of a
  -- batch with no task is undefined, and so is an index behind the counts.
  unfoldable pub clients_loop :
      (lower upper step : D)
      → (total_cores size : ℕ) → (i : ℕ) → List ClientRef
      → List ℕ
      → List (ℕ × TaskBatch D)
      → Cursor D
      → Outcome (List (ℕ × TaskBatch D) × Cursor D)
  clients_loop lower upper step total_cores size i [] counts m c = ok (m, c)
  clients_loop lower upper step total_cores size i (client ∷ clients) [] m c = undefined
  clients_loop lower upper step total_cores size i (client ∷ clients) (num_tasks ∷ counts) m c =
      let range_for_client =
        div (mul (sub upper lower) (of_uint client.cpu_cores)) (of_uint total_cores) in
      let task_range = div range_for_client (of_uint num_tasks) in
      let (tasks, c') = tasks_loop upper step task_range num_tasks (i == size - 1) num_tasks 0 c in
      let batch : TaskBatch D = record { tasks = tasks } in
      let rest =
        clients_loop lower upper step total_cores size (i + 1) clients counts
          (assign client.client_id batch m) c' in
      if num_tasks == 0 then undefined else rest

  finish_distribution :
      List (ℕ × TaskBatch D) × Cursor D → Outcome (List (ℕ × TaskBatch D) × Distributor)
  finish_distribution (m, c) = ok (m, record { total_tasks = c.total; next_task_id = c.task_id })

  -- `TaskDistributor::distribute_tasks`: the map from a client to its batch, and the new state.
  unfoldable pub distribute_tasks :
      Distributor
      → List ClientRef
      → (lower upper step : D) → Outcome (List (ℕ × TaskBatch D) × Distributor)
  unfolding finish_distribution clients_loop tasks_loop sum_cores calculate_tasks_per_client assign
  distribute_tasks s [] lower upper step = throw (runtime_error "No clients connected")
  distribute_tasks s (client ∷ clients) lower upper step =
      let all = client ∷ clients in
      let start : Cursor D = record { position = lower; task_id = s.next_task_id; total = 0 } in
      clients_loop lower upper step (sum_cores all) (length all) 0 all
        (calculate_tasks_per_client all) [] start
      >>= finish_distribution
