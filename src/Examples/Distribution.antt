-- ===== src/Examples/Distribution.antt =====
-- The distributor, the client manager and the aggregator at concrete inputs.
use distributed_integration.Base.{
  ℕ, ◌≡◌, refl, true, false, some, List, [], ◌∷◌, arith, ok, throw, undefined, runtime_error,
}
use distributed_integration.Base.Words.{u32, u64}
use distributed_integration.Messages.{
  Task, TaskBatch, Result, ResultBatch, SystemInfo, OsType, Architecture,
}
use distributed_integration.Distributor.{ClientRef, Distributor, new_distributor, distribute_tasks}
use distributed_integration.Distributor.Tiling.{IsDistribution, distribute_tasks-IsDistribution}
use distributed_integration.Distributor.Faults.{distribute_tasks_faults}
use distributed_integration.ClientManager.{new_connection, ClientManager}
use distributed_integration.Aggregator.{
  new_aggregator, add_results, wait_for_all_results, get_final_result,
}
use distributed_integration.Aggregator.Counts.{Added, results_of, add_results_lem}
use native.Mathlib.Nat.{ℕ_set}
use distributed_integration.Aggregator.Bag.{bag_value, bag_count, add_results-Bag}
use distributed_integration.Examples.Sample.{whole, whole-IsExact}

abbrev client : ℕ → ℕ → ClientRef
client id cores = record { client_id = id; cpu_cores = cores }

abbrev two_clients : List ClientRef
two_clients = client 1 2 ∷ client 2 1 ∷ []

abbrev task : ℕ → ℕ → ℕ → Task ℕ
task id begin end = record { id = id; begin = begin; end = end; step = 1 }

distribute_runs :
    distribute_tasks ⦃d = whole⦄ new_distributor two_clients 2 15 1
    ≡ ok (
      (1, record { tasks = task 1 2 6 ∷ task 2 6 10 ∷ [] })
          ∷ (2, record { tasks = task 3 10 15 ∷ [] })
          ∷ [],
      record { total_tasks = 3; next_task_id = 4 },
    )
unfolding distribute_tasks u32 u64
distribute_runs = refl

distribute_tasks-IsDistribution_example :
    (m : List (ℕ × TaskBatch ℕ)) × (s : Distributor) × (distribute_tasks ⦃d = whole⦄ new_distributor
        two_clients 2 15 1
      ≡ ok (m, s))
    × IsDistribution ⦃d = whole⦄ 3 new_distributor s two_clients 2 15 1 m
distribute_tasks-IsDistribution_example =
    distribute_tasks-IsDistribution ⦃d = whole⦄ new_distributor two_clients 2 15 1 (omega arith)
      (omega arith) (omega arith) (omega arith) (omega arith)

abbrev idle_clients : List ClientRef
idle_clients = client 1 2 ∷ client 2 0 ∷ []

distribute_tasks_faults_example :
    (distribute_tasks ⦃d = whole⦄ new_distributor [] 2 15 1
      ≡ throw (runtime_error "No clients connected"))
    × (distribute_tasks ⦃d = whole⦄ new_distributor idle_clients 2 15 1 ≡ undefined)
distribute_tasks_faults_example =
    distribute_tasks_faults ⦃d = whole⦄ new_distributor idle_clients 2 15 1 1
      (client 2 0, refl, refl)

abbrev info : ℕ → SystemInfo
info cores = record {
  os_type = OsType.linux;
  architecture = Architecture.x64;
  cpu_cores = cores;
  total_ram_mb = 2048;
}

abbrev one_client : ClientManager
one_client = record { clients = new_connection 1 (info 2) ∷ []; accepting = true }

abbrev good : ℕ → ℕ → Result ℕ
good id value = record { task_id = id; value = value; success = true; error_message = "" }

abbrev bad : ℕ → Result ℕ
bad id = record {
  task_id = id;
  value = 0;
  success = false;
  error_message = "Invalid task parameters";
}

abbrev batch : ℕ → List (Result ℕ) → ResultBatch ℕ
batch id results = record { client_id = id; results = results; total_time_seconds = 0 }

abbrev batches : List (ResultBatch ℕ)
batches = batch 1 (good 1 5 ∷ bad 2 ∷ []) ∷ batch 2 (good 3 7 ∷ []) ∷ []

add_results_lem_example :
    Added ⦃d = whole⦄
      (new_aggregator ⦃d = whole⦄ 3)
      (add_results ⦃d = whole⦄ (new_aggregator ⦃d = whole⦄ 3) batches)
      (results_of batches)
      3
add_results_lem_example = add_results_lem ⦃d = whole⦄ 3 batches (omega arith)

add_results-Bag_example :
    (get_final_result ⦃d = whole⦄ (add_results ⦃d = whole⦄ (new_aggregator ⦃d = whole⦄ 3) batches)
      ≡ 12)
    × (wait_for_all_results ⦃d = whole⦄ 300
          (add_results ⦃d = whole⦄ (new_aggregator ⦃d = whole⦄ 3) batches)
        ≡ some true)
unfolding bag_value bag_count
add_results-Bag_example =
    add_results-Bag ⦃d = whole⦄ whole-IsExact ℕ_set 300 3 batches (omega arith)
