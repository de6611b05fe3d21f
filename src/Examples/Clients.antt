-- ===== src/Examples/Clients.antt =====
-- Runs of a client at concrete inputs.
use distributed_integration.Base.{ℕ, true, none, some, List, [], ◌∷◌, ok, throw, runtime_error}
use distributed_integration.Messages.{
  Task, Result, TaskBatch, Command, CommandType, SystemInfo, OsType, Architecture,
  HandshakeResponse,
}
use distributed_integration.Methods.Simpson.Faults.{IsRuntime}
use distributed_integration.WorkerPool.{WorkerPool, Parallel}
use distributed_integration.WorkerPool.Progress.{Parallel-total, HasResults_of_sound}
use distributed_integration.Client.{Link, initial_client, run}
use distributed_integration.Client.Faults.{run-IsRuntime}
use distributed_integration.Examples.Sample.{whole}
use distributed_integration.Examples.Sound.{simpson, all-IsSound}

abbrev pub pool : WorkerPool ℕ
pool = record { num_threads = 2; integrator = record { strategy = some simpson } }

-- Some schedule of the threads for each list of tasks.
pub scheduled :
    (ts : List (Task ℕ)) → (results : List (Result ℕ)) × Parallel ⦃d = whole⦄ pool ts results
scheduled ts =
    Parallel-total ⦃d = whole⦄ pool ts
      (HasResults_of_sound ⦃d = whole⦄ simpson 2 ts (all-IsSound ts))

abbrev pub execute : List (Task ℕ) → List (Result ℕ)
execute ts = (scheduled ts).0

abbrev info : ℕ → SystemInfo
info cores = record {
  os_type = OsType.linux;
  architecture = Architecture.x64;
  cpu_cores = cores;
  total_ram_mb = 2048;
}

abbrev pub response : HandshakeResponse
response = record {
  assigned_client_id = 5;
  server_version = "1.0.0";
  accepted = true;
  message = "Connection accepted";
}

abbrev pub batch : TaskBatch ℕ
batch = record { tasks = record { id = 1; begin = 2; end = 14; step = 3 } ∷ [] }

abbrev pub stop_work : Command
stop_work = record { type = CommandType.stop_work; message = "Integration completed" }

abbrev pub link : Link ℕ
link = record {
  connection = none;
  send_request = λ q. ok tt;
  response = ok response;
  tasks = ok batch;
  send_batch = λ out. ok tt;
  command = ok stop_work;
}

-- The server closes the connection before it has sent tasks.
abbrev cut : Link ℕ
cut = record link { tasks = throw (runtime_error "Network error") }

run-IsRuntime_example : IsRuntime (run cut execute 0 (initial_client (info 2))).1
run-IsRuntime_example =
    run-IsRuntime cut execute 0
      (record {
        request_defined = λ q e. cc;
        response_defined = λ e. cc;
        tasks_defined = λ e. cc;
        batch_defined = λ out e. cc;
        command_defined = λ e. cc;
      })
      (initial_client (info 2))
