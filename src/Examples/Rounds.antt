-- ===== src/Examples/Rounds.antt =====
-- Handshakes and runs of the server at concrete inputs.
use mathlib.Core.List.Permᴰ
use distributed_integration.Base.{
  ◌⊎◌, ℕ, ◌≡◌, refl, Bool, true, false, Option, some, List, [], ◌∷◌, arith, ok, ◌==◌, if◌then◌else◌,
}
use distributed_integration.Base.Words.{u64}
use distributed_integration.Messages.{
  Result, ResultBatch, Command, SystemInfo, OsType, Architecture,
}
use distributed_integration.ClientManager
use distributed_integration.ClientManager.{add_client, new_connection}
use distributed_integration.ServerState.{Server, new_server, Attempt, response_to}
use distributed_integration.Server.{
  IntegrationParameters, Environment, Ending, gather, invalid_parameters, stopped_before_start,
  no_clients, received, parameters_is_valid, run,
}
use distributed_integration.ServerState.Handshakes.{handshakes, late_clients}
use distributed_integration.Server.Round.{completion}
use distributed_integration.Server.Runs.{IsStopped, interrupted, run_ends, run_completed}
use distributed_integration.Examples.Sample.{whole}

abbrev pub info : ℕ → SystemInfo
info cores = record {
  os_type = OsType.linux;
  architecture = Architecture.x64;
  cpu_cores = cores;
  total_ram_mb = 2048;
}

abbrev pub attempt : ℕ → Attempt
attempt cores = record {
  request = some (record { client_version = "1.0.0"; system_info = info cores });
  reachable = true;
}

abbrev pub result : Bool → ℕ → ℕ → Result ℕ
result good id value = record { task_id = id; value = value; success = good; error_message = "" }

abbrev pub batch : ℕ → List (Result ℕ) → ResultBatch ℕ
batch id results = record { client_id = id; results = results; total_time_seconds = 0 }

-- The first client has two cores, the second has one.
abbrev answer : Bool → ℕ → Option (ResultBatch ℕ)
answer good id =
    if id == 1
    then some (batch 1 (result good 1 4 ∷ result good 2 5 ∷ []))
    else some (batch 2 (result good 3 6 ∷ []))

abbrev pub environment : Bool → Environment ℕ
environment good = record {
  listen = ok tt;
  attempts = attempt 2 ∷ attempt 1 ∷ [];
  start_given = true;
  send_tasks = λ id b. true;
  receive = answer good;
  schedule = λ batches. batches;
  schedule-perm = λ batches. Permᴰ.refl batches;
  send_stop = λ id. true;
}

abbrev pub parameters : IntegrationParameters ℕ
parameters = record { lower_limit = 2; upper_limit = 15; step = 1 }

abbrev pub gathered : Server
gathered = record new_server {
  next_id = 3;
  manager = record {
    clients = new_connection 1 (info 2) ∷ new_connection 2 (info 1) ∷ [];
    accepting = false;
  };
  running = true;
}

late_clients_example :
    let (s, answers) = handshakes gathered (attempt 4 ∷ attempt 2 ∷ []) in
    (answers ≡ some (response_to 3) ∷ some (response_to 4) ∷ [])
    × (s.manager ≡ gathered.manager)
    × (s.next_id ≡ 5)
late_clients_example =
    late_clients (attempt 4 ∷ attempt 2 ∷ []) gathered refl
      (((_, refl), refl), (((_, refl), refl), tt)) (omega arith)

run_completed_example :
    (s : Server) × (stops : List (ℕ × Command)) × (run ⦃d = whole⦄
        (environment true)
        parameters
        new_server
      ≡ completion ⦃d = whole⦄ s stops 15)
unfolding received gather parameters_is_valid add_client u64
run_completed_example =
    run_completed ⦃d = whole⦄ (environment true) parameters refl refl refl (omega arith)
      (omega arith) (λ id b. refl)
      (
        (batch 1 (result true 1 4 ∷ result true 2 5 ∷ []), refl, refl),
        ((batch 2 (result true 3 6 ∷ []), refl, refl), tt),
      )
      (omega arith) (omega arith)

-- Nobody connects before START.
abbrev lonely : Environment ℕ
lonely = record (environment true) { attempts = [] }

abbrev left_behind : Server
left_behind = record new_server {
  manager = record { clients = []; accepting = false };
  start_received = true;
}

lonely-run : run ⦃d = whole⦄ lonely parameters new_server ≡ ok (left_behind, no_clients)
unfolding run ClientManager.stop_accepting ClientManager.clear
lonely-run = refl

run_ends_example :
    ((parameters_is_valid ⦃d = whole⦄ parameters ≡ true)
      × (lonely.start_given ≡ true)
      × IsStopped left_behind)
    ⊎ (((parameters_is_valid ⦃d = whole⦄ parameters ≡ true)
          × (lonely.start_given ≡ false)
          × (left_behind ≡ interrupted ⦃d = whole⦄ lonely new_server)
          × ◌≡◌ {A = Ending ℕ} no_clients stopped_before_start)
        ⊎ ((parameters_is_valid ⦃d = whole⦄ parameters ≡ false)
            × (left_behind ≡ new_server)
            × ◌≡◌ {A = Ending ℕ} no_clients invalid_parameters))
run_ends_example =
    run_ends ⦃d = whole⦄ lonely parameters new_server left_behind no_clients lonely-run
