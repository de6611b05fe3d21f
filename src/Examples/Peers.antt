-- ===== src/Examples/Peers.antt =====
-- The clients of a system at a concrete input: two machines run the client.
use distributed_integration.Base.{
  All, ℕ, ◌≡◌, refl, ap, true, none, some, List, [], ◌∷◌, ok, ◌==◌, if◌then◌else◌, Outcome,
}
use distributed_integration.Messages.{Task, TaskBatch, Result, ResultBatch, HandshakeResponse}
use distributed_integration.Methods.Simpson.{simpsons_rule}
use distributed_integration.WorkerPool.{WorkerPool, Parallel}
use distributed_integration.WorkerPool.Progress.{Parallel-total, HasResults_of_sound}
use distributed_integration.Distributor.{find}
use distributed_integration.Machine.{Machine, collect_system_info}
use distributed_integration.Client
use distributed_integration.Client.{Link, initial_client}
use distributed_integration.Program.ClientMain.{pool_of}
use distributed_integration.Server.{Environment}
use distributed_integration.System.{Peer}
use distributed_integration.Examples.Sample.{whole}
use distributed_integration.Examples.Sound.{all-IsSound}
use distributed_integration.Examples.Rounds.{environment, gathered}
use distributed_integration.Examples.Shares.{share, shares}
use distributed_integration.Examples.Clients.{stop_work}

abbrev machine : ℕ → Machine
machine cores = record { uname = none; hardware_concurrency = cores; sysinfo = none }

abbrev strategy_of : (cores : ℕ) → WorkerPool ℕ
strategy_of cores = pool_of ⦃d = whole⦄ (machine cores)

pub scheduled :
    (cores : ℕ) (ts : List (Task ℕ))
    → (results : List (Result ℕ)) × Parallel ⦃d = whole⦄ (strategy_of cores) ts results
scheduled cores ts = Parallel-total ⦃d = whole⦄ (strategy_of cores) ts (
    HasResults_of_sound ⦃d = whole⦄ (simpsons_rule ⦃d = whole⦄) (strategy_of cores).num_threads ts
      (all-IsSound ts))

abbrev execute : ℕ → List (Task ℕ) → List (Result ℕ)
execute cores ts = (scheduled cores ts).0

abbrev response : ℕ → HandshakeResponse
response id = record {
  assigned_client_id = id;
  server_version = "1.0.0";
  accepted = true;
  message = "Connection accepted";
}

abbrev link : ℕ → TaskBatch ℕ → Link ℕ
link id batch = record {
  connection = none;
  send_request = λ q. ok tt;
  response = ok (response id);
  tasks = ok batch;
  send_batch = λ out. ok tt;
  command = ok stop_work;
}

abbrev pub first : TaskBatch ℕ
first = record { tasks = share 1 2 6 ∷ share 2 6 10 ∷ [] }

abbrev pub second : TaskBatch ℕ
second = record { tasks = share 3 10 15 ∷ [] }

abbrev pub answer : ℕ → ℕ → TaskBatch ℕ → ResultBatch ℕ
answer id cores batch = record {
  client_id = id;
  results = execute cores batch.tasks;
  total_time_seconds = 0;
}

-- Each client has what it computes sent to the server.
abbrev pub connected : Environment ℕ
connected = record (environment true) {
  receive = λ id. if id == 1 then some (answer 1 2 first) else some (answer 2 1 second);
}

first-run :
    (Client.run (link 1 first) (execute 2) 0 (initial_client (collect_system_info (machine 2)))).1
    ≡ ok (Client.finished (answer 1 2 first) stop_work)
unfolding Client.run Client.connect Client.perform_handshake Client.receive_tasks
    Client.send_results Client.receive_command Client.exchange Client.rethrow
first-run = refl

second-run :
    (Client.run (link 2 second) (execute 1) 0 (initial_client (collect_system_info (machine 1)))).1
    ≡ ok (Client.finished (answer 2 1 second) stop_work)
unfolding Client.run Client.connect Client.perform_handshake Client.receive_tasks
    Client.send_results Client.receive_command Client.exchange Client.rethrow
second-run = refl

same_batch :
    (o : Outcome (Client.Ending ℕ)) (a b : ResultBatch ℕ)
    → o ≡ ok (Client.finished a stop_work)
    → o ≡ ok (Client.finished b stop_work)
    → a ≡ b
same_batch o a b h k = cc

pub peers : All (Peer ⦃d = whole⦄ connected shares) gathered.manager.clients
unfolding find
peers = (
  record {
    machine = machine 2;
    link = link 1 first;
    execute = execute 2;
    elapsed = 0;
    response = response 1;
    batch = first;
    last = stop_work;
    schedule = (scheduled 2 first.tasks).1;
    well = record {
      connects = refl;
      requests = λ q. refl;
      responds = refl;
      accepted = refl;
      has_tasks = refl;
      sends = λ out. refl;
      commands = refl;
    };
    given = refl;
    delivers = λ out h. ap some (same_batch _ (answer 1 2 first) out first-run h);
  },
  (
    record {
      machine = machine 1;
      link = link 2 second;
      execute = execute 1;
      elapsed = 0;
      response = response 2;
      batch = second;
      last = stop_work;
      schedule = (scheduled 1 second.tasks).1;
      well = record {
        connects = refl;
        requests = λ q. refl;
        responds = refl;
        accepted = refl;
        has_tasks = refl;
        sends = λ out. refl;
        commands = refl;
      };
      given = refl;
      delivers = λ out h. ap some (same_batch _ (answer 2 1 second) out second-run h);
    },
    tt,
  ),
)
