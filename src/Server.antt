-- ===== src/Server.antt =====
-- src/server/server.{h,cpp}: the round of distribution and collection, and the life of the server.
-- The network is an environment: what each peer sends, which writes succeed, and the order in which
-- the receiving threads get to the aggregator. `none` and `false` stand for an exception, which the
-- server catches.
use mathlib.Core.List.{Permᴰ}
use distributed_integration.Base.{
  ℕ, ◌+◌, String, ◌≡◌, Bool, true, false, not, ◌&&◌, ◌||◌, Option, none, some, List, [], ◌∷◌, map,
  foldl, ◌==◌, if◌then◌else◌, length, Outcome, ok, throw, undefined, ◌>>=◌,
}
use distributed_integration.Base.Words.{u64}
use distributed_integration.Double.{Double}
use distributed_integration.Messages.{
  TaskBatch, ResultBatch, HandshakeRequest, HandshakeResponse, Command, CommandType,
}
use distributed_integration.ClientManager
use distributed_integration.ClientManager.{
  ClientConnection, new_connection, cores_of, ClientManager, add_client, get_client_count,
  get_all_clients, mark_task_sent, mark_result_received,
}
use distributed_integration.Distributor.{
  ClientRef, Distributor, new_distributor, find, distribute_tasks,
}
use distributed_integration.Aggregator.{
  Aggregator, new_aggregator, add_results, wait_for_all_results, get_final_result,
}
use distributed_integration.ServerState.{
  Server, Attempt, handle_client_connection, stop_accepting_clients, stop,
}
pub mod Round
pub mod Sequential
pub mod Narrow
pub mod Runs
pub mod Schedules

pub record IntegrationParameters (D : Type 0) : Type 0 where
  pub lower_limit : D
  pub upper_limit : D
  pub step : D

abbrev pub refs : List ClientConnection → List ClientRef
refs = map (λ c. record { client_id = c.client_id; cpu_cores = cores_of c })

-- What happens around a run of the server.
pub record Environment (D : Type 0) : Type 0 where
  pub listen : Outcome (Unit {0})  -- `start_accepting_clients`, which may throw
  pub attempts : List Attempt  -- before the command START
  pub start_given : Bool  -- START is given, and not `stop` called by another thread
  pub send_tasks : ℕ → TaskBatch D → Bool  -- to the client with the identifier
  pub receive : ℕ → Option (ResultBatch D)  -- from that client
  pub schedule : List (ResultBatch D) → List (ResultBatch D)
  pub schedule-perm : (batches : List (ResultBatch D)) → Permᴰ (schedule batches) batches
  pub send_stop : ℕ → Bool

-- How `run` ends.
pub data Ending (D : Type 0) : Type 0 where
  invalid_parameters : Ending D
  stopped_before_start : Ending D
  no_clients : Ending D
  not_distributed : Ending D
  not_collected : Ending D
  completed : (value : D) → (stops : List (ℕ × Command)) → Ending D

module _ {D : Type 0} ⦃d : Double D⦄ where
  open d use {nought, one, epsilon, lt, le, sub, abs}

  -- `IntegrationParameters::is_valid`
  unfoldable pub parameters_is_valid : IntegrationParameters D → Bool
  parameters_is_valid p =
      not (
        le p.upper_limit p.lower_limit
        || le p.step nought
        || le (sub p.upper_limit p.lower_limit) p.step)
      && not (le p.lower_limit nought)
      && not (lt p.lower_limit one && lt one p.upper_limit)
      && not (lt (abs (sub p.lower_limit one)) epsilon || lt (abs (sub p.upper_limit one)) epsilon)

  -- The loop of `distribute_and_send_tasks`, with `send_tasks_to_client`: the clients with their
  -- marks, and whether all was sent. It returns at the first failure.
  unfoldable pub send_loop :
      Environment D → List (ℕ × TaskBatch D) → List ClientConnection → List ClientConnection × Bool
  send_loop env m [] = ([], true)
  send_loop env m (c ∷ cs) =
      let (rest, sent) = send_loop env m cs in
      elim (find c.client_id m) [
        | none ↦ (c ∷ rest, sent)
        | some batch ↦
            if env.send_tasks c.client_id batch
            then (mark_task_sent c ∷ rest, sent)
            else (c ∷ cs, false)
      ]

  after_distribution :
      Environment D
      → Server
      → Outcome (List (ℕ × TaskBatch D) × Distributor)
      → Outcome (Server × Bool)
  after_distribution env s (ok (m, distributor)) =
      let (clients, sent) = send_loop env m (get_all_clients s.manager) in
      ok (
        record s { manager = record (s.manager) { clients = clients }; distributor = distributor },
        sent,
      )
  after_distribution env s (throw e) = ok (s, false)
  after_distribution env s undefined = undefined

  -- `Server::distribute_and_send_tasks`
  unfoldable pub distribute_and_send_tasks :
      Environment D → IntegrationParameters D → Server → Outcome (Server × Bool)
  unfolding after_distribution send_loop get_all_clients
  distribute_and_send_tasks env p s = after_distribution env s (
      distribute_tasks s.distributor (refs (get_all_clients s.manager)) p.lower_limit p.upper_limit
        p.step)

  -- The batches that arrive, and the clients with their marks (`receive_results_from_client`).
  unfoldable pub received : Environment D → List ClientConnection → List (ResultBatch D)
  received env [] = []
  received env (c ∷ cs) = elim (env.receive c.client_id) [
    | none ↦ received env cs
    | some batch ↦ batch ∷ received env cs
  ]

  unfoldable pub mark_received : Environment D → ClientConnection → ClientConnection
  mark_received env c = elim (env.receive c.client_id) [
    | none ↦ c
    | some batch ↦ mark_result_received c
  ]

  -- `Server::collect_results`: all threads are joined before the wait of 300 seconds.
  unfoldable pub collect_results :
      Environment D → Aggregator D → Server → Server × Aggregator D × Option Bool
  unfolding received mark_received add_results wait_for_all_results
  collect_results env aggregator s =
      let clients = get_all_clients s.manager in
      let aggregator' = add_results aggregator (env.schedule (received env clients)) in
      (
        record s { manager = record (s.manager) { clients = map (mark_received env) clients } },
        aggregator',
        wait_for_all_results 300 aggregator',
      )

  -- `Server::send_stop_command_to_all_clients`: what is written, and to whom
  unfoldable pub stop_commands : Environment D → List ClientConnection → List (ℕ × Command)
  stop_commands env [] = []
  stop_commands env (c ∷ cs) =
      let rest = stop_commands env cs in
      if env.send_stop c.client_id
      then (c.client_id, record { type = CommandType.stop_work; message = "Integration completed" })
        ∷ rest
      else rest

  unfoldable pub finish_run :
      Environment D → Server × Aggregator D × Option Bool → Outcome (Server × Ending D)
  finish_run env (s, aggregator, some true) = ok (
    stop s,
    completed (get_final_result aggregator) (stop_commands env (get_all_clients s.manager)),
  )
  finish_run env (s, aggregator, _) = ok (stop s, not_collected)

  unfoldable pub collect_round : Environment D → Server × Bool → Outcome (Server × Ending D)
  collect_round env (s, true) =
      finish_run env (collect_results env (new_aggregator s.distributor.total_tasks) s)
  collect_round env (s, false) = ok (stop s, not_distributed)

  -- `run` from the command START on, with the acceptor closed
  unfoldable pub integration_round :
      Environment D → IntegrationParameters D → Server → Outcome (Server × Ending D)
  unfolding finish_run collect_round distribute_and_send_tasks collect_results get_client_count
  integration_round env p s =
      if get_client_count s.manager == 0
      then ok (stop s, no_clients)
      else (distribute_and_send_tasks env p s >>= collect_round env)

  -- The clients that have connected before START.
  unfoldable pub gather : Environment D → Server → Server
  unfolding handle_client_connection
  gather env s = foldl (λ t a. (handle_client_connection t a).0) s env.attempts

  -- `run` behind the loop that waits for START: the flag says whether START was given. If not,
  -- another thread has called `stop`, which has lowered the flag; the run does not wait for what else
  -- that thread does.
  after_waiting :
      Environment D → IntegrationParameters D → Server → Bool → Outcome (Server × Ending D)
  after_waiting env p s true =
      integration_round env p (stop_accepting_clients (record s { start_received = true }))
  after_waiting env p s false = ok (record s { running = false }, stopped_before_start)

  -- `Server::run`
  unfoldable pub run :
      Environment D → IntegrationParameters D → Server → Outcome (Server × Ending D)
  unfolding parameters_is_valid gather stop integration_round stop_accepting_clients after_waiting
  run env p s =
      if not (parameters_is_valid p)
      then ok (s, invalid_parameters)
      else (env.listen >>= λ _.
          after_waiting env p (gather env (record s { running = true })) env.start_given)
