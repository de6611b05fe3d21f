-- ===== src/Examples/Whole.antt =====
-- A round of the whole system at a concrete input: the clients are those of Examples/Peers.antt, and
-- the second one answers first.
use distributed_integration.Base.{
  ℕ, ◌≡◌, ◌≢◌, ◌↔◌, false, refl, true, List, [], ◌∷◌, arith, ok, Outcome,
}
use distributed_integration.Base.Words.{u32, u64}
use distributed_integration.Messages.{ResultBatch}
use distributed_integration.Distributor.{find, distribute_tasks}
use distributed_integration.ServerState.{Server, stop_accepting_clients}
use distributed_integration.Server.{
  Ending, distribute_and_send_tasks, send_loop, finish_run, integration_round,
}
use distributed_integration.Base.Orders.{IsSchedule}
use distributed_integration.Server.Schedules.{rescheduled}
use distributed_integration.Server.Sequential.{IsComputed}
use distributed_integration.System.{simpson}
use distributed_integration.System.Threads.{system_threads, system_completes}
use distributed_integration.Collect.{
  Receiver, receiving, marking, adding, ended, Thread, Collection, collecting, thread_step,
  aggregator_step, may_move, Steps, here, next, moves, joins,
}
use distributed_integration.Collect.Rounds.{Round, Round-iff, collected, after_collection}
use distributed_integration.Aggregator.{new_aggregator, add_result, wait_for_all_results}
use distributed_integration.Accept
use distributed_integration.Accept.{listening}
use distributed_integration.ClientManager
use distributed_integration.ClientManager.{
  ClientConnection, new_connection, mark_task_sent, mark_result_received, get_client_count,
}
use distributed_integration.Examples.Threads.{ready, gathering, schedule, schedule-More}
use distributed_integration.Examples.Sample.{whole}
use distributed_integration.Examples.Rounds.{info, parameters}
use distributed_integration.Examples.Shares.{shares}
use distributed_integration.Examples.Peers.{first, second, answer, connected, peers}

abbrev sent_first : ClientConnection
sent_first = record (new_connection 1 (info 2)) { task_sent = true }

abbrev sent_second : ClientConnection
sent_second = record (new_connection 2 (info 1)) { task_sent = true }

abbrev distributed : Server
distributed = record (ready.server) {
  manager = record (ready.server.manager) { clients = sent_first ∷ sent_second ∷ [] };
  distributor = record { total_tasks = 3; next_task_id = 4 };
}

ready-distributed :
    distribute_and_send_tasks ⦃d = whole⦄ connected parameters ready.server ≡ ok (distributed, true)
unfolding schedule stop_accepting_clients ClientManager.stop_accepting distribute_tasks u32 u64 find
    distribute_and_send_tasks mark_task_sent send_loop
ready-distributed = refl

abbrev at : ClientConnection → Receiver ℕ → Thread ℕ
at c r = record { client = c; at = r }

abbrev received_from : ClientConnection → ClientConnection
received_from c = record c { result_received = true }

abbrev begun : Collection ℕ
begun = collecting (new_aggregator ⦃d = whole⦄ 3) (sent_first ∷ sent_second ∷ [])

abbrev over : Collection ℕ
over = record {
  aggregator =
      add_result ⦃d = whole⦄
        (add_result ⦃d = whole⦄ (new_aggregator ⦃d = whole⦄ 3) (answer 2 1 second))
        (answer 1 2 first);
  threads = at (received_from sent_first) ended ∷ at (received_from sent_second) ended ∷ [];
  joined = 2;
}

begun-over : Steps ⦃d = whole⦄ connected (λ id. false) begun 8 over
unfolding thread_step aggregator_step may_move mark_result_received
begun-over =
    next
      (next
        (next
          (next
            (next
              (next
                (next (next here (moves 1 (at sent_second receiving) refl refl))
                  (moves 1 (at sent_second (marking (answer 2 1 second))) refl refl))
                (moves 1 (at (received_from sent_second) (adding (answer 2 1 second))) refl refl))
              (moves 0 (at sent_first receiving) refl refl))
            (moves 0 (at sent_first (marking (answer 1 2 first))) refl refl))
          (moves 0 (at (received_from sent_first) (adding (answer 1 2 first))) refl refl))
        (joins (at (received_from sent_first) ended) refl refl))
      (joins (at (received_from sent_second) ended) refl refl)

some_clients : get_client_count ready.server.manager ≢ 0
unfolding schedule stop_accepting_clients ClientManager.stop_accepting get_client_count u64
some_clients e = absurd (omega arith)

abbrev outcome : Outcome (Server × Ending ℕ)
outcome = finish_run ⦃d = whole⦄ connected (
  after_collection distributed over,
  over.aggregator,
  wait_for_all_results ⦃d = whole⦄ 300 over.aggregator,
)

round : Round ⦃d = whole⦄ connected (λ id. false) parameters ready.server outcome
round = collected distributed 8 over some_clients ready-distributed begun-over refl

Round-iff_example : Round ⦃d = whole⦄ connected (λ id. false) parameters ready.server outcome ↔ (
    (f : List (ResultBatch ℕ) → List (ResultBatch ℕ)) × (h : IsSchedule f) × (integration_round
        ⦃d = whole⦄
        (rescheduled connected f h)
        parameters
        ready.server
      ≡ outcome))
Round-iff_example =
    Round-iff ⦃d = whole⦄ connected (λ id. false) parameters ready.server outcome (λ id. refl)

system_threads_example :
    IsComputed ⦃d = whole⦄ simpson parameters 1 shares ready.server.manager.clients outcome
unfolding schedule stop_accepting_clients ClientManager.stop_accepting distribute_tasks u32 u64
system_threads_example =
    system_threads ⦃d = whole⦄ connected (λ id. false) parameters ready ready shares
      (record { total_tasks = 3; next_task_id = 4 }) (schedule-More listening gathering Accept.here)
      Accept.here refl refl refl (omega arith) (omega arith) (omega arith) (λ id b. refl)
      (omega arith) (omega arith) refl peers outcome round

system_completes_example :
    (r : Outcome (Server × Ending ℕ)) × Round ⦃d = whole⦄ connected
      (λ id. false)
      parameters
      ready.server
      r
    × IsComputed ⦃d = whole⦄ simpson parameters 1 shares ready.server.manager.clients r
unfolding schedule stop_accepting_clients ClientManager.stop_accepting distribute_tasks u32 u64
system_completes_example =
    system_completes ⦃d = whole⦄ connected (λ id. false) parameters ready ready shares
      (record { total_tasks = 3; next_task_id = 4 }) (schedule-More listening gathering Accept.here)
      Accept.here refl refl refl (omega arith) (omega arith) (omega arith) (λ id b. refl)
      (omega arith) (omega arith) refl peers (λ id. refl)
