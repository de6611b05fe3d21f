-- ===== src/System/Threads.antt =====
-- src/server/server.cpp with src/client/client.cpp: the whole system, with the threads that accept the
-- clients, those that compute on their machines, and those that receive the results.
use distributed_integration.Base.{
  ℕ, ◌+◌, ◌<◌, ◌^◌, ◌≡◌, Bool, false, true, List, [], ◌∷◌, ok, length, All, Outcome,
}
use distributed_integration.Base.Orders.{IsSchedule}
use distributed_integration.Double.{Double}
use distributed_integration.Messages.{ResultBatch, TaskBatch}
use distributed_integration.ClientManager.{ClientConnection, cores_of}
use distributed_integration.ClientManager.Registry.{all_cores}
use distributed_integration.Distributor.{Distributor, distribute_tasks}
use distributed_integration.ServerState.{Server}
use distributed_integration.Server.{IntegrationParameters, Environment, Ending, refs}
use distributed_integration.Server.Schedules.{rescheduled}
use distributed_integration.Server.Round.{Sends}
use distributed_integration.Accept.{Acceptance, listening, More}
use distributed_integration.Accept.Counting.{total}
use distributed_integration.Accept.Closing.{late}
use distributed_integration.Collect.Rounds.{Round, Round-integration_round, Round-total}
use distributed_integration.Server.Sequential.{IsComputed}
use mathlib.Core.Path.{subst}
use distributed_integration.System.{Peer, simpson}
use distributed_integration.System.Accepted.{system_accepted}

module _ {D : Type 0} ⦃d : Double D⦄ where
  -- A peer does not depend on the order in which the batches arrive.
  Peer-rescheduled :
      (env : Environment D) (f : List (ResultBatch D) → List (ResultBatch D)) (h : IsSchedule f)
      (m : List (ℕ × TaskBatch D)) (cs : List ClientConnection)
      → All (Peer env m) cs
      → All (Peer (rescheduled env f h) m) cs
  Peer-rescheduled env f h m [] peers = tt
  Peer-rescheduled env f h m (c ∷ cs) (peer, peers) = (
    record {
      machine = peer.machine;
      link = peer.link;
      execute = peer.execute;
      elapsed = peer.elapsed;
      response = peer.response;
      batch = peer.batch;
      last = peer.last;
      schedule = peer.schedule;
      well = peer.well;
      given = peer.given;
      delivers = peer.delivers;
    },
    Peer-rescheduled env f h m cs peers,
  )

  -- The server listens, its threads run to a state in which the manager no longer accepts clients and
  -- no thread stands between the test and the lock of `add_client`, and on to the state in which the
  -- round begins. Behind every client stands a process of the client.
  module _ (env : Environment D) (silent : ℕ → Bool) (p : IntegrationParameters D)
      (s t : Acceptance) (m : List (ℕ × TaskBatch D)) (u : Distributor) (begun : More listening s)
      (more : More s t) (closed : s.server.manager.accepting ≡ false)
      (none_late : total late s.handlers ≡ 0) (up : t.server.running ≡ true)
      (few : length t.handlers + 2 < 2 ^ 64) (some_client : 0 < length s.server.manager.clients)
      (busy : All (λ c. 0 < cores_of c) s.server.manager.clients) (sends : Sends env)
      (fits : t.server.distributor.next_task_id + all_cores s.server.manager.clients < 2 ^ 64)
      (narrow : all_cores s.server.manager.clients < 2 ^ 32)
      (shared : distribute_tasks t.server.distributor
          (refs s.server.manager.clients)
          p.lower_limit
          p.upper_limit
          p.step
        ≡ ok (m, u))
      (peers : All (Peer env m) s.server.manager.clients) where
    -- Take a state that the threads of a server that listens can reach in which the manager no
    -- longer accepts clients and no thread stands between the test and the lock of `add_client`,
    -- and a later state in which the server runs, after fewer than 2 ^ 64 - 2 connections. Let
    -- behind every client of the first state stand a process of the client on some machine, over a
    -- link that goes well, whose threads have run to their end. Then every way in which the round
    -- can go from the later state, whatever the order of the steps of its receiving threads and of
    -- the threads of each client, completes. The results, client by client, are those of one
    -- sequential run, with Simpson's rule, of all tasks of the distribution among those clients, and
    -- the value is the sum of the successes in some order of the batches. The tasks are cut from the
    -- interval: they count up and follow one another from the lower limit on, each as wide as
    -- (upper - lower) * cores / total / cores, but the last one ends exactly at the upper limit.
    -- There are some clients, all with cores, every batch can be sent, and the counters of tasks and
    -- of cores do not wrap around.
    pub system_threads :
        (r : Outcome (Server × Ending D))
        → Round env silent p t.server r
        → IsComputed simpson p t.server.distributor.next_task_id m s.server.manager.clients r
    system_threads r round =
        let cs = s.server.manager.clients in
        let (f, h, same) = Round-integration_round env silent p t.server r round in
        let first = t.server.distributor.next_task_id in
        subst (IsComputed simpson p first m cs) same (
          system_accepted (rescheduled env f h) p s t m u begun more closed none_late up few
            some_client busy sends fits narrow shared (Peer-rescheduled env f h m cs peers))

    -- Take states as in `system_threads`: the threads of a server that listens reach the first, in
    -- which clients are no longer accepted, and then the second, in which the server runs; behind
    -- every client, of which there are some, all with cores, stands a process of the client over a
    -- link that goes well, every batch can be sent, and no counter wraps around. If no client is
    -- silent, the round can come to its end: there is a way in which it goes from the second state,
    -- and it completes with the results of one sequential run of the tasks that are cut from the
    -- interval, summed in some order of the batches.
    pub system_completes :
        ((id : ℕ) → silent id ≡ false)
        → (r : Outcome (Server × Ending D)) × Round env silent p t.server r
          × IsComputed simpson p t.server.distributor.next_task_id m s.server.manager.clients r
    system_completes talks =
        let (r, round) = Round-total env silent p t.server talks in
        (r, round, system_threads r round)
