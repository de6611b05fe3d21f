-- ===== src/System/Accepted.antt =====
-- src/server/server.cpp with src/client/client.cpp: the whole system, from the server that begins
-- to listen to the value of the integral.
use mathlib.Core.Path.{subst}
use distributed_integration.Base.{ℕ, ◌+◌, ◌<◌, ◌^◌, ◌≡◌, sym, true, false, List, ok, length, All}
use distributed_integration.Double.{Double}
use distributed_integration.Messages.{TaskBatch}
use distributed_integration.ClientManager.{cores_of}
use distributed_integration.ClientManager.Registry.{all_cores}
use distributed_integration.Distributor.{Distributor, distribute_tasks}
use distributed_integration.Server.{IntegrationParameters, Environment, refs, integration_round}
use distributed_integration.Server.Round.{Sends}
use distributed_integration.Accept.{Acceptance, listening, More}
use distributed_integration.Accept.Counting.{total}
use distributed_integration.Accept.Ids.{More-IsDistinct}
use distributed_integration.Accept.Closing.{late, More-settled}
use distributed_integration.Accept.Rounds.{More-trans}
use distributed_integration.Server.Sequential.{IsComputed}
use distributed_integration.System.{Peer, simpson, system_sequential}

module _ {D : Type 0} ⦃d : Double D⦄ where
  -- Take a state that the threads of a server that listens can reach in which the manager no longer
  -- accepts clients and no thread stands between the test and the lock of `add_client`, and a later
  -- state in which the server runs, after fewer than 2 ^ 64 - 2 connections. Let behind every client
  -- of the first state stand a process of the client on some machine, over a link that goes well.
  -- Then the round in the later state completes as `system_sequential` says, with those clients.
  -- There are some clients, all with cores, every batch can be sent, and the counters of tasks and
  -- of cores do not wrap around.
  pub system_accepted :
      (env : Environment D) (p : IntegrationParameters D) (s t : Acceptance)
      (m : List (ℕ × TaskBatch D)) (u : Distributor)
      → More listening s
      → More s t
      → s.server.manager.accepting ≡ false
      → total late s.handlers ≡ 0
      → t.server.running ≡ true
      → length t.handlers + 2 < 2 ^ 64
      → let cs = s.server.manager.clients in
        0 < length cs
        → All (λ c. 0 < cores_of c) cs
        → Sends env
        → t.server.distributor.next_task_id + all_cores cs < 2 ^ 64
        → all_cores cs < 2 ^ 32
        → distribute_tasks t.server.distributor (refs cs) p.lower_limit p.upper_limit p.step
          ≡ ok (m, u)
        → All (Peer env m) cs
        → IsComputed simpson p t.server.distributor.next_task_id m cs
            (integration_round env p t.server)
  system_accepted env p s t m u begun more closed none_late up few some_client busy sends fits
        narrow shared peers =
      let same = More-settled s t more closed up none_late in
      let ids = More-IsDistinct t (More-trans begun more) few in
      let back = sym same in
      let first = t.server.distributor.next_task_id in
      subst (λ cs. IsComputed simpson p first m cs (integration_round env p t.server)) same
        (system_sequential env p t.server m u (subst (λ cs. 0 < length cs) back some_client)
          ids.distinct (subst (All (λ c. 0 < cores_of c)) back busy) sends
          (subst (λ cs. first + all_cores cs < 2 ^ 64) back fits)
          (subst (λ cs. all_cores cs < 2 ^ 32) back narrow)
          (subst
            (λ cs.
              distribute_tasks t.server.distributor (refs cs) p.lower_limit p.upper_limit p.step
              ≡ ok (m, u))
            back shared)
          (subst (All (Peer env m)) back peers))
