-- ===== src/Accept/Rounds.antt =====
-- src/server/server.cpp, run: the round that follows the acceptance of clients.
use distributed_integration.Base.{ℕ, ◌+◌, ◌<◌, ◌^◌, ◌≡◌, sym, true, false, List, ok, length, All}
use mathlib.Core.Path.{subst}
use distributed_integration.Double.{Double}
use distributed_integration.Messages.{Command}
use distributed_integration.ClientManager.{ClientConnection, cores_of}
use distributed_integration.ClientManager.Registry.{all_cores}
use distributed_integration.Aggregator.Counts.{results_of, sum_from}
use distributed_integration.ServerState.{Server}
use distributed_integration.Server.{
  IntegrationParameters, Environment, completed, received, integration_round,
}
use distributed_integration.Server.Round.{Sends, Answers, integration_round_completed}
use distributed_integration.Accept.{Acceptance, listening, More, here, next}
use distributed_integration.Accept.Counting.{total}
use distributed_integration.Accept.Ids.{More-IsDistinct}
use distributed_integration.Accept.Closing.{late, More-settled}

pub More-trans : {s t u : Acceptance} → More s t → More t u → More s u
More-trans m here = m
More-trans m (next n step) = next (More-trans m n) step

module _ {D : Type 0} ⦃d : Double D⦄ where
  open d use {nought}

  abbrev Completes :
      Environment D → IntegrationParameters D → Server → List ClientConnection → Type 0
  Completes env p s cs =
      (s' : Server) × (stops : List (ℕ × Command)) × (integration_round env p s
        ≡ ok (s', completed (sum_from nought (results_of (env.schedule (received env cs)))) stops))

  -- Take a state that the threads can reach in which the manager no longer accepts clients and no
  -- thread stands between the test and the lock of `add_client`. In every later state in which the
  -- server runs, after fewer than 2 ^ 64 - 2 connections, the round over the clients of the first
  -- state, with some clients, all with cores, that can all be reached and all answer with one
  -- result for each core, completes with the sum of their successes in the order of arrival, while
  -- the task counter does not wrap around.
  pub integration_round_accepted :
      (env : Environment D) (p : IntegrationParameters D) (s t : Acceptance)
      → More listening s
      → More s t
      → s.server.manager.accepting ≡ false
      → total late s.handlers ≡ 0
      → t.server.running ≡ true
      → length t.handlers + 2 < 2 ^ 64
      → let cs = s.server.manager.clients in
        0 < length cs
        → All (λ c. 0 < cores_of c) cs
        → Sends env
        → All (Answers env) cs
        → t.server.distributor.next_task_id + all_cores cs < 2 ^ 64
        → (s' : Server) × (stops : List (ℕ × Command)) × (integration_round env p t.server
            ≡ ok (
              s',
              completed (sum_from nought (results_of (env.schedule (received env cs)))) stops,
            ))
  integration_round_accepted env p s t begun more closed none_late up few some_client busy sends
        answers fits =
      let same = More-settled s t more closed up none_late in
      let ids = More-IsDistinct t (More-trans begun more) few in
      let back = sym same in
      subst (Completes env p t.server) same (
        integration_round_completed env p t.server (subst (λ cs. 0 < length cs) back some_client)
          ids.distinct (subst (All (λ c. 0 < cores_of c)) back busy) sends
          (subst (All (Answers env)) back answers)
          (subst (λ cs. t.server.distributor.next_task_id + all_cores cs < 2 ^ 64) back fits))
