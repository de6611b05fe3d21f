-- ===== src/Collect/Rounds.antt =====
-- src/server/server.cpp, run from the close of the acceptor on, with the receiving threads.
use native.Mathlib.Decide.{ℕ_discrete}
use distributed_integration.Base.{
  ℕ, ◌≡◌, ◌≢◌, refl, sym, ap, ◌↔◌, ◌∙◌, Bool, true, false, List, map, ◌==◌, Outcome, ok, undefined,
  arith, inl, inr,
}
use distributed_integration.Double.{Double}
use distributed_integration.Messages.{ResultBatch}
use distributed_integration.ClientManager.{get_client_count}
use distributed_integration.Aggregator.{new_aggregator, wait_for_all_results}
use distributed_integration.ServerState.{Server, stop}
use distributed_integration.Server.{
  IntegrationParameters, Environment, Ending, no_clients, not_distributed, finish_run,
  collect_round, distribute_and_send_tasks, integration_round,
}
use distributed_integration.Base.Orders.{IsSchedule}
use distributed_integration.Server.Schedules.{
  distribute_and_send_tasks-cases, rescheduled, finish_run-rescheduled,
  integration_round-distributed,
}
use distributed_integration.Collect.{Collection, collecting, Steps, IsJoined}
use mathlib.Core.Path.{subst}
use distributed_integration.Collect.Exact.{collect_results-Steps}
use distributed_integration.Collect.Joined.{collect_results_joined}

-- The server behind the collection: the threads have marked their clients.
abbrev pub after_collection : {D : Type 0} → Server → Collection D → Server
after_collection s c = record s {
  manager = record (s.manager) { clients = map (λ t. t.client) c.threads };
}

module _ {D : Type 0} ⦃d : Double D⦄ where
  -- How the round can end: there are no clients; not all tasks were sent; the distribution is
  -- undefined; or the threads that receive the results have been joined.
  pub data Round (env : Environment D) (silent : ℕ → Bool) (p : IntegrationParameters D)
      (s : Server) : Outcome (Server × Ending D) → Type 0 where
    empty : get_client_count s.manager ≡ 0 → Round env silent p s (ok (stop s, no_clients))
    unsent :
        (t : Server)
        → get_client_count s.manager ≢ 0
        → distribute_and_send_tasks env p s ≡ ok (t, false)
        → Round env silent p s (ok (stop t, not_distributed))
    crashed :
        get_client_count s.manager ≢ 0
        → distribute_and_send_tasks env p s ≡ undefined
        → Round env silent p s undefined
    collected :
        (t : Server) (n : ℕ) (c : Collection D)
        → get_client_count s.manager ≢ 0
        → distribute_and_send_tasks env p s ≡ ok (t, true)
        → Steps env silent
            (collecting (new_aggregator t.distributor.total_tasks) t.manager.clients)
            n
            c
        → IsJoined c
        → Round env silent p s (
            finish_run env
              (after_collection t c, c.aggregator, wait_for_all_results 300 c.aggregator))

  integration_round_empty :
      (env : Environment D) (p : IntegrationParameters D) (s : Server)
      → get_client_count s.manager ≡ 0
      → integration_round env p s ≡ ok (stop s, no_clients)
  unfolding integration_round
  integration_round_empty env p s nobody =
      let none : (get_client_count s.manager == 0) ≡ true = ground arith in rw none refl

  -- Every way in which the round can go with its threads is what `integration_round` computes for
  -- some order in which the batches arrive.
  pub Round-integration_round :
      (env : Environment D) (silent : ℕ → Bool) (p : IntegrationParameters D) (s : Server)
      (r : Outcome (Server × Ending D))
      → Round env silent p s r
      → (f : List (ResultBatch D) → List (ResultBatch D)) × (h : IsSchedule f) × (integration_round
            (rescheduled env f h)
            p
            s
          ≡ r)
  unfolding collect_round
  Round-integration_round env silent p s r (empty nobody) =
      (env.schedule, env.schedule-perm, integration_round_empty env p s nobody)
  Round-integration_round env silent p s r (unsent t some_client failed) = (
    env.schedule,
    env.schedule-perm,
    integration_round-distributed env env.schedule env.schedule-perm p s (ok (t, false)) some_client
        failed,
  )
  Round-integration_round env silent p s r (crashed some_client failed) = (
    env.schedule,
    env.schedule-perm,
    integration_round-distributed env env.schedule env.schedule-perm p s undefined some_client
        failed,
  )
  Round-integration_round env silent p s r (collected t n c some_client sent more joined) =
      let (f, h, same) =
        collect_results_joined env silent (new_aggregator t.distributor.total_tasks) t more
          joined in
      (
        f,
        h,
        integration_round-distributed env f h p s (ok (t, true)) some_client sent
            ∙ ap (finish_run (rescheduled env f h)) same
            ∙ finish_run-rescheduled env f h (after_collection t c) c.aggregator
                (wait_for_all_results 300 c.aggregator),
      )

  integration_round-Round :
      (env : Environment D) (silent : ℕ → Bool) (p : IntegrationParameters D) (s : Server)
      (f : List (ResultBatch D) → List (ResultBatch D)) (h : IsSchedule f)
      → ((id : ℕ) → silent id ≡ false)
      → Round env silent p s (integration_round (rescheduled env f h) p s)
  unfolding collect_round
  integration_round-Round env silent p s f h talks =
      elim (ℕ_discrete (get_client_count s.manager) 0) [
        | yes nobody ↦
            subst (Round env silent p s)
              (sym (integration_round_empty (rescheduled env f h) p s nobody)) (empty nobody)
        | no some_client ↦ elim (distribute_and_send_tasks-cases env p s) [
          | inl crash ↦
              subst (Round env silent p s)
                (sym (integration_round-distributed env f h p s undefined some_client crash))
                (crashed some_client crash)
          | inr (t, false, run) ↦
              subst (Round env silent p s)
                (sym (integration_round-distributed env f h p s (ok (t, false)) some_client run))
                (unsent t some_client run)
          | inr (t, true, run) ↦
              let (n, c, more, joined, same) =
                collect_results-Steps env silent talks f h
                  (new_aggregator t.distributor.total_tasks) t in
              subst (Round env silent p s)
                (sym (
                  integration_round-distributed env f h p s (ok (t, true)) some_client run
                  ∙ ap (finish_run (rescheduled env f h)) same
                  ∙ finish_run-rescheduled env f h (after_collection t c) c.aggregator
                      (wait_for_all_results 300 c.aggregator)))
                (collected t n c some_client run more joined)
        ]
      ]

  -- If no client is silent, the ways in which the round can go with its threads are exactly what
  -- `integration_round` computes for the orders in which the batches can arrive.
  pub Round-iff :
      (env : Environment D) (silent : ℕ → Bool) (p : IntegrationParameters D) (s : Server)
      (r : Outcome (Server × Ending D))
      → ((id : ℕ) → silent id ≡ false)
      → Round env silent p s r ↔ (
          (f : List (ResultBatch D) → List (ResultBatch D)) × (h : IsSchedule f)
          × (integration_round (rescheduled env f h) p s ≡ r))
  Round-iff env silent p s r talks = (
    Round-integration_round env silent p s r,
    λ w. subst (Round env silent p s) (w.2) (integration_round-Round env silent p s w.0 w.1 talks),
  )

  -- A round whose clients are not silent can come to its end.
  pub Round-total :
      (env : Environment D) (silent : ℕ → Bool) (p : IntegrationParameters D) (s : Server)
      → ((id : ℕ) → silent id ≡ false)
      → (r : Outcome (Server × Ending D)) × Round env silent p s r
  Round-total env silent p s talks =
      (_, integration_round-Round env silent p s env.schedule env.schedule-perm talks)
