-- ===== src/Server/Schedules.antt =====
-- src/server/server.cpp: what of a round does not depend on the order in which the receiving threads
-- get to the aggregator.
use distributed_integration.Base.{
  ℕ, ◌≡◌, ◌≢◌, ◌⊎◌, inl, inr, refl, ap, ◌∙◌, Bool, true, false, Option, none, some, List, [], ◌∷◌,
  ==_of_ne, Outcome, ok, throw, undefined, ◌>>=◌, if◌then◌else◌,
}
use distributed_integration.Base.Orders.{IsSchedule}
use distributed_integration.Double.{Double}
use distributed_integration.Messages.{TaskBatch, ResultBatch, Command, CommandType}
use distributed_integration.ClientManager.{
  ClientConnection, get_client_count, get_all_clients, mark_task_sent,
}
use distributed_integration.Distributor.{Distributor, find}
use distributed_integration.Aggregator.{Aggregator, get_final_result}
use distributed_integration.ServerState.{Server, stop}
use distributed_integration.Server.{
  IntegrationParameters, Environment, completed, send_loop, after_distribution,
  distribute_and_send_tasks, received, stop_commands, finish_run, collect_round, integration_round,
}

module _ {D : Type 0} where
  -- The environment with another order of arrival.
  abbrev pub rescheduled :
      Environment D
      → (f : List (ResultBatch D) → List (ResultBatch D)) → IsSchedule f
      → Environment D
  rescheduled env f h = record env { schedule = f; schedule-perm = h }

module _ {D : Type 0} ⦃d : Double D⦄ (env : Environment D)
    (f : List (ResultBatch D) → List (ResultBatch D)) (h : IsSchedule f) where
  pub received-rescheduled :
      (cs : List ClientConnection) → received (rescheduled env f h) cs ≡ received env cs
  unfolding received
  received-rescheduled [] = refl
  received-rescheduled (c ∷ cs) =
      ap (λ l. elim (env.receive c.client_id) [ none ↦ l | some batch ↦ batch ∷ l ])
        (received-rescheduled cs)

  send_loop-rescheduled :
      (m : List (ℕ × TaskBatch D)) (cs : List ClientConnection)
      → send_loop (rescheduled env f h) m cs ≡ send_loop env m cs
  unfolding send_loop
  send_loop-rescheduled m [] = refl
  send_loop-rescheduled m (c ∷ cs) =
      ap
        (λ (rest : List ClientConnection × Bool). elim (find c.client_id m) [
          | none ↦ (c ∷ rest.0, rest.1)
          | some batch ↦
              if env.send_tasks c.client_id batch
              then (mark_task_sent c ∷ rest.0, rest.1)
              else (c ∷ cs, false)
        ])
        (send_loop-rescheduled m cs)

  stop_commands-rescheduled :
      (cs : List ClientConnection) → stop_commands (rescheduled env f h) cs ≡ stop_commands env cs
  unfolding stop_commands
  stop_commands-rescheduled [] = refl
  stop_commands-rescheduled (c ∷ cs) =
      ap
        (λ (rest : List (ℕ × Command)).
          if env.send_stop c.client_id
          then (
            c.client_id,
            record { type = CommandType.stop_work; message = "Integration completed" },
          )
            ∷ rest
          else rest)
        (stop_commands-rescheduled cs)

  after_distribution-rescheduled :
      (s : Server) (o : Outcome (List (ℕ × TaskBatch D) × Distributor))
      → after_distribution (rescheduled env f h) s o ≡ after_distribution env s o
  unfolding after_distribution
  after_distribution-rescheduled s (ok (m, t)) =
      ap
        (λ (r : List ClientConnection × Bool).
          ok (record s { manager = record (s.manager) { clients = r.0 }; distributor = t }, r.1))
        (send_loop-rescheduled m (get_all_clients s.manager))
  after_distribution-rescheduled s (throw e) = refl
  after_distribution-rescheduled s undefined = refl

  pub distribute_and_send_tasks-rescheduled :
      (p : IntegrationParameters D) (s : Server)
      → distribute_and_send_tasks (rescheduled env f h) p s ≡ distribute_and_send_tasks env p s
  unfolding distribute_and_send_tasks
  distribute_and_send_tasks-rescheduled p s = after_distribution-rescheduled s _

  pub finish_run-rescheduled :
      (s : Server) (a : Aggregator D) (o : Option Bool)
      → finish_run (rescheduled env f h) (s, a, o) ≡ finish_run env (s, a, o)
  unfolding finish_run
  finish_run-rescheduled s a none = refl
  finish_run-rescheduled s a (some false) = refl
  finish_run-rescheduled s a (some true) =
      ap (λ l. ok (stop s, completed (get_final_result a) l))
        (stop_commands-rescheduled (get_all_clients s.manager))

  -- What a round with some clients makes of the distribution.
  pub integration_round-distributed :
      (p : IntegrationParameters D) (s : Server) (o : Outcome (Server × Bool))
      → get_client_count s.manager ≢ 0
      → distribute_and_send_tasks env p s ≡ o
      → integration_round (rescheduled env f h) p s ≡ (o >>= collect_round (rescheduled env f h))
  unfolding integration_round
  integration_round-distributed p s o some_client e =
      let any = ==_of_ne (get_client_count s.manager) 0 some_client in
      let same = distribute_and_send_tasks-rescheduled p s ∙ e in rw (any, same) refl

module _ {D : Type 0} ⦃d : Double D⦄ (env : Environment D) where
  after_distribution-cases :
      (s : Server) (o : Outcome (List (ℕ × TaskBatch D) × Distributor))
      → (after_distribution env s o ≡ undefined)
        ⊎ ((t : Server) × (b : Bool) × (after_distribution env s o ≡ ok (t, b)))
  unfolding after_distribution
  after_distribution-cases s (ok (m, t)) = inr (_, _, refl)
  after_distribution-cases s (throw e) = inr (_, _, refl)
  after_distribution-cases s undefined = inl refl

  -- No exception leaves the distribution.
  pub distribute_and_send_tasks-cases :
      (p : IntegrationParameters D) (s : Server)
      → (distribute_and_send_tasks env p s ≡ undefined)
        ⊎ ((t : Server) × (b : Bool) × (distribute_and_send_tasks env p s ≡ ok (t, b)))
  unfolding distribute_and_send_tasks
  distribute_and_send_tasks-cases p s = after_distribution-cases s _
