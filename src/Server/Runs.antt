-- ===== src/Server/Runs.antt =====
-- src/server/server.cpp, run and stop: a whole run of a new server, and the state it leaves behind.
use distributed_integration.Base.{
  ℕ, ◌+◌, ◌<◌, ◌^◌, ◌≡◌, ◌⊎◌, refl, ap, ◌∙◌, Bool, true, false, Option, none, some, List, [], ◌∷◌,
  foldl, arith, length, All, Outcome, ok, throw, undefined, ◌==◌, ◌>>=◌, Bool-cases, inl, inr,
}
use mathlib.Core.Path.{subst}
use distributed_integration.Double.{Double}
use distributed_integration.Messages.{Command, TaskBatch}
use distributed_integration.ClientManager
use distributed_integration.ClientManager.{ClientConnection, cores_of, get_client_count, add_client}
use distributed_integration.ClientManager.Registry.{all_cores}
use distributed_integration.Distributor.{Distributor}
use distributed_integration.Aggregator.{Aggregator}
use distributed_integration.Aggregator.Counts.{results_of, sum_from}
use distributed_integration.ServerState.{
  Server, new_server, Attempt, handle_client_connection, stop, stop_accepting_clients,
}
use distributed_integration.Server.{
  IntegrationParameters, Environment, Ending, invalid_parameters, stopped_before_start,
  parameters_is_valid, received, distribute_and_send_tasks, after_distribution, collect_results,
  finish_run, collect_round, integration_round, gather, after_waiting, run,
}
use distributed_integration.ServerState.Handshakes.{attempts-IsRegistered}
use distributed_integration.Server.Round.{Sends, Answers, completion, integration_round_completed}

-- What a connection attempt leaves alone.
record Untouched (s s' : Server) : Type 0 where
  same_distributor : s'.distributor ≡ s.distributor
  same_running : s'.running ≡ s.running

handle-Untouched : (s : Server) (a : Attempt) → Untouched s (handle_client_connection s a).0
unfolding handle_client_connection
handle-Untouched s a = ground arith

attempts-Untouched :
    (attempts : List Attempt) (s : Server)
    → Untouched s (foldl (λ t a. (handle_client_connection t a).0) s attempts)
attempts-Untouched [] s = record { same_distributor = refl; same_running = refl }
attempts-Untouched (a ∷ rest) s =
    let first = handle-Untouched s a in
    let others = attempts-Untouched rest (handle_client_connection s a).0 in
    record {
      same_distributor = others.same_distributor ∙ first.same_distributor;
      same_running = others.same_running ∙ first.same_running;
    }

-- The server does not accept clients, has no connection, and its flag is down.
pub record IsStopped (s : Server) : Type 0 where
  pub not_running : s.running ≡ false
  pub no_connection : s.manager.clients ≡ []
  pub closed : s.manager.accepting ≡ false

stop-IsStopped : (s : Server) → s.running ≡ true → IsStopped (stop s)
unfolding stop ClientManager.clear ClientManager.stop_accepting
stop-IsStopped s up = rw up (record { not_running = refl; no_connection = refl; closed = refl })

module _ {D : Type 0} ⦃d : Double D⦄ where
  open d use {nought}

  abbrev LeavesStopped : Outcome (Server × Ending D) → Type 0
  LeavesStopped (ok (s, e)) = IsStopped s
  LeavesStopped (throw e) = Unit
  LeavesStopped undefined = Unit

  finish_run-LeavesStopped :
      (env : Environment D) (s : Server) (g : Aggregator D) (waited : Option Bool)
      → s.running ≡ true
      → LeavesStopped (finish_run env (s, g, waited))
  unfolding finish_run
  finish_run-LeavesStopped env s g (some true) up = stop-IsStopped s up
  finish_run-LeavesStopped env s g (some false) up = stop-IsStopped s up
  finish_run-LeavesStopped env s g none up = stop-IsStopped s up

  collect_round-LeavesStopped :
      (env : Environment D) (s : Server) (sent : Bool)
      → s.running ≡ true
      → LeavesStopped (collect_round env (s, sent))
  unfolding collect_round collect_results
  collect_round-LeavesStopped env s true up = finish_run-LeavesStopped env _ _ _ up
  collect_round-LeavesStopped env s false up = stop-IsStopped s up

  after_distribution-LeavesStopped :
      (env : Environment D) (s : Server) (o : Outcome (List (ℕ × TaskBatch D) × Distributor))
      → s.running ≡ true
      → LeavesStopped (after_distribution env s o >>= collect_round env)
  unfolding after_distribution
  after_distribution-LeavesStopped env s (ok (m, t)) up = collect_round-LeavesStopped env _ _ up
  after_distribution-LeavesStopped env s (throw e) up = collect_round-LeavesStopped env s false up
  after_distribution-LeavesStopped env s undefined up = tt

  integration_round-LeavesStopped :
      (env : Environment D) (p : IntegrationParameters D) (s : Server)
      → s.running ≡ true
      → LeavesStopped (integration_round env p s)
  unfolding integration_round distribute_and_send_tasks
  integration_round-LeavesStopped env p s up = elim (Bool-cases (get_client_count s.manager == 0)) [
    | inl nobody ↦ rw nobody (stop-IsStopped s up)
    | inr clients ↦ rw clients (after_distribution-LeavesStopped env s _ up)
  ]

  gather-running :
      (env : Environment D) (s : Server) → s.running ≡ true → (gather env s).running ≡ true
  unfolding gather
  gather-running env s up = (attempts-Untouched env.attempts s).same_running ∙ up

  -- The server as the run finds it when another thread has called `stop` before START.
  abbrev pub interrupted : Environment D → Server → Server
  interrupted env s = record (gather env (record s { running = true })) { running = false }

  -- What a run with valid parameters that was given START, or was not, leaves behind.
  abbrev Leaves : Environment D → Server → Bool → Outcome (Server × Ending D) → Type 0
  Leaves env s true o = LeavesStopped o
  Leaves env s false (ok (s', e)) = (s' ≡ interrupted env s) × (e ≡ stopped_before_start)
  Leaves env s false (throw e) = Unit
  Leaves env s false undefined = Unit

  after_waiting-Leaves :
      (env : Environment D) (p : IntegrationParameters D) (s : Server) (started : Bool)
      → Leaves env s started
          (after_waiting env p (gather env (record s { running = true })) started)
  unfolding after_waiting stop_accepting_clients
  after_waiting-Leaves env p s true =
      integration_round-LeavesStopped env p _
        (gather-running env (record s { running = true }) refl)
  after_waiting-Leaves env p s false = (refl, refl)

  listened :
      (env : Environment D) (s : Server) (started : Bool) (o : Outcome (Unit {0}))
      (next : Outcome (Server × Ending D))
      → Leaves env s started next
      → Leaves env s started (o >>= λ _. next)
  listened env s true (throw e) next h = tt
  listened env s true undefined next h = tt
  listened env s true (ok _) next h = h
  listened env s false (throw e) next h = tt
  listened env s false undefined next h = tt
  listened env s false (ok _) next h = h

  run-Leaves :
      (env : Environment D) (p : IntegrationParameters D) (s : Server)
      → parameters_is_valid p ≡ true
      → Leaves env s env.start_given (run env p s)
  unfolding run
  run-Leaves env p s valid =
      rw valid
        (listened env s env.start_given env.listen _ (after_waiting-Leaves env p s env.start_given))

  -- A run that returns ends in one of three ways. It had invalid parameters, and then it has changed
  -- nothing and says so. Or the parameters were valid and START was given, and then the server is
  -- stopped, however the round has ended: not running, not accepting and with no connection. Or
  -- another thread has called `stop` before START, and then the run says so and leaves the clients
  -- that have registered to that thread.
  pub run_ends :
      (env : Environment D) (p : IntegrationParameters D) (s s' : Server) (e : Ending D)
      → run env p s ≡ ok (s', e)
      → ((parameters_is_valid p ≡ true) × (env.start_given ≡ true) × IsStopped s')
        ⊎ (((parameters_is_valid p ≡ true)
              × (env.start_given ≡ false)
              × (s' ≡ interrupted env s)
              × (e ≡ stopped_before_start))
            ⊎ ((parameters_is_valid p ≡ false) × (s' ≡ s) × (e ≡ invalid_parameters)))
  unfolding run
  run_ends env p s s' e h = elim (Bool-cases (parameters_is_valid p)) [
    | inl valid ↦
        let left = subst (Leaves env s env.start_given) h (run-Leaves env p s valid) in
        elim (Bool-cases env.start_given) [
          | inl given ↦ inl (valid, given, subst (λ b. Leaves env s b (ok (s', e))) given left)
          | inr silent ↦
              let (same, said) = subst (λ b. Leaves env s b (ok (s', e))) silent left in
              inr (inl (valid, silent, same, said))
        ]
    | inr invalid ↦
        let same : ◌≡◌ {A = Outcome (Server × Ending D)} (ok (s, invalid_parameters)) (ok (s', e)) =
          rw invalid at h in
        inr (inr (invalid, cc, cc))
  ]

  -- A run of a new server with valid parameters, whose acceptor starts, that is given START after
  -- some client has registered, completes if all registered clients have cores, can be reached and
  -- answer with one result for each core and neither counter of identifiers wraps around: the value
  -- is the sum of the values of the successes, in the order of arrival.
  pub run_completed :
      (env : Environment D) (p : IntegrationParameters D)
      → let cs = (gather env (record new_server { running = true })).manager.clients in
        parameters_is_valid p ≡ true
        → env.listen ≡ ok tt
        → env.start_given ≡ true
        → 0 < length cs
        → All (λ c. 0 < cores_of c) cs
        → Sends env
        → All (Answers env) cs
        → 1 + all_cores cs < 2 ^ 64
        → 1 + length env.attempts < 2 ^ 64
        → (s' : Server) × (stops : List (ℕ × Command)) × (run env p new_server
            ≡ completion s' stops (sum_from nought (results_of (env.schedule (received env cs)))))
  unfolding run gather after_waiting stop_accepting_clients ClientManager.stop_accepting
  run_completed env p valid listening start some_client busy sends answers fits few =
      let opened : Server = record new_server { running = true } in
      let waiting = gather env opened in
      let kept = attempts-Untouched env.attempts opened in
      let registered =
        attempts-IsRegistered env.attempts opened few (record { distinct = tt; below = tt }) in
      let ready = stop_accepting_clients (record waiting { start_received = true }) in
      let (s', stops, round) =
        integration_round_completed env p ready some_client registered.distinct busy sends answers
          (omega (arith, ap (λ (t : Distributor). t.next_task_id) kept.same_distributor)) in
      (
        s',
        stops,
        rw valid (
            ap (λ o. o >>= λ _. after_waiting env p waiting env.start_given) listening
            ∙ ap (after_waiting env p waiting) start
            ∙ round),
      )
