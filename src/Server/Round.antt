-- ===== src/Server/Round.antt =====
-- src/server/server.cpp, run: what a whole run returns when the clients answer.
use distributed_integration.Base.{
  leb, ℕ, ◌+◌, ◌<◌, ◌^◌, ◌≡◌, refl, ap, ◌∙◌, true, false, some, List, [], ◌∷◌, map, arith, length,
  length-append, length-map, All, Outcome, ok, ◌==◌, Option-cases, inl, inr,
}
use distributed_integration.Double.{Double}
use distributed_integration.Messages.{Result, Command, TaskBatch, ResultBatch}
use distributed_integration.ClientManager.{
  ClientConnection, cores_of, get_all_clients, get_client_count, mark_task_sent,
}
use distributed_integration.ClientManager.Registry.{IsDistinct, Lacks, all_cores}
use distributed_integration.Distributor.{ClientRef, find}
use distributed_integration.Distributor.Spec.{IsOther, Distinct, HasCores, cores, sent, IsServed}
use distributed_integration.Distributor.Tiling.{distribute_tasks_lem}
use distributed_integration.Aggregator.{
  new_aggregator, add_results, wait_for_all_results, get_final_result,
}
use distributed_integration.Aggregator.Order.{length-perm}
use distributed_integration.Aggregator.Counts.{
  results_of, sum_from, add_results_lem, wait_for_all_results_lem,
}
use distributed_integration.ServerState.{Server, stop}
use distributed_integration.Server.{
  IntegrationParameters, Environment, Ending, completed, refs, send_loop, after_distribution,
  distribute_and_send_tasks, received, mark_received, collect_results, stop_commands, finish_run,
  collect_round, integration_round,
}

Lacks-refs : (id : ℕ) (cs : List ClientConnection) → Lacks id cs → All (IsOther id) (refs cs)
Lacks-refs id [] l = tt
Lacks-refs id (c ∷ cs) l = (l.0, Lacks-refs id cs l.1)

pub Distinct-refs : (cs : List ClientConnection) → IsDistinct cs → Distinct (refs cs)
Distinct-refs [] d = tt
Distinct-refs (c ∷ cs) d = (Lacks-refs c.client_id cs d.0, Distinct-refs cs d.1)

pub cores-refs : (cs : List ClientConnection) → cores (refs cs) ≡ all_cores cs
cores-refs [] = refl
cores-refs (c ∷ cs) = omega (arith, cores-refs cs)

pub length-refs : (cs : List ClientConnection) → length (refs cs) ≡ length cs
length-refs cs = length-map cs _

pub HasCores-refs :
    (cs : List ClientConnection) → All (λ c. 0 < cores_of c) cs → All HasCores (refs cs)
HasCores-refs [] h = tt
HasCores-refs (c ∷ cs) h = (h.0, HasCores-refs cs h.1)

module _ {D : Type 0} ⦃d : Double D⦄ where
  open d use {nought}

  abbrev pub completion : Server → List (ℕ × Command) → D → Outcome (Server × Ending D)
  completion s stops value = ok (s, completed value stops)

  length-sent :
      (m : List (ℕ × TaskBatch D)) (cs : List ClientRef)
      → All (IsServed m) cs
      → length (sent cs m) ≡ cores cs
  length-sent m [] h = refl
  length-sent m (c ∷ cs) ((b, found, size), h) =
      let rest = length-sent m cs h in
      rw found (omega (arith, length-append b.tasks (sent cs m), rest, size))

  -- Every client answers, with one result for each of its cores.
  abbrev pub Answers : Environment D → ClientConnection → Type 0
  Answers env c =
      (b : ResultBatch D) × (env.receive c.client_id ≡ some b) × (length b.results ≡ cores_of c)

  length-received :
      (env : Environment D) (cs : List ClientConnection)
      → All (Answers env) cs
      → length (results_of (received env cs)) ≡ all_cores cs
  unfolding received
  length-received env [] h = refl
  length-received env (c ∷ cs) ((b, got, size), h) =
      rw (got, received, length)
        (omega (
          arith,
          length-append b.results (results_of (received env cs)),
          length-received env cs h,
          size,
        ))

  -- Every write of a batch succeeds.
  abbrev pub Sends : Environment D → Type 0
  Sends env = (id : ℕ) (batch : TaskBatch D) → env.send_tasks id batch ≡ true

  send_loop_sent :
      (env : Environment D) (m : List (ℕ × TaskBatch D)) (cs : List ClientConnection)
      → Sends env
      → (send_loop env m cs).1 ≡ true
  unfolding send_loop
  send_loop_sent env m [] sends = refl
  send_loop_sent env m (c ∷ cs) sends = elim (Option-cases (find c.client_id m)) [
    | inl e ↦ rw (e, send_loop) (send_loop_sent env m cs sends)
    | inr (batch, e) ↦ rw (e, sends c.client_id batch, send_loop) (send_loop_sent env m cs sends)
  ]

  received-send_loop :
      (env : Environment D) (m : List (ℕ × TaskBatch D)) (cs : List ClientConnection)
      → received env (send_loop env m cs).0 ≡ received env cs
  unfolding send_loop received mark_task_sent
  received-send_loop env m [] = refl
  received-send_loop env m (c ∷ cs) = elim (Option-cases (find c.client_id m)) [
    | inl e ↦ ground (arith, e, received-send_loop env m cs)
    | inr (batch, e) ↦ ground (arith, e, received-send_loop env m cs)
  ]

  distribute_and_send_tasks_sent :
      (env : Environment D) (p : IntegrationParameters D) (s : Server)
      → let cs = s.manager.clients in
        0 < length cs
        → IsDistinct cs
        → All (λ c. 0 < cores_of c) cs
        → Sends env
        → s.distributor.next_task_id + all_cores cs < 2 ^ 64
        → (s' : Server) × (distribute_and_send_tasks env p s ≡ ok (s', true))
          × (s'.distributor.total_tasks ≡ all_cores cs)
          × (received env s'.manager.clients ≡ received env cs)
  unfolding distribute_and_send_tasks get_all_clients after_distribution
  distribute_and_send_tasks_sent env p s some_client distinct busy sends fits =
      let cs = s.manager.clients in
      let (m, distributor, run, promise) =
        distribute_tasks_lem s.distributor (refs cs) p.lower_limit p.upper_limit p.step
          (omega (arith, length-refs cs)) (HasCores-refs cs busy) (Distinct-refs cs distinct)
          (omega (arith, cores-refs cs)) in
      (
        record s {
          manager = record (s.manager) { clients = (send_loop env m cs).0 };
          distributor = distributor;
        },
        rw (run, send_loop_sent env m cs sends),
        omega (arith, promise.total, length-sent m (refs cs) promise.served, cores-refs cs),
        received-send_loop env m cs,
      )

  collect_round_completed :
      (env : Environment D) (s : Server) (cs : List ClientConnection)
      → received env s.manager.clients ≡ received env cs
      → s.distributor.total_tasks ≡ all_cores cs
      → All (Answers env) cs
      → all_cores cs < 2 ^ 64
      → (s' : Server) × (stops : List (ℕ × Command)) × (collect_round env (s, true)
          ≡ ok
              (s', completed (sum_from nought (results_of (env.schedule (received env cs)))) stops))
  unfolding collect_round collect_results get_all_clients finish_run get_final_result
  collect_round_completed env s cs same total answers fits =
      let arrivals = env.schedule (received env cs) in
      let count : length (results_of arrivals) ≡ all_cores cs =
        length-perm (env.schedule-perm (received env cs)) ∙ length-received env cs answers in
      let enough : leb s.distributor.total_tasks (length (results_of arrivals)) ≡ true =
        ground (arith, count) in
      let waited : wait_for_all_results 300
            (add_results (new_aggregator s.distributor.total_tasks) arrivals)
          ≡ some true =
        wait_for_all_results_lem 300 s.distributor.total_tasks arrivals (omega (arith, count))
        ∙ rw enough in
      let added = add_results_lem s.distributor.total_tasks arrivals (omega (arith, count)) in
      let marked = map (mark_received env) s.manager.clients in
      let last = stop (record s { manager = record (s.manager) { clients = marked } }) in
      let stops = stop_commands env marked in
      (last, stops, rw (same, waited) (ap (completion last stops) added.sum))

  -- A round with some clients, all with cores and distinct identifiers, that can all be reached and
  -- all answer with one result for each core, completes while the task counter does not wrap
  -- around: the value is the sum of the values of the successful results, added in the order in
  -- which the batches arrive.
  pub integration_round_completed :
      (env : Environment D) (p : IntegrationParameters D) (s : Server)
      → let cs = s.manager.clients in
        0 < length cs
        → IsDistinct cs
        → All (λ c. 0 < cores_of c) cs
        → Sends env
        → All (Answers env) cs
        → s.distributor.next_task_id + all_cores cs < 2 ^ 64
        → (s' : Server) × (stops : List (ℕ × Command)) × (integration_round env p s
            ≡ ok (
              s',
              completed (sum_from nought (results_of (env.schedule (received env cs)))) stops,
            ))
  unfolding integration_round get_client_count
  integration_round_completed env p s some_client distinct busy sends answers fits =
      let (s₁, run, total, same) =
        distribute_and_send_tasks_sent env p s some_client distinct busy sends fits in
      let (s₂, stops, round) =
        collect_round_completed env s₁ s.manager.clients same total answers (omega arith) in
      let any : (length s.manager.clients == 0) ≡ false = ground arith in
      (s₂, stops, rw (any, run) round)

  -- All results of a batch are failures.
  abbrev pub IsFailure : Result D → Type 0
  IsFailure r = r.success ≡ false

  sum_from_failures : (acc : D) (rs : List (Result D)) → All IsFailure rs → sum_from acc rs ≡ acc
  sum_from_failures acc [] h = refl
  sum_from_failures acc (r ∷ rs) h = rw (h.0) (sum_from_failures acc rs h.1)

  -- A round with some clients, all with cores and distinct identifiers, that can all be reached and
  -- all answer with one result for each core, completes with the value zero if every result is a
  -- failure and the task counter does not wrap around.
  pub integration_round_silent :
      (env : Environment D) (p : IntegrationParameters D) (s : Server)
      → let cs = s.manager.clients in
        0 < length cs
        → IsDistinct cs
        → All (λ c. 0 < cores_of c) cs
        → Sends env
        → All (Answers env) cs
        → s.distributor.next_task_id + all_cores cs < 2 ^ 64
        → All IsFailure (results_of (env.schedule (received env cs)))
        → (s' : Server) × (stops : List (ℕ × Command)) × (integration_round env p s
            ≡ ok (s', completed nought stops))
  integration_round_silent env p s some_client distinct busy sends answers fits failures =
      let (s', stops, round) =
        integration_round_completed env p s some_client distinct busy sends answers fits in
      let total =
        sum_from_failures nought (results_of (env.schedule (received env s.manager.clients)))
          failures in
      (s', stops, round ∙ ap (completion s' stops) total)
