-- ===== src/Server/Sequential.antt =====
-- src/server/server.cpp with src/client/client.cpp: what a round of the whole system computes,
-- against one sequential run over all tasks.
use mathlib.Core.Path.{subst}
use distributed_integration.Base.{
  ℕ, ◌+◌, ◌<◌, ◌^◌, ◌≡◌, refl, ap, ◌∙◌, some, List, [], ◌∷◌, arith, length, All, ok, Outcome,
}
use distributed_integration.Double.{Double}
use distributed_integration.Messages.{Command, TaskBatch, ResultBatch}
use distributed_integration.Integrator.{Integrator, execute_tasks_sequential}
use distributed_integration.Integrator.Sequence.{Gives, length-Gives, Gives-append}
use distributed_integration.ClientManager.{ClientConnection, cores_of}
use distributed_integration.ClientManager.Registry.{IsDistinct, all_cores}
use distributed_integration.Distributor.{Distributor, find, distribute_tasks, sum_cores}
use distributed_integration.Distributor.Cut.{cut, widths}
use mathlib.Core.List.{Permᴰ}
use distributed_integration.Distributor.Spec.{IsServed, sent}
use distributed_integration.Distributor.Tiling.{distribute_tasks_lem, sum_cores-eq}
use distributed_integration.Aggregator.Counts.{results_of, sum_from}
use distributed_integration.ServerState.{Server}
use distributed_integration.Server.{
  IntegrationParameters, Environment, Ending, completed, refs, received, integration_round,
}
use distributed_integration.Server.Round.{
  Sends, Answers, Distinct-refs, HasCores-refs, length-refs, cores-refs,
  integration_round_completed,
}

module _ {D : Type 0} ⦃d : Double D⦄ (g : Integrator D) (env : Environment D)
    (m : List (ℕ × TaskBatch D)) where
  -- The client answers with the results of its batch, as the sequential executor computes them.
  abbrev pub Computes : ClientConnection → Type 0
  Computes c =
      (b : TaskBatch D) × (out : ResultBatch D) × (find c.client_id m ≡ some b)
      × (env.receive c.client_id ≡ some out)
      × Gives g b.tasks out.results

  Gives-nothing : Gives g [] []
  unfolding execute_tasks_sequential
  Gives-nothing = refl

  pub received-Gives :
      (cs : List ClientConnection)
      → All Computes cs
      → Gives g (sent (refs cs) m) (results_of (received env cs))
  unfolding received
  received-Gives [] h = Gives-nothing
  received-Gives (c ∷ cs) ((b, out, found, got, gives), h) =
      let rest =
        Gives-append g b.tasks (sent (refs cs) m) out.results (results_of (received env cs)) gives
          (received-Gives cs h) in
      rw (found, got, received) rest

  Computes-Answers :
      (cs : List ClientConnection)
      → All Computes cs
      → All (IsServed m) (refs cs)
      → All (Answers env) cs
  Computes-Answers [] h served = tt
  Computes-Answers (c ∷ cs) ((b, out, found, got, gives), h) ((b', found', size), served) =
      let same : b ≡ b' = cc in
      (
        (
          out,
          got,
          length-Gives g b.tasks out.results gives
              ∙ ap (λ (x : TaskBatch D). length x.tasks) same
              ∙ size,
        ),
        Computes-Answers cs h served,
      )

module _ {D : Type 0} ⦃d : Double D⦄ where
  open d use {nought, sub}

  -- The tasks of the map, client by client, are cut from the interval, with identifiers from `first`
  -- on: each task of a client is as wide as its share of the interval by cores, over its cores.
  abbrev pub IsCut :
      IntegrationParameters D
      → (first : ℕ) → List (ℕ × TaskBatch D)
      → (total : ℕ) → List ClientConnection
      → Type 0
  IsCut p first m total cs =
      sent (refs cs) m
      ≡ cut p.step p.upper_limit first p.lower_limit
          (widths (sub p.upper_limit p.lower_limit) total (refs cs))

  -- The ending is that of a round with the value of a sequential run of `g` over the tasks of the
  -- clients `cs`, summed batch by batch as they arrive. The tasks are cut from the interval.
  abbrev pub IsComputed :
      Integrator D
      → IntegrationParameters D
      → (first : ℕ) → List (ℕ × TaskBatch D)
      → List ClientConnection
      → Outcome (Server × Ending D)
      → Type 0
  IsComputed g p first m cs r =
      (batches : List (ResultBatch D)) × (arrived : List (ResultBatch D)) × (s' : Server)
      × (stops : List (ℕ × Command)) × IsCut p first m (all_cores cs) cs
      × Gives g (sent (refs cs) m) (results_of batches)
      × Permᴰ arrived batches
      × (r ≡ ok (s', completed (sum_from nought (results_of arrived)) stops))

  -- The clients answer for each of their cores, and the tasks of the distribution are cut from the
  -- interval.
  pub shared-Answers :
      (g : Integrator D) (env : Environment D) (p : IntegrationParameters D) (s : Server)
      (m : List (ℕ × TaskBatch D)) (t : Distributor)
      → let cs = s.manager.clients in
        0 < length cs
        → IsDistinct cs
        → All (λ c. 0 < cores_of c) cs
        → s.distributor.next_task_id + all_cores cs < 2 ^ 64
        → distribute_tasks s.distributor (refs cs) p.lower_limit p.upper_limit p.step ≡ ok (m, t)
        → All (Computes g env m) cs
        → All (Answers env) cs × IsCut p s.distributor.next_task_id m (sum_cores (refs cs)) cs
  shared-Answers g env p s m t some_client distinct busy fits shared computes =
      let cs = s.manager.clients in
      let (m', t', run, promise) =
        distribute_tasks_lem s.distributor (refs cs) p.lower_limit p.upper_limit p.step
          (omega (arith, length-refs cs)) (HasCores-refs cs busy) (Distinct-refs cs distinct)
          (omega (arith, cores-refs cs)) in
      let same : m' ≡ m = cc in
      (
        Computes-Answers g env m cs computes
            (subst (λ k. All (IsServed k) (refs cs)) same promise.served),
        subst (λ k. IsCut p s.distributor.next_task_id k (sum_cores (refs cs)) cs) same
            promise.cuts,
      )

  -- A round in which every client answers with the results that the sequential executor has for its
  -- batch completes; the batches, client by client, hold the results of one sequential run of all
  -- tasks of the distribution, and the value is the sum of the successes in the order in which the
  -- batches arrive. The clients have cores and distinct identifiers, can be reached, and the
  -- counters of tasks and of cores do not wrap around.
  pub integration_round_sequential :
      (g : Integrator D) (env : Environment D) (p : IntegrationParameters D) (s : Server)
      (m : List (ℕ × TaskBatch D)) (t : Distributor)
      → let cs = s.manager.clients in
        0 < length cs
        → IsDistinct cs
        → All (λ c. 0 < cores_of c) cs
        → Sends env
        → s.distributor.next_task_id + all_cores cs < 2 ^ 64
        → all_cores cs < 2 ^ 32
        → distribute_tasks s.distributor (refs cs) p.lower_limit p.upper_limit p.step ≡ ok (m, t)
        → All (Computes g env m) cs
        → IsComputed g p s.distributor.next_task_id m cs (integration_round env p s)
  integration_round_sequential g env p s m t some_client distinct busy sends fits few shared
        computes =
      let cs = s.manager.clients in
      let (answers, cuts) =
        shared-Answers g env p s m t some_client distinct busy fits shared computes in
      let (s', stops, round) =
        integration_round_completed env p s some_client distinct busy sends answers fits in
      let total : sum_cores (refs cs) ≡ all_cores cs =
        sum_cores-eq (refs cs) (omega (arith, cores-refs cs)) ∙ cores-refs cs in
      (
        received env cs,
        env.schedule (received env cs),
        s',
        stops,
        subst (λ n. IsCut p s.distributor.next_task_id m n cs) total cuts,
        received-Gives g env m cs computes,
        env.schedule-perm (received env cs),
        round,
      )
