-- ===== src/System.antt =====
-- src/server/server.cpp with src/client/client.cpp: the server and its clients as one system. A
-- peer is a process of the client behind a registered connection, and its link is the other end of
-- this connection.
use mathlib.Core.Path.{subst}
use distributed_integration.Base.{
  ℕ, ◌+◌, ◌<◌, ◌^◌, ◌≡◌, refl, ap, some, List, [], ◌∷◌, arith, length, All, ok, ◌==◌, Bool-cases,
  inl, inr,
}
use distributed_integration.Double.{Double, IsExact}
use distributed_integration.Messages.{
  Task, Result, Command, TaskBatch, ResultBatch, HandshakeResponse,
}
use distributed_integration.Integrator.{Integrator}
use distributed_integration.Integrator.Sequence.{Gives}
use distributed_integration.Methods.Simpson.{simpsons_rule}
use distributed_integration.WorkerPool.{Parallel}
use distributed_integration.ClientManager.{ClientConnection, cores_of}
use distributed_integration.ClientManager.Registry.{IsDistinct, all_cores}
use distributed_integration.Distributor.{Distributor, find, distribute_tasks}
use distributed_integration.Distributor.Spec.{IsServed, Tiles, sent}
use distributed_integration.Distributor.Tiling.{distribute_tasks_lem}
use distributed_integration.Aggregator.Counts.{sum_from}
use distributed_integration.ServerState.{Server}
use distributed_integration.Machine.{Machine, collect_system_info, at_least_one}
use distributed_integration.Client
use distributed_integration.Client.{Link, initial_client}
use distributed_integration.Client.Answers.{GoesWell, run_finished}
use distributed_integration.Server.{
  IntegrationParameters, Environment, completed, refs, integration_round,
}
use distributed_integration.Server.Round.{
  Sends, Distinct-refs, HasCores-refs, length-refs, cores-refs,
}
use distributed_integration.Server.Sequential.{Computes, IsComputed, integration_round_sequential}
use distributed_integration.Program.ClientMain.{pool_of}
pub mod Accepted
pub mod Threads

threads :
    (D : Type 0) ⦃d : Double D⦄ (machine : Machine) → 0 < (pool_of {D = D} machine).num_threads
unfolding at_least_one
threads D machine = elim (Bool-cases (machine.hardware_concurrency == 0)) [
  | inl silent ↦ rw silent (omega arith)
  | inr told ↦ rw told (ground arith)
]

module _ {D : Type 0} ⦃d : Double D⦄ where
  -- The integrator of every client.
  abbrev pub simpson : Integrator D
  simpson = record { strategy = some simpsons_rule }

  -- The process behind the connection: it runs the client program on its machine, its link carries
  -- the batch that the server has for the connection and goes well, and the server receives what
  -- the client sends.
  pub record Peer (env : Environment D) (m : List (ℕ × TaskBatch D)) (c : ClientConnection)
      : Type 0 where
    pub machine : Machine
    pub link : Link D
    pub execute : List (Task D) → List (Result D)
    pub elapsed : D
    pub response : HandshakeResponse
    pub batch : TaskBatch D
    pub last : Command
    pub schedule : Parallel (pool_of machine) batch.tasks (execute batch.tasks)
    pub well : GoesWell link response batch last
    pub given : find c.client_id m ≡ some batch
    pub delivers :
        (out : ResultBatch D)
        → (Client.run link execute elapsed (initial_client (collect_system_info machine))).1
          ≡ ok (Client.finished out last)
        → env.receive c.client_id ≡ some out

  Peer-Computes :
      (env : Environment D) (m : List (ℕ × TaskBatch D)) (c : ClientConnection) (b : TaskBatch D)
      → find c.client_id m ≡ some b
      → 0 < length b.tasks
      → Peer env m c
      → Computes simpson env m c
  Peer-Computes env m c b found some_tasks peer =
      let same : b ≡ peer.batch = cc (found, peer.given) in
      let (results, gives, ran) =
        run_finished peer.link (pool_of peer.machine) peer.execute peer.elapsed
          (initial_client (collect_system_info peer.machine)) peer.response peer.batch peer.last
          peer.schedule (threads D peer.machine) refl peer.well
          (subst (λ (x : TaskBatch D). 0 < length x.tasks) same some_tasks) in
      (peer.batch, _, peer.given, peer.delivers _ (ap (λ o. o.1) ran), gives)

  Peers-Compute :
      (env : Environment D) (m : List (ℕ × TaskBatch D)) (cs : List ClientConnection)
      → All (λ c. 0 < cores_of c) cs
      → All (IsServed m) (refs cs)
      → All (Peer env m) cs
      → All (Computes simpson env m) cs
  Peers-Compute env m [] busy served peers = tt
  Peers-Compute env m (c ∷ cs) busy ((b, found, size), served) peers = (
    Peer-Computes env m c b found (omega (arith, size, busy.0)) peers.0,
    Peers-Compute env m cs busy.1 served peers.1,
  )

  -- However the threads of each client run and in whatever order the batches arrive: if behind every
  -- registered connection stands a process of the client on some machine, over a link that goes
  -- well, then the round completes; the results, client by client, are those of one sequential run,
  -- with Simpson's rule, of all tasks of the distribution, which are cut from the interval, and the
  -- value is the sum of the successes in the order in which the batches arrive. There are some
  -- clients, all with cores and distinct identifiers, and the counters of tasks and of cores do not
  -- wrap around.
  pub system_sequential :
      (env : Environment D) (p : IntegrationParameters D) (s : Server) (m : List (ℕ × TaskBatch D))
      (t : Distributor)
      → let cs = s.manager.clients in
        0 < length cs
        → IsDistinct cs
        → All (λ c. 0 < cores_of c) cs
        → Sends env
        → s.distributor.next_task_id + all_cores cs < 2 ^ 64
        → all_cores cs < 2 ^ 32
        → distribute_tasks s.distributor (refs cs) p.lower_limit p.upper_limit p.step ≡ ok (m, t)
        → All (Peer env m) cs
        → IsComputed simpson p s.distributor.next_task_id m cs (integration_round env p s)
  system_sequential env p s m t some_client distinct busy sends fits few shared peers =
      let cs = s.manager.clients in
      let (m', t', run, promise) =
        distribute_tasks_lem s.distributor (refs cs) p.lower_limit p.upper_limit p.step
          (omega (arith, length-refs cs)) (HasCores-refs cs busy) (Distinct-refs cs distinct)
          (omega (arith, cores-refs cs)) in
      let same : m' ≡ m = cc in
      let served = subst (λ k. All (IsServed k) (refs cs)) same promise.served in
      integration_round_sequential simpson env p s m t some_client distinct busy sends fits few
        shared (Peers-Compute env m cs busy served peers)
