-- ===== src/Client/Answers.antt =====
-- src/client/client.cpp, run: what a client sends back, and how it fails.
use distributed_integration.Base.{
  ◌<◌, ◌≡◌, true, false, none, some, List, length, arith, ◌==◌, ok, throw, invalid_argument,
  Bool-cases, inl, inr, if◌then◌else◌,
}
use distributed_integration.Double.{Double}
use distributed_integration.Messages.{
  Task, Result, TaskBatch, ResultBatch, Command, SystemInfo, HandshakeRequest, HandshakeResponse,
}
use distributed_integration.Methods.Simpson.{simpsons_rule}
use distributed_integration.Integrator.{new_integrator, new_task_executor, get_current_method}
use distributed_integration.Integrator.Sequence.{Gives}
use distributed_integration.WorkerPool.{WorkerPool, Parallel, new_worker_pool}
use distributed_integration.WorkerPool.Progress.{Parallel-sequential}
use distributed_integration.Client.{
  Client, Link, finished, initial_client, new_client, exchange, rethrow, connect, perform_handshake,
  accepted_response, disconnect, receive_tasks, send_results, receive_command, answer, work, finish,
  after_handshake, after_connect, run,
}

module _ {D : Type 0} ⦃d : Double D⦄ where
  -- A machine without cores has no client: the pool refuses to be made, and the constructor throws.
  -- Else the new client is not connected, and its pool has one thread for each core and Simpson's
  -- rule.
  pub new_client_lem :
      (info : SystemInfo)
      → new_client {D = D} info ≡ (
          if info.cpu_cores == 0
          then throw (invalid_argument "Number of threads must be > 0")
          else ok (
            initial_client info,
            record {
              num_threads = info.cpu_cores;
              integrator = record { strategy = some simpsons_rule };
            },
          ))
  unfolding new_client new_worker_pool new_integrator new_task_executor get_current_method
  new_client_lem info = elim (Bool-cases (info.cpu_cores == 0)) [
    | inl idle ↦ rw idle
    | inr busy ↦ rw busy
  ]

  -- Every call on the link goes well.
  pub record GoesWell (link : Link D) (r : HandshakeResponse) (b : TaskBatch D) (last : Command)
      : Type 0 where
    pub connects : link.connection ≡ none
    pub requests : (q : HandshakeRequest) → link.send_request q ≡ ok tt
    pub responds : link.response ≡ ok r
    pub accepted : r.accepted ≡ true
    pub has_tasks : link.tasks ≡ ok b
    pub sends : (out : ResultBatch D) → link.send_batch out ≡ ok tt
    pub commands : link.command ≡ ok last

  pub run_finished :
      (link : Link D) (pool : WorkerPool D) (execute : List (Task D) → List (Result D))
      (elapsed : D) (c : Client) (r : HandshakeResponse) (b : TaskBatch D) (last : Command)
      → Parallel pool b.tasks (execute b.tasks)
      → 0 < pool.num_threads
      → c.connected ≡ false
      → GoesWell link r b last
      → 0 < length b.tasks
      → (results : List (Result D)) × Gives pool.integrator b.tasks results
        × (run link execute elapsed c ≡ (
          record c { client_id = r.assigned_client_id },
          ok (
              finished
                (record {
                  client_id = r.assigned_client_id;
                  results = results;
                  total_time_seconds = elapsed;
                })
                last),
        ))
  unfolding run connect after_connect after_handshake perform_handshake exchange rethrow
      accepted_response work receive_tasks answer send_results receive_command finish disconnect
  run_finished link pool execute elapsed c r b last schedule threads fresh well some_tasks =
      let any : (length b.tasks == 0) ≡ false = ground arith in
      (
        execute b.tasks,
        Parallel-sequential pool b.tasks (execute b.tasks) threads schedule,
        rw (
          fresh,
          well.connects,
          well.requests (record { client_version = c.client_version; system_info = c.system_info }),
          well.responds,
          well.accepted,
          well.has_tasks,
          any,
          well.sends (record {
            client_id = r.assigned_client_id;
            results = execute b.tasks;
            total_time_seconds = elapsed;
          }),
          well.commands,
        ),
      )
