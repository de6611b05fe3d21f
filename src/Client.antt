-- ===== src/Client.antt =====
-- src/client/client.{h,cpp} and src/client/network_manager.{h,cpp}: one run of a client. What the
-- server and the network do is a link: how the connection ends up, and what each message does. The
-- threads of the pool are scheduled by `execute`, which picks one of the outcomes that the pool can
-- have.
use Prim.Native.String.{◌++◌ as str_append}
use distributed_integration.Base.{
  ℕ, String, Bool, true, false, Option, none, some, List, [], ◌==◌, if◌then◌else◌, length, Outcome,
  ok, throw, undefined, runtime_error, invalid_argument, what, ◌>>=◌, ◌>>◌, throw_if, not,
}
use distributed_integration.Double.{Double}
use distributed_integration.Messages.{
  Task, Result, TaskBatch, ResultBatch, Command, SystemInfo, HandshakeRequest, HandshakeResponse,
}
use distributed_integration.Integrator.{Integrator, new_integrator, new_task_executor, set_strategy}
use distributed_integration.Methods.{Strategy}
use distributed_integration.Methods.Simpson.{simpsons_rule}
use distributed_integration.WorkerPool.{WorkerPool, new_worker_pool}
pub mod Answers
pub mod Faults

pub record Client : Type 0 where
  pub client_version : String
  pub client_id : ℕ  -- uint64_t
  pub system_info : SystemInfo
  pub connected : Bool  -- of the network manager, which then has an open socket

-- `client_version_` has no initializer, and `collect_system_info` gives the rest.
abbrev pub initial_client : SystemInfo → Client
initial_client info = record {
  client_version = "";
  client_id = 0;
  system_info = info;
  connected = false;
}

pub record Link (D : Type 0) : Type 0 where
  pub connection : Option String  -- the text of the exception, if it fails
  pub send_request : HandshakeRequest → Outcome (Unit {0})
  pub response : Outcome HandshakeResponse
  pub tasks : Outcome (TaskBatch D)
  pub send_batch : ResultBatch D → Outcome (Unit {0})
  pub command : Outcome Command

-- How a run that returns has ended, and what it has sent.
pub data Ending (D : Type 0) : Type 0 where
  no_tasks : Ending D
  finished : (out : ResultBatch D) (last : Command) → Ending D

-- A handler `catch (const std::exception &e)` that throws again with a prefix.
unfoldable pub rethrow {ℓ} : {A : Type ℓ} → String → Outcome A → Outcome A
unfolding what
rethrow prefix (ok a) = ok a
rethrow prefix (throw e) = throw (runtime_error (str_append prefix (what e)))
rethrow prefix undefined = undefined

-- The guard of every message of the network manager, and its handler.
unfoldable pub exchange {ℓ} : {A : Type ℓ} → Client → String → Outcome A → Outcome A
unfolding rethrow
exchange c prefix call =
    if c.connected then rethrow prefix call else throw (runtime_error "Not connected to server")

accepted_response : HandshakeResponse → Outcome HandshakeResponse
accepted_response r = do
  throw_if (not r.accepted) (runtime_error (str_append "Handshake rejected: " r.message))
  ok r

-- `NetworkManager::disconnect`
unfoldable pub disconnect : Client → Client
disconnect c = record c { connected = false }

-- `NetworkManager::send_command`, which no other code calls; `call` is that of `send_data`.
unfoldable pub send_command : Client → (call : Outcome (Unit {0})) → Outcome (Unit {0})
unfolding exchange
send_command c call = exchange c "Failed to send command: " call

-- `Client::Client`: the client, and the pool that shares its integrator
unfoldable pub new_client :
    {D : Type 0} ⦃d : Double D⦄ → SystemInfo → Outcome (Client × WorkerPool D)
unfolding new_worker_pool new_task_executor new_integrator
new_client info = do
  integrator ← new_integrator (some simpsons_rule)
  executor ← new_task_executor (some integrator)
  pool ← new_worker_pool info.cpu_cores (some integrator)
  ok (initial_client info, pool)

-- `Client::set_integration_strategy`: the executor and the pool have the integrator of the client.
unfoldable pub set_integration_strategy :
    {D : Type 0} ⦃d : Double D⦄ → WorkerPool D → Option (Strategy D) → Outcome (WorkerPool D)
unfolding set_strategy
set_integration_strategy pool none = throw (invalid_argument "Strategy cannot be nullptr")
set_integration_strategy pool (some strategy) = do
  integrator ← set_strategy pool.integrator (some strategy)
  ok (record pool { integrator = integrator })

module _ {D : Type 0} where
  -- `NetworkManager::connect`
  unfoldable pub connect : Link D → Client → Client × Outcome (Unit {0})
  connect link c = if c.connected then (c, ok tt) else elim link.connection [
    | none ↦ (record c { connected = true }, ok tt)
    | some why ↦ (c, throw (runtime_error (str_append "Connection failed: " why)))
  ]

  -- `NetworkManager::perform_handshake`
  unfoldable pub perform_handshake : Link D → Client → Outcome HandshakeResponse
  unfolding exchange accepted_response
  perform_handshake link c = exchange c "Handshake failed: " (
      link.send_request (record { client_version = c.client_version; system_info = c.system_info })
      >> (link.response >>= accepted_response))

  -- `receive_tasks`, `send_results`, `receive_command`
  unfoldable pub receive_tasks : Link D → Client → Outcome (TaskBatch D)
  unfolding exchange
  receive_tasks link c = exchange c "Failed to receive tasks: " link.tasks

  unfoldable pub send_results : Link D → Client → ResultBatch D → Outcome (Unit {0})
  unfolding exchange
  send_results link c out = exchange c "Failed to send results: " (link.send_batch out)

  unfoldable pub receive_command : Link D → Client → Outcome Command
  unfolding exchange
  receive_command link c = exchange c "Failed to receive command: " link.command

  -- Steps 4 to 6 of `Client::run`, for a batch with tasks
  answer : Link D → Client → (elapsed : D) → List (Result D) → Outcome (Ending D)
  unfolding send_results receive_command
  answer link c elapsed results =
      let out : ResultBatch D = record {
        client_id = c.client_id;
        results = results;
        total_time_seconds = elapsed;
      } in
      send_results link c out >> (receive_command link c >>= λ last. ok (finished out last))

  -- Steps 3 to 6
  work : Link D → (List (Task D) → List (Result D)) → (elapsed : D) → Client → Outcome (Ending D)
  unfolding receive_tasks answer
  work link execute elapsed c = receive_tasks link c >>= λ batch.
      if length batch.tasks == 0 then ok no_tasks else answer link c elapsed (execute batch.tasks)

  -- Step 7; the call returns at once if there are no tasks.
  finish : Client → Outcome (Ending D) → Client × Outcome (Ending D)
  unfolding disconnect
  finish c (ok (finished out last)) = (disconnect c, ok (finished out last))
  finish c (ok no_tasks) = (c, ok no_tasks)
  finish c (throw e) = (c, throw e)
  finish c undefined = (c, undefined)

  after_handshake :
      Link D
      → (List (Task D) → List (Result D))
      → (elapsed : D) → Client
      → Outcome HandshakeResponse
      → Client × Outcome (Ending D)
  unfolding finish work
  after_handshake link execute elapsed c (ok r) =
      let c' = record c { client_id = r.assigned_client_id } in
      finish c' (work link execute elapsed c')
  after_handshake link execute elapsed c (throw e) = (c, throw e)
  after_handshake link execute elapsed c undefined = (c, undefined)

  after_connect :
      Link D
      → (List (Task D) → List (Result D))
      → (elapsed : D) → Client × Outcome (Unit {0})
      → Client × Outcome (Ending D)
  unfolding after_handshake perform_handshake
  after_connect link execute elapsed (c, ok _) =
      after_handshake link execute elapsed c (perform_handshake link c)
  after_connect link execute elapsed (c, throw e) = (c, throw e)
  after_connect link execute elapsed (c, undefined) = (c, undefined)

  -- `Client::run`: the handler at its end throws the same exception again.
  unfoldable pub run :
      Link D
      → (List (Task D) → List (Result D))
      → (elapsed : D) → Client
      → Client × Outcome (Ending D)
  unfolding after_connect connect
  run link execute elapsed c = after_connect link execute elapsed (connect link c)
