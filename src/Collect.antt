-- ===== src/Collect.antt =====
-- src/server/server.cpp, collect_results and receive_results_from_client: one thread for each client,
-- which `collect_results` joins one after the other, in the order of the clients. A step is one call
-- of the network, one write to the client that the thread points to, one locked call of the
-- aggregator, or one join.
use distributed_integration.Base.{
  ℕ, ◌+◌, ◌≡◌, Bool, true, false, not, Option, none, some, List, [], ◌∷◌, map, get_elem?, set,
  length,
}
use distributed_integration.Double.{Double}
use distributed_integration.Messages.{ResultBatch}
use distributed_integration.ClientManager.{ClientConnection, mark_result_received}
use distributed_integration.Aggregator.{Aggregator, add_result}
use distributed_integration.Server.{Environment}
pub mod Owed
pub mod Joined
pub mod Ends
pub mod Silent
pub mod Value
pub mod Order
pub mod Exact
pub mod Rounds

-- Where a thread stands in `receive_results_from_client`: in `receive_data`, behind it, behind the
-- mark of the client, and at its end.
pub data Receiver (D : Type 0) : Type 0 where
  receiving : Receiver D
  marking adding : ResultBatch D → Receiver D
  ended : Receiver D

-- A thread with the client that it was started with.
pub record Thread (D : Type 0) : Type 0 where
  pub client : ClientConnection
  pub at : Receiver D

-- `joined` threads have been joined.
pub record Collection (D : Type 0) : Type 0 where
  pub aggregator : Aggregator D
  pub threads : List (Thread D)
  pub joined : ℕ

module _ {D : Type 0} where
  -- What `collect_results` starts from: a thread for each client.
  abbrev pub collecting : Aggregator D → List ClientConnection → Collection D
  collecting aggregator clients = record {
    aggregator = aggregator;
    threads = map (λ c. record { client = c; at = receiving }) clients;
    joined = 0;
  }

  -- A client of which `silent` is true neither sends a batch nor closes its connection: the call of
  -- `receive_data` does not return.
  unfoldable pub may_move : (silent : ℕ → Bool) → ClientConnection → Receiver D → Bool
  may_move silent c receiving = not (silent c.client_id)
  may_move silent c (marking batch) = true
  may_move silent c (adding batch) = true
  may_move silent c ended = false

  received_by : Option (ResultBatch D) → Receiver D
  received_by none = ended
  received_by (some batch) = marking batch

  receiver_step : Environment D → ClientConnection → Receiver D → Receiver D
  unfolding received_by
  receiver_step env c receiving = received_by (env.receive c.client_id)
  receiver_step env c (marking batch) = adding batch
  receiver_step env c (adding batch) = ended
  receiver_step env c ended = ended

  client_step : ClientConnection → Receiver D → ClientConnection
  client_step c receiving = c
  client_step c (marking batch) = mark_result_received c
  client_step c (adding batch) = c
  client_step c ended = c

  -- `receive_results_from_client`, one step of the thread
  unfoldable pub thread_step : Environment D → Thread D → Thread D
  unfolding receiver_step client_step
  thread_step env t = record {
    client = client_step t.client t.at;
    at = receiver_step env t.client t.at;
  }

module _ {D : Type 0} ⦃d : Double D⦄ where
  -- What the step does to the aggregator.
  unfoldable pub aggregator_step : Aggregator D → Receiver D → Aggregator D
  aggregator_step a receiving = a
  aggregator_step a (marking batch) = a
  aggregator_step a (adding batch) = add_result a batch
  aggregator_step a ended = a

  -- The steps of the threads and of `collect_results`, which joins a thread that has ended.
  pub data Step (env : Environment D) (silent : ℕ → Bool) (s : Collection D)
      : Collection D → Type 0 where
    moves :
        (i : ℕ) (t : Thread D)
        → get_elem? s.threads i ≡ some t
        → may_move silent t.client t.at ≡ true
        → Step env silent s (record s {
          aggregator = aggregator_step s.aggregator t.at;
          threads = set s.threads i (thread_step env t);
        })
    joins :
        (t : Thread D)
        → get_elem? s.threads s.joined ≡ some t
        → t.at ≡ ended
        → Step env silent s (record s { joined = s.joined + 1 })

  -- What some steps lead to, with their number.
  pub data Steps (env : Environment D) (silent : ℕ → Bool) (s : Collection D)
      : ℕ → Collection D → Type 0 where
    here : Steps env silent s 0 s
    next :
        {n : ℕ} {t u : Collection D}
        → Steps env silent s n t
        → Step env silent t u
        → Steps env silent s (n + 1) u

-- All threads are joined: `collect_results` goes on to its wait.
abbrev pub IsJoined : {D : Type 0} → Collection D → Type 0
IsJoined s = s.joined ≡ length s.threads
