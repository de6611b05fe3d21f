-- ===== src/Connection.antt =====
-- src/client/network_manager.cpp over src/common/net_utils.h: the messages of a client as bytes.
-- What the server sends are the bytes that can be read, in their order, and what the client sends
-- are the bytes that its writes let out.
use distributed_integration.Base.{
  ℕ, String, Option, none, some, List, [], ◌++◌, ◌>>=◌, Outcome, ok, throw, undefined,
}
use distributed_integration.Framing.{Writer, send_on, receive_data}
use distributed_integration.Messages.{
  TaskBatch, Command, HandshakeResponse, HandshakeRequest, ResultBatch,
}
use distributed_integration.Serialize.{
  Archive, Texts, message_codec, request_serial, response_serial, task_batch_serial,
  result_batch_serial, command_serial,
}
use distributed_integration.Client.{Link}
pub mod Session

module _ {A : Type 0} where
  value : Outcome (A × List ℕ) → Outcome A
  value (ok (a, rest)) = ok a
  value (throw e) = throw e
  value undefined = undefined

  -- After an exception the client reads no more.
  unread : Outcome (A × List ℕ) → List ℕ
  unread (ok (a, rest)) = rest
  unread (throw e) = []
  unread undefined = []

module _ {D : Type 0} (ar : Archive D) (texts : Texts) (incoming : List ℕ) where
  read_response : Outcome (HandshakeResponse × List ℕ)
  read_response = receive_data ⦃c = message_codec texts (response_serial ar)⦄ incoming

  read_tasks : Outcome (TaskBatch D × List ℕ)
  unfolding read_response unread
  read_tasks = receive_data ⦃c = message_codec texts (task_batch_serial ar)⦄ (unread read_response)

  read_command : Outcome (Command × List ℕ)
  unfolding read_tasks unread
  read_command = receive_data ⦃c = message_codec texts (command_serial ar)⦄ (unread read_tasks)

  -- The calls of `send_data` and `receive_data` in the network manager, once it is connected.
  unfoldable pub wire_link : Writer → Link D
  unfolding read_response read_tasks read_command value
  wire_link write = record {
    connection = none;
    send_request = λ q. (send_on ⦃c = message_codec texts (request_serial ar)⦄ write q).1;
    response = value read_response;
    tasks = value read_tasks;
    send_batch = λ out. (send_on ⦃c = message_codec texts (result_batch_serial ar)⦄ write out).1;
    command = value read_command;
  }

module _ {D : Type 0} (ar : Archive D) (texts : Texts) (write : Writer) where
  -- The bytes that a client writes to its connection when it sends its request and, behind that, its
  -- results: `run` calls `perform_handshake` before `send_results`.
  unfoldable pub outgoing : HandshakeRequest → ResultBatch D → List ℕ
  outgoing q out =
      (send_on ⦃c = message_codec texts (request_serial ar)⦄ write q).0
      ++ (send_on ⦃c = message_codec texts (result_batch_serial ar)⦄ write out).0

-- The server at the other end of these bytes: `handle_client_connection` receives the request, and
-- `receive_results_from_client` the results.
module _ {D : Type 0} (ar : Archive D) (texts : Texts) where
  after_request : Outcome (HandshakeRequest × List ℕ) → Outcome (HandshakeRequest × ResultBatch D)
  after_request (ok (q, rest)) =
      value (receive_data ⦃c = message_codec texts (result_batch_serial ar)⦄ rest) >>= λ out.
      ok (q, out)
  after_request (throw e) = throw e
  after_request undefined = undefined

  unfoldable pub server_receives : List ℕ → Outcome (HandshakeRequest × ResultBatch D)
  unfolding after_request value
  server_receives bytes =
      after_request (receive_data ⦃c = message_codec texts (request_serial ar)⦄ bytes)
