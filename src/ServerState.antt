-- ===== src/ServerState.antt =====
-- src/server/server.{h,cpp}: the state of the server, the handshake of a client and the stop. A
-- call of the network that throws is caught and only logged, so a request that is not there and a
-- peer that is not reachable stand for an exception.
use distributed_integration.Base.{ℕ, ◌+◌, Bool, true, false, Option, none, some, if◌then◌else◌}
use distributed_integration.Base.Words.{u64}
use distributed_integration.Messages.{HandshakeRequest, HandshakeResponse}
use distributed_integration.ClientManager
use distributed_integration.ClientManager.{new_connection, ClientManager, add_client}
use distributed_integration.Distributor.{Distributor, new_distributor}
pub mod Handshakes
pub mod Waiting

pub record Server : Type 0 where
  pub next_id : ℕ  -- uint64_t, the counter of `handle_client_connection`
  pub manager : ClientManager
  pub distributor : Distributor
  pub running : Bool
  pub start_received : Bool

abbrev pub new_server : Server
new_server = record {
  next_id = 1;
  manager = ClientManager.new_client_manager;
  distributor = new_distributor;
  running = false;
  start_received = false;
}

-- A connection attempt: the request, if one arrives, and whether the response can be sent.
pub record Attempt : Type 0 where
  pub request : Option HandshakeRequest
  pub reachable : Bool

abbrev pub response_to : ℕ → HandshakeResponse
response_to id = record {
  assigned_client_id = id;
  server_version = "1.0.0";
  accepted = true;
  message = "Connection accepted";
}

register : Server → HandshakeRequest → Server
register s request = record s {
  manager = (add_client (new_connection s.next_id request.system_info) s.manager).0;
  next_id = u64 (s.next_id + 1);
}

-- `Server::handle_client_connection`: the new state, and the response that the client has got
unfoldable pub handle_client_connection : Server → Attempt → Server × Option HandshakeResponse
unfolding register
handle_client_connection s a = elim a.request [
  | none ↦ (s, none)
  | some request ↦
      if a.reachable
      then (register s request, some (response_to s.next_id))
      else (record s { next_id = u64 (s.next_id + 1) }, none)
]

unfoldable pub stop_accepting_clients : Server → Server
stop_accepting_clients s = record s { manager = ClientManager.stop_accepting s.manager }

-- `Server::stop`
unfoldable pub stop : Server → Server
stop s =
    if s.running
    then record s {
      running = false;
      manager = ClientManager.clear (ClientManager.stop_accepting s.manager);
    }
    else s
