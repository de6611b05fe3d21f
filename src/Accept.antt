-- ===== src/Accept.antt =====
-- src/server/server.cpp: the acceptance of clients. The accept thread, one detached thread for each
-- connection, and the thread of `run` share the state of the server; a step is one access to what
-- they share or one call of the network.
use distributed_integration.Base.{
  ℕ, ◌+◌, ◌≡◌, Bool, true, false, Option, none, some, List, [], ◌∷◌, ◌++◌, ◌⊎◌, get_elem?, set,
  if◌then◌else◌,
}
use distributed_integration.Base.Words.{u64}
use distributed_integration.Messages.{SystemInfo, HandshakeRequest}
use distributed_integration.ClientManager
use distributed_integration.ClientManager.{new_connection, ClientManager}
use distributed_integration.ServerState.{Server, Attempt, new_server, stop_accepting_clients}
pub mod Counting
pub mod Held
pub mod Ids
pub mod Closing
pub mod Loop
pub mod Alone
pub mod Gather
pub mod Rounds

-- Where the thread stands in the loop of `accept_thread_func`: the two loads of its test, the call
-- of `accept`, the two loads of the test behind it, and the start of the thread for the connection.
pub data Acceptor : Type 0 where
  check_running check_accepting in_accept done : Acceptor
  recheck_running recheck_accepting spawning : Attempt → Acceptor

-- How `accept` returns: with a connection, with `operation_aborted`, or with another error.
pub data Arrival : Type 0 where
  connection : Attempt → Arrival
  aborted failed : Arrival

arrived : Arrival → Acceptor
arrived (connection a) = recheck_running a
arrived aborted = done
arrived failed = check_running

-- `accept_thread_func`, one step
unfoldable pub accept_step : Server → Arrival → Acceptor → Acceptor
unfolding arrived
accept_step s r check_running = if s.running then check_accepting else done
accept_step s r check_accepting = if s.manager.accepting then in_accept else done
accept_step s r in_accept = arrived r
accept_step s r (recheck_running a) = if s.running then recheck_accepting a else check_running
accept_step s r (recheck_accepting a) = if s.manager.accepting then spawning a else check_running
accept_step s r (spawning a) = check_running
accept_step s r done = done

-- Where the thread of a connection stands in `handle_client_connection`: before the request is
-- read, before an identifier is taken, before the response is sent, before `add_client` tests
-- whether clients are accepted, behind this test and before the lock, and at the end.
pub data Handler : Type 0 where
  receiving : Attempt → Handler
  numbering : HandshakeRequest → (reachable : Bool) → Handler
  replying : (id : ℕ) → HandshakeRequest → (reachable : Bool) → Handler
  adding locking : (id : ℕ) → SystemInfo → Handler
  ended : Handler

-- The thread that the accept thread starts.
unfoldable pub spawned : Acceptor → List Handler
spawned (spawning a) = receiving a ∷ []
spawned check_running = []
spawned check_accepting = []
spawned in_accept = []
spawned (recheck_running a) = []
spawned (recheck_accepting a) = []
spawned done = []

read_request : Bool → Option HandshakeRequest → Handler
read_request reachable none = ended
read_request reachable (some request) = numbering request reachable

-- `handle_client_connection`, one step
unfoldable pub handler_step : Server → Handler → Server × Handler
unfolding read_request
handler_step s (receiving a) = (s, read_request a.reachable a.request)
handler_step s (numbering request reachable) =
    (record s { next_id = u64 (s.next_id + 1) }, replying s.next_id request reachable)
handler_step s (replying id request reachable) =
    (s, if reachable then adding id request.system_info else ended)
handler_step s (adding id info) = (s, if s.manager.accepting then locking id info else ended)
handler_step s (locking id info) = (
  record s {
    manager = record (s.manager) { clients = s.manager.clients ++ (new_connection id info ∷ []) };
  },
  ended,
)
handler_step s ended = (s, ended)

pub record Acceptance : Type 0 where
  pub server : Server
  pub acceptor : Acceptor
  pub handlers : List Handler

-- A running server whose accept thread has just been started.
abbrev pub listening : Acceptance
listening = record {
  server = record new_server { running = true };
  acceptor = check_running;
  handlers = [];
}

-- The steps of the threads: with `drops` the thread of a connection cannot be started, and the
-- exception is caught, `start` is the callback of the input handler, `close` the call of
-- `stop_accepting_clients` in `run` or in `stop`, and `halt` and `clear` are the other assignments
-- of `stop`.
pub data Step (s : Acceptance) : Acceptance → Type 0 where
  accepts :
      (r : Arrival)
      → Step s (record s {
        acceptor = accept_step s.server r s.acceptor;
        handlers = s.handlers ++ spawned s.acceptor;
      })
  handles :
      (i : ℕ) (h : Handler)
      → get_elem? s.handlers i ≡ some h
      → Step s (record s {
        server = (handler_step s.server h).0;
        handlers = set s.handlers i (handler_step s.server h).1;
      })
  drops : (a : Attempt) → s.acceptor ≡ spawning a → Step s (record s { acceptor = check_running })
  start : Step s (record s { server = record (s.server) { start_received = true } })
  close :
      (s.server.start_received ≡ true) ⊎ (s.server.running ≡ false)
      → Step s (record s { server = stop_accepting_clients s.server })
  halt : Step s (record s { server = record (s.server) { running = false } })
  clear :
      s.server.running ≡ false
      → s.server.manager.accepting ≡ false
      → Step s (record s {
        server = record (s.server) { manager = ClientManager.clear s.server.manager };
      })

-- What the steps lead to.
pub data More (s : Acceptance) : Acceptance → Type 0 where
  here : More s s
  next : {t u : Acceptance} → More s t → Step t u → More s u
