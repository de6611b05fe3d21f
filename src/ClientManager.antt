-- ===== src/ClientManager.antt =====
-- src/server/client_manager.{h,cpp} and src/server/client_connection.{h,cpp}. The list of clients
-- is behind a mutex, so a method is one step. A connection owns its socket, of which the model
-- keeps whether it is open.
use distributed_integration.Base.{
  ℕ, ◌+◌, ◌≡◌, Bool, true, false, Option, none, some, List, [], ◌∷◌, ◌++◌, foldl, ◌==◌,
  if◌then◌else◌, length,
}
use distributed_integration.Base.Words.{u32}
use distributed_integration.Messages.{SystemInfo}
pub mod Registry

pub record ClientConnection : Type 0 where
  pub is_open : Bool
  pub client_id : ℕ  -- uint64_t
  pub system_info : SystemInfo
  pub task_sent : Bool
  pub result_received : Bool

-- the constructor, for an open socket
abbrev pub new_connection : ℕ → SystemInfo → ClientConnection
new_connection id info = record {
  is_open = true;
  client_id = id;
  system_info = info;
  task_sent = false;
  result_received = false;
}

abbrev pub cores_of : ClientConnection → ℕ
cores_of c = c.system_info.cpu_cores

unfoldable pub mark_task_sent : ClientConnection → ClientConnection
mark_task_sent c = record c { task_sent = true }

unfoldable pub mark_result_received : ClientConnection → ClientConnection
mark_result_received c = record c { result_received = true }

unfoldable pub close : ClientConnection → ClientConnection
close c = record c { is_open = false }

pub record ClientManager : Type 0 where
  pub clients : List ClientConnection
  pub accepting : Bool

abbrev pub new_client_manager : ClientManager
new_client_manager = record { clients = []; accepting = true }

-- `ClientManager::add_client`: the new state and the identifier, or 0 for a refusal
unfoldable pub add_client : ClientConnection → ClientManager → ClientManager × ℕ
add_client c m =
    if m.accepting then (record m { clients = m.clients ++ (c ∷ []) }, c.client_id) else (m, 0)

unfoldable pub get_client_count : ClientManager → ℕ
get_client_count m = length m.clients

-- `get_total_cpu_cores_unlocked`, in `uint32_t`
unfoldable pub get_total_cpu_cores : ClientManager → ℕ
get_total_cpu_cores m = foldl (λ total c. u32 (total + cores_of c)) 0 m.clients

find_client : ℕ → List ClientConnection → Option ClientConnection
find_client id [] = none
find_client id (c ∷ cs) = if c.client_id == id then some c else find_client id cs

unfoldable pub get_client : ℕ → ClientManager → Option ClientConnection
unfolding find_client
get_client id m = find_client id m.clients

unfoldable pub get_all_clients : ClientManager → List ClientConnection
get_all_clients m = m.clients

-- `erase` of the first client with the identifier; `none` if there is none
erase_client : ℕ → List ClientConnection → Option (List ClientConnection)
erase_client id [] = none
erase_client id (c ∷ cs) =
    if c.client_id == id
    then some cs
    else elim (erase_client id cs) [ none ↦ none | some rest ↦ some (c ∷ rest) ]

unfoldable pub remove_client : ℕ → ClientManager → ClientManager × Bool
unfolding erase_client
remove_client id m = elim (erase_client id m.clients) [
  | none ↦ (m, false)
  | some rest ↦ (record m { clients = rest }, true)
]

unfoldable pub clear : ClientManager → ClientManager
clear m = record m { clients = [] }

unfoldable pub stop_accepting : ClientManager → ClientManager
stop_accepting m = record m { accepting = false }
