-- ===== src/Messages/Defs.antt =====
-- src/common/messages.h and src/common/systeminfo.h: the structures and their default values.
use distributed_integration.Base.{ℕ, String, Bool, true, not, ◌&&◌, ◌||◌, List}
use distributed_integration.Double.{Double}

-- A value that comes out of an archive can be a `uint8_t` that has no name.
pub data OsType : Type 0 where
  windows linux mac_os unknown : OsType
  unnamed : ℕ → OsType

pub data Architecture : Type 0 where
  x86 x64 arm arm64 unknown : Architecture
  unnamed : ℕ → Architecture

pub record SystemInfo : Type 0 where
  pub os_type : OsType
  pub architecture : Architecture
  pub cpu_cores : ℕ  -- uint32_t
  pub total_ram_mb : ℕ  -- uint64_t

-- `to_string(OSType)` and `to_string(Architecture)`
unfoldable pub os_to_string : OsType → String
os_to_string OsType.windows = "Windows"
os_to_string OsType.linux = "Linux"
os_to_string OsType.mac_os = "MacOS"
os_to_string OsType.unknown = "Unknown"
os_to_string (OsType.unnamed n) = "Unknown"

unfoldable pub architecture_to_string : Architecture → String
architecture_to_string Architecture.x86 = "x86"
architecture_to_string Architecture.x64 = "x64"
architecture_to_string Architecture.arm = "ARM"
architecture_to_string Architecture.arm64 = "ARM64"
architecture_to_string Architecture.unknown = "Unknown"
architecture_to_string (Architecture.unnamed n) = "Unknown"

pub record Task (D : Type 0) : Type 0 where
  pub id : ℕ  -- uint64_t
  pub begin : D
  pub end : D
  pub step : D

pub record Result (D : Type 0) : Type 0 where
  pub task_id : ℕ  -- uint64_t
  pub value : D
  pub success : Bool
  pub error_message : String

pub record TaskBatch (D : Type 0) : Type 0 where
  pub tasks : List (Task D)

pub record ResultBatch (D : Type 0) : Type 0 where
  pub client_id : ℕ  -- uint64_t
  pub results : List (Result D)
  pub total_time_seconds : D

pub data CommandType : Type 0 where
  start_work stop_work ping ack : CommandType
  unnamed : ℕ → CommandType

pub record Command : Type 0 where
  pub type : CommandType
  pub message : String

pub record ClientInfo : Type 0 where
  pub client_id : ℕ  -- uint64_t
  pub system_info : SystemInfo

pub record HandshakeRequest : Type 0 where
  pub client_version : String
  pub system_info : SystemInfo

pub record HandshakeResponse : Type 0 where
  pub assigned_client_id : ℕ  -- uint64_t
  pub server_version : String
  pub accepted : Bool
  pub message : String

module _ {D : Type 0} ⦃d : Double D⦄ where
  open d use {nought, one, epsilon, lt, le, sub, abs}

  -- `Result result;`
  unfoldable pub default_result : Result D
  default_result = record { task_id = 0; value = nought; success = true; error_message = "" }

  -- The four tests on the limits of an integration. `Task::is_valid`,
  -- `IntegrationParameters::is_valid` and `validate_parameters` each write them out.
  unfoldable pub task_is_valid : Task D → Bool
  task_is_valid t =
      not (le t.end t.begin || le t.step nought || le (sub t.end t.begin) t.step)
      && not (le t.begin nought)
      && not (lt t.begin one && lt one t.end)
      && not (lt (abs (sub t.begin one)) epsilon || lt (abs (sub t.end one)) epsilon)
