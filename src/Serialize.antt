-- ===== src/Serialize.antt =====
-- src/common/messages.h and src/common/systeminfo.h, the `serialize` members. A member hands its
-- fields to an archive, one after the other. What the archive does with a number, a text and a
-- vector is a parameter (cereal); an enumeration goes through its `uint8_t`.
use distributed_integration.Base.{
  ℕ, String, Bool, Option, none, some, List, [], ◌++◌, ◌==◌, if◌then◌else◌,
}
use distributed_integration.Messages.{
  OsType, Architecture, SystemInfo, Task, Result, TaskBatch, ResultBatch, CommandType, Command,
  ClientInfo, HandshakeRequest, HandshakeResponse,
}
use distributed_integration.Framing.{Codec}
pub mod RoundTrip
pub mod Laws
pub mod Session

-- How a value is written, and read from the front of some bytes; `none` for a cereal::Exception.
pub record Serial {ℓ} (A : Type ℓ) : Type ℓ where
  pub write : A → List ℕ
  pub read : List ℕ → Option (A × List ℕ)

-- cereal's binary archive
pub record Archive (D : Type 0) : Type 1 where
  pub u8 : Serial ℕ
  pub u32 : Serial ℕ
  pub u64 : Serial ℕ
  pub double : Serial D
  pub bool : Serial Bool
  pub string : Serial String
  pub vector : {A : Type 0} → Serial A → Serial (List A)

module _ {A B : Type 0} where
  paired : A → Option (B × List ℕ) → Option ((A × B) × List ℕ)
  paired a none = none
  paired a (some (b, rest)) = some ((a, b), rest)

  read_second : Serial B → Option (A × List ℕ) → Option ((A × B) × List ℕ)
  unfolding paired
  read_second t none = none
  read_second t (some (a, rest)) = paired a (t.read rest)

  -- `archive(a, b)`: one field, and then the others
  unfoldable pub both : Serial A → Serial B → Serial (A × B)
  unfolding read_second
  both s t = record {
    write = λ p. s.write p.0 ++ t.write p.1;
    read = λ bytes. read_second t (s.read bytes);
  }

  made : (B → A) → Option (B × List ℕ) → Option (A × List ℕ)
  made make none = none
  made make (some (b, rest)) = some (make b, rest)

  -- The fields of a structure, and the structure from its fields.
  unfoldable pub fields : (A → B) → (B → A) → Serial B → Serial A
  unfolding made
  fields open_up make s = record {
    write = λ a. s.write (open_up a);
    read = λ bytes. made make (s.read bytes);
  }

-- `OSType`, `Architecture` and `CommandType` as numbers, and `static_cast` back
unfoldable pub os_number : OsType → ℕ
os_number OsType.windows = 0
os_number OsType.linux = 1
os_number OsType.mac_os = 2
os_number OsType.unknown = 3
os_number (OsType.unnamed n) = n

unfoldable pub os_of : ℕ → OsType
os_of n =
    if n == 0
    then OsType.windows
    else if n == 1
    then OsType.linux
    else if n == 2
    then OsType.mac_os
    else if n == 3
    then OsType.unknown
    else OsType.unnamed n

unfoldable pub architecture_number : Architecture → ℕ
architecture_number Architecture.x86 = 0
architecture_number Architecture.x64 = 1
architecture_number Architecture.arm = 2
architecture_number Architecture.arm64 = 3
architecture_number Architecture.unknown = 4
architecture_number (Architecture.unnamed n) = n

unfoldable pub architecture_of : ℕ → Architecture
architecture_of n =
    if n == 0
    then Architecture.x86
    else if n == 1
    then Architecture.x64
    else if n == 2
    then Architecture.arm
    else if n == 3
    then Architecture.arm64
    else if n == 4
    then Architecture.unknown
    else Architecture.unnamed n

unfoldable pub command_number : CommandType → ℕ
command_number CommandType.start_work = 1
command_number CommandType.stop_work = 2
command_number CommandType.ping = 3
command_number CommandType.ack = 4
command_number (CommandType.unnamed n) = n

unfoldable pub command_of : ℕ → CommandType
command_of n =
    if n == 1
    then CommandType.start_work
    else if n == 2
    then CommandType.stop_work
    else if n == 3
    then CommandType.ping
    else if n == 4
    then CommandType.ack
    else CommandType.unnamed n

module _ {D : Type 0} (ar : Archive D) where
  open ar use {u8, u32, u64, double, bool, string, vector}

  -- `SystemInfo::serialize`
  unfoldable pub system_info_serial : Serial SystemInfo
  system_info_serial =
      fields (λ i. (i.os_type, (i.architecture, (i.cpu_cores, i.total_ram_mb))))
        (λ (o, (a, (c, r))). record {
          os_type = o;
          architecture = a;
          cpu_cores = c;
          total_ram_mb = r;
        })
        (both (fields os_number os_of u8)
          (both (fields architecture_number architecture_of u8) (both u32 u64)))

  -- `Task::serialize`
  unfoldable pub task_serial : Serial (Task D)
  task_serial =
      fields (λ t. (t.id, (t.begin, (t.end, t.step))))
        (λ (i, (b, (e, s))). record { id = i; begin = b; end = e; step = s })
        (both u64 (both double (both double double)))

  -- `Result::serialize`
  unfoldable pub result_serial : Serial (Result D)
  result_serial =
      fields (λ r. (r.task_id, (r.value, (r.success, r.error_message))))
        (λ (i, (v, (s, m))). record { task_id = i; value = v; success = s; error_message = m })
        (both u64 (both double (both bool string)))

  -- `TaskBatch::serialize`
  unfoldable pub task_batch_serial : Serial (TaskBatch D)
  task_batch_serial = fields (λ b. b.tasks) (λ ts. record { tasks = ts }) (vector task_serial)

  -- `ResultBatch::serialize`
  unfoldable pub result_batch_serial : Serial (ResultBatch D)
  result_batch_serial =
      fields (λ b. (b.client_id, (b.results, b.total_time_seconds)))
        (λ (i, (rs, t)). record { client_id = i; results = rs; total_time_seconds = t })
        (both u64 (both (vector result_serial) double))

  -- `Command::serialize`
  unfoldable pub command_serial : Serial Command
  command_serial =
      fields (λ c. (c.type, c.message)) (λ (t, m). record { type = t; message = m })
        (both (fields command_number command_of u8) string)

  -- `ClientInfo::serialize`
  unfoldable pub client_info_serial : Serial ClientInfo
  client_info_serial =
      fields (λ c. (c.client_id, c.system_info))
        (λ (i, s). record { client_id = i; system_info = s }) (both u64 system_info_serial)

  -- `HandshakeRequest::serialize`
  unfoldable pub request_serial : Serial HandshakeRequest
  request_serial =
      fields (λ q. (q.client_version, q.system_info))
        (λ (v, s). record { client_version = v; system_info = s }) (both string system_info_serial)

  -- `HandshakeResponse::serialize`
  unfoldable pub response_serial : Serial HandshakeResponse
  response_serial =
      fields (λ r. (r.assigned_client_id, (r.server_version, (r.accepted, r.message))))
        (λ (i, (v, (a, m))). record {
          assigned_client_id = i;
          server_version = v;
          accepted = a;
          message = m;
        })
        (both u64 (both string (both bool string)))

value_of {ℓ} : {A : Type ℓ} → Option (A × List ℕ) → Option A
value_of none = none
value_of (some (a, rest)) = some a

-- The texts of the exceptions, and `std::to_string`.
pub record Texts : Type 0 where
  pub bad_data : String
  pub end_of_file : String
  pub to_string : ℕ → String

-- The archive of one message: what is behind the value is not looked at.
unfoldable pub message_codec : {A : Type 0} → Texts → Serial A → Codec A
unfolding value_of
message_codec texts s = record {
  encode = s.write;
  decode = λ bytes. value_of (s.read bytes);
  bad_data = texts.bad_data;
  end_of_file = texts.end_of_file;
  to_string = texts.to_string;
}
