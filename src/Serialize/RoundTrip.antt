-- ===== src/Serialize/RoundTrip.antt =====
-- src/common/messages.h and src/common/systeminfo.h: every message is read back from its archive.
use distributed_integration.Base.{◌<◌, ◌^◌, ◌≡◌, refl, String, All, length}
use distributed_integration.Messages.{
  OsType, Architecture, SystemInfo, Task, Result, TaskBatch, ResultBatch, CommandType, Command,
  HandshakeRequest, HandshakeResponse,
}
use distributed_integration.Serialize.{
  Archive, fields, os_number, os_of, architecture_number, architecture_of, command_number,
  command_of, system_info_serial, task_serial, result_serial, task_batch_serial,
  result_batch_serial, command_serial, client_info_serial, request_serial, response_serial,
}
use distributed_integration.Serialize.Laws.{IsSerial, IsLawful, both-IsSerial, fields-IsSerial}

-- The values of an enumeration: a name, or a `uint8_t` that no name has.
abbrev pub IsOs : OsType → Type 0
IsOs x = (os_number x < 2 ^ 8) × (os_of (os_number x) ≡ x)

abbrev pub IsArchitecture : Architecture → Type 0
IsArchitecture x = (architecture_number x < 2 ^ 8) × (architecture_of (architecture_number x) ≡ x)

abbrev pub IsCommandType : CommandType → Type 0
IsCommandType x = (command_number x < 2 ^ 8) × (command_of (command_number x) ≡ x)

abbrev pub IsSystemInfo : SystemInfo → Type 0
IsSystemInfo i =
    IsOs i.os_type
    × (IsArchitecture i.architecture × ((i.cpu_cores < 2 ^ 32) × (i.total_ram_mb < 2 ^ 64)))

module _ {D : Type 0} where
  abbrev pub IsTask : Task D → Type 0
  IsTask t = t.id < 2 ^ 64

  abbrev pub IsTaskBatch : TaskBatch D → Type 0
  IsTaskBatch b = All IsTask b.tasks × (length b.tasks < 2 ^ 64)

module _ {D : Type 0} (IsText : String → Type 0) where
  abbrev pub IsResult : Result D → Type 0
  IsResult r = (r.task_id < 2 ^ 64) × IsText r.error_message

  abbrev pub IsResultBatch : ResultBatch D → Type 0
  IsResultBatch b = (b.client_id < 2 ^ 64) × (All IsResult b.results × (length b.results < 2 ^ 64))

module _ (IsText : String → Type 0) where
  abbrev pub IsCommand : Command → Type 0
  IsCommand c = IsCommandType c.type × IsText c.message

  abbrev pub IsRequest : HandshakeRequest → Type 0
  IsRequest q = IsText q.client_version × IsSystemInfo q.system_info

  abbrev pub IsResponse : HandshakeResponse → Type 0
  IsResponse r = (r.assigned_client_id < 2 ^ 64) × IsText r.server_version × IsText r.message

module _ {D : Type 0} (ar : Archive D) (IsText : String → Type 0) (law : IsLawful ar IsText) where
  open law use {u8_law, u32_law, u64_law, double_law, bool_law, string_law, vector_law}

  os-IsSerial : IsSerial (fields os_number os_of ar.u8) IsOs
  os-IsSerial = fields-IsSerial _ u8_law (λ x p. p.0) (λ x p. p.1)

  machine-IsSerial : IsSerial (fields architecture_number architecture_of ar.u8) IsArchitecture
  machine-IsSerial = fields-IsSerial _ u8_law (λ x p. p.0) (λ x p. p.1)

  command_type-IsSerial : IsSerial (fields command_number command_of ar.u8) IsCommandType
  command_type-IsSerial = fields-IsSerial _ u8_law (λ x p. p.0) (λ x p. p.1)

  pub system_info_serial-IsSerial : IsSerial (system_info_serial ar) IsSystemInfo
  unfolding system_info_serial
  system_info_serial-IsSerial =
      fields-IsSerial _
        (both-IsSerial os-IsSerial (both-IsSerial machine-IsSerial (both-IsSerial u32_law u64_law)))
        (λ i p. p) (λ i p. refl)

  pub task_serial-IsSerial : IsSerial (task_serial ar) IsTask
  unfolding task_serial
  task_serial-IsSerial =
      fields-IsSerial _
        (both-IsSerial u64_law (both-IsSerial double_law (both-IsSerial double_law double_law)))
        (λ t p. (p, (tt, (tt, tt)))) (λ t p. refl)

  pub result_serial-IsSerial : IsSerial (result_serial ar) (IsResult IsText)
  unfolding result_serial
  result_serial-IsSerial =
      fields-IsSerial _
        (both-IsSerial u64_law (both-IsSerial double_law (both-IsSerial bool_law string_law)))
        (λ r p. (p.0, (tt, (tt, p.1)))) (λ r p. refl)

  pub task_batch_serial-IsSerial : IsSerial (task_batch_serial ar) IsTaskBatch
  unfolding task_batch_serial
  task_batch_serial-IsSerial =
      fields-IsSerial _ (vector_law (task_serial ar) IsTask task_serial-IsSerial) (λ b p. p)
        (λ b p. refl)

  pub result_batch_serial-IsSerial : IsSerial (result_batch_serial ar) (IsResultBatch IsText)
  unfolding result_batch_serial
  result_batch_serial-IsSerial =
      fields-IsSerial _
        (both-IsSerial u64_law (
          both-IsSerial (vector_law (result_serial ar) (IsResult IsText) result_serial-IsSerial)
            double_law))
        (λ b p. (p.0, (p.1, tt))) (λ b p. refl)

  pub command_serial-IsSerial : IsSerial (command_serial ar) (IsCommand IsText)
  unfolding command_serial
  command_serial-IsSerial =
      fields-IsSerial _ (both-IsSerial command_type-IsSerial string_law) (λ c p. p) (λ c p. refl)

  pub client_info-IsSerial :
      IsSerial (client_info_serial ar) (λ c. (c.client_id < 2 ^ 64) × IsSystemInfo c.system_info)
  unfolding client_info_serial
  client_info-IsSerial =
      fields-IsSerial _ (both-IsSerial u64_law system_info_serial-IsSerial) (λ c p. p) (λ c p. refl)

  pub request_serial-IsSerial : IsSerial (request_serial ar) (IsRequest IsText)
  unfolding request_serial
  request_serial-IsSerial =
      fields-IsSerial _ (both-IsSerial string_law system_info_serial-IsSerial) (λ q p. p)
        (λ q p. refl)

  pub response_serial-IsSerial : IsSerial (response_serial ar) (IsResponse IsText)
  unfolding response_serial
  response_serial-IsSerial =
      fields-IsSerial _
        (both-IsSerial u64_law (both-IsSerial string_law (both-IsSerial bool_law string_law)))
        (λ r p. (p.0, (p.1, (tt, p.2)))) (λ r p. refl)
