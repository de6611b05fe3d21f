-- ===== src/Connection/Session.antt =====
-- src/client/network_manager.cpp and src/client/client.cpp over src/common/net_utils.h: a run of a
-- client on the bytes of its connection.
use distributed_integration.Base.{ℕ, List, ◌++◌}
use distributed_integration.Double.{Double}
use distributed_integration.Framing.{send_data}
use distributed_integration.Messages.{TaskBatch, Command, HandshakeResponse}
use distributed_integration.WorkerPool.{WorkerPool}
use distributed_integration.Serialize.{
  Archive, Texts, message_codec, response_serial, task_batch_serial, command_serial,
}
use distributed_integration.Client.{Client}

-- The bytes that the server sends.
abbrev pub served :
    {D : Type 0}
    → Archive D
    → Texts
    → HandshakeResponse
    → TaskBatch D
    → Command
    → (rest : List ℕ) → List ℕ
served ar texts r b last rest =
    send_data ⦃c = message_codec texts (response_serial ar)⦄ r
    ++ (send_data ⦃c = message_codec texts (task_batch_serial ar)⦄ b
        ++ (send_data ⦃c = message_codec texts (command_serial ar)⦄ last ++ rest))
