-- ===== src/Examples/OverWire.antt =====
-- A run of a client over the bytes of its connection at a concrete input.
use distributed_integration.Base.{ℕ, true, List, [], ◌∷◌}
use distributed_integration.Messages.{Result, ResultBatch}
use distributed_integration.Client.{Client, initial_client}
use distributed_integration.Examples.Rounds.{result}
use distributed_integration.Examples.Session.{request}

abbrev client : Client
client = initial_client request.system_info

abbrev out : List (Result ℕ) → ResultBatch ℕ
out results = record { client_id = 1; results = results; total_time_seconds = 0 }

abbrev computed : List (Result ℕ)
computed = result true 1 4 ∷ result true 2 4 ∷ []
