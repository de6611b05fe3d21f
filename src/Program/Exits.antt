-- ===== src/Program/Exits.antt =====
-- src/server/main.cpp and src/client/main.cpp: how a program ends.
use distributed_integration.Base.{ℕ, Outcome, ok, throw, undefined}

-- The value that `main` returns, std::terminate, or undefined behaviour.
pub data Exit : Type 0 where
  exited : ℕ → Exit
  terminated : Exit
  unpredictable : Exit

-- An exception that leaves `main` or a destructor calls std::terminate.
unfoldable pub escapes {ℓ} : {A : Type ℓ} → Outcome A → Exit → Exit
escapes (ok a) after = after
escapes (throw e) after = terminated
escapes undefined after = unpredictable
