-- ===== src/Examples/Shares.antt =====
-- Rounds whose clients compute their batches, at concrete inputs.
use distributed_integration.Base.{
  All, ℕ, ◌≡◌, refl, true, Option, some, List, [], ◌∷◌, arith, ok, ◌==◌, if◌then◌else◌,
}
use distributed_integration.Base.Words.{u32, u64}
use distributed_integration.Messages.{Result, ResultBatch, Command}
use distributed_integration.Messages.{Task, TaskBatch, task_is_valid}
use distributed_integration.Methods.{function, validate_parameters}
use distributed_integration.Methods.Simpson.{simpsons_rule, simpson_integrate}
use distributed_integration.Integrator.{
  Integrator, failed_result, execute_task, execute_tasks_sequential,
}
use distributed_integration.Distributor.{find, distribute_tasks}
use distributed_integration.Server.Narrow.{integration_round_narrow}
use distributed_integration.Server.Sequential.{Computes}
use distributed_integration.ServerState.{Server}
use distributed_integration.Server.{
  IntegrationParameters, Environment, completed, integration_round,
}
use distributed_integration.Examples.Sample.{whole}
use distributed_integration.Examples.Rounds.{result, batch, environment, parameters, gathered}

-- Each client runs Simpson's rule on its batch.
abbrev rule : Integrator ℕ
rule = record { strategy = some (simpsons_rule ⦃d = whole⦄) }

abbrev pub share : ℕ → ℕ → ℕ → Task ℕ
share id begin end = record { id = id; begin = begin; end = end; step = 1 }

abbrev pub shares : List (ℕ × TaskBatch ℕ)
shares =
    (1, record { tasks = share 1 2 6 ∷ share 2 6 10 ∷ [] })
    ∷ (2, record { tasks = share 3 10 15 ∷ [] })
    ∷ []

abbrev computed : ℕ → Option (ResultBatch ℕ)
computed id =
    if id == 1
    then some (batch 1 (result true 1 4 ∷ result true 2 4 ∷ []))
    else some (batch 2 (result true 3 0 ∷ []))

abbrev computing : Environment ℕ
computing = record (environment true) { receive = computed }

computes : All (Computes ⦃d = whole⦄ rule computing shares) gathered.manager.clients
unfolding find execute_tasks_sequential execute_task task_is_valid simpson_integrate
    validate_parameters function u64
computes = (
  (
    record { tasks = share 1 2 6 ∷ share 2 6 10 ∷ [] },
    batch 1 (result true 1 4 ∷ result true 2 4 ∷ []),
    refl,
    refl,
    refl,
  ),
  ((record { tasks = share 3 10 15 ∷ [] }, batch 2 (result true 3 0 ∷ []), refl, refl, refl), tt),
)

-- The step of the integral is 5, and no share is wider.
abbrev coarse : IntegrationParameters ℕ
coarse = record parameters { step = 5 }

abbrev narrow_share : ℕ → ℕ → ℕ → Task ℕ
narrow_share id begin end = record { id = id; begin = begin; end = end; step = 5 }

abbrev narrow_shares : List (ℕ × TaskBatch ℕ)
narrow_shares =
    (1, record { tasks = narrow_share 1 2 6 ∷ narrow_share 2 6 10 ∷ [] })
    ∷ (2, record { tasks = narrow_share 3 10 15 ∷ [] })
    ∷ []

abbrev refused : ℕ → Result ℕ
refused id = failed_result ⦃d = whole⦄ id "Invalid task parameters"

abbrev refusing : Environment ℕ
refusing = record (environment true) {
  receive = λ id.
      if id == 1
      then some (batch 1 (refused 1 ∷ refused 2 ∷ []))
      else some (batch 2 (refused 3 ∷ []));
}

refuses : All (Computes ⦃d = whole⦄ rule refusing narrow_shares) gathered.manager.clients
unfolding find execute_tasks_sequential task_is_valid
refuses = (
  (
    record { tasks = narrow_share 1 2 6 ∷ narrow_share 2 6 10 ∷ [] },
    batch 1 (refused 1 ∷ refused 2 ∷ []),
    refl,
    refl,
    refl,
  ),
  ((record { tasks = narrow_share 3 10 15 ∷ [] }, batch 2 (refused 3 ∷ []), refl, refl, refl), tt),
)

integration_round_narrow_example :
    (s : Server) × (stops : List (ℕ × Command)) × (integration_round ⦃d = whole⦄ refusing coarse
        gathered
      ≡ ok (s, completed 0 stops))
unfolding distribute_tasks u32 u64 find
integration_round_narrow_example =
    integration_round_narrow ⦃d = whole⦄ rule refusing coarse gathered narrow_shares
      (record { total_tasks = 3; next_task_id = 4 }) (omega arith) (omega arith) (omega arith)
      (λ id b. refl) (omega arith) refl refuses (refl, (refl, (refl, tt)))
