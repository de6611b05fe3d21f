-- ===== src/Examples/Sound.antt =====
-- Simpson's rule on whole numbers, where each quotient can be cast, is defined on every task.
use distributed_integration.Base.{ℕ, ◌≢◌, Option, none, some, List, [], ◌∷◌, All}
use distributed_integration.Messages.{Task}
use distributed_integration.Methods.{Strategy}
use distributed_integration.Methods.Simpson.{simpsons_rule}
use distributed_integration.Methods.Simpson.Faults.{simpson_integrate-ne-undefined}
use distributed_integration.Integrator.Reports.{IsSound}
use distributed_integration.Examples.Sample.{whole}

abbrev pub simpson : Strategy ℕ
simpson = simpsons_rule ⦃d = whole⦄

cast_defined : (n : ℕ) → ◌≢◌ {A = Option ℕ} (some n) none
cast_defined n e = cc

pub simpson-IsSound : (t : Task ℕ) → IsSound ⦃d = whole⦄ simpson t
simpson-IsSound t = simpson_integrate-ne-undefined ⦃d = whole⦄ t.begin t.end t.step (cast_defined _)

pub all-IsSound : (ts : List (Task ℕ)) → All (IsSound ⦃d = whole⦄ simpson) ts
all-IsSound [] = tt
all-IsSound (t ∷ ts) = (simpson-IsSound t, all-IsSound ts)
