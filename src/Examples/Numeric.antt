-- ===== src/Examples/Numeric.antt =====
-- The validity of tasks and the integration rules at concrete inputs.
use distributed_integration.Base.{
  undefined, List, ◌⊎◌, ℕ, ◌+◌, ◌*◌, ◌/◌, ◌≤◌, ◌≡◌, ◌↔◌, ◌≢◌, refl, true, false, Option, none, some,
  arith, ok, throw, invalid_argument,
}
use distributed_integration.Base.Words.{u64}
use distributed_integration.Messages.{Task, task_is_valid}
use distributed_integration.Messages.Validity.{IsNumeric, IsWellPosed, task_is_valid_iff}
use distributed_integration.Methods.{function, validate_parameters}
use distributed_integration.Methods.Simpson.{intervals, simpson_integrate}
use distributed_integration.Methods.Simpson.Panels.{simpson_integrate-eq-panels, panels}
use distributed_integration.Methods.Simpson.Faults.{IsRuntime, simpson_integrate_faults}
use distributed_integration.Methods.Trapezoidal.{trapezoid_integrate}
use distributed_integration.Methods.Trapezoidal.Termination.{
  IsMesh, trapezoids, trapezoid_integrate_total, trapezoid_integrate_stuck,
}
use distributed_integration.Examples.Sample.{
  whole, tens, partial, whole-IsOrdered, tens-IsOrdered, whole-IsExact, whole-IsRanked,
}

abbrev task : ℕ → ℕ → ℕ → Task ℕ
task begin end step = record { id = 1; begin = begin; end = end; step = step }

valid_and_not :
    (task_is_valid (task 2 10 3) ≡ true)
    × (task_is_valid (task 0 10 3) ≡ false)
    × (task_is_valid (task 2 4 3) ≡ false)
unfolding task_is_valid
valid_and_not = (refl, refl, refl)

numeric : IsNumeric (task 2 10 3)
numeric = record {
  begin_number = refl;
  end_number = refl;
  step_number = refl;
  width_number = refl;
  from_one_number = refl;
  to_one_number = refl;
  one_number = refl;
  epsilon_number = refl;
}

task_is_valid_iff_example : (task_is_valid (task 2 10 3) ≡ true) ↔ IsWellPosed (task 2 10 3)
task_is_valid_iff_example = task_is_valid_iff whole-IsOrdered (task 2 10 3) numeric

abbrev nan_task : Task (Option ℕ)
nan_task = record { id = 1; begin = none; end = none; step = none }

function-whole : (x : ℕ) → 2 ≤ x → function ⦃d = whole⦄ x ≡ ok 1
unfolding function
function-whole x h = ground arith

simpson_runs : simpson_integrate ⦃d = whole⦄ 2 14 3 ≡ ok 12
unfolding simpson_integrate validate_parameters function u64
simpson_runs = refl

simpson_integrate-eq-panels_example :
    simpson_integrate ⦃d = whole⦄ 2 14 3 ≡ ok ((panels ⦃d = whole⦄ (λ i. 1) 2 0 0) * 3 / 3)
unfolding intervals validate_parameters u64
simpson_integrate-eq-panels_example =
    simpson_integrate-eq-panels ⦃d = whole⦄ whole-IsExact 2 14 3 4 (λ i. 1) refl refl (omega arith)
      (function-whole 2 (omega arith)) (function-whole 14 (omega arith))
      (λ i lo hi. function-whole (2 + i * 3) (omega arith))

simpson_integrate_faults_example :
    ((validate_parameters ⦃d = whole⦄ 0 14 3 ≡ ok tt)
      × (((whole.ceil_u64 (whole.div (whole.sub 14 0) 3) ≡ none)
            × (simpson_integrate ⦃d = whole⦄ 0 14 3 ≡ undefined))
          ⊎ ((whole.ceil_u64 (whole.div (whole.sub 14 0) 3) ≢ none)
              × IsRuntime (simpson_integrate ⦃d = whole⦄ 0 14 3))))
    ⊎ ((validate_parameters ⦃d = whole⦄ 0 14 3 ≢ ok tt)
        × (simpson_integrate ⦃d = whole⦄ 0 14 3 ≡ throw (invalid_argument "Incorrect parameters")))
simpson_integrate_faults_example = simpson_integrate_faults ⦃d = whole⦄ 0 14 3

trapezoid_integrate_total_example :
    (points : List ℕ) × IsMesh ⦃d = whole⦄ 14 5 2 points
    × (trapezoid_integrate ⦃d = whole⦄ 13 2 14 5
        ≡ some (ok (trapezoids ⦃d = whole⦄ (λ x. 1) 0 2 points)))
unfolding validate_parameters
trapezoid_integrate_total_example =
    trapezoid_integrate_total ⦃d = whole⦄ whole-IsOrdered whole-IsRanked 2 14 5 (λ x. 1) refl refl
      refl (λ x low high. ground arith) (λ x low high. function-whole x (ground arith)) 13
      (omega arith)

trapezoid_integrate_stuck_example : trapezoid_integrate ⦃d = tens⦄ 50 20 40 3 ≡ none
unfolding validate_parameters function
trapezoid_integrate_stuck_example =
    trapezoid_integrate_stuck ⦃d = tens⦄ tens-IsOrdered 20 40 3 refl refl refl refl 1 refl 50
