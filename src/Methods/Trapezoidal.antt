-- ===== src/Methods/Trapezoidal.antt =====
-- src/client/integration_methods/trapezoidal_rule.h. The loop runs on fuel; `none` means that the
-- fuel is used up and the call has not returned.
use distributed_integration.Base.{
  ℕ, zero, suc, ◌≡◌, refl, Bool, true, false, Option, none, some, Outcome, ok, throw, undefined,
  if◌then◌else◌,
}
use distributed_integration.Double.{Double}
use distributed_integration.Methods.Interface.{function, validate_parameters}
pub mod Termination

module _ {D : Type 0} ⦃d : Double D⦄ where
  open d use {nought, two, lt, add, sub, mul, div}

  -- `x + step`, cut off at `upper`
  unfoldable pub next_point : D → D → D → D
  next_point upper step x = let x_next = add x step in if lt upper x_next then upper else x_next

  -- (f_prev + f_next) * (x_next - x) / 2.0
  unfoldable pub trapezoid_area : D → D → D → D → D
  trapezoid_area f_prev f_next x x_next = div (mul (add f_prev f_next) (sub x_next x)) two

  -- `while (x < upper)`
  unfoldable pub trapezoid_loop : ℕ → D → D → D → D → D → Option (Outcome D)
  unfolding next_point trapezoid_area
  trapezoid_loop zero upper step x f_prev sum = none
  trapezoid_loop (suc fuel) upper step x f_prev sum = elim (lt x upper) [
    | false ↦ some (ok sum)
    | true ↦ elim (function (next_point upper step x)) [
      | ok f_next ↦
          trapezoid_loop fuel upper step (next_point upper step x) f_next
            (add sum (trapezoid_area f_prev f_next x (next_point upper step x)))
      | throw e ↦ some (throw e)
      | undefined ↦ some undefined
    ]
  ]

  -- `TrapezoidalRule::integrate`
  unfoldable pub trapezoid_integrate : ℕ → D → D → D → Option (Outcome D)
  unfolding trapezoid_loop
  trapezoid_integrate fuel lower upper step = elim (validate_parameters lower upper step) [
    | ok _ ↦ elim (function lower) [
      | ok f_lower ↦ trapezoid_loop fuel upper step lower f_lower nought
      | throw e ↦ some (throw e)
      | undefined ↦ some undefined
    ]
    | throw e ↦ some (throw e)
    | undefined ↦ some undefined
  ]
