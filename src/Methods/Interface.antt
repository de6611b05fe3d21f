-- ===== src/Methods/Interface.antt =====
-- src/client/integration_methods/integration_strategy.h: the interface, the integrand 1/ln(x), and
-- the check of the parameters that both rules make first.
use distributed_integration.Base.{
  String, ◌≡◌, Bool, true, not, ◌&&◌, ◌||◌, if◌then◌else◌, Outcome, ok, throw, runtime_error,
  invalid_argument, throw_if, ◌⊎◌, inl, inr, Bool-cases,
}
use distributed_integration.Double.{Double}
use distributed_integration.Messages.{Task, task_is_valid}

-- `IIntegrationStrategy`
pub record Strategy (D : Type 0) : Type 0 where
  pub integrate : D → D → D → Outcome D
  pub get_method_name : String

module _ {D : Type 0} ⦃d : Double D⦄ where
  open d use {nought, one, epsilon, lt, le, sub, div, abs, log}

  -- `IntegrationStrategyBase::function`
  unfoldable pub function : D → Outcome D
  function x =
      if le x nought
      then throw (runtime_error "Function 1/ln(x) is undefined for x <= 0")
      else let ln_x = log x in
        if lt (abs ln_x) epsilon
        then throw (runtime_error "Function 1/ln(x) is undefined for x too close to 1 ")
        else ok (div one ln_x)

  parameters_hold : D → D → D → Bool
  parameters_hold lower upper step =
      not (le upper lower || le step nought || le (sub upper lower) step)
      && not (le lower nought)
      && not (lt lower one && lt one upper)
      && not (lt (abs (sub lower one)) epsilon || lt (abs (sub upper one)) epsilon)

  -- `IntegrationStrategyBase::validate_parameters`
  unfoldable pub validate_parameters : D → D → D → Outcome (Unit {0})
  unfolding parameters_hold
  validate_parameters lower upper step =
      throw_if (not (parameters_hold lower upper step)) (invalid_argument "Incorrect parameters")

  -- A valid task passes the check of its strategy.
  pub validate_parameters_task :
      (t : Task D) → task_is_valid t ≡ true → validate_parameters t.begin t.end t.step ≡ ok tt
  unfolding validate_parameters task_is_valid
  validate_parameters_task t h = rw h

  pub validate_parameters-cases :
      (lower upper step : D)
      → (validate_parameters lower upper step ≡ ok tt)
        ⊎ (validate_parameters lower upper step ≡ throw (invalid_argument "Incorrect parameters"))
  unfolding validate_parameters
  validate_parameters-cases lower upper step =
      elim (Bool-cases (parameters_hold lower upper step)) [
        | inl good ↦ inl (rw good)
        | inr bad ↦ inr (rw bad)
      ]
