-- ===== src/Methods/Simpson.antt =====
-- src/client/integration_methods/simpsons_rule.h.
use distributed_integration.Base.{
  ℕ, zero, suc, ◌+◌, ◌-◌, ◌%◌, String, ◌≡◌, Option, none, some, Outcome, ok, undefined, ◌>>=◌, ◌>>◌,
  ◌==◌, if◌then◌else◌,
}
use distributed_integration.Base.Words.{u64}
use distributed_integration.Double.{Double}
use distributed_integration.Methods.Interface.{Strategy, function, validate_parameters}
pub mod Panels
pub mod Faults

module _ {D : Type 0} ⦃d : Double D⦄ where
  open d use {three, two, four, add, sub, mul, div, of_uint, ceil_u64}

  -- The count of intervals: rounded up, where the cast is defined, then made even (`n++` wraps
  -- around).
  unfoldable pub intervals : D → D → D → Outcome ℕ
  intervals lower upper step = elim (ceil_u64 (div (sub upper lower) step)) [
    | none ↦ undefined
    | some n ↦ ok (if n % 2 == 1 then u64 (n + 1) else n)
  ]

  -- The loop `for (i; i < n; i++)`, with `left` rounds to go; `at i` is `lower + i * h`.
  unfoldable pub simpson_loop : (at : ℕ → D) → (left i : ℕ) → D → Outcome D
  simpson_loop at zero i sum = ok sum
  simpson_loop at (suc left) i sum = function (at i) >>= λ y.
      simpson_loop at left (i + 1) (add sum (mul (if i % 2 == 0 then two else four) y))

  -- `SimpsonsRule::integrate`
  unfoldable pub simpson_integrate : D → D → D → Outcome D
  unfolding intervals simpson_loop
  simpson_integrate lower upper step = do
    validate_parameters lower upper step
    n ← intervals lower upper step
    let h = div (sub upper lower) (of_uint n)
    f_lower ← function lower
    f_upper ← function upper
    sum ← simpson_loop (λ i. add lower (mul (of_uint i) h)) (n - 1) 1 (add f_lower f_upper)
    ok (div (mul sum h) three)

  abbrev pub simpsons_rule : Strategy D
  simpsons_rule = record { integrate = simpson_integrate; get_method_name = "Simpson's rule" }
