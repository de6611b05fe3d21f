-- ===== src/Methods/Simpson/Faults.antt =====
-- src/client/integration_methods/simpsons_rule.h: which exceptions leave the rule.
use distributed_integration.Base.{
  ℕ, zero, suc, ◌+◌, ◌-◌, ◌≡◌, ◌≢◌, ◌⊎◌, sym, ◌∙◌, inl, inr, Outcome, ok, throw, undefined,
  invalid_argument, runtime_error, none, some, Option-cases, system_error, other_exception, ◌>>=◌,
  Bool-cases, ◌==◌, if◌then◌else◌, ◌%◌,
}
use mathlib.Core.Path.{subst}
use distributed_integration.Base.Words.{u64}
use distributed_integration.Double.{Double}
use distributed_integration.Methods.Interface.{
  function, validate_parameters, validate_parameters-cases,
}
use distributed_integration.Methods.Simpson.{intervals, simpson_loop, simpson_integrate}

-- The outcome is a value or a `std::runtime_error`.
abbrev pub IsRuntime {ℓ} : {A : Type ℓ} → Outcome A → Type 0
IsRuntime (ok a) = Unit
IsRuntime (throw (runtime_error s)) = Unit
IsRuntime (throw (invalid_argument s)) = ⊥
IsRuntime (throw (system_error s)) = ⊥
IsRuntime (throw (other_exception s)) = ⊥
IsRuntime undefined = ⊥

pub bind-IsRuntime {ℓ κ} :
    {A : Type ℓ} {B : Type κ} (m : Outcome A) (f : A → Outcome B)
    → IsRuntime m
    → ((a : A) → IsRuntime (f a))
    → IsRuntime (m >>= f)
bind-IsRuntime (ok a) f h k = k a
bind-IsRuntime (throw (runtime_error s)) f h k = tt
bind-IsRuntime (throw (invalid_argument s)) f h k = h
bind-IsRuntime (throw (system_error s)) f h k = h
bind-IsRuntime (throw (other_exception s)) f h k = h
bind-IsRuntime undefined f h k = h

module _ {D : Type 0} ⦃d : Double D⦄ where
  open d use {
    nought, two, three, four, epsilon, le, lt, abs, log, add, sub, mul, div, of_uint, ceil_u64,
  }

  function-IsRuntime : (x : D) → IsRuntime (function x)
  unfolding function
  function-IsRuntime x = elim (Bool-cases (le x nought)) [
    | inl low ↦ rw low tt
    | inr positive ↦ elim (Bool-cases (lt (abs (log x)) epsilon)) [
      | inl near ↦ rw (positive, near) tt
      | inr far ↦ rw (positive, far) tt
    ]
  ]

  simpson_loop-IsRuntime :
      (at : ℕ → D) (left i : ℕ) (sum : D) → IsRuntime (simpson_loop at left i sum)
  unfolding simpson_loop
  simpson_loop-IsRuntime at zero i sum = tt
  simpson_loop-IsRuntime at (suc left) i sum =
      bind-IsRuntime (function (at i))
        (λ y. simpson_loop at left (i + 1) (add sum (mul (if i % 2 == 0 then two else four) y)))
        (function-IsRuntime (at i))
        (λ y.
          simpson_loop-IsRuntime at left (i + 1)
            (add sum (mul (if i % 2 == 0 then two else four) y)))

  -- The rule behind the count of its intervals.
  counted-IsRuntime :
      (lower upper : D) (n : ℕ)
      → IsRuntime (
          function lower >>= λ a. function upper >>= λ b.
          simpson_loop
            (λ i. add lower (mul (of_uint i) (div (sub upper lower) (of_uint n))))
            (n - 1)
            1
            (add a b)
          >>= λ sum. ok (div (mul sum (div (sub upper lower) (of_uint n))) three))
  counted-IsRuntime lower upper n =
      bind-IsRuntime (function lower) (λ a. function upper >>= λ b. sums a b >>= finish)
        (function-IsRuntime lower)
        λ a.
          bind-IsRuntime (function upper) (λ b. sums a b >>= finish) (function-IsRuntime upper)
            λ b.
              bind-IsRuntime (sums a b) finish (simpson_loop-IsRuntime at (n - 1) 1 (add a b))
                (λ sum. tt)
    where
      at : ℕ → D
      at i = add lower (mul (of_uint i) (div (sub upper lower) (of_uint n)))

      sums : D → D → Outcome D
      sums a b = simpson_loop at (n - 1) 1 (add a b)

      finish : D → Outcome D
      finish sum = ok (div (mul sum (div (sub upper lower) (of_uint n))) three)

  -- If the parameters fail the check, the rule throws `std::invalid_argument`. If they pass it, the
  -- rule has undefined behaviour exactly if the cast of the count of intervals has, and otherwise
  -- returns a value or throws the `std::runtime_error` of the integrand.
  pub simpson_integrate_faults :
      (lower upper step : D)
      → ((validate_parameters lower upper step ≡ ok tt)
          × (((ceil_u64 (div (sub upper lower) step) ≡ none)
                × (simpson_integrate lower upper step ≡ undefined))
              ⊎ ((ceil_u64 (div (sub upper lower) step) ≢ none)
                  × IsRuntime (simpson_integrate lower upper step))))
        ⊎ ((validate_parameters lower upper step ≢ ok tt)
            × (simpson_integrate lower upper step
                ≡ throw (invalid_argument "Incorrect parameters")))
  unfolding simpson_integrate intervals
  simpson_integrate_faults lower upper step = elim (validate_parameters-cases lower upper step) [
    | inl valid ↦ inl (
      valid,
      elim (Option-cases (ceil_u64 (div (sub upper lower) step))) [
        | inl wide ↦ inl (wide, rw (valid, wide, intervals))
        | inr (k, fits) ↦ inr (
          (λ wide. let no : none ≡ some k = sym wide ∙ fits in cc),
          rw (valid, fits, intervals)
              (counted-IsRuntime lower upper (if k % 2 == 1 then u64 (k + 1) else k)),
        )
      ],
    )
    | inr refused ↦ inr (
      (λ valid.
          let no : throw (invalid_argument "Incorrect parameters") ≡ ok tt = sym refused ∙ valid in
          cc),
      rw refused,
    )
  ]

  -- If the cast is defined for the quotient, the rule has no undefined behaviour.
  pub simpson_integrate-ne-undefined :
      (lower upper step : D)
      → ceil_u64 (div (sub upper lower) step) ≢ none
      → simpson_integrate lower upper step ≢ undefined
  simpson_integrate-ne-undefined lower upper step defined e =
      elim (simpson_integrate_faults lower upper step) [
        | inl (valid, inl (wide, bad)) ↦ defined wide
        | inl (valid, inr (fits, runtime)) ↦ subst IsRuntime e runtime
        | inr (invalid, thrown) ↦ cc
      ]
