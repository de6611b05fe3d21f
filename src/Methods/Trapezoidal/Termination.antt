-- ===== src/Methods/Trapezoidal/Termination.antt =====
-- src/client/integration_methods/trapezoidal_rule.h: when the loop ends, and when it never does.
use distributed_integration.Base.{
  ℕ, zero, suc, ◌+◌, ◌≤◌, ◌<◌, ◌≡◌, refl, sym, arith, true, false, none, some, ok, ◌⊎◌, List, [],
  ◌∷◌, Bool-cases, inl, inr,
}
use mathlib.Core.Path.{subst}
use distributed_integration.Double.{Double, IsOrdered, IsNumber}
use distributed_integration.Methods.Interface.{function, validate_parameters}
use distributed_integration.Methods.Trapezoidal.{
  next_point, trapezoid_area, trapezoid_loop, trapezoid_integrate,
}

-- A `double` has 64 bits, so its values can be numbered along the order.
pub record IsRanked (D : Type 0) ⦃d : Double D⦄ : Type 0 where
  pub rank : D → ℕ
  pub rank_lt : (x y : D) → d.lt x y ≡ true → rank x < rank y
  pub rank_le : (x y : D) → d.le x y ≡ true → rank x ≤ rank y

module _ {D : Type 0} ⦃d : Double D⦄ where
  open d use {nought, two, lt, le, add, sub, mul, div}

  -- The step is not lost to rounding anywhere below `upper`.
  abbrev pub Advances : D → D → D → Type 0
  Advances lower upper step =
      (x : D) → le lower x ≡ true → lt x upper ≡ true → lt x (add x step) ≡ true

  -- The integrand has the values `y` between the limits.
  abbrev pub HasValues : (y : D → D) → (lower upper : D) → Type 0
  HasValues y lower upper = (x : D) → le lower x ≡ true → le x upper ≡ true → function x ≡ ok (y x)

  -- `points` lead from `x` to the upper limit: each lies behind the one before it, by the step or,
  -- where the step goes beyond it, at the upper limit itself.
  abbrev pub IsMesh : (upper step x : D) → (points : List D) → Type 0
  IsMesh upper step x [] = (le x upper ≡ true) × (le upper x ≡ true)
  IsMesh upper step x (p ∷ points) =
      (lt x p ≡ true)
      × ((p ≡ add x step) ⊎ ((p ≡ upper) × (lt upper (add x step) ≡ true)))
      × IsMesh upper step p points

  -- The reference: the areas of the trapezoids over a mesh under `y`, added to `acc`.
  abbrev pub trapezoids : (y : D → D) → (acc x : D) → (points : List D) → D
  trapezoids y acc x [] = acc
  trapezoids y acc x (p ∷ points) =
      trapezoids y (add acc (div (mul (add (y x) (y p)) (sub p x)) two)) p points

  module _ (laws : IsOrdered D) where
    open laws use {lt-eq-not-le, le_of_lt, number_of_le, le_trans}

    lt_of_valid :
        (lower upper step : D)
        → IsNumber lower
        → IsNumber upper
        → validate_parameters lower upper step ≡ ok tt
        → lt lower upper ≡ true
    unfolding validate_parameters
    lt_of_valid lower upper step nl nu valid = ground (arith, lt-eq-not-le lower upper nl nu)

    next_point_bounds :
        (lower upper step x : D)
        → Advances lower upper step
        → le lower x ≡ true
        → lt x upper ≡ true
        → (lt x (next_point upper step x) ≡ true)
          × (le lower (next_point upper step x) ≡ true)
          × (le (next_point upper step x) upper ≡ true)
    unfolding next_point
    next_point_bounds lower upper step x advances low below =
        let up = advances x low below in
        let n = number_of_le _ _ (le_of_lt _ _ up) in
        let m = number_of_le _ _ (le_of_lt _ _ below) in
        ground (
          arith,
          up,
          le_of_lt _ _ up,
          le_of_lt _ _ below,
          n,
          m,
          lt-eq-not-le upper (add x step) m.1 n.1,
          le_trans lower x (add x step) low (le_of_lt _ _ up),
          le_trans lower x upper low (le_of_lt _ _ below),
        )

    next_point_cases :
        (upper step x : D)
        → (next_point upper step x ≡ add x step)
          ⊎ ((next_point upper step x ≡ upper) × (lt upper (add x step) ≡ true))
    unfolding next_point
    next_point_cases upper step x = elim (Bool-cases (lt upper (add x step))) [
      | inl beyond ↦ inr (rw beyond refl, beyond)
      | inr within ↦ inl (rw within refl)
    ]

    at_upper : (upper x : D) → le x upper ≡ true → lt x upper ≡ false → le upper x ≡ true
    at_upper upper x high over =
        let (nx, nu) = number_of_le x upper high in ground (arith, lt-eq-not-le x upper nx nu)

    trapezoid_loop-IsMesh :
        (ranked : IsRanked D) (lower upper step : D) (y : D → D)
        → Advances lower upper step
        → HasValues y lower upper
        → (fuel : ℕ) (x sum : D) → le lower x ≡ true
        → le x upper ≡ true
        → ranked.rank upper < ranked.rank x + fuel
        → (points : List D) × IsMesh upper step x points
          × (trapezoid_loop fuel upper step x (y x) sum ≡ some (ok (trapezoids y sum x points)))
    unfolding trapezoid_loop trapezoid_area
    trapezoid_loop-IsMesh ranked lower upper step y advances values zero x sum low high enough =
        absurd (omega (arith, ranked.rank_le x upper high))
    trapezoid_loop-IsMesh ranked lower upper step y advances values (suc fuel) x sum low high
          enough =
        elim (Bool-cases (lt x upper)) [
          | inl below ↦
              let p = next_point upper step x in
              let (up, low', high') = next_point_bounds lower upper step x advances low below in
              let (points, mesh, loop) =
                trapezoid_loop-IsMesh ranked lower upper step y advances values fuel p
                  (add sum (trapezoid_area (y x) (y p) x p)) low' high'
                  (omega (arith, ranked.rank_lt _ _ up)) in
              (
                p ∷ points,
                (up, next_point_cases upper step x, mesh),
                rw (below, values p low' high', trapezoid_loop) loop,
              )
          | inr over ↦ ([], (high, at_upper upper x high over), rw (over, trapezoid_loop))
        ]

    -- Let the values be ordered and numbered along the order. If the limits are numbers, the
    -- parameters pass the check, the step advances everywhere below the upper limit and the
    -- integrand has the values `y` between the limits, then for fuel above the count of values
    -- between the limits the rule returns the sum of the trapezoids under `y` over a mesh from the
    -- lower limit to the upper one, whose points are one step apart, except perhaps the last two.
    pub trapezoid_integrate_total :
        (ranked : IsRanked D) (lower upper step : D) (y : D → D)
        → IsNumber lower
        → IsNumber upper
        → validate_parameters lower upper step ≡ ok tt
        → Advances lower upper step
        → HasValues y lower upper
        → (fuel : ℕ) → ranked.rank upper < ranked.rank lower + fuel
        → (points : List D) × IsMesh upper step lower points
          × (trapezoid_integrate fuel lower upper step
              ≡ some (ok (trapezoids y nought lower points)))
    unfolding trapezoid_integrate
    trapezoid_integrate_total ranked lower upper step y nl nu valid advances values fuel enough =
        let below = le_of_lt _ _ (lt_of_valid lower upper step nl nu valid) in
        let (points, mesh, loop) =
          trapezoid_loop-IsMesh ranked lower upper step y advances values fuel lower nought nl below
            enough in
        (points, mesh, rw (valid, values lower nl below, trapezoid_integrate) loop)

    next_point_stuck :
        (upper step x : D) → lt x upper ≡ true → add x step ≡ x → next_point upper step x ≡ x
    unfolding next_point
    next_point_stuck upper step x below lost =
        let n = number_of_le _ _ (le_of_lt _ _ below) in
        ground (arith, lost, lt-eq-not-le upper x n.1 n.0, le_of_lt x upper below)

    trapezoid_loop_stuck :
        (upper step x : D)
        → lt x upper ≡ true
        → next_point upper step x ≡ x
        → (v : D) → function x ≡ ok v
        → (fuel : ℕ) (f_prev sum : D) → trapezoid_loop fuel upper step x f_prev sum ≡ none
    unfolding trapezoid_loop
    trapezoid_loop_stuck upper step x below lost v value zero f_prev sum = refl
    trapezoid_loop_stuck upper step x below lost v value (suc fuel) f_prev sum =
        let area = trapezoid_area f_prev v x (next_point upper step x) in
        let here : function (next_point upper step x) ≡ ok v = rw lost value in
        let rest = trapezoid_loop_stuck upper step x below lost v value fuel v (add sum area) in
        rw (below, here, trapezoid_loop)
          (subst (λ p. trapezoid_loop fuel upper step p v (add sum area) ≡ none) (sym lost) rest)

    -- Let the values be ordered. If the limits are numbers, the parameters pass the check, the
    -- integrand has a value at the lower limit and the first step is lost to rounding, the call
    -- never returns, whatever the fuel.
    pub trapezoid_integrate_stuck :
        (lower upper step : D)
        → IsNumber lower
        → IsNumber upper
        → validate_parameters lower upper step ≡ ok tt
        → add lower step ≡ lower
        → (v : D) → function lower ≡ ok v
        → (fuel : ℕ) → trapezoid_integrate fuel lower upper step ≡ none
    unfolding trapezoid_integrate
    trapezoid_integrate_stuck lower upper step nl nu valid lost v value fuel =
        let below = lt_of_valid lower upper step nl nu valid in
        rw (valid, value, trapezoid_integrate)
          (trapezoid_loop_stuck upper step lower below
            (next_point_stuck upper step lower below lost) v value fuel v nought)
