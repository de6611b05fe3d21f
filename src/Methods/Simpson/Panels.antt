-- ===== src/Methods/Simpson/Panels.antt =====
-- src/client/integration_methods/simpsons_rule.h: the loop with weights 1, 4, 2, …, 4, 1 against
-- the sum over panels of two intervals, f(a) + 4 f(m) + f(b) each, in exact arithmetic.
use distributed_integration.Base.{
  ℕ, zero, suc, ◌+◌, ◌-◌, ◌*◌, ◌/◌, ◌%◌, ◌<◌, ◌≡◌, refl, ap, ◌∙◌, arith, true, false, ok, undefined,
  Outcome, Option-cases, inl, inr, if◌then◌else◌, ◌==◌,
}
use distributed_integration.Base.Words.{u64}
use distributed_integration.Double.{Double, IsExact}
use distributed_integration.Methods.Interface.{function, validate_parameters}
use distributed_integration.Methods.Simpson.{intervals, simpson_loop, simpson_integrate}

module _ {D : Type 0} ⦃d : Double D⦄ where
  open d use {nought, three, two, four, add, sub, mul, div, of_uint, ceil_u64}

  -- The count of intervals is even, also where `n++` wraps around.
  intervals_even : (lower upper step : D) (n : ℕ) → intervals lower upper step ≡ ok n → n % 2 ≡ 0
  unfolding intervals u64
  intervals_even lower upper step n e =
      elim (Option-cases (ceil_u64 (div (sub upper lower) step))) [
        | inl wide ↦
            let wrong : ◌≡◌ {A = Outcome ℕ} undefined (ok n) = rw (wide, intervals) at e in cc
        | inr (k, fits) ↦
            let made : ok (if k % 2 == 1 then u64 (k + 1) else k) ≡ ok n =
              rw (fits, intervals) at e in
            let same : (if k % 2 == 1 then u64 (k + 1) else k) ≡ n = cc in ground (arith, same)
      ]

  -- The point with number `i` of `n` intervals.
  abbrev pub node : (lower upper : D) → (n i : ℕ) → D
  node lower upper n i = add lower (mul (of_uint i) (div (sub upper lower) (of_uint n)))

  -- The reference: `count` panels from node `i` on, added to `acc`.
  pub panels : (y : ℕ → D) → (count i : ℕ) → D → D
  panels y zero i acc = acc
  panels y (suc count) i acc =
      panels y count (i + 2) (add acc (add (add (y i) (mul four (y (i + 1)))) (y (i + 2))))

  module _ (exact : IsExact D) where
    open exact use {nought_add, add_comm, add_assoc, two_mul}

    last_panel : (acc p m q : D) → add (add (add acc p) q) m ≡ add acc (add (add p m) q)
    last_panel acc p m q = simp add_assoc (rw (add_comm q m))

    one_panel :
        (acc p m q z : D)
        → add (add (add (add acc p) z) m) (add q q) ≡ add (add (add acc (add (add p m) q)) q) z
    one_panel acc p m q z =
        simp add_assoc
          (ap (λ (t : D). add acc (add p t)) (add_comm z (add m (add q q)) ∙ simp add_assoc))

    odd_round :
        (at : ℕ → D) (left i : ℕ) (sum v : D)
        → i % 2 ≡ 0
        → function (at (i + 1)) ≡ ok v
        → simpson_loop at (suc left) (i + 1) sum
          ≡ simpson_loop at left (i + 2) (add sum (mul four v))
    unfolding simpson_loop
    odd_round at left i sum v e f =
        let odd : ((i + 1) % 2 == 0) ≡ false = ground arith in
        let next : i + 1 + 1 ≡ i + 2 = omega arith in rw (f, odd, next)

    even_round :
        (at : ℕ → D) (left i : ℕ) (sum v : D)
        → i % 2 ≡ 0
        → function (at (i + 2)) ≡ ok v
        → simpson_loop at (suc left) (i + 2) sum
          ≡ simpson_loop at left (i + 2 + 1) (add sum (add v v))
    unfolding simpson_loop
    even_round at left i sum v e f =
        let even : ((i + 2) % 2 == 0) ≡ true = ground arith in rw (f, even, two_mul)

    simpson_loop-eq-panels :
        (at : ℕ → D) (y : ℕ → D) (r i left last : ℕ) (acc : D)
        → left ≡ 2 * r + 1
        → last ≡ i + 2 * r + 2
        → i % 2 ≡ 0
        → ((j : ℕ) → i < j → j < last → function (at j) ≡ ok (y j))
        → simpson_loop at left (i + 1) (add (add acc (y i)) (y last)) ≡ ok (panels y (suc r) i acc)
    unfolding simpson_loop panels
    simpson_loop-eq-panels at y zero i left last acc el en e h =
        let one_left : left ≡ suc zero = omega arith in
        let next : last ≡ i + 2 = omega arith in
        let first =
          odd_round at zero i (add (add acc (y i)) (y last)) (y (i + 1)) e
            (h (i + 1) (omega arith) (omega arith)) in
        rw one_left
          (first ∙ rw next (ap ok (last_panel acc (y i) (mul four (y (i + 1))) (y (i + 2)))))
    simpson_loop-eq-panels at y (suc r) i left last acc el en e h =
        let two_more : left ≡ suc (suc (2 * r + 1)) = omega arith in
        let sum = add (add acc (y i)) (y last) in
        let m = mul four (y (i + 1)) in
        let first =
          odd_round at (suc (2 * r + 1)) i sum (y (i + 1)) e
            (h (i + 1) (omega arith) (omega arith)) in
        let second =
          even_round at (2 * r + 1) i (add sum m) (y (i + 2)) e
            (h (i + 2) (omega arith) (omega arith)) in
        let rest =
          simpson_loop-eq-panels at y r (i + 2) (2 * r + 1) last
            (add acc (add (add (y i) m) (y (i + 2)))) refl (omega arith) (omega arith)
            (λ j lo hi. h j (omega arith) hi) in
        rw two_more (
          first
          ∙ second
          ∙ ap (simpson_loop at (2 * r + 1) (i + 2 + 1))
              (one_panel acc (y i) m (y (i + 2)) (y last))
          ∙ rest)

    -- In exact arithmetic, where addition is associative and commutative (that of doubles is so only
    -- up to rounding): if the parameters pass the check, the cast of the count is defined and the
    -- count comes to `n` intervals, at least one, and the integrand has the value `y i` at node `i`
    -- (at node `n` the upper limit itself is taken), the rule returns h / 3 times the sum over the
    -- n / 2 panels.
    pub simpson_integrate-eq-panels :
        (lower upper step : D) (n : ℕ) (y : ℕ → D)
        → validate_parameters lower upper step ≡ ok tt
        → intervals lower upper step ≡ ok n
        → 0 < n
        → function lower ≡ ok (y 0)
        → function upper ≡ ok (y n)
        → ((i : ℕ) → 0 < i → i < n → function (node lower upper n i) ≡ ok (y i))
        → simpson_integrate lower upper step
          ≡ ok (div (mul (panels y (n / 2) 0 nought) (div (sub upper lower) (of_uint n))) three)
    unfolding simpson_integrate
    simpson_integrate-eq-panels lower upper step n y valid counted pos f_lower f_upper inner =
        let even = intervals_even lower upper step n counted in
        let half : suc (n / 2 - 1) ≡ n / 2 = omega arith in
        let loop =
          simpson_loop-eq-panels (node lower upper n) y (n / 2 - 1) 0 (n - 1) n nought (omega arith)
            (omega arith) refl inner in
        let start : add (add nought (y 0)) (y n) ≡ add (y 0) (y n) = rw nought_add in
        let one : 0 + 1 ≡ 1 = omega arith in
        rw (valid, counted, f_lower, f_upper, ← start) (rw (rw half at loop))
