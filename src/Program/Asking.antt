-- ===== src/Program/Asking.antt =====
-- src/server/main.cpp, askFor and the three questions of main. `reads k` is what the reading number
-- `k` of a double from the console gives, or `none` where it fails.
use distributed_integration.Base.{
  ℕ, zero, suc, ◌+◌, ◌≤◌, ◌<◌, ◌≡◌, refl, ◌-◌, ap, Option, none, some, arith,
}
use distributed_integration.Server.{IntegrationParameters}

module _ {D : Type 0} where
  -- `askFor` on fuel, from the reading `k` on: the number, and the next reading
  unfoldable pub ask_for : (reads : ℕ → Option D) → ℕ → ℕ → Option (D × ℕ)
  ask_for reads zero k = none
  ask_for reads (suc fuel) k = elim (reads k) [
    | some result ↦ some (result, k + 1)
    | none ↦ ask_for reads fuel (k + 1)
  ]

  then_ask :
      Option (D × ℕ) → (D → ℕ → Option (IntegrationParameters D)) → Option (IntegrationParameters D)
  then_ask none next = none
  then_ask (some (v, k)) next = next v k

  -- the assignments to `params` in `main`; each question has the fuel
  unfoldable pub ask_parameters : (reads : ℕ → Option D) → ℕ → Option (IntegrationParameters D)
  unfolding ask_for then_ask
  ask_parameters reads fuel = then_ask (ask_for reads fuel 0) (λ lower k.
      then_ask (ask_for reads fuel k) (λ upper k'.
        then_ask (ask_for reads fuel k')
          (λ step _. some (record { lower_limit = lower; upper_limit = upper; step = step }))))

  module _ (reads : ℕ → Option D) where
    ask_from :
        (n k fuel : ℕ) (v : D)
        → ((i : ℕ) → k ≤ i → i < k + n → reads i ≡ none)
        → reads (k + n) ≡ some v
        → n < fuel
        → ask_for reads fuel k ≡ some (v, k + n + 1)
    unfolding ask_for
    ask_from n k zero v bad good h = elim h [ ]
    ask_from zero k (suc fuel) v bad good h =
        let here : k + 0 ≡ k = omega arith in
        rw here (rw (let there : reads k ≡ some v = rw (← here) good in there, ask_for) refl)
    ask_from (suc n) k (suc fuel) v bad good h =
        let e : k + 1 + n ≡ k + suc n = omega arith in
        rw (bad k (omega arith) (omega arith), ask_for)
          (rw (← e) (
            ask_from n (k + 1) fuel v (λ i low high. bad i (omega arith) (omega arith)) (rw e good)
              (omega arith)))

    -- The question that is asked at reading `k` takes the next number, of reading `m`.
    question :
        (k m fuel : ℕ) (v : D)
        → k ≤ m
        → ((i : ℕ) → k ≤ i → i < m → reads i ≡ none)
        → reads m ≡ some v
        → m < fuel
        → ask_for reads fuel k ≡ some (v, m + 1)
    question k m fuel v le bad good h =
        let e : k + (m - k) ≡ m = omega arith in
        rw (← (ap (λ (t : ℕ). t + 1) e)) (
          ask_from (m - k) k fuel v (λ i low high. bad i low (omega arith)) (rw e good)
            (omega arith))

    -- Readings that fail are skipped: if the first reading that gives a number is number `a`, the
    -- next such number `b` and the third number `c`, then with any fuel of more than `c` readings
    -- for a question the parameters are those three numbers in this order.
    pub ask_parameters_lem :
        (a b c fuel : ℕ) (lower upper step : D)
        → ((i : ℕ) → i < a → reads i ≡ none)
        → reads a ≡ some lower
        → a < b
        → ((i : ℕ) → a < i → i < b → reads i ≡ none)
        → reads b ≡ some upper
        → b < c
        → ((i : ℕ) → b < i → i < c → reads i ≡ none)
        → reads c ≡ some step
        → c < fuel
        → ask_parameters reads fuel
          ≡ some (record { lower_limit = lower; upper_limit = upper; step = step })
    unfolding ask_parameters then_ask
    ask_parameters_lem a b c fuel lower upper step low at_a ab mid at_b bc high at_c h =
        rw (question 0 a fuel lower (omega arith) (λ i _ before. low i before) at_a (omega arith)) (
          rw
            (question (a + 1) b fuel upper (omega arith)
              (λ i from before. mid i (omega arith) before) at_b (omega arith))
            (rw
              (question (b + 1) c fuel step (omega arith)
                (λ i from before. high i (omega arith) before) at_c (omega arith))
              refl))

    -- Once the input has ended, a question is asked for ever: every amount of fuel runs out.
    pub ask_for_ended :
        (fuel k : ℕ) → ((i : ℕ) → k ≤ i → reads i ≡ none) → ask_for reads fuel k ≡ none
    unfolding ask_for
    ask_for_ended zero k over = refl
    ask_for_ended (suc fuel) k over =
        rw (over k (omega arith), ask_for)
          (ask_for_ended fuel (k + 1) (λ i from. over i (omega arith)))
