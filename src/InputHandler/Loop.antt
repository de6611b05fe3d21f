-- ===== src/InputHandler/Loop.antt =====
-- src/server/input_handler.cpp, the loop of the thread: when it calls the callback, and when it
-- never ends.
use distributed_integration.Base.{
  ℕ, zero, suc, ◌+◌, ◌*◌, ◌≤◌, ◌<◌, ◌≡◌, refl, ◌∙◌, Bool, true, false, none, some, List, [], arith,
}
use native.Mathlib.Decide.{dec_lt}
use distributed_integration.InputHandler.{is_start, input_loop, normalize, same_bytes}

module _ (reads : ℕ → List ℕ) (stops : ℕ → Bool) where
  -- A round that sees no stop and reads another line goes on.
  loop_on :
      (fuel k : ℕ)
      → stops (2 * k) ≡ false
      → stops (2 * k + 1) ≡ false
      → is_start (reads k) ≡ false
      → input_loop reads stops (suc fuel) k ≡ input_loop reads stops fuel (k + 1)
  unfolding input_loop
  loop_on fuel k a b other = rw (a, b, other, input_loop)

  loop_hit :
      (fuel k : ℕ)
      → stops (2 * k) ≡ false
      → stops (2 * k + 1) ≡ false
      → is_start (reads k) ≡ true
      → input_loop reads stops (suc fuel) k ≡ some true
  unfolding input_loop
  loop_hit fuel k a b hit = rw (a, b, hit, input_loop)

  loop_from :
      (n k fuel : ℕ)
      → ((i : ℕ) → i < 2 * (k + n) + 2 → stops i ≡ false)
      → ((i : ℕ) → k ≤ i → i < k + n → is_start (reads i) ≡ false)
      → is_start (reads (k + n)) ≡ true
      → n < fuel
      → input_loop reads stops fuel k ≡ some true
  loop_from n k zero calm before hit h = elim h [ ]
  loop_from zero k (suc fuel) calm before hit h =
      loop_hit fuel k (calm (2 * k) (omega arith)) (calm (2 * k + 1) (omega arith))
        (rw (← (let e : k + 0 ≡ k = omega arith in e)) hit)
  loop_from (suc n) k (suc fuel) calm before hit h =
      loop_on fuel k (calm (2 * k) (omega arith)) (calm (2 * k + 1) (omega arith))
        (before k (omega arith) (omega arith))
      ∙ loop_from n (k + 1) fuel (λ i below. calm i (omega arith))
          (λ i low high. before i (omega arith) (omega arith))
          (rw (let e : k + 1 + n ≡ k + suc n = omega arith in e) hit) (omega arith)

  -- If line `n` is the first that is START, and no stop is asked for up to its round, then any fuel
  -- above `n` ends the loop with a call of the callback.
  pub input_loop_start :
      (n fuel : ℕ)
      → ((i : ℕ) → i < 2 * n + 2 → stops i ≡ false)
      → ((i : ℕ) → i < n → is_start (reads i) ≡ false)
      → is_start (reads n) ≡ true
      → n < fuel
      → input_loop reads stops fuel 0 ≡ some true
  input_loop_start n fuel calm before hit h =
      loop_from n 0 fuel (λ i below. calm i (omega arith)) (λ i low high. before i (omega arith))
        (rw (let e : 0 + n ≡ n = omega arith in e) hit) h

  loop_none :
      ((i : ℕ) → stops i ≡ false)
      → ((i : ℕ) → is_start (reads i) ≡ false)
      → (fuel k : ℕ) → input_loop reads stops fuel k ≡ none
  unfolding input_loop
  loop_none calm never zero k = refl
  loop_none calm never (suc fuel) k =
      loop_on fuel k (calm (2 * k)) (calm (2 * k + 1)) (never k) ∙ loop_none calm never fuel (k + 1)

  is_start_at :
      (m : ℕ)
      → ((i : ℕ) → i < m → is_start (reads i) ≡ false)
      → ((i : ℕ) → m ≤ i → reads i ≡ [])
      → (i : ℕ) → is_start (reads i) ≡ false
  unfolding is_start normalize same_bytes
  is_start_at m before over i = elim (dec_lt i m) [
    | yes h ↦ before i h
    | no h ↦ rw (over i (omega arith)) refl
  ]

  -- If the input ends after `m` lines, of which none is START, and no stop is asked for, then the
  -- loop never ends: every amount of fuel runs out.
  pub input_loop_forever :
      (m : ℕ)
      → ((i : ℕ) → stops i ≡ false)
      → ((i : ℕ) → i < m → is_start (reads i) ≡ false)
      → ((i : ℕ) → m ≤ i → reads i ≡ [])
      → (fuel : ℕ) → input_loop reads stops fuel 0 ≡ none
  input_loop_forever m calm before over fuel = loop_none calm (is_start_at m before over) fuel 0
