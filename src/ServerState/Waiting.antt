-- ===== src/ServerState/Waiting.antt =====
-- src/server/server.cpp, stop_accepting_clients behind the close of the acceptor: the loop that waits
-- for the accept thread. Its clock and what `join` does are the environment's.
use distributed_integration.Base.{
  ℕ, zero, suc, ◌+◌, ◌*◌, ◌≤◌, ◌<◌, ◌≡◌, ◌⊎◌, refl, sym, ap, ◌∙◌, Bool, true, false, not, ◌||◌,
  arith, ltb, inl, inr, if◌then◌else◌, Bool-cases,
}
use native.Mathlib.Decide.{ℕ_discrete, dec_lt}
use mathlib.Core.Path.{subst}
use distributed_integration.ClientManager
use distributed_integration.ServerState.{Server, stop_accepting_clients}

-- What `join` does: it returns as the thread has ended, it does not return, or it throws.
pub data Join : Type 0 where
  returns blocks throws : Join

-- How the wait ends: there was no thread to wait for, the thread has been joined, it has been
-- detached, the call of `join` blocks, or the loop goes on when the fuel is spent.
pub data Waited : Type 0 where
  no_thread joined detached stuck going_on : Waited

after_join : Waited → Join → Waited
after_join rest returns = joined
after_join rest blocks = stuck
after_join rest throws = rest

-- The loop from its round `k` on; `clock k` are the milliseconds that have passed at the test of the
-- timeout in that round.
join_loop : (fuel : ℕ) → Server → (clock : ℕ → ℕ) → (join : ℕ → Join) → (k : ℕ) → Waited
unfolding after_join
join_loop zero s clock join k = going_on
join_loop (suc fuel) s clock join k =
    let rest = join_loop fuel s clock join (suc k) in
    if ltb 5000 (clock k)
    then detached
    else (if not s.running || not s.manager.accepting then after_join rest (join k) else rest)

-- `Server::stop_accepting_clients`
unfoldable pub wait_for_accept_thread :
    (fuel : ℕ) → (joinable : Bool) → (clock : ℕ → ℕ) → (join : ℕ → Join) → Server → Server × Waited
unfolding join_loop
wait_for_accept_thread fuel joinable clock join s =
    let s' = stop_accepting_clients s in
    (s', if joinable then join_loop fuel s' clock join 0 else no_thread)

-- In the rounds before `k` the time was not up and `join` threw.
abbrev pub Throws : (clock : ℕ → ℕ) → (join : ℕ → Join) → ℕ → Type 0
Throws clock join k = (i : ℕ) → i < k → (clock i ≤ 5000) × (join i ≡ throws)

-- The wait has ended in round `k`, where the thread was joined, or the call of `join` blocks, or
-- the time was up.
abbrev pub EndsAt : (clock : ℕ → ℕ) → (join : ℕ → Join) → ℕ → Waited → Type 0
EndsAt clock join k w =
    Throws clock join k
    × (((w ≡ joined) × (clock k ≤ 5000) × (join k ≡ returns))
        ⊎ (((w ≡ stuck) × (clock k ≤ 5000) × (join k ≡ blocks))
            ⊎ ((w ≡ detached) × (5000 < clock k))))

Join-cases : (j : Join) → (j ≡ returns) ⊎ ((j ≡ blocks) ⊎ (j ≡ throws))
Join-cases returns = inl refl
Join-cases blocks = inr (inl refl)
Join-cases throws = inr (inr refl)

module _ (s : Server) (closed : s.manager.accepting ≡ false) (clock : ℕ → ℕ) (join : ℕ → Join) where
  Throws-suc :
      (k : ℕ) → Throws clock join k → clock k ≤ 5000 → join k ≡ throws → Throws clock join (suc k)
  Throws-suc k h now e i lt = elim (ℕ_discrete i k) [
    | yes same ↦ rw same (now, e)
    | no other ↦ h i (omega arith)
  ]

  round_late : (fuel k : ℕ) → 5000 < clock k → join_loop (suc fuel) s clock join k ≡ detached
  unfolding join_loop
  round_late fuel k late = ground arith

  round_now :
      (fuel k : ℕ)
      → clock k ≤ 5000
      → join_loop (suc fuel) s clock join k
        ≡ after_join (join_loop fuel s clock join (suc k)) (join k)
  unfolding join_loop
  round_now fuel k now = rw (closed) (elim (Bool-cases s.running) [
    | inl up ↦ rw up (ground arith)
    | inr down ↦ rw down (ground arith)
  ])

  ends_now :
      (fuel k : ℕ)
      → Throws clock join k
      → 5000 < clock k
      → EndsAt clock join k (join_loop (suc fuel) s clock join k)
  ends_now fuel k h late = (h, inr (inr (round_late fuel k late, late)))

  ends_later :
      (fuel k : ℕ)
      → Throws clock join k
      → 5000 < clock (k + fuel)
      → (n : ℕ) × (n ≤ k + fuel) × EndsAt clock join n (join_loop (suc fuel) s clock join k)
  unfolding after_join
  ends_later zero k h late =
      (k, omega arith, ends_now zero k h (subst (λ n. 5000 < clock n) (omega arith) late))
  ends_later (suc fuel) k h late = elim (dec_lt 5000 (clock k)) [
    | yes over ↦ (k, omega arith, ends_now (suc fuel) k h over)
    | no early ↦
        let now : clock k ≤ 5000 = omega arith in
        let round = round_now (suc fuel) k now in
        elim (Join-cases (join k)) [
          | inl e ↦ (k, omega arith, (h, inl (round ∙ ap (after_join _) e, now, e)))
          | inr (inl e) ↦ (k, omega arith, (h, inr (inl (round ∙ ap (after_join _) e, now, e))))
          | inr (inr e) ↦
              let (n, le, ends) =
                ends_later fuel (suc k) (Throws-suc k h now e)
                  (subst (λ m. 5000 < clock m) (omega arith) late) in
              (
                n,
                omega (arith, le),
                subst (EndsAt clock join n) (sym (round ∙ ap (after_join _) e)) ends,
              )
        ]
  ]

-- If the thread can be joined, and `clock` allows for the sleeps of the rounds (100 milliseconds
-- before the test of the timeout and 50 behind it), the loop makes at most 34 rounds. All rounds but
-- the last threw in `join` within the time; in the last either the thread was joined, or the time was
-- up and it is detached, or the call of `join`, which has no timeout, blocks. No client is accepted
-- any more.
pub wait_for_accept_thread_lem :
    (fuel : ℕ) (clock : ℕ → ℕ) (join : ℕ → Join) (s : Server)
    → 34 ≤ fuel
    → ((k : ℕ) → 100 + 150 * k ≤ clock k)
    → let (s', w) = wait_for_accept_thread fuel true clock join s in
      (s'.manager.accepting ≡ false) × ((n : ℕ) × (n ≤ 33) × EndsAt clock join n w)
unfolding wait_for_accept_thread stop_accepting_clients ClientManager.stop_accepting
wait_for_accept_thread_lem zero clock join s enough sleeps = absurd (omega arith)
wait_for_accept_thread_lem (suc fuel) clock join s enough sleeps =
    let late : 5000 < clock fuel = omega (arith, enough, sleeps fuel) in
    let (n, _, (throws_before, last)) =
      ends_later (stop_accepting_clients s) refl clock join fuel 0 (λ i lt. absurd (omega arith))
        (subst (λ m. 5000 < clock m) (omega arith) late) in
    let bound : n ≤ 33 = elim (dec_lt 33 n) [
      | yes more ↦ absurd (omega (arith, (throws_before 33 more).0, sleeps 33))
      | no most ↦ omega arith
    ] in
    (refl, (n, bound, (throws_before, last)))
