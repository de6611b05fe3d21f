-- ===== src/Accept/Loop.antt =====
-- src/server/server.cpp, accept_thread_func: the accept thread ends once clients are no longer
-- accepted.
use distributed_integration.Base.{
  ℕ, ◌-◌, ◌≤◌, ◌<◌, ◌≡◌, refl, ap, ◌∙◌, false, List, [], ◌∷◌, ◌++◌, length, arith, Bool-cases, inl,
  inr, All,
}
use mathlib.Core.List.{append-nil}
use distributed_integration.ServerState.{Server}
use distributed_integration.Accept.{
  Acceptor, check_running, check_accepting, in_accept, done, recheck_running, recheck_accepting,
  spawning, spawned, Arrival, connection, aborted, failed, arrived, accept_step, Handler,
}

-- The steps of the accept thread at these moments, of which each is the state of the server that it
-- sees and what `accept` would return.
unfoldable pub accept_loop : List (Server × Arrival) → Acceptor → Acceptor
unfolding accept_step
accept_loop [] a = a
accept_loop ((s, r) ∷ moments) a = accept_loop moments (accept_step s r a)

-- The threads that it starts in these steps.
unfoldable pub accept_loop_starts : List (Server × Arrival) → Acceptor → List Handler
unfolding accept_step spawned
accept_loop_starts [] a = []
accept_loop_starts ((s, r) ∷ moments) a =
    spawned a ++ accept_loop_starts moments (accept_step s r a)

-- How many steps are left, once the manager is closed.
abbrev rank : Acceptor → ℕ
rank done = 0
rank check_accepting = 1
rank check_running = 2
rank (spawning a) = 3
rank (recheck_accepting a) = 3
rank (recheck_running a) = 4
rank in_accept = 5

rank-accept_step :
    (s : Server) (r : Arrival) (a : Acceptor)
    → s.manager.accepting ≡ false
    → rank (accept_step s r a) ≤ rank a - 1
unfolding accept_step arrived
rank-accept_step s r check_running closed = elim (Bool-cases s.running) [
  | inl up ↦ rw up (omega arith)
  | inr down ↦ rw down (omega arith)
]
rank-accept_step s r check_accepting closed = rw closed (omega arith)
rank-accept_step s (connection a) in_accept closed = omega arith
rank-accept_step s aborted in_accept closed = omega arith
rank-accept_step s failed in_accept closed = omega arith
rank-accept_step s r (recheck_running a) closed = elim (Bool-cases s.running) [
  | inl up ↦ rw up (omega arith)
  | inr down ↦ rw down (omega arith)
]
rank-accept_step s r (recheck_accepting a) closed = rw closed (omega arith)
rank-accept_step s r (spawning a) closed = omega arith
rank-accept_step s r done closed = omega arith

done_of_rank : (a : Acceptor) → rank a ≤ 0 → a ≡ done
done_of_rank done h = refl
done_of_rank check_accepting h = absurd (omega arith)
done_of_rank check_running h = absurd (omega arith)
done_of_rank (spawning a) h = absurd (omega arith)
done_of_rank (recheck_accepting a) h = absurd (omega arith)
done_of_rank (recheck_running a) h = absurd (omega arith)
done_of_rank in_accept h = absurd (omega arith)

rank-le : (a : Acceptor) → rank a ≤ 5
rank-le done = omega arith
rank-le check_accepting = omega arith
rank-le check_running = omega arith
rank-le (spawning a) = omega arith
rank-le (recheck_accepting a) = omega arith
rank-le (recheck_running a) = omega arith
rank-le in_accept = omega arith

abbrev pub IsClosed : Server × Arrival → Type 0
IsClosed (s, r) = s.manager.accepting ≡ false

loop_done :
    (moments : List (Server × Arrival)) (a : Acceptor)
    → All IsClosed moments
    → rank a ≤ length moments
    → accept_loop moments a ≡ done
unfolding accept_loop
loop_done [] a closed h = done_of_rank a h
loop_done ((s, r) ∷ moments) a closed h =
    loop_done moments (accept_step s r a) closed.1
      (omega (arith, h, rank-accept_step s r a closed.0))

-- Behind a step, nothing is started.
spawned-accept_step :
    (s : Server) (r : Arrival) (a : Acceptor)
    → s.manager.accepting ≡ false
    → spawned (accept_step s r a) ≡ []
unfolding accept_step arrived spawned
spawned-accept_step s r check_running closed = elim (Bool-cases s.running) [
  | inl up ↦ rw up refl
  | inr down ↦ rw down refl
]
spawned-accept_step s r check_accepting closed = rw closed refl
spawned-accept_step s (connection a) in_accept closed = refl
spawned-accept_step s aborted in_accept closed = refl
spawned-accept_step s failed in_accept closed = refl
spawned-accept_step s r (recheck_running a) closed = elim (Bool-cases s.running) [
  | inl up ↦ rw up refl
  | inr down ↦ rw down refl
]
spawned-accept_step s r (recheck_accepting a) closed = rw closed refl
spawned-accept_step s r (spawning a) closed = refl
spawned-accept_step s r done closed = refl

starts_nothing :
    (moments : List (Server × Arrival)) (a : Acceptor)
    → All IsClosed moments
    → spawned a ≡ []
    → accept_loop_starts moments a ≡ []
unfolding accept_loop_starts
starts_nothing [] a closed h = refl
starts_nothing ((s, r) ∷ moments) a closed h =
    ap (λ hs. hs ++ accept_loop_starts moments (accept_step s r a)) h
    ∙ starts_nothing moments (accept_step s r a) closed.1 (spawned-accept_step s r a closed.0)

starts_once :
    (moments : List (Server × Arrival)) (a : Acceptor)
    → All IsClosed moments
    → 0 < length moments
    → accept_loop_starts moments a ≡ spawned a
unfolding accept_loop_starts
starts_once [] a closed h = elim h [ ]
starts_once ((s, r) ∷ moments) a closed h =
    ap (λ hs. spawned a ++ hs)
      (starts_nothing moments (accept_step s r a) closed.1 (spawned-accept_step s r a closed.0))
    ∙ append-nil (spawned a)

-- Once the manager has stopped accepting, five steps of the accept thread from wherever it stands,
-- whatever `accept` returns and whatever else changes in the server between them, bring it to its
-- end, and the only thread that it still starts is the one that it stood before starting.
pub accept_loop_closed :
    (moments : List (Server × Arrival)) (a : Acceptor)
    → All IsClosed moments
    → 5 ≤ length moments
    → (accept_loop moments a ≡ done) × (accept_loop_starts moments a ≡ spawned a)
accept_loop_closed moments a closed h = (
  loop_done moments a closed (omega (arith, h, rank-le a)),
  starts_once moments a closed (omega (arith, h)),
)
