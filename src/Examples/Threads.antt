-- ===== src/Examples/Threads.antt =====
-- The acceptance of clients at concrete schedules of the threads.
use distributed_integration.Base.{
  ℕ, ◌+◌, ◌*◌, ◌≤◌, ◌==◌, ◌≡◌, refl, true, false, none, some, List, [], ◌∷◌, ◌++◌, get_elem?, set,
  arith, ok, Bool-cases, Option-cases, inl, inr, if◌then◌else◌,
}
use distributed_integration.Base.Words.{u64}
use distributed_integration.ClientManager
use distributed_integration.ClientManager.{new_connection}
use distributed_integration.ClientManager.Registry.{IsRegistry}
use distributed_integration.Messages.{Command}
use distributed_integration.ServerState.{Server, stop_accepting_clients}
use distributed_integration.ServerState.Waiting.{
  Join, Waited, throws, blocks, stuck, wait_for_accept_thread, EndsAt, wait_for_accept_thread_lem,
}
use distributed_integration.Server.{gather, completed, integration_round, received}
use distributed_integration.Accept.{
  done, spawning, Arrival, aborted, failed, connection, accept_step, receiving, handler_step,
  spawned, Acceptance, listening, accepts, handles, start, close, More, here, next,
}
use distributed_integration.Accept.Ids.{More-IsDistinct}
use distributed_integration.Accept.Counting.{total}
use distributed_integration.Accept.Gather.{gather-More}
use distributed_integration.Accept.Closing.{late, IsSettled, More-IsSettled}
use distributed_integration.Accept.Loop.{accept_loop, accept_loop_starts, accept_loop_closed}
use distributed_integration.Accept.Rounds.{integration_round_accepted}
use distributed_integration.Examples.Rounds.{info, attempt, result, batch, environment, parameters}
use distributed_integration.Examples.Sample.{whole}

-- A schedule names the thread that makes the next step.
pub data Action : Type 0 where
  accept : Arrival → Action
  handle : ℕ → Action
  on_start shut : Action

act : Action → Acceptance → Acceptance
unfolding accept_step handler_step spawned
act (accept r) s = record s {
  acceptor = accept_step s.server r s.acceptor;
  handlers = s.handlers ++ spawned s.acceptor;
}
act (handle i) s = elim (get_elem? s.handlers i) [
  | none ↦ s
  | some h ↦ record s {
    server = (handler_step s.server h).0;
    handlers = set s.handlers i (handler_step s.server h).1;
  }
]
act on_start s = record s { server = record (s.server) { start_received = true } }
act shut s =
    if s.server.start_received then record s { server = stop_accepting_clients s.server } else s

unfoldable pub schedule : List Action → Acceptance → Acceptance
unfolding act
schedule [] s = s
schedule (a ∷ actions) s = schedule actions (act a s)

act-More : {s : Acceptance} (t : Acceptance) (a : Action) → More s t → More s (act a t)
unfolding act
act-More t (accept r) m = next m (accepts r)
act-More t (handle i) m = elim (Option-cases (get_elem? t.handlers i)) [
  | inl nobody ↦ rw (nobody, act) m
  | inr (h, there) ↦ rw (there, act) (next m (handles i h there))
]
act-More t on_start m = next m start
act-More t shut m = elim (Bool-cases t.server.start_received) [
  | inl given ↦ simp (given) (next m (close (inl given)))
  | inr waits ↦ simp (waits) m
]

pub schedule-More :
    {s : Acceptance} (t : Acceptance) (actions : List Action)
    → More s t
    → More s (schedule actions t)
unfolding schedule
schedule-More t [] m = m
schedule-More t (a ∷ actions) m = schedule-More (act a t) actions (act-More t a m)

-- The accept thread takes a connection and starts a thread for it.
abbrev comes : ℕ → List Action
comes cores =
    accept failed
    ∷ accept failed
    ∷ accept (connection (attempt cores))
    ∷ accept failed
    ∷ accept failed
    ∷ accept failed
    ∷ []

abbrev joins : ℕ → List Action
joins i = handle i ∷ handle i ∷ handle i ∷ handle i ∷ handle i ∷ []

-- START comes while the thread of a client stands behind the test of `add_client`.
abbrev raced : Acceptance
raced =
    schedule (comes 2 ++ (handle 0 ∷ handle 0 ∷ handle 0 ∷ handle 0 ∷ on_start ∷ shut ∷ []))
      listening

abbrev added_late : Acceptance
added_late = schedule (handle 0 ∷ []) raced

More-IsSettled_example : IsSettled raced added_late
unfolding schedule stop_accepting_clients ClientManager.stop_accepting
More-IsSettled_example =
    More-IsSettled raced added_late (schedule-More raced (handle 0 ∷ []) here) refl refl

-- The client was not there when clients ceased to be accepted.
added_late-clients :
    (raced.server.manager.clients ≡ [])
    × (added_late.server.manager.clients ≡ new_connection 1 (info 2) ∷ [])
unfolding schedule stop_accepting_clients u64 ClientManager.stop_accepting
added_late-clients = (refl, refl)

-- Two clients join, and START comes.
abbrev pub gathering : List Action
gathering = comes 2 ++ (comes 1 ++ (joins 0 ++ (joins 1 ++ (on_start ∷ shut ∷ []))))

abbrev pub ready : Acceptance
ready = schedule gathering listening

More-IsDistinct_example : IsRegistry ready.server.next_id ready.server.manager
unfolding schedule stop_accepting_clients
More-IsDistinct_example =
    More-IsDistinct ready (schedule-More listening gathering here) (omega arith)

integration_round_accepted_example :
    (s : Server) × (stops : List (ℕ × Command)) × (integration_round ⦃d = whole⦄
        (environment true)
        parameters
        ready.server
      ≡ ok (s, completed 15 stops))
unfolding schedule stop_accepting_clients received u64 ClientManager.stop_accepting
integration_round_accepted_example =
    integration_round_accepted ⦃d = whole⦄ (environment true) parameters ready ready
      (schedule-More listening gathering here) here refl refl refl (omega arith) (omega arith)
      (omega arith) (λ id b. refl)
      (
        (batch 1 (result true 1 4 ∷ result true 2 5 ∷ []), refl, refl),
        ((batch 2 (result true 3 6 ∷ []), refl, refl), tt),
      )
      (omega arith)

gather-More_example :
    (t : Acceptance) × More listening t
    × (t.server ≡ gather ⦃d = whole⦄ (environment true) listening.server)
    × (total late t.handlers ≡ 0)
gather-More_example = gather-More ⦃d = whole⦄ (environment true)

abbrev closed_server : Server
closed_server = record ready.server { running = false }

abbrev moments : List (Server × Arrival)
moments =
    (ready.server, failed)
    ∷ (ready.server, connection (attempt 3))
    ∷ (closed_server, failed)
    ∷ (closed_server, failed)
    ∷ (closed_server, aborted)
    ∷ []

accept_loop_closed_example :
    (accept_loop moments (spawning (attempt 1)) ≡ done)
    × (accept_loop_starts moments (spawning (attempt 1)) ≡ receiving (attempt 1) ∷ [])
unfolding schedule stop_accepting_clients spawned ClientManager.stop_accepting
accept_loop_closed_example =
    accept_loop_closed moments (spawning (attempt 1)) (refl, (refl, (refl, (refl, (refl, tt)))))
      (omega arith)

-- The first call of `join` throws, the second blocks.
abbrev throws_once : ℕ → Join
throws_once k = if k == 0 then throws else blocks

-- The milliseconds that the sleeps of the rounds take.
abbrev only_sleeps : ℕ → ℕ
only_sleeps k = 100 + 150 * k

abbrev waited : Server × Waited
waited = wait_for_accept_thread 34 true only_sleeps throws_once listening.server

waited-stuck : waited.1 ≡ stuck
unfolding wait_for_accept_thread stop_accepting_clients ClientManager.stop_accepting
waited-stuck = refl

wait_for_accept_thread_lem_example :
    (waited.0.manager.accepting ≡ false)
    × ((n : ℕ) × (n ≤ 33) × EndsAt only_sleeps throws_once n waited.1)
wait_for_accept_thread_lem_example =
    wait_for_accept_thread_lem 34 only_sleeps throws_once listening.server (omega arith)
      (λ k. omega arith)
