-- ===== src/Accept/Ids.antt =====
-- src/server/server.cpp, handle_client_connection in its threads: the identifiers stay distinct.
use distributed_integration.Base.{
  ℕ, ◌+◌, ◌≤◌, ◌<◌, ◌^◌, ◌≡◌, refl, some, List, [], ◌∷◌, ◌++◌, get_elem?, set, length,
  length-append, length-set, arith, inl, inr, All,
}
use distributed_integration.ClientManager
use distributed_integration.ClientManager.{ClientConnection, new_connection}
use distributed_integration.ClientManager.Registry.{IsDistinct, Lacks, IsRegistry}
use distributed_integration.ServerState.{stop_accepting_clients}
use native.Mathlib.Decide.{dec_lt}
use distributed_integration.Accept.{
  Acceptor, check_running, check_accepting, in_accept, done, recheck_running, recheck_accepting,
  spawning, spawned, Handler, handler_step, Acceptance, listening, Step, accepts, handles, drops,
  start, close, halt, clear, More, here, next,
}
use distributed_integration.Accept.Counting.{total, total-append, total-set}
use distributed_integration.Accept.Held.{
  hit, holds, registered, untaken, taking, gain, step_holds, step_next_id, step_untaken, gain_once,
}

-- How often an identifier is in use.
abbrev uses : ℕ → Acceptance → ℕ
uses id s = total (holds id) s.handlers + registered id s.server.manager.clients

-- No identifier is in use twice, none from the counter on is in use, and the counter has not run
-- ahead of the threads.
record IsNumbered (s : Acceptance) : Type 0 where
  once : (id : ℕ) → uses id s ≤ 1
  fresh : (id : ℕ) → s.server.next_id ≤ id → uses id s ≡ 0
  counter : s.server.next_id + total untaken s.handlers ≤ 1 + length s.handlers

total-spawned : (id : ℕ) (a : Acceptor) → total (holds id) (spawned a) ≡ 0
unfolding spawned
total-spawned id check_running = refl
total-spawned id check_accepting = refl
total-spawned id in_accept = refl
total-spawned id done = refl
total-spawned id (recheck_running a) = refl
total-spawned id (recheck_accepting a) = refl
total-spawned id (spawning a) = refl

total_untaken : (a : Acceptor) → total untaken (spawned a) ≡ length (spawned a)
unfolding spawned
total_untaken check_running = refl
total_untaken check_accepting = refl
total_untaken in_accept = refl
total_untaken done = refl
total_untaken (recheck_running a) = refl
total_untaken (recheck_accepting a) = refl
total_untaken (spawning a) = refl

handled-IsNumbered :
    (s : Acceptance) (i : ℕ) (h : Handler)
    → get_elem? s.handlers i ≡ some h
    → length s.handlers + 2 < 2 ^ 64
    → IsNumbered s
    → IsNumbered (record s {
      server = (handler_step s.server h).0;
      handlers = set s.handlers i (handler_step s.server h).1;
    })
handled-IsNumbered s i h at few n = record {
  once = λ id. elim (gain_once id s.server h) [
    | inl same ↦ omega (arith, moved id, n.once id, same)
    | inr (more, hits, takes) ↦ omega (arith, moved id, n.fresh id (omega (arith, hits)), more)
  ];
  fresh = λ id above. elim (gain_once id s.server h) [
    | inl same ↦ omega (arith, moved id, n.fresh id (omega (arith, up, above)), same)
    | inr (more, hits, takes) ↦ absurd (omega (arith, up, above, hits, takes))
  ];
  counter = omega (
    arith,
    up,
    n.counter,
    total-set untaken s.handlers i h (handler_step s.server h).1 at,
    step_untaken s.server h,
    length-set s.handlers i (handler_step s.server h).1,
  );
}
  where
    up : (handler_step s.server h).0.next_id ≡ s.server.next_id + taking h
    up = step_next_id s.server h (omega (arith, n.counter))

    moved :
        (id : ℕ)
        → total (holds id) (set s.handlers i (handler_step s.server h).1)
            + registered id (handler_step s.server h).0.manager.clients
          ≤ uses id s + gain id s.server h
    moved id = omega (
      arith,
      total-set (holds id) s.handlers i h (handler_step s.server h).1 at,
      step_holds id s.server h,
    )

Step-IsNumbered :
    {s t : Acceptance} → Step s t → length s.handlers + 2 < 2 ^ 64 → IsNumbered s → IsNumbered t
unfolding stop_accepting_clients ClientManager.clear ClientManager.stop_accepting
Step-IsNumbered {s} (accepts r) few n = record {
  once = λ id. omega (arith, n.once id, grown id);
  fresh = λ id above. omega (arith, n.fresh id above, grown id);
  counter = omega (
    arith,
    n.counter,
    total-append untaken s.handlers (spawned s.acceptor),
    total_untaken s.acceptor,
    length-append s.handlers (spawned s.acceptor),
  );
}
  where
    grown :
        (id : ℕ) → total (holds id) (s.handlers ++ spawned s.acceptor) ≡ total (holds id) s.handlers
    grown id = omega (
      arith,
      total-append (holds id) s.handlers (spawned s.acceptor),
      total-spawned id s.acceptor,
    )
Step-IsNumbered {s} (handles i h at) few n = handled-IsNumbered s i h at few n
Step-IsNumbered (drops a at) few n = record { once = n.once; fresh = n.fresh; counter = n.counter }
Step-IsNumbered start few n = record { once = n.once; fresh = n.fresh; counter = n.counter }
Step-IsNumbered (close w) few n = record { once = n.once; fresh = n.fresh; counter = n.counter }
Step-IsNumbered halt few n = record { once = n.once; fresh = n.fresh; counter = n.counter }
Step-IsNumbered {s} (clear down shut) few n = record {
  once = λ id. omega (arith, n.once id);
  fresh = λ id above. omega (arith, n.fresh id above);
  counter = n.counter;
}

-- Threads are only added.
pub length-Step : {s t : Acceptance} → Step s t → length s.handlers ≤ length t.handlers
length-Step {s} (accepts r) = omega (arith, length-append s.handlers (spawned s.acceptor))
length-Step {s} (handles i h at) =
    omega (arith, length-set s.handlers i (handler_step s.server h).1)
length-Step (drops a at) = omega arith
length-Step start = omega arith
length-Step (close w) = omega arith
length-Step halt = omega arith
length-Step (clear down shut) = omega arith

More-IsNumbered :
    {s : Acceptance} → More listening s → length s.handlers + 2 < 2 ^ 64 → IsNumbered s
More-IsNumbered here few = record {
  once = λ id. omega arith;
  fresh = λ id above. refl;
  counter = omega arith;
}
More-IsNumbered (next m step) few =
    Step-IsNumbered step (omega (arith, length-Step step))
      (More-IsNumbered m (omega (arith, length-Step step)))

hit_self : (a b : ℕ) → a ≡ b → hit a b ≡ 1
hit_self a b e = ground arith

Lacks-of_registered : (id : ℕ) (cs : List ClientConnection) → registered id cs ≡ 0 → Lacks id cs
Lacks-of_registered id [] h = tt
Lacks-of_registered id (c ∷ cs) h = (
  λ e. absurd (omega (arith, h, hit_self c.client_id id e)),
  Lacks-of_registered id cs (omega (arith, h)),
)

IsDistinct-of_registered :
    (cs : List ClientConnection) → ((id : ℕ) → registered id cs ≤ 1) → IsDistinct cs
IsDistinct-of_registered [] h = tt
IsDistinct-of_registered (c ∷ cs) h = (
  Lacks-of_registered c.client_id cs
      (omega (arith, h c.client_id, hit_self c.client_id c.client_id refl)),
  IsDistinct-of_registered cs (λ id. omega (arith, h id)),
)

below_of_registered :
    (bound : ℕ) (cs : List ClientConnection)
    → ((id : ℕ) → bound ≤ id → registered id cs ≡ 0)
    → All (λ c. c.client_id < bound) cs
below_of_registered bound [] h = tt
below_of_registered bound (c ∷ cs) h = (
  elim (dec_lt c.client_id bound) [
    | yes low ↦ low
    | no high ↦
        absurd (omega (arith, h c.client_id (omega arith), hit_self c.client_id c.client_id refl))
  ],
  below_of_registered bound cs (λ id above. omega (arith, h id above)),
)

-- However the threads run, the clients have distinct identifiers, all of them below the counter, as
-- long as fewer than 2 ^ 64 - 2 connections have been accepted since the start.
pub More-IsDistinct :
    (s : Acceptance)
    → More listening s
    → length s.handlers + 2 < 2 ^ 64
    → IsRegistry s.server.next_id s.server.manager
More-IsDistinct s m few =
    let n = More-IsNumbered m few in
    record {
      distinct = IsDistinct-of_registered s.server.manager.clients (λ id. omega (arith, n.once id));
      below =
          below_of_registered s.server.next_id s.server.manager.clients
            (λ id above. omega (arith, n.fresh id above));
    }
