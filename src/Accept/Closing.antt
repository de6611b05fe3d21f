-- ===== src/Accept/Closing.antt =====
-- src/server/server.cpp, stop_accepting_clients: the clients are settled once it has closed the
-- manager, but for those whose thread stands between the test and the lock of `add_client`.
use distributed_integration.Base.{
  ℕ, ◌+◌, ◌≡◌, refl, sym, ap, ◌∙◌, true, false, List, [], ◌∷◌, ◌++◌, length, length-append, arith,
  Option-cases, inl, inr,
}
use mathlib.Core.List.{append_assoc, append-nil}
use distributed_integration.ClientManager
use distributed_integration.ClientManager.{ClientConnection, new_connection}
use distributed_integration.ServerState.{Server, stop_accepting_clients}
use distributed_integration.Accept.{
  Acceptor, check_running, check_accepting, in_accept, done, recheck_running, recheck_accepting,
  spawning, spawned, Handler, receiving, numbering, replying, adding, locking, ended, read_request,
  handler_step, Acceptance, Step, accepts, handles, drops, start, close, halt, clear, More, here,
  next,
}
use distributed_integration.Accept.Counting.{total, total-append, total-set}

-- Whether the thread has passed the test of `add_client` and has not yet added its client.
abbrev pub late : Handler → ℕ
late (locking k info) = 1
late (receiving a) = 0
late (numbering q r) = 0
late (replying k q r) = 0
late (adding k info) = 0
late ended = 0

total-late : (a : Acceptor) → total late (spawned a) ≡ 0
unfolding spawned
total-late check_running = refl
total-late check_accepting = refl
total-late in_accept = refl
total-late done = refl
total-late (recheck_running a) = refl
total-late (recheck_accepting a) = refl
total-late (spawning a) = refl

-- With the manager closed, a step of a thread adds the client of a thread that is late, and no
-- other.
record Adds (s : Server) (h : Handler) : Type 0 where
  added : List ClientConnection
  clients : (handler_step s h).0.manager.clients ≡ s.manager.clients ++ added
  count : length added + late (handler_step s h).1 ≡ late h
  shut : (handler_step s h).0.manager.accepting ≡ false
  same_running : (handler_step s h).0.running ≡ s.running

quiet-Adds :
    (s : Server) (h : Handler)
    → (handler_step s h).0.manager.clients ≡ s.manager.clients
    → late (handler_step s h).1 ≡ late h
    → (handler_step s h).0.manager.accepting ≡ false
    → (handler_step s h).0.running ≡ s.running
    → Adds s h
quiet-Adds s h same as_late closed running = record {
  added = [];
  clients = same ∙ sym (append-nil _);
  count = omega (arith, as_late);
  shut = closed;
  same_running = running;
}

handler_step-Adds : (s : Server) (h : Handler) → s.manager.accepting ≡ false → Adds s h
unfolding handler_step read_request
handler_step-Adds s (receiving a) closed = elim (Option-cases a.request) [
  | inl gone ↦ quiet-Adds s (receiving a) refl (rw (gone, read_request) refl) closed refl
  | inr (request, got) ↦ quiet-Adds s (receiving a) refl (rw (got, read_request) refl) closed refl
]
handler_step-Adds s (numbering q r) closed = quiet-Adds s (numbering q r) refl refl closed refl
handler_step-Adds s (replying k q true) closed =
    quiet-Adds s (replying k q true) refl refl closed refl
handler_step-Adds s (replying k q false) closed =
    quiet-Adds s (replying k q false) refl refl closed refl
handler_step-Adds s (adding k info) closed =
    quiet-Adds s (adding k info) refl (rw closed refl) closed refl
handler_step-Adds s (locking k info) closed = record {
  added = new_connection k info ∷ [];
  clients = refl;
  count = omega arith;
  shut = closed;
  same_running = refl;
}
handler_step-Adds s ended closed = quiet-Adds s ended refl refl closed refl

-- The clients that have been added since `s`, and the threads that are still late.
pub record IsSettled (s t : Acceptance) : Type 0 where
  pub added : List ClientConnection
  pub clients : t.server.manager.clients ≡ s.server.manager.clients ++ added
  pub count : length added + total late t.handlers ≡ total late s.handlers
  pub shut : t.server.manager.accepting ≡ false

was_running : (s : Server) (h : Handler) → (handler_step s h).0.running ≡ s.running
unfolding handler_step
was_running s (receiving a) = refl
was_running s (numbering q r) = refl
was_running s (replying k q r) = refl
was_running s (adding k info) = refl
was_running s (locking k info) = refl
was_running s ended = refl

running-Step : {s t : Acceptance} → Step s t → t.server.running ≡ true → s.server.running ≡ true
unfolding stop_accepting_clients
running-Step (accepts r) up = up
running-Step {s} (handles i h at) up = sym (was_running s.server h) ∙ up
running-Step (drops a at) up = up
running-Step start up = up
running-Step (close w) up = up
running-Step halt up = cc
running-Step (clear down shut) up = up

Step-IsSettled :
    {s t u : Acceptance} → Step t u → u.server.running ≡ true → IsSettled s t → IsSettled s u
unfolding stop_accepting_clients ClientManager.stop_accepting
Step-IsSettled {s} {t} (accepts r) up n = record {
  added = n.added;
  clients = n.clients;
  count =
      omega
        (arith, n.count, total-append late t.handlers (spawned t.acceptor), total-late t.acceptor);
  shut = n.shut;
}
Step-IsSettled {s} {t} (handles i h at) up n =
    let more = handler_step-Adds t.server h n.shut in
    record {
      added = n.added ++ more.added;
      clients =
          more.clients
          ∙ ap (λ cs. cs ++ more.added) n.clients
          ∙ append_assoc s.server.manager.clients n.added more.added;
      count = omega (
        arith,
        n.count,
        more.count,
        length-append n.added more.added,
        total-set late t.handlers i h (handler_step t.server h).1 at,
      );
      shut = more.shut;
    }
Step-IsSettled (drops a at) up n = record {
  added = n.added;
  clients = n.clients;
  count = n.count;
  shut = n.shut;
}
Step-IsSettled start up n = record {
  added = n.added;
  clients = n.clients;
  count = n.count;
  shut = n.shut;
}
Step-IsSettled (close w) up n = record {
  added = n.added;
  clients = n.clients;
  count = n.count;
  shut = refl;
}
Step-IsSettled halt up n = cc
Step-IsSettled (clear down shut) up n = cc

-- Once the manager has stopped accepting, and as long as the server runs, the clients only grow at
-- their end, by the clients of threads that had passed the test of `add_client` before: as many
-- have been added since as there are fewer such threads now.
pub More-IsSettled :
    (s t : Acceptance)
    → More s t
    → s.server.manager.accepting ≡ false
    → t.server.running ≡ true
    → IsSettled s t
More-IsSettled s t here closed up = record {
  added = [];
  clients = sym (append-nil _);
  count = omega arith;
  shut = closed;
}
More-IsSettled s u (next {t} m step) closed up =
    Step-IsSettled step up (More-IsSettled s t m closed (running-Step step up))

-- If no thread stands behind the test, the clients stay as they are.
pub More-settled :
    (s t : Acceptance)
    → More s t
    → s.server.manager.accepting ≡ false
    → t.server.running ≡ true
    → total late s.handlers ≡ 0
    → t.server.manager.clients ≡ s.server.manager.clients
More-settled s t m closed up none_late =
    let n = More-IsSettled s t m closed up in
    n.clients ∙ nothing s.server.manager.clients n.added (omega (arith, n.count, none_late))
  where
    nothing : (cs added : List ClientConnection) → length added ≡ 0 → cs ++ added ≡ cs
    nothing cs [] e = append-nil cs
    nothing cs (c ∷ added) e = absurd (omega (arith, e))
