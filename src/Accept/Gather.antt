-- ===== src/Accept/Gather.antt =====
-- src/server/server.cpp: the handshakes one after the other, as Server has them, are a schedule of the threads.
use mathlib.Core.Path.{subst}
use mathlib.Core.List.{append-nil}
use distributed_integration.Base.{
  ℕ, zero, suc, ◌≡◌, refl, ap, ◌∙◌, true, some, List, [], ◌∷◌, ◌++◌, foldl, length, get_elem?, set,
  arith,
}
use distributed_integration.Double.{Double}
use distributed_integration.Server.{Environment, gather}
use distributed_integration.ServerState.{Server, Attempt, handle_client_connection}
use distributed_integration.ClientManager.{add_client}
use distributed_integration.Accept.{
  Acceptor, check_running, check_accepting, in_accept, recheck_running, recheck_accepting, spawning,
  spawned, Arrival, connection, failed, accept_step, arrived, Handler, receiving, ended,
  handler_step, Acceptance, listening, accepts, handles, More, here, next,
}
use distributed_integration.Accept.Alone.{alone, alone-handle_client_connection}
use distributed_integration.Accept.Counting.{total, total-append}
use distributed_integration.Accept.Closing.{late}

get_elem?-last : (hs : List Handler) (h : Handler) → get_elem? (hs ++ h ∷ []) (length hs) ≡ some h
get_elem?-last [] h = refl
get_elem?-last (x ∷ hs) h = get_elem?-last hs h

set-last : (hs : List Handler) (h h' : Handler) → set (hs ++ h ∷ []) (length hs) h' ≡ hs ++ h' ∷ []
set-last [] h h' = refl
set-last (x ∷ hs) h h' = ap (λ l. x ∷ l) (set-last hs h h')

abbrev at : Server → Acceptor → List Handler → Acceptance
at s a hs = record { server = s; acceptor = a; handlers = hs }

module _ {x : Acceptance} where
  -- A step of the accept thread that starts no thread.
  go_on :
      (s : Server) (a b : Acceptor) (hs : List Handler) (r : Arrival)
      → spawned a ≡ []
      → accept_step s r a ≡ b
      → More x (at s a hs)
      → More x (at s b hs)
  go_on s a b hs r quiet e m =
      subst (λ l. More x (at s b l)) (ap (λ l. hs ++ l) quiet ∙ append-nil hs)
        (subst (λ c. More x (at s c (hs ++ spawned a))) e (next m (accepts r)))

  comes :
      (s : Server) (a : Attempt) (hs : List Handler)
      → s.running ≡ true
      → s.manager.accepting ≡ true
      → More x (at s check_running hs)
      → More x (at s check_running (hs ++ receiving a ∷ []))
  unfolding accept_step spawned arrived
  comes s a hs up open_still m =
      next
        (go_on s (recheck_accepting a) (spawning a) hs failed refl (rw open_still refl) (
          go_on s (recheck_running a) (recheck_accepting a) hs failed refl (rw up refl) (
            go_on s in_accept (recheck_running a) hs (connection a) refl refl (
              go_on s check_accepting in_accept hs failed refl (rw open_still refl)
                (go_on s check_running check_accepting hs failed refl (rw up refl) m)))))
        (accepts failed)

  runs :
      (n : ℕ) (s : Server) (h : Handler) (hs : List Handler) (a : Acceptor)
      → More x (at s a (hs ++ h ∷ []))
      → More x (at (alone n (s, h)).0 a (hs ++ (alone n (s, h)).1 ∷ []))
  unfolding alone
  runs zero s h hs a m = m
  runs (suc n) s h hs a m = runs n (handler_step s h).0 (handler_step s h).1 hs a (
      subst (λ l. More x (at (handler_step s h).0 a l)) (set-last hs h (handler_step s h).1)
        (next m (handles (length hs) h (get_elem?-last hs h))))

  joins :
      (s : Server) (a : Attempt) (hs : List Handler)
      → s.running ≡ true
      → s.manager.accepting ≡ true
      → More x (at s check_running hs)
      → More x (at (handle_client_connection s a).0 check_running (hs ++ ended ∷ []))
  joins s a hs up open_still m =
      subst (λ p. More x (at p.0 check_running (hs ++ p.1 ∷ [])))
        (alone-handle_client_connection s a)
        (runs 5 s (receiving a) hs check_running (comes s a hs up open_still m))

handle-running :
    (s : Server) (a : Attempt)
    → ((handle_client_connection s a).0.running ≡ s.running)
      × ((handle_client_connection s a).0.manager.accepting ≡ s.manager.accepting)
unfolding handle_client_connection add_client
handle-running s a = (ground arith, ground arith)

gathers :
    (attempts : List Attempt) (s : Server) (hs : List Handler)
    → s.running ≡ true
    → s.manager.accepting ≡ true
    → total late hs ≡ 0
    → More listening (at s check_running hs)
    → (t : Acceptance) × More listening t
      × (t.server ≡ foldl (λ u a. (handle_client_connection u a).0) s attempts)
      × (total late t.handlers ≡ 0)
gathers [] s hs up open_still none_late m = (at s check_running hs, m, refl, none_late)
gathers (a ∷ attempts) s hs up open_still none_late m =
    let (same_running, same_accepting) = handle-running s a in
    gathers attempts (handle_client_connection s a).0 (hs ++ ended ∷ []) (same_running ∙ up)
      (same_accepting ∙ open_still) (omega (arith, total-append late hs (ended ∷ []), none_late))
      (joins s a hs up open_still m)

module _ {D : Type 0} ⦃d : Double D⦄ where
  -- Whatever connections are tried before START, the threads of a server that listens have a schedule that leads
  -- to the state that the handshakes lead to when they are made one after the other, in a state in which no
  -- thread stands between the test and the lock of `add_client`.
  pub gather-More :
      (env : Environment D)
      → (t : Acceptance) × More listening t
        × (t.server ≡ gather env listening.server)
        × (total late t.handlers ≡ 0)
  unfolding gather
  gather-More env = gathers env.attempts listening.server [] refl refl refl here
