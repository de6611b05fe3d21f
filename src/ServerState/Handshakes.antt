-- ===== src/ServerState/Handshakes.antt =====
-- src/server/server.cpp, handle_client_connection: identifiers are fresh, and what a client is
-- told.
use distributed_integration.Base.{
  ℕ, zero, suc, map, All, ap, ◌∙◌, Option, ◌+◌, ◌≤◌, ◌^◌, ◌<◌, ◌≡◌, refl, true, false, some, List,
  [], ◌∷◌, foldl, arith, length, Bool-cases, Option-cases, inl, inr,
}
use distributed_integration.Base.Words.{u64-eq}
use mathlib.Core.Path.{ap₂}
use distributed_integration.Messages.{HandshakeRequest, HandshakeResponse}
use distributed_integration.ClientManager.{ClientManager, add_client, new_connection}
use distributed_integration.ClientManager.Registry.{
  IsRegistry, add_client-IsRegistry, skip-IsRegistry,
}
use distributed_integration.ServerState.{Server, Attempt, response_to, handle_client_connection}

abbrev pub IsRegistered : Server → Type 0
IsRegistered s = IsRegistry s.next_id s.manager

-- A connection attempt, whatever comes of it, keeps the identifiers of the clients distinct and
-- below the counter, as long as the counter does not wrap around.
pub handle_client_connection-IsRegistered :
    (s : Server) (a : Attempt)
    → s.next_id + 1 < 2 ^ 64
    → IsRegistered s
    → IsRegistered (handle_client_connection s a).0
      × ((handle_client_connection s a).0.next_id ≤ s.next_id + 1)
unfolding handle_client_connection
handle_client_connection-IsRegistered s a fits r = elim (Option-cases a.request) [
  | inl nothing ↦ rw (nothing, handle_client_connection) (r, omega arith)
  | inr (request, got) ↦
      let next = u64-eq (s.next_id + 1) fits in
      elim (Bool-cases a.reachable) [
        | inl there ↦
            rw (got, there, handle_client_connection)
              (rw next (
                add_client-IsRegistry s.next_id s.manager
                    (new_connection s.next_id request.system_info) r refl,
                omega arith,
              ))
        | inr away ↦
            rw (got, away, handle_client_connection)
              (rw next (skip-IsRegistry s.next_id s.manager r, omega arith))
      ]
]

late_handshake :
    (s : Server) (a : Attempt) (request : HandshakeRequest)
    → s.manager.accepting ≡ false
    → a.request ≡ some request
    → a.reachable ≡ true
    → s.next_id + 1 < 2 ^ 64
    → let (s', answer) = handle_client_connection s a in
      (answer ≡ some (response_to s.next_id))
      × (s'.manager ≡ s.manager)
      × (s'.next_id ≡ s.next_id + 1)
unfolding handle_client_connection add_client
late_handshake s a request closed got there fits =
    rw (got, there, handle_client_connection) (refl, rw closed, u64-eq (s.next_id + 1) fits)

pub attempts-IsRegistered :
    (attempts : List Attempt) (s : Server)
    → s.next_id + length attempts < 2 ^ 64
    → IsRegistered s
    → IsRegistered (foldl (λ t a. (handle_client_connection t a).0) s attempts)
attempts-IsRegistered [] s fits r = r
attempts-IsRegistered (a ∷ rest) s fits r =
    let (r', up) = handle_client_connection-IsRegistered s a (omega arith) r in
    attempts-IsRegistered rest (handle_client_connection s a).0 (omega arith) r'

-- Connection attempts one after another, with what each client is told.
abbrev pub handshakes : Server → List Attempt → Server × List (Option HandshakeResponse)
handshakes s [] = (s, [])
handshakes s (a ∷ attempts) =
    let (s', answer) = handle_client_connection s a in
    let (s'', answers) = handshakes s' attempts in (s'', answer ∷ answers)

-- The numbers from `n` on.
abbrev pub count_up : (n count : ℕ) → List ℕ
count_up n zero = []
count_up n (suc count) = n ∷ count_up (n + 1) count

-- The request arrives, and the response can be sent.
abbrev pub GetsThrough : Attempt → Type 0
GetsThrough a = ((request : HandshakeRequest) × (a.request ≡ some request)) × (a.reachable ≡ true)

-- Once the manager has stopped accepting, any number of further clients that get through, one after
-- another, are all told that they are accepted, with identifiers that count up from the counter of
-- the server and leave it behind the last one, and none of them is registered. The counter does not
-- wrap around.
pub late_clients :
    (attempts : List Attempt) (s : Server)
    → s.manager.accepting ≡ false
    → All GetsThrough attempts
    → s.next_id + length attempts < 2 ^ 64
    → let (s', answers) = handshakes s attempts in
      (answers ≡ map (λ id. some (response_to id)) (count_up s.next_id (length attempts)))
      × (s'.manager ≡ s.manager)
      × (s'.next_id ≡ s.next_id + length attempts)
late_clients [] s closed through fits = (refl, refl, omega arith)
late_clients (a ∷ attempts) s closed (((request, got), there), through) fits =
    let (answer, kept, next) = late_handshake s a request closed got there (omega arith) in
    let s' = (handle_client_connection s a).0 in
    let (answers, rest, last) =
      late_clients attempts s' (ap (λ (m : ClientManager). m.accepting) kept ∙ closed) through
        (omega (arith, next)) in
    (
      ap₂ (λ x xs. x ∷ xs) answer
          (answers
            ∙ ap (λ k. map (λ id. some (response_to id)) (count_up k (length attempts))) next),
      rest ∙ kept,
      omega (arith, last, next),
    )
