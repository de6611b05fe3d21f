-- ===== src/Accept/Held.antt =====
-- src/server/server.cpp, handle_client_connection in its threads: where an identifier is, and what
-- a step does with it.
use distributed_integration.Base.{
  ℕ, ◌+◌, ◌≤◌, ◌<◌, ◌^◌, ◌≡◌, refl, true, false, List, [], ◌∷◌, ◌++◌, ◌⊎◌, arith, ◌==◌,
  if◌then◌else◌, Bool-cases, Option-cases, inl, inr,
}
use distributed_integration.Base.Words.{u64-eq}
use distributed_integration.ClientManager.{ClientConnection, new_connection}
use distributed_integration.ServerState.{Server}
use distributed_integration.Accept.{
  Handler, receiving, numbering, replying, adding, locking, ended, read_request, handler_step,
}

-- Whether the numbers agree, as 0 or 1
abbrev pub hit : ℕ → ℕ → ℕ
hit a b = if a == b then 1 else 0

-- How often a thread holds the identifier for a client that is not registered yet.
abbrev pub holds : ℕ → Handler → ℕ
holds id (receiving a) = 0
holds id (numbering q r) = 0
holds id (replying k q r) = hit k id
holds id (adding k info) = hit k id
holds id (locking k info) = hit k id
holds id ended = 0

-- How many clients have it.
abbrev pub registered : ℕ → List ClientConnection → ℕ
registered id [] = 0
registered id (c ∷ cs) = hit c.client_id id + registered id cs

-- Whether a thread has still to take an identifier, and whether it does so next.
abbrev pub untaken : Handler → ℕ
untaken (receiving a) = 1
untaken (numbering q r) = 1
untaken (replying k q r) = 0
untaken (adding k info) = 0
untaken (locking k info) = 0
untaken ended = 0

abbrev pub taking : Handler → ℕ
taking (numbering q r) = 1
taking (receiving a) = 0
taking (replying k q r) = 0
taking (adding k info) = 0
taking (locking k info) = 0
taking ended = 0

abbrev pub gain : ℕ → Server → Handler → ℕ
gain id s (numbering q r) = hit s.next_id id
gain id s (receiving a) = 0
gain id s (replying k q r) = 0
gain id s (adding k info) = 0
gain id s (locking k info) = 0
gain id s ended = 0

pub registered-append :
    (id : ℕ) (xs ys : List ClientConnection)
    → registered id (xs ++ ys) ≡ registered id xs + registered id ys
registered-append id [] ys = omega arith
registered-append id (x ∷ xs) ys = omega (arith, registered-append id xs ys)

-- A step passes an identifier on, loses it, or takes it from the counter.
pub step_holds :
    (id : ℕ) (s : Server) (h : Handler)
    → holds id (handler_step s h).1 + registered id (handler_step s h).0.manager.clients
      ≤ holds id h + registered id s.manager.clients + gain id s h
unfolding handler_step read_request
step_holds id s (receiving a) = elim (Option-cases a.request) [
  | inl gone ↦ rw (gone, read_request) (omega arith)
  | inr (request, got) ↦ rw (got, read_request) (omega arith)
]
step_holds id s (numbering q r) = omega arith
step_holds id s (replying k q true) = omega arith
step_holds id s (replying k q false) = omega arith
step_holds id s (adding k info) = elim (Bool-cases s.manager.accepting) [
  | inl going_on ↦ rw going_on (omega arith)
  | inr closed ↦ rw closed (omega arith)
]
step_holds id s (locking k info) =
    omega (arith, registered-append id s.manager.clients (new_connection k info ∷ []))
step_holds id s ended = omega arith

pub step_next_id :
    (s : Server) (h : Handler)
    → s.next_id + 1 < 2 ^ 64
    → (handler_step s h).0.next_id ≡ s.next_id + taking h
unfolding handler_step
step_next_id s (receiving a) fits = omega arith
step_next_id s (numbering q r) fits = u64-eq (s.next_id + 1) fits
step_next_id s (replying k q r) fits = omega arith
step_next_id s (adding k info) fits = omega arith
step_next_id s (locking k info) fits = omega arith
step_next_id s ended fits = omega arith

pub step_untaken : (s : Server) (h : Handler) → untaken (handler_step s h).1 + taking h ≤ untaken h
unfolding handler_step read_request
step_untaken s (receiving a) = elim (Option-cases a.request) [
  | inl gone ↦ rw (gone, read_request) (omega arith)
  | inr (request, got) ↦ rw (got, read_request) (omega arith)
]
step_untaken s (numbering q r) = omega arith
step_untaken s (replying k q true) = omega arith
step_untaken s (replying k q false) = omega arith
step_untaken s (adding k info) = elim (Bool-cases s.manager.accepting) [
  | inl going_on ↦ rw going_on (omega arith)
  | inr closed ↦ rw closed (omega arith)
]
step_untaken s (locking k info) = omega arith
step_untaken s ended = omega arith

-- Only the identifier of the counter is taken, and once.
pub gain_once :
    (id : ℕ) (s : Server) (h : Handler)
    → (gain id s h ≡ 0) ⊎ ((gain id s h ≡ 1) × (s.next_id ≡ id) × (taking h ≡ 1))
gain_once id s (receiving a) = inl refl
gain_once id s (numbering q r) = elim (Bool-cases (s.next_id == id)) [
  | inl same ↦ inr (rw same refl, ground (arith, same), refl)
  | inr other ↦ inl (rw other refl)
]
gain_once id s (replying k q r) = inl refl
gain_once id s (adding k info) = inl refl
gain_once id s (locking k info) = inl refl
gain_once id s ended = inl refl
