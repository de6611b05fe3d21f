-- ===== src/Accept/Alone.antt =====
-- src/server/server.cpp, handle_client_connection: a thread that no other comes between.
use distributed_integration.Base.{
  ℕ, zero, suc, ◌≡◌, refl, Bool-cases, Option-cases, inl, inr, arith,
}
use distributed_integration.ServerState.{Server, Attempt, handle_client_connection}
use distributed_integration.ClientManager.{add_client}
use distributed_integration.Accept.{Handler, receiving, ended, handler_step}

-- So many steps of one thread after one another.
unfoldable pub alone : ℕ → Server × Handler → Server × Handler
unfolding handler_step
alone zero (s, h) = (s, h)
alone (suc n) (s, h) = alone n (handler_step s h)

-- The five steps of a thread, with no step of another thread between them, come to its end, and do
-- to the server what the whole of `handle_client_connection` does: read the request, take an
-- identifier, send the response and add the client, or leave at the first of these that fails.
pub alone-handle_client_connection :
    (s : Server) (a : Attempt)
    → alone 5 (s, receiving a) ≡ ((handle_client_connection s a).0, ended)
unfolding alone handle_client_connection add_client
alone-handle_client_connection s a = elim (Option-cases a.request) [
  | inl nothing ↦ rw (nothing, handle_client_connection) refl
  | inr (request, got) ↦ elim (Bool-cases a.reachable) [
    | inr away ↦ rw (got, away, handle_client_connection) refl
    | inl there ↦ elim (Bool-cases s.manager.accepting) [
      | inl open_still ↦ ground (arith, got, there, open_still)
      | inr closed ↦ ground (arith, got, there, closed)
    ]
  ]
]
