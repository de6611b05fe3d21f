-- ===== src/Client/Faults.antt =====
-- src/client/client.cpp, run, and src/client/network_manager.cpp: which exceptions leave a run.
use distributed_integration.Base.{
  ◌≢◌, refl, String, true, List, Outcome, ok, throw, undefined, Bool-cases, Option-cases, inl, inr,
  ◌>>=◌, ◌==◌, length,
}
use distributed_integration.Messages.{
  Task, Result, ResultBatch, HandshakeRequest, HandshakeResponse,
}
use distributed_integration.Methods.Simpson.Faults.{IsRuntime, bind-IsRuntime}
use distributed_integration.Client.{
  Client, Link, Ending, finished, no_tasks, exchange, rethrow, connect, perform_handshake,
  accepted_response, receive_tasks, send_results, receive_command, answer, work, finish,
  after_handshake, after_connect, run,
}

rethrow-IsRuntime {ℓ} :
    {A : Type ℓ} (prefix : String) (o : Outcome A) → o ≢ undefined → IsRuntime (rethrow prefix o)
unfolding rethrow
rethrow-IsRuntime prefix (ok a) h = tt
rethrow-IsRuntime prefix (throw e) h = tt
rethrow-IsRuntime prefix undefined h = absurd (h refl)

exchange-IsRuntime {ℓ} :
    {A : Type ℓ} (c : Client) (prefix : String) (o : Outcome A)
    → o ≢ undefined
    → IsRuntime (exchange c prefix o)
unfolding exchange
exchange-IsRuntime c prefix o h = elim (Bool-cases c.connected) [
  | inl up ↦ rw up (rethrow-IsRuntime prefix o h)
  | inr down ↦ rw down tt
]

bind-defined {ℓ κ} :
    {A : Type ℓ} {B : Type κ} (call : Outcome A) (next : A → Outcome B)
    → call ≢ undefined
    → ((a : A) → next a ≢ undefined)
    → (call >>= next) ≢ undefined
bind-defined (ok a) next h k = k a
bind-defined (throw e) next h k = λ z. cc
bind-defined undefined next h k = absurd (h refl)

accepted-defined : (r : HandshakeResponse) → accepted_response r ≢ undefined
unfolding accepted_response
accepted-defined r = elim (Bool-cases r.accepted) [
  | inl yes_sent ↦ rw yes_sent (λ e. cc)
  | inr no_sent ↦ rw no_sent (λ e. cc)
]

module _ {D : Type 0} where
  -- No call on the link has undefined behaviour.
  pub record IsDefinedLink (link : Link D) : Type 0 where
    pub request_defined : (q : HandshakeRequest) → link.send_request q ≢ undefined
    pub response_defined : link.response ≢ undefined
    pub tasks_defined : link.tasks ≢ undefined
    pub batch_defined : (out : ResultBatch D) → link.send_batch out ≢ undefined
    pub command_defined : link.command ≢ undefined

  module _ (link : Link D) (execute : List (Task D) → List (Result D)) (elapsed : D)
      (defined : IsDefinedLink link) where
    answer-IsRuntime :
        (c : Client) (results : List (Result D)) → IsRuntime (answer link c elapsed results)
    unfolding answer send_results receive_command
    answer-IsRuntime c results =
        bind-IsRuntime _ _
          (exchange-IsRuntime c "Failed to send results: " _ (defined.batch_defined _))
          (λ _.
            bind-IsRuntime _ _
              (exchange-IsRuntime c "Failed to receive command: " _ defined.command_defined)
              (λ last. tt))

    work-IsRuntime : (c : Client) → IsRuntime (work link execute elapsed c)
    unfolding work receive_tasks
    work-IsRuntime c =
        bind-IsRuntime _ _
          (exchange-IsRuntime c "Failed to receive tasks: " _ defined.tasks_defined)
          (λ batch. elim (Bool-cases (length batch.tasks == 0)) [
            | inl idle ↦ rw idle tt
            | inr busy ↦ rw busy (answer-IsRuntime c (execute batch.tasks))
          ])

    finish-IsRuntime :
        (c : Client) (o : Outcome (Ending D)) → IsRuntime o → IsRuntime (finish c o).1
    unfolding finish
    finish-IsRuntime c (ok (finished out last)) h = tt
    finish-IsRuntime c (ok no_tasks) h = tt
    finish-IsRuntime c (throw e) h = h
    finish-IsRuntime c undefined h = h

    after_handshake-IsRuntime :
        (c : Client) (o : Outcome HandshakeResponse)
        → IsRuntime o
        → IsRuntime (after_handshake link execute elapsed c o).1
    unfolding after_handshake
    after_handshake-IsRuntime c (ok r) h =
        let known = record c { client_id = r.assigned_client_id } in
        finish-IsRuntime known _ (work-IsRuntime known)
    after_handshake-IsRuntime c (throw e) h = h
    after_handshake-IsRuntime c undefined h = h

    connected-IsRuntime : (c : Client) → IsRuntime (after_connect link execute elapsed (c, ok tt)).1
    unfolding after_connect perform_handshake
    connected-IsRuntime c = after_handshake-IsRuntime c _ (
        exchange-IsRuntime c "Handshake failed: " _ (
          bind-defined _ _ (defined.request_defined _)
            (λ _. bind-defined _ _ defined.response_defined accepted-defined)))

    -- If no call on the link has undefined behaviour, then a run has none either, and every
    -- exception that leaves it is a `std::runtime_error`, whatever the exception of the call was.
    pub run-IsRuntime : (c : Client) → IsRuntime (run link execute elapsed c).1
    unfolding run connect after_connect
    run-IsRuntime c = elim (Bool-cases c.connected) [
      | inl up ↦ rw up (connected-IsRuntime (record c { connected = true }))
      | inr down ↦ elim (Option-cases link.connection) [
        | inl there ↦ rw (down, there) (connected-IsRuntime (record c { connected = true }))
        | inr (why, gone) ↦ rw (down, gone) tt
      ]
    ]
