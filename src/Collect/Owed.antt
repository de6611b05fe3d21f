-- ===== src/Collect/Owed.antt =====
-- src/server/server.cpp, receive_results_from_client: what a thread has still to do, and that a step
-- of it does a part of this.
use mathlib.Core.List.{Permᴰ, append_assoc}
use mathlib.Core.List.Permᴰ
use mathlib.Core.Path.{ap₂, subst}
use distributed_integration.Base.{
  ℕ, zero, suc, ◌≡◌, refl, sym, ap, ◌∙◌, Option, none, some, List, [], ◌∷◌, ◌++◌, map, foldl,
  get_elem?, set, All,
}
use mathlib.Core.Option
use distributed_integration.Double.{Double}
use distributed_integration.Messages.{ResultBatch}
use distributed_integration.ClientManager.{ClientConnection, mark_result_received}
use distributed_integration.Aggregator.{Aggregator, add_result}
use distributed_integration.Server.{Environment, received, mark_received}
use distributed_integration.Base.Orders.{append-swap}
use distributed_integration.Collect.{
  Receiver, receiving, marking, adding, ended, Thread, thread_step, received_by, receiver_step,
  client_step, aggregator_step,
}

module _ {D : Type 0} ⦃d : Double D⦄ where
  -- What a step gives to the aggregator.
  abbrev pub gives : Receiver D → List (ResultBatch D)
  gives receiving = []
  gives (marking batch) = []
  gives (adding batch) = batch ∷ []
  gives ended = []

  -- The batches that the rest of a thread gives to it.
  abbrev pub owes : Environment D → ClientConnection → Receiver D → List (ResultBatch D)
  owes env c receiving = elim (env.receive c.client_id) [ none ↦ [] | some batch ↦ batch ∷ [] ]
  owes env c (marking batch) = batch ∷ []
  owes env c (adding batch) = batch ∷ []
  owes env c ended = []

  -- The client as the rest of the thread leaves it.
  abbrev pub at_end : Environment D → ClientConnection → Receiver D → ClientConnection
  at_end env c receiving = mark_received env c
  at_end env c (marking batch) = mark_result_received c
  at_end env c (adding batch) = c
  at_end env c ended = c

  abbrev pub leaves : Environment D → Thread D → ClientConnection
  leaves env t = at_end env t.client t.at

  abbrev pub due : Environment D → List (Thread D) → List (ResultBatch D)
  due env [] = []
  due env (t ∷ ts) = owes env t.client t.at ++ due env ts

  owes_received :
      (env : Environment D) (c : ClientConnection) (o : Option (ResultBatch D))
      → owes env c (received_by o) ≡ elim o [ none ↦ [] | some batch ↦ batch ∷ [] ]
  unfolding received_by
  owes_received env c none = refl
  owes_received env c (some batch) = refl

  at_end_received :
      (env : Environment D) (c : ClientConnection) (o : Option (ResultBatch D))
      → at_end env c (received_by o) ≡ elim o [ none ↦ c | some batch ↦ mark_result_received c ]
  unfolding received_by
  at_end_received env c none = refl
  at_end_received env c (some batch) = refl

  owes-receiver_step :
      (env : Environment D) (c : ClientConnection) (r : Receiver D)
      → gives r ++ owes env (client_step c r) (receiver_step env c r) ≡ owes env c r
  unfolding receiver_step client_step
  owes-receiver_step env c receiving = owes_received env c (env.receive c.client_id)
  owes-receiver_step env c (marking batch) = refl
  owes-receiver_step env c (adding batch) = refl
  owes-receiver_step env c ended = refl

  -- A step does not change how the thread leaves its client.
  pub leaves-thread_step :
      (env : Environment D) (t : Thread D) → leaves env (thread_step env t) ≡ leaves env t
  unfolding thread_step receiver_step client_step mark_received
  leaves-thread_step env t = at_end_step t.client t.at
    where
      at_end_step :
          (c : ClientConnection) (r : Receiver D)
          → at_end env (client_step c r) (receiver_step env c r) ≡ at_end env c r
      at_end_step c receiving = at_end_received env c (env.receive c.client_id)
      at_end_step c (marking batch) = refl
      at_end_step c (adding batch) = refl
      at_end_step c ended = refl

  -- What a step gives is no longer due.
  pub due-set :
      (env : Environment D) (ts : List (Thread D)) (i : ℕ) (t : Thread D)
      → get_elem? ts i ≡ some t
      → Permᴰ (gives t.at ++ due env (set ts i (thread_step env t))) (due env ts)
  unfolding thread_step
  due-set env [] i t e = absurd (cc)
  due-set env (u ∷ ts) zero t e =
      let same : u ≡ t = Option.some-injective _ _ e in
      let whole = owes-receiver_step env t.client t.at in
      subst (λ (l : List (ResultBatch D)). Permᴰ (gives t.at ++ due env (thread_step env t ∷ ts)) l)
        (sym (append_assoc (gives t.at) _ (due env ts))
          ∙ ap (λ l. l ++ due env ts) whole
          ∙ ap (λ (v : Thread D). due env (v ∷ ts)) (sym same))
        (Permᴰ.refl _)
  due-set env (u ∷ ts) (suc i) t e =
      Permᴰ.trans (append-swap (gives t.at) (owes env u.client u.at) _)
        (Permᴰ.append_left (owes env u.client u.at) (due-set env ts i t e))

  -- What the aggregator gets in a step is what the thread gives.
  pub aggregator_step_lem :
      (a : Aggregator D) (r : Receiver D) → aggregator_step a r ≡ foldl add_result a (gives r)
  unfolding aggregator_step
  aggregator_step_lem a receiving = refl
  aggregator_step_lem a (marking batch) = refl
  aggregator_step_lem a (adding batch) = refl
  aggregator_step_lem a ended = refl

  due_cons :
      (o : Option (ResultBatch D)) {xs ys : List (ResultBatch D)}
      → xs ≡ ys
      → elim o [ none ↦ [] | some batch ↦ batch ∷ [] ] ++ xs
        ≡ elim o [ none ↦ ys | some batch ↦ batch ∷ ys ]
  due_cons none e = e
  due_cons (some batch) e = ap (λ l. batch ∷ l) e

  -- In the beginning all that is received is due.
  pub due_lem :
      (env : Environment D) (cs : List ClientConnection)
      → due env (map (λ c. record { client = c; at = receiving }) cs) ≡ received env cs
  unfolding received
  due_lem env [] = refl
  due_lem env (c ∷ cs) = due_cons (env.receive c.client_id) (due_lem env cs)

  pub leaves_lem :
      (env : Environment D) (cs : List ClientConnection)
      → map (leaves env) (map (λ c. record { client = c; at = receiving }) cs)
        ≡ map (mark_received env) cs
  leaves_lem env [] = refl
  leaves_lem env (c ∷ cs) = ap (λ l. mark_received env c ∷ l) (leaves_lem env cs)

  -- Threads that have ended owe nothing and leave their clients as they are.
  pub due-ended :
      (env : Environment D) (ts : List (Thread D)) → All (λ t. t.at ≡ ended) ts → due env ts ≡ []
  due-ended env [] h = refl
  due-ended env (t ∷ ts) h = ap (λ r. owes env t.client r ++ due env ts) h.0 ∙ due-ended env ts h.1

  pub leaves-ended :
      (env : Environment D) (ts : List (Thread D))
      → All (λ t. t.at ≡ ended) ts
      → map (leaves env) ts ≡ map (λ t. t.client) ts
  leaves-ended env [] h = refl
  leaves-ended env (t ∷ ts) h = ap₂ ◌∷◌ (ap (at_end env t.client) h.0) (leaves-ended env ts h.1)

module _ {ℓ κ} {A : Type ℓ} {B : Type κ} where
  -- A write that a function does not see.
  pub map-set_same :
      (f : A → B) (xs : List A) (i : ℕ) (a b : A)
      → get_elem? xs i ≡ some a
      → f b ≡ f a
      → map f (set xs i b) ≡ map f xs
  map-set_same f [] i a b e h = refl
  map-set_same f (x ∷ xs) zero a b e h =
      ap (λ y. y ∷ map f xs) (h ∙ ap f (sym (Option.some-injective _ _ e)))
  map-set_same f (x ∷ xs) (suc i) a b e h = ap (λ l. f x ∷ l) (map-set_same f xs i a b e h)
