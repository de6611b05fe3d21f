-- ===== src/Collect/Order.antt =====
-- src/server/server.cpp, collect_results: in which orders threads that run one after the other bring
-- their batches.
use mathlib.Core.List.{Permᴰ}
use mathlib.Core.Option
use mathlib.Core.Path.{subst}
use distributed_integration.Base.{
  ℕ, zero, suc, ◌≡◌, ◌≢◌, refl, sym, ap, ◌∙◌, none, some, List, [], ◌∷◌, ◌++◌, map, get_elem?,
  get_elem?-set_self, get_elem?-set_ne, get_elem?-lt, set, inl, inr, Option-cases,
}
use distributed_integration.Double.{Double}
use distributed_integration.Messages.{ResultBatch}
use distributed_integration.ClientManager.{ClientConnection, mark_result_received}
use distributed_integration.Server.{Environment, received}
use distributed_integration.Collect.{Receiver, receiving, ended, Thread}
use distributed_integration.Collect.Owed.{owes, due}

module _ {ℓ} {A : Type ℓ} where
  pub set-set : (xs : List A) (i : ℕ) (a b : A) → set (set xs i a) i b ≡ set xs i b
  set-set [] i a b = refl
  set-set (x ∷ xs) zero a b = refl
  set-set (x ∷ xs) (suc i) a b = ap (λ l. x ∷ l) (set-set xs i a b)

  set_comm : (xs : List A) (i j : ℕ) (a b : A) → i ≢ j → set (set xs i a) j b ≡ set (set xs j b) i a
  set_comm [] i j a b h = refl
  set_comm (x ∷ xs) zero zero a b h = absurd (h refl)
  set_comm (x ∷ xs) zero (suc j) a b h = refl
  set_comm (x ∷ xs) (suc i) zero a b h = refl
  set_comm (x ∷ xs) (suc i) (suc j) a b h =
      ap (λ l. x ∷ l) (set_comm xs i j a b (λ e. h (ap suc e)))

  pub both_nil : (xs ys : List A) → xs ++ ys ≡ [] → (xs ≡ []) × (ys ≡ [])
  both_nil [] ys e = (refl, e)
  both_nil (x ∷ xs) ys e = cc

  pub Permᴰ-nil : {xs ys : List A} → Permᴰ xs ys → ys ≡ [] → xs ≡ []
  Permᴰ-nil Permᴰ.nil e = refl
  Permᴰ-nil (Permᴰ.cons same p) e = cc
  Permᴰ-nil (Permᴰ.swap same other) e = cc
  Permᴰ-nil (Permᴰ.trans p q) e = Permᴰ-nil p (Permᴰ-nil q e)

module _ {D : Type 0} where
  abbrev pub waiting_on : ClientConnection → Thread D
  waiting_on c = record { client = c; at = receiving }

  abbrev pub done_with : ClientConnection → Thread D
  done_with c = record { client = mark_result_received c; at = ended }

module _ {D : Type 0} ⦃d : Double D⦄ (env : Environment D) where
  -- The threads can be run one after the other so that these batches come in this order; the
  -- threads that are left have nothing to bring.
  pub data Order : List (Thread D) → List (ResultBatch D) → Type 0 where
    rest : (ts : List (Thread D)) → due env ts ≡ [] → Order ts []
    pick :
        (ts : List (Thread D)) (i : ℕ) (c : ClientConnection) (batch : ResultBatch D)
        (bs : List (ResultBatch D))
        → get_elem? ts i ≡ some (waiting_on c)
        → env.receive c.client_id ≡ some batch
        → Order (set ts i (done_with c)) bs
        → Order ts (batch ∷ bs)

  distinct :
      (ts : List (Thread D)) (i j : ℕ) (c k : ClientConnection)
      → get_elem? ts i ≡ some (waiting_on c)
      → get_elem? (set ts i (done_with c)) j ≡ some (waiting_on k)
      → i ≢ j
  distinct ts i j c k at there e =
      let done = get_elem?-set_self ts i (done_with c) (get_elem?-lt ts i _ at) in
      let both : done_with c ≡ waiting_on k =
        Option.some-injective _ _ (sym done ∙ ap (get_elem? (set ts i (done_with c))) e ∙ there) in
      let wrong : ◌≡◌ {A = Receiver D} ended receiving = ap (λ (t : Thread D). t.at) both in cc

  Order-swap :
      (ts : List (Thread D)) (a b : ResultBatch D) (l : List (ResultBatch D))
      → Order ts (a ∷ b ∷ l)
      → Order ts (b ∷ a ∷ l)
  Order-swap ts a b l (pick _ i c _ _ at got (pick _ j k _ _ there came order)) =
      let apart = distinct ts i j c k at there in
      pick ts j k b (a ∷ l) (sym (get_elem?-set_ne ts i j (done_with c) apart) ∙ there) came (
        pick (set ts j (done_with k)) i c a l
          (get_elem?-set_ne ts j i (done_with k) (λ e. apart (sym e)) ∙ at) got
          (subst (λ us. Order us l) (set_comm ts i j (done_with c) (done_with k) apart) order))

  pub Order-perm :
      {xs ys : List (ResultBatch D)}
      → Permᴰ xs ys
      → (ts : List (Thread D)) → Order ts xs
      → Order ts ys
  Order-perm Permᴰ.nil ts order = order
  Order-perm (Permᴰ.cons {l₂ = l₂} e p) ts (pick _ i c batch bs at got order) =
      subst (λ b. Order ts (b ∷ l₂)) e
        (pick ts i c batch l₂ at got (Order-perm p (set ts i (done_with c)) order))
  Order-perm (Permᴰ.swap {a} {b} {b' = b'} {l} e f) ts order =
      subst (λ x. Order ts (x ∷ b' ∷ l)) f
        (subst (λ x. Order ts (b ∷ x ∷ l)) e (Order-swap ts a b l order))
  Order-perm (Permᴰ.trans p q) ts order = Order-perm q ts (Order-perm p ts order)

  -- A thread in front that brings nothing.
  Order-shift :
      (t : Thread D) (ts : List (Thread D)) (bs : List (ResultBatch D))
      → owes env t.client t.at ≡ []
      → Order ts bs
      → Order (t ∷ ts) bs
  Order-shift t ts [] none_due (rest _ none_left) =
      rest (t ∷ ts) (ap (λ l. l ++ due env ts) none_due ∙ none_left)
  Order-shift t ts (b ∷ bs) none_due (pick _ i c _ _ at got order) =
      pick (t ∷ ts) (suc i) c b bs at got (Order-shift t (set ts i (done_with c)) bs none_due order)

  -- The order of the clients.
  pub Order-received : (cs : List ClientConnection) → Order (map waiting_on cs) (received env cs)
  unfolding received
  Order-received [] = rest [] refl
  Order-received (c ∷ cs) = elim (Option-cases (env.receive c.client_id)) [
    | inl none_sent ↦
        rw (none_sent, received)
          (Order-shift (waiting_on c) (map waiting_on cs) (received env cs)
            (ap (λ o. elim o [ none ↦ [] | some batch ↦ batch ∷ [] ]) none_sent)
            (Order-received cs))
    | inr (batch, got) ↦
        rw (got, received)
          (pick (map waiting_on (c ∷ cs)) 0 c batch (received env cs) refl got (
            Order-shift (done_with c) (map waiting_on cs) (received env cs) refl
              (Order-received cs)))
  ]
