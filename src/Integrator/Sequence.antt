-- ===== src/Integrator/Sequence.antt =====
-- src/client/task_executor.cpp, execute_tasks_sequential: runs of it put one after the other.
use distributed_integration.Base.{
  ◌≡◌, refl, sym, ap, ◌∙◌, List, [], ◌∷◌, ◌++◌, length, Outcome, ok, throw, undefined, suc, ◌>>=◌,
}
use mathlib.Core.Path.{subst}
use distributed_integration.Double.{Double}
use distributed_integration.Messages.{Task, Result}
use distributed_integration.Integrator.{Integrator, execute_single_task, execute_tasks_sequential}

-- A chain that ends well has a first call that ends well.
bind_ok {ℓ κ} :
    {R : Type ℓ} {S : Type κ} {y : S} (call : Outcome R) (next : R → Outcome S)
    → (call >>= next) ≡ ok y
    → (x : R) × (call ≡ ok x) × (next x ≡ ok y)
bind_ok undefined next e = cc
bind_ok (throw x) next e = cc
bind_ok (ok x) next e = (x, refl, e)

module _ {D : Type 0} ⦃d : Double D⦄ (g : Integrator D) where
  -- The tasks give the results, one by one.
  abbrev pub Gives : List (Task D) → List (Result D) → Type 0
  Gives ts rs = execute_tasks_sequential g ts ≡ ok rs

  pub Gives-cons :
      (t : Task D) (ts : List (Task D)) (rs : List (Result D))
      → Gives (t ∷ ts) rs
      → (r : Result D) × (qs : List (Result D)) × (execute_single_task g t ≡ ok r)
        × Gives ts qs
        × (r ∷ qs ≡ rs)
  unfolding execute_tasks_sequential
  Gives-cons t ts rs e =
      let (r, one, e₁) = bind_ok (execute_single_task g t) _ e in
      let (qs, others, e₂) = bind_ok (execute_tasks_sequential g ts) (λ qs. ok (r ∷ qs)) e₁ in
      let same : r ∷ qs ≡ rs = cc in (r, qs, one, others, same)

  pub Gives-nil : (rs : List (Result D)) → Gives [] rs → [] ≡ rs
  unfolding execute_tasks_sequential
  Gives-nil rs e = cc

  pub length-Gives :
      (ts : List (Task D)) (rs : List (Result D)) → Gives ts rs → length rs ≡ length ts
  length-Gives [] rs e = ap (λ (l : List (Result D)). length l) (sym (Gives-nil rs e))
  length-Gives (t ∷ ts) rs e =
      let (r, qs, one, others, same) = Gives-cons t ts rs e in
      ap (λ (l : List (Result D)). length l) (sym same) ∙ ap suc (length-Gives ts qs others)

  Gives-one :
      (t : Task D) (ts : List (Task D)) (r : Result D) (qs : List (Result D))
      → execute_single_task g t ≡ ok r
      → Gives ts qs
      → Gives (t ∷ ts) (r ∷ qs)
  unfolding execute_tasks_sequential
  Gives-one t ts r qs one others = rw (one, others)

  pub Gives-append :
      (ts us : List (Task D)) (rs qs : List (Result D))
      → Gives ts rs
      → Gives us qs
      → Gives (ts ++ us) (rs ++ qs)
  Gives-append [] us rs qs e f = subst (λ l. Gives us (l ++ qs)) (Gives-nil rs e) f
  Gives-append (t ∷ ts) us rs qs e f =
      let (r, ps, one, others, same) = Gives-cons t ts rs e in
      subst (λ l. Gives (t ∷ ts ++ us) (l ++ qs)) same
        (Gives-one t (ts ++ us) r (ps ++ qs) one (Gives-append ts us ps qs others f))
