-- ===== src/Aggregator/Order.antt =====
-- src/server/result_aggregator.cpp: in exact arithmetic the order in which the batches arrive does
-- not matter.
use mathlib.Core.List.{Permᴰ}
use distributed_integration.Base.{
  ◌≡◌, refl, sym, ap, ◌∙◌, List, [], ◌∷◌, ◌++◌, length, length-append, arith, Bool-cases, inl, inr,
}
use distributed_integration.Double.{Double, IsExact}
use distributed_integration.Messages.{Result, ResultBatch}
use distributed_integration.Aggregator.Counts.{results_of, sum_from, sum_from-append}

module _ {D : Type 0} where
  -- Two orders of the same batches have equally many results.
  pub length-perm :
      {xs ys : List (ResultBatch D)} → Permᴰ xs ys → length (results_of xs) ≡ length (results_of ys)
  length-perm Permᴰ.nil = refl
  length-perm (Permᴰ.cons {a} {b} {l₁} {l₂} e p) = omega (
    arith,
    length-append a.results (results_of l₁),
    length-append b.results (results_of l₂),
    length-perm p,
    ap (λ (c : ResultBatch D). length c.results) e,
  )
  length-perm (Permᴰ.swap {a} {b} {a'} {b'} {l} e f) = omega (
    arith,
    length-append a.results (b.results ++ results_of l),
    length-append b.results (results_of l),
    length-append a'.results (b'.results ++ results_of l),
    length-append b'.results (results_of l),
    ap (λ (c : ResultBatch D). length c.results) e,
    ap (λ (c : ResultBatch D). length c.results) f,
  )
  length-perm (Permᴰ.trans p q) = length-perm p ∙ length-perm q

module _ {D : Type 0} ⦃d : Double D⦄ (exact : IsExact D) where
  open d use {nought, add}
  open exact use {add_comm, add_assoc, nought_add}

  right_comm : (a b c : D) → add (add a b) c ≡ add (add a c) b
  right_comm a b c = add_assoc a b c ∙ ap (add a) (add_comm b c) ∙ sym (add_assoc a c b)

  -- A start value can be added at the end.
  sum_from-add :
      (acc v : D) (rs : List (Result D)) → sum_from (add acc v) rs ≡ add (sum_from acc rs) v
  sum_from-add acc v [] = refl
  sum_from-add acc v (r ∷ rs) = elim (Bool-cases r.success) [
    | inl good ↦ rw good (
        ap (λ (a : D). sum_from a rs) (right_comm acc v r.value)
        ∙ sum_from-add (add acc r.value) v rs)
    | inr bad ↦ rw bad (sum_from-add acc v rs)
  ]

  sum_from-swap :
      (acc : D) (xs ys : List (Result D))
      → sum_from (sum_from acc xs) ys ≡ sum_from (sum_from acc ys) xs
  sum_from-swap acc [] ys = refl
  sum_from-swap acc (x ∷ xs) ys = elim (Bool-cases x.success) [
    | inl good ↦ rw good (
        sum_from-swap (add acc x.value) xs ys
        ∙ ap (λ (a : D). sum_from a xs) (sum_from-add acc x.value ys))
    | inr bad ↦ rw bad (sum_from-swap acc xs ys)
  ]

  two :
      (acc : D) (a b : ResultBatch D) (l : List (ResultBatch D))
      → sum_from acc (results_of (a ∷ b ∷ l))
        ≡ sum_from (sum_from (sum_from acc a.results) b.results) (results_of l)
  two acc a b l =
      sum_from-append acc a.results (b.results ++ results_of l)
      ∙ sum_from-append (sum_from acc a.results) b.results (results_of l)

  pub sum_from-perm :
      {xs ys : List (ResultBatch D)}
      → Permᴰ xs ys
      → (acc : D) → sum_from acc (results_of xs) ≡ sum_from acc (results_of ys)
  sum_from-perm Permᴰ.nil acc = refl
  sum_from-perm (Permᴰ.cons {a} {b} {l₁} {l₂} e p) acc =
      sum_from-append acc a.results (results_of l₁)
      ∙ ap (λ (c : ResultBatch D). sum_from (sum_from acc c.results) (results_of l₁)) e
      ∙ sum_from-perm p (sum_from acc b.results)
      ∙ sym (sum_from-append acc b.results (results_of l₂))
  sum_from-perm (Permᴰ.swap {a} {b} {a'} {b'} {l} e f) acc =
      two acc a b l
      ∙ ap (λ (v : D). sum_from v (results_of l)) (sum_from-swap acc a.results b.results)
      ∙ ap
          (λ (c : ResultBatch D).
            sum_from (sum_from (sum_from acc c.results) a.results) (results_of l))
          f
      ∙ ap
          (λ (c : ResultBatch D).
            sum_from (sum_from (sum_from acc a'.results) c.results) (results_of l))
          e
      ∙ sym (two acc a' b' l)
  sum_from-perm (Permᴰ.trans p q) acc = sum_from-perm p acc ∙ sum_from-perm q acc
