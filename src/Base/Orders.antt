-- ===== src/Base/Orders.antt =====
-- Reorderings of lists as functions: whatever a permutation does to one list, some function that
-- only reorders lists does.
use mathlib.Core.List.{Permᴰ}
use mathlib.Core.List.Permᴰ
use distributed_integration.Base.{◌≡◌, refl, sym, ap, ◌∙◌, List, [], ◌∷◌, ◌++◌}

module _ {ℓ} {A : Type ℓ} where
  -- A function on lists that only reorders them.
  abbrev pub IsSchedule : (List A → List A) → Type ℓ
  IsSchedule f = (l : List A) → Permᴰ (f l) l

  swap_two : List A → List A
  swap_two [] = []
  swap_two (a ∷ []) = a ∷ []
  swap_two (a ∷ b ∷ l) = b ∷ a ∷ l

  swap_two-IsSchedule : IsSchedule swap_two
  unfolding swap_two
  swap_two-IsSchedule [] = Permᴰ.nil
  swap_two-IsSchedule (a ∷ []) = Permᴰ.refl (a ∷ [])
  swap_two-IsSchedule (a ∷ b ∷ l) = Permᴰ.swap refl refl

  keep_one : (List A → List A) → List A → List A
  keep_one f [] = []
  keep_one f (a ∷ l) = a ∷ f l

  keep_one-IsSchedule : (f : List A → List A) → IsSchedule f → IsSchedule (keep_one f)
  unfolding keep_one
  keep_one-IsSchedule f h [] = Permᴰ.nil
  keep_one-IsSchedule f h (a ∷ l) = Permᴰ.cons refl (h l)

  -- A function that reorders `xs` as the permutation does.
  pub perm-IsSchedule :
      {xs ys : List A} → Permᴰ ys xs → (f : List A → List A) × IsSchedule f × (f xs ≡ ys)
  unfolding swap_two keep_one
  perm-IsSchedule Permᴰ.nil = (λ l. l, Permᴰ.refl, refl)
  perm-IsSchedule (Permᴰ.cons {a} {b} {l₁} {l₂} e p) =
      let (f, h, same) = perm-IsSchedule p in
      (keep_one f, keep_one-IsSchedule f h, ap (λ l. b ∷ l) same ∙ ap (λ c. c ∷ l₁) (sym e))
  perm-IsSchedule (Permᴰ.swap {a} {b} {a'} {b'} {l} e f) =
      (swap_two, swap_two-IsSchedule, ap (λ c. b' ∷ c ∷ l) (sym f) ∙ ap (λ c. c ∷ b ∷ l) (sym e))
  perm-IsSchedule (Permᴰ.trans p q) =
      let (f, hf, same_f) = perm-IsSchedule p in
      let (g, hg, same_g) = perm-IsSchedule q in
      (λ l. f (g l), λ l. Permᴰ.trans (hf (g l)) (hg l), ap f same_g ∙ same_f)

  -- A list in front can change places with the list behind it.
  pub append-swap : (xs ys zs : List A) → Permᴰ (xs ++ (ys ++ zs)) (ys ++ (xs ++ zs))
  append-swap [] ys zs = Permᴰ.refl (ys ++ zs)
  append-swap (x ∷ xs) ys zs =
      Permᴰ.trans (Permᴰ.cons refl (append-swap xs ys zs))
        (Permᴰ.symm (Permᴰ.middle x ys (xs ++ zs)))
