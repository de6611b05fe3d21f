-- ===== src/InputHandler/Lines.antt =====
-- src/server/input_handler.cpp, the treatment of a line: what does not matter in it.
use distributed_integration.Base.{
  ℕ, ◌≡◌, refl, ap, true, List, [], ◌∷◌, ◌++◌, map, arith, Bool-cases, inl, inr,
}
use distributed_integration.InputHandler.{
  is_space, to_upper, remove_spaces, normalize, same_bytes, is_start, codes,
}

remove_spaces-append :
    (xs ys : List ℕ) → remove_spaces (xs ++ ys) ≡ remove_spaces xs ++ remove_spaces ys
unfolding remove_spaces
remove_spaces-append [] ys = refl
remove_spaces-append (x ∷ xs) ys = elim (Bool-cases (is_space x)) [
  | inl blank ↦ rw (blank, remove_spaces-append xs ys)
  | inr other ↦ rw (other, remove_spaces-append xs ys)
]

space-to_upper : (c : ℕ) → is_space (to_upper c) ≡ is_space c
unfolding is_space to_upper
space-to_upper c = ground arith

to_upper_idem : (c : ℕ) → to_upper (to_upper c) ≡ to_upper c
unfolding to_upper
to_upper_idem c = ground arith

normalize-upper : (line : List ℕ) → normalize (map to_upper line) ≡ normalize line
unfolding normalize remove_spaces
normalize-upper [] = refl
normalize-upper (c ∷ line) = elim (Bool-cases (is_space c)) [
  | inl blank ↦ rw (space-to_upper c, blank) (normalize-upper line)
  | inr other ↦ rw (space-to_upper c, other) (cc (to_upper_idem c, normalize-upper line))
]

blank_out :
    (xs ys : List ℕ) (c : ℕ)
    → is_space c ≡ true
    → remove_spaces (xs ++ c ∷ ys) ≡ remove_spaces (xs ++ ys)
unfolding remove_spaces
blank_out [] ys c blank = rw blank
blank_out (x ∷ xs) ys c blank = rw (blank_out xs ys c blank)

-- Case and blanks do not matter: a line is START exactly if it is with its letters in upper case,
-- and exactly if it is with any blank taken out.
pub is_start_blind :
    (xs ys : List ℕ) (c : ℕ)
    → is_space c ≡ true
    → (is_start (map to_upper xs) ≡ is_start xs) × (is_start (xs ++ c ∷ ys) ≡ is_start (xs ++ ys))
unfolding is_start normalize
is_start_blind xs ys c blank = (
  ap (λ l. same_bytes l (codes "START")) (normalize-upper xs),
  ap (λ l. same_bytes (map to_upper l) (codes "START")) (blank_out xs ys c blank),
)
