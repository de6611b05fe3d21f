-- ===== src/Serialize/Laws.antt =====
-- src/common/messages.h, the `serialize` members: values that can be read back, and how that passes
-- from the fields to a structure.
use mathlib.Core.List.{append_assoc}
use distributed_integration.Base.{ℕ, ◌<◌, ◌^◌, ◌≡◌, ap, ◌∙◌, String, some, List, ◌++◌, All, length}
use distributed_integration.Serialize.{Serial, Archive, both, read_second, paired, fields, made}

-- Values with the property are read back from the front of any bytes.
pub record IsSerial {ℓ} {A : Type ℓ} (s : Serial A) (P : A → Type 0) : Type ℓ where
  pub round_trip : (a : A) → P a → (rest : List ℕ) → s.read (s.write a ++ rest) ≡ some (a, rest)

-- What the code relies on of cereal: each kind of value can be read back, a text if it is not too
-- long (`IsText`), and a vector if its elements can.
pub record IsLawful {D : Type 0} (ar : Archive D) (IsText : String → Type 0) : Type 1 where
  pub u8_law : IsSerial ar.u8 (λ n. n < 2 ^ 8)
  pub u32_law : IsSerial ar.u32 (λ n. n < 2 ^ 32)
  pub u64_law : IsSerial ar.u64 (λ n. n < 2 ^ 64)
  pub double_law : IsSerial ar.double (λ x. Unit)
  pub bool_law : IsSerial ar.bool (λ b. Unit)
  pub string_law : IsSerial ar.string IsText
  pub vector_law :
      {A : Type 0} (s : Serial A) (P : A → Type 0)
      → IsSerial s P
      → IsSerial (ar.vector s) (λ l. All P l × (length l < 2 ^ 64))

module _ {A B : Type 0} where
  pub both-IsSerial :
      {s : Serial A} {t : Serial B} {P : A → Type 0} {Q : B → Type 0}
      → IsSerial s P
      → IsSerial t Q
      → IsSerial (both s t) (λ p. P p.0 × Q p.1)
  unfolding both read_second
  both-IsSerial {s} {t} first second = record {
    round_trip = λ (a, b) (p, q) rest.
        ap (λ bytes. read_second t (s.read bytes)) (append_assoc (s.write a) (t.write b) rest)
        ∙ ap (read_second t) (first.round_trip a p (t.write b ++ rest))
        ∙ ap (paired a) (second.round_trip b q rest);
  }

  fields_read :
      (open_up : A → B) (make : B → A) (s : Serial B) (Q : B → Type 0) (a : A) (rest : List ℕ)
      → IsSerial s Q
      → Q (open_up a)
      → make (open_up a) ≡ a
      → (fields open_up make s).read ((fields open_up make s).write a ++ rest) ≡ some (a, rest)
  unfolding fields made
  fields_read open_up make s Q a rest law holds same =
      ap (made make) (law.round_trip (open_up a) holds rest) ∙ ap (λ x. some (x, rest)) same

  pub fields-IsSerial :
      {open_up : A → B} (make : B → A) {s : Serial B} {P : A → Type 0} {Q : B → Type 0}
      → IsSerial s Q
      → ((a : A) → P a → Q (open_up a))
      → ((a : A) → P a → make (open_up a) ≡ a)
      → IsSerial (fields open_up make s) P
  fields-IsSerial {open_up} make {s} {Q} law holds same = record {
    round_trip = λ a p rest. fields_read open_up make s Q a rest law (holds a p) (same a p);
  }
