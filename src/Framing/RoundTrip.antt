-- ===== src/Framing/RoundTrip.antt =====
-- src/common/net_utils.h: what `send_data` writes is what `receive_data` reads.
use mathlib.Core.List.{append_assoc}
use distributed_integration.Base.{
  ℕ, ◌^◌, ◌≤◌, ◌<◌, ◌≡◌, refl, ap, ◌∙◌, some, List, [], ◌∷◌, ◌++◌, arith, length, All, ok, false,
  ltb, ◌==◌, ◌||◌,
}
use distributed_integration.Base.Words.{u32, u32-eq}
use distributed_integration.Framing.{
  Codec, size_bytes, size_of, read, max_packet_size, send_data, receive_data, send_all, receive_all,
  checked_body, read_body, body_from, decoded,
}

pub read-append : (bytes rest : List ℕ) → read (length bytes) (bytes ++ rest) ≡ some (bytes, rest)
unfolding read
read-append [] rest = refl
read-append (b ∷ bytes) rest = rw (read-append bytes rest)

pub size_of-size_bytes : (n : ℕ) → n < 2 ^ 32 → size_of (size_bytes n) ≡ n
unfolding size_of size_bytes
size_of-size_bytes n h = omega arith

module _ {T : Type 0} ⦃c : Codec T⦄ where
  open c use {encode, decode}

  -- The message can be decoded, and its size is allowed.
  abbrev pub IsSendable : T → Type 0
  IsSendable x =
      (decode (encode x) ≡ some x) × (0 < length (encode x)) × (length (encode x) ≤ max_packet_size)

  -- The header is read back, and the size goes to the check.
  pub receive_data-header :
      (n : ℕ) (rest : List ℕ)
      → n < 2 ^ 32
      → receive_data {T = T} (size_bytes n ++ rest) ≡ checked_body {T = T} n rest
  unfolding receive_data size_bytes
  receive_data-header n rest h = ap (λ k. checked_body {T = T} k rest) (size_of-size_bytes n h)

  read_body-encode :
      (x : T) (rest : List ℕ)
      → decode (encode x) ≡ some x
      → read_body (length (encode x)) (encode x ++ rest) ≡ ok (x, rest)
  unfolding read_body body_from
  read_body-encode x rest decodes =
      ap body_from (read-append (encode x) rest) ∙ ap (λ o. decoded o rest) decodes

  pub receive_data-send_data :
      (x : T) (rest : List ℕ)
      → IsSendable x
      → receive_data {T = T} (send_data x ++ rest) ≡ ok (x, rest)
  unfolding send_data checked_body
  receive_data-send_data x rest (decodes, some_bytes, allowed) =
      let n = length (encode x) in
      let fits : u32 n ≡ n = u32-eq n (omega arith) in
      let passes : (n == 0 || ltb max_packet_size n) ≡ false = ground arith in
      rw fits (
        ap (receive_data {T = T}) (append_assoc (size_bytes n) (encode x) rest)
        ∙ receive_data-header n (encode x ++ rest) (omega arith)
        ∙ rw passes (read_body-encode x rest decodes))

  -- Messages whose archives can be read back and have between 1 and 104857600 bytes are received as
  -- they were sent, one by one and in order, and what follows them on the connection is left as it
  -- is.
  pub receive_all-send_all :
      (xs : List T) (rest : List ℕ)
      → All IsSendable xs
      → receive_all (length xs) (send_all xs ++ rest) ≡ ok (xs, rest)
  unfolding receive_all send_all
  receive_all-send_all [] rest h = refl
  receive_all-send_all (x ∷ xs) rest h = rw (
    append_assoc (send_data x) (send_all xs) rest,
    receive_data-send_data x (send_all xs ++ rest) h.0,
    receive_all-send_all xs rest h.1,
  )
