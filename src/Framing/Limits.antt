-- ===== src/Framing/Limits.antt =====
-- src/common/net_utils.h: messages that are too long, and connections that are closed too soon.
use distributed_integration.Base.{
  ℕ, zero, suc, ◌^◌, ◌<◌, ◌≡◌, ◌⊎◌, refl, ap, ◌∙◌, none, ok, List, [], ◌∷◌, ◌++◌, arith, length,
  length-append, true, false, ltb, ◌==◌, ◌||◌,
}
use mathlib.Core.List.{append_assoc}
use distributed_integration.Base.Words.{u32, u32-eq}
use mathlib.Core.Path.{ap₂}
use distributed_integration.Framing.{
  Writer, then_write, Codec, size_bytes, read, max_packet_size, send_data, receive_data, bad_size,
  short_read, checked_body, read_body, body_from, send_on, written,
}
use distributed_integration.Framing.RoundTrip.{IsSendable, receive_data-header}

read_short : (n : ℕ) (stream : List ℕ) → length stream < n → read n stream ≡ none
unfolding read
read_short zero stream h = absurd (omega arith)
read_short (suc n) [] h = refl
read_short (suc n) (b ∷ stream) h = rw (read_short n stream (omega arith))

module _ {T : Type 0} ⦃c : Codec T⦄ where
  open c use {encode, decode}

  -- `send_data` writes a message whose archive is empty or longer than 104857600 bytes (and shorter
  -- than 2 ^ 32) without complaint, and `receive_data` refuses its size.
  pub receive_data-send_data_refused :
      (x : T) (rest : List ℕ)
      → ((length (encode x) ≡ 0) ⊎ (max_packet_size < length (encode x)))
      → length (encode x) < 2 ^ 32
      → receive_data {T = T} (send_data x ++ rest) ≡ bad_size {T = T} (length (encode x))
  unfolding send_data checked_body
  receive_data-send_data_refused x rest wrong small =
      let n = length (encode x) in
      let fits : u32 n ≡ n = u32-eq n small in
      let fails : (n == 0 || ltb max_packet_size n) ≡ true = ground (arith, wrong) in
      rw fits (
        ap (receive_data {T = T}) (append_assoc (size_bytes n) (encode x) rest)
        ∙ receive_data-header n (encode x ++ rest) small
        ∙ rw fails)

  read_body_short :
      (n : ℕ) (stream : List ℕ)
      → length stream < n
      → read_body {T = T} n stream ≡ short_read {T = T}
  unfolding read_body body_from
  read_body_short n stream few = ap body_from (read_short n stream few)

  -- If the peer closes the connection before all bytes of a message have come, `receive_data`
  -- throws the network error, and no value comes of the part that has arrived.
  pub receive_data_cut :
      (x : T) (arrived missing : List ℕ)
      → IsSendable x
      → arrived ++ missing ≡ send_data x
      → 0 < length missing
      → receive_data {T = T} arrived ≡ short_read {T = T}
  unfolding receive_data send_data size_bytes checked_body
  receive_data_cut x [] missing s e pos = refl
  receive_data_cut x (b₀ ∷ []) missing s e pos = refl
  receive_data_cut x (b₀ ∷ b₁ ∷ []) missing s e pos = refl
  receive_data_cut x (b₀ ∷ b₁ ∷ b₂ ∷ []) missing s e pos = refl
  receive_data_cut x (b₀ ∷ b₁ ∷ b₂ ∷ b₃ ∷ tail) missing (decodes, some_bytes, allowed) e pos =
      let n = length (encode x) in
      let fits : u32 n ≡ n = u32-eq n (omega arith) in
      let header : b₀ ∷ b₁ ∷ b₂ ∷ b₃ ∷ [] ≡ size_bytes (u32 n) = cc in
      let body : tail ++ missing ≡ encode x = cc in
      let few : length tail < n =
        omega (arith, length-append tail missing, ap (λ (l : List ℕ). length l) body) in
      let passes : (n == 0 || ltb max_packet_size n) ≡ false = ground arith in
      ap (λ l. receive_data {T = T} (l ++ tail)) (header ∙ ap size_bytes fits)
      ∙ receive_data-header n tail (omega arith)
      ∙ rw passes (read_body_short n tail few)

-- Every write succeeds: all bytes go out.
abbrev pub Succeeds : Writer → Type 0
Succeeds write = (bytes : List ℕ) → write bytes ≡ (bytes, none)

module _ {T : Type 0} ⦃c : Codec T⦄ (write : Writer) (x : T) where
  -- If the writes succeed, the bytes of the message go out.
  pub send_on-send_data : Succeeds write → send_on write x ≡ (send_data x, ok tt)
  unfolding send_on written then_write send_data
  send_on-send_data writes =
      ap₂ (λ u v. then_write (written u) (written v))
        (writes (size_bytes (u32 (length (c.encode x))))) (writes (c.encode x))
