-- ===== src/Serialize/Session.antt =====
-- src/common/messages.h with src/common/net_utils.h: a message from the structure at one end of a
-- connection to the structure at the other.
use mathlib.Core.List.{append-nil}
use mathlib.Core.Path.{subst}
use distributed_integration.Base.{ℕ, ◌≤◌, ◌<◌, ◌≡◌, ap, some, List, [], ◌++◌, length, ok}
use distributed_integration.Framing.{max_packet_size, send_data, receive_data}
use distributed_integration.Framing.RoundTrip.{receive_data-send_data}
use distributed_integration.Serialize.{Serial, Texts, message_codec, value_of}
use distributed_integration.Serialize.Laws.{IsSerial}

-- The archive of the value is not empty and not longer than a packet may be.
abbrev pub IsPacket : {A : Type 0} → Serial A → A → Type 0
IsPacket s x = (0 < length (s.write x)) × (length (s.write x) ≤ max_packet_size)

abbrev pub Arrives : {A : Type 0} → Texts → Serial A → A → List ℕ → Type 0
Arrives texts s x rest =
    receive_data ⦃c = message_codec texts s⦄ (send_data ⦃c = message_codec texts s⦄ x ++ rest)
    ≡ ok (x, rest)

IsSerial-decode :
    {A : Type 0} (texts : Texts) (s : Serial A) (P : A → Type 0) (x : A)
    → IsSerial s P
    → P x
    → (message_codec texts s).decode ((message_codec texts s).encode x) ≡ some x
unfolding message_codec value_of
IsSerial-decode texts s P x law p =
    subst (λ bytes. value_of (s.read bytes) ≡ some x) (append-nil (s.write x))
      (ap value_of (law.round_trip x p []))

pub IsSerial-Arrives :
    {A : Type 0} (texts : Texts) (s : Serial A) (P : A → Type 0) (x : A) (rest : List ℕ)
    → IsSerial s P
    → P x
    → IsPacket s x
    → Arrives texts s x rest
unfolding message_codec
IsSerial-Arrives texts s P x rest law p (some_bytes, allowed) =
    receive_data-send_data ⦃c = message_codec texts s⦄ x rest
      (IsSerial-decode texts s P x law p, some_bytes, allowed)
