-- ===== src/Examples/Session.antt =====
-- An archive and the messages of a session that writes one number for each plain value, the length
-- in front of a vector, and a number for each of two texts.
use text.Mathlib.Text.{◌==◌ as str_eq}
use distributed_integration.Base.{
  ℕ, zero, suc, ◌≡◌, refl, String, Bool, true, false, Option, none, some, List, [], ◌∷◌, ◌++◌, ◌==◌,
  if◌then◌else◌, length, All, ◌⊎◌, inl, inr,
}
use mathlib.Core.List.{append_assoc}
use distributed_integration.Messages.{
  OsType, Architecture, CommandType, Command, TaskBatch, HandshakeRequest, HandshakeResponse,
}
use distributed_integration.Serialize.{Serial, Archive, Texts}
use distributed_integration.Serialize.Laws.{IsSerial, IsLawful}

abbrev first_number : List ℕ → Option (ℕ × List ℕ)
first_number [] = none
first_number (n ∷ rest) = some (n, rest)

abbrev number : Serial ℕ
number = record { write = λ n. n ∷ []; read = first_number }

abbrev first_flag : List ℕ → Option (Bool × List ℕ)
first_flag [] = none
first_flag (n ∷ rest) = some (n == 1, rest)

abbrev flag : Serial Bool
flag = record { write = λ b. (if b then 1 else 0) ∷ []; read = first_flag }

abbrev first_text : List ℕ → Option (String × List ℕ)
first_text [] = none
first_text (n ∷ rest) = some (if n == 1 then "1.0.0" else "", rest)

abbrev some_text : Serial String
some_text = record { write = λ s. (if str_eq s "1.0.0" then 1 else 0) ∷ []; read = first_text }

abbrev pub IsKnown : String → Type 0
IsKnown s = (s ≡ "1.0.0") ⊎ (s ≡ "")

module _ {A : Type 0} (s : Serial A) where
  abbrev write_all : List A → List ℕ
  write_all [] = []
  write_all (x ∷ xs) = s.write x ++ write_all xs

  abbrev cons_read : A → Option (List A × List ℕ) → Option (List A × List ℕ)
  cons_read x none = none
  cons_read x (some (xs, rest)) = some (x ∷ xs, rest)

  abbrev read_many : ℕ → List ℕ → Option (List A × List ℕ)
  read_many zero bytes = some ([], bytes)
  read_many (suc n) bytes = elim (s.read bytes) [
    | none ↦ none
    | some (x, rest) ↦ cons_read x (read_many n rest)
  ]

  abbrev read_vector : List ℕ → Option (List A × List ℕ)
  read_vector [] = none
  read_vector (n ∷ rest) = read_many n rest

  abbrev vector : Serial (List A)
  vector = record { write = λ l. length l ∷ write_all l; read = read_vector }

  read_many-write_all :
      (P : A → Type 0) (l : List A) (rest : List ℕ)
      → IsSerial s P
      → All P l
      → read_many (length l) (write_all l ++ rest) ≡ some (l, rest)
  read_many-write_all P [] rest law h = refl
  read_many-write_all P (x ∷ l) rest law h = rw (
    append_assoc (s.write x) (write_all l) rest,
    law.round_trip x h.0 (write_all l ++ rest),
    read_many-write_all P l rest law h.1,
  )

abbrev pub archive : Archive ℕ
archive = record {
  u8 = number;
  u32 = number;
  u64 = number;
  double = number;
  bool = flag;
  string = some_text;
  vector = vector;
}

bool_round_trip : (b : Bool) (rest : List ℕ) → flag.read (flag.write b ++ rest) ≡ some (b, rest)
bool_round_trip true rest = refl
bool_round_trip false rest = refl

pub archive-IsLawful : IsLawful archive IsKnown
archive-IsLawful = record {
  u8_law = record { round_trip = λ n p rest. refl };
  u32_law = record { round_trip = λ n p rest. refl };
  u64_law = record { round_trip = λ n p rest. refl };
  double_law = record { round_trip = λ n p rest. refl };
  bool_law = record { round_trip = λ b p rest. bool_round_trip b rest };
  string_law = record { round_trip = λ s p rest. elim p [ inl e ↦ rw e refl | inr e ↦ rw e refl ] };
  vector_law =
      λ s P law. record { round_trip = λ l p rest. read_many-write_all s P l rest law p.0 };
}

abbrev pub texts : Texts
texts = record { bad_data = "bad data"; end_of_file = "End of file"; to_string = λ n. "0" }

abbrev pub request : HandshakeRequest
request = record {
  client_version = "";
  system_info = record {
    os_type = OsType.linux;
    architecture = Architecture.x64;
    cpu_cores = 2;
    total_ram_mb = 2048;
  };
}

abbrev pub response : HandshakeResponse
response = record {
  assigned_client_id = 1;
  server_version = "1.0.0";
  accepted = true;
  message = "";
}

abbrev pub tasks : TaskBatch ℕ
tasks = record {
  tasks =
      record { id = 1; begin = 2; end = 6; step = 1 }
      ∷ record { id = 2; begin = 6; end = 10; step = 1 }
      ∷ [];
}

abbrev pub command : Command
command = record { type = CommandType.stop_work; message = "" }
