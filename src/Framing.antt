-- ===== src/Framing.antt =====
-- src/common/net_utils.h: a message on the wire is its size in four bytes, the most significant
-- first, and its serialized bytes. A byte is a number below 256 and a connection the bytes that are
-- still to be read, after which the peer has closed it. Archives, `std::to_string` and the texts of
-- the exceptions of boost and cereal are parameters.
use Prim.Native.String.{◌++◌ as str_append}
use distributed_integration.Base.{
  ℕ, zero, suc, ◌+◌, ◌*◌, ◌/◌, ◌%◌, String, Bool, ◌||◌, Option, none, some, List, [], ◌∷◌, ◌++◌,
  ltb, ◌==◌, if◌then◌else◌, length, Outcome, ok, throw, undefined, runtime_error, ◌>>=◌, ◌>>◌,
}
use distributed_integration.Base.Words.{u32}
pub mod RoundTrip
pub mod Limits

pub record Codec (T : Type 0) : Type 0 where
  pub encode : T → List ℕ  -- cereal::BinaryOutputArchive
  pub decode : List ℕ → Option T  -- cereal::BinaryInputArchive; `none` for a cereal::Exception
  pub bad_data : String  -- its text
  pub end_of_file : String  -- the text of the boost::system::system_error of a short read
  pub to_string : ℕ → String  -- std::to_string

-- `htonl` and the copy of its four bytes
unfoldable pub size_bytes : ℕ → List ℕ
size_bytes n = n / 16777216 % 256 ∷ n / 65536 % 256 ∷ n / 256 % 256 ∷ n % 256 ∷ []

-- `boost::asio::read` of `n` bytes: they and what is left, or `none` if there are fewer
unfoldable pub read : ℕ → List ℕ → Option (List ℕ × List ℕ)
read zero stream = some ([], stream)
read (suc n) [] = none
read (suc n) (b ∷ stream) = elim (read n stream) [
  | none ↦ none
  | some (bytes, rest) ↦ some (b ∷ bytes, rest)
]

-- `ntohl`
unfoldable pub size_of : List ℕ → ℕ
size_of (a ∷ b ∷ c ∷ e ∷ []) = ((a * 256 + b) * 256 + c) * 256 + e
size_of bytes = 0

abbrev pub max_packet_size : ℕ
max_packet_size = 104857600

-- What `boost::asio::write` makes of bytes: those that have gone out, and the text of the
-- boost::system::system_error, if there is one
abbrev pub Writer : Type 0
Writer = List ℕ → List ℕ × Option String

-- A call of it in `send_data`, where an error is caught and thrown again
written : List ℕ × Option String → List ℕ × Outcome (Unit {0})
written (bytes, none) = (bytes, ok tt)
written (bytes, some why) =
    (bytes, throw (runtime_error (str_append "Network error while sending data: " why)))

-- Two statements that write, one after the other
then_write : List ℕ × Outcome (Unit {0}) → List ℕ × Outcome (Unit {0}) → List ℕ × Outcome (Unit {0})
then_write (out, ok _) (more, r) = (out ++ more, r)
then_write (out, throw e) next = (out, throw e)
then_write (out, undefined) next = (out, undefined)

module _ {T : Type 0} ⦃c : Codec T⦄ where
  open c use {encode, decode, bad_data, end_of_file, to_string}

  -- `send_data`: the bytes that it writes
  unfoldable pub send_data : T → List ℕ
  send_data x = size_bytes (u32 (length (encode x))) ++ encode x

  -- `send_data` on a socket: the bytes that have gone out, and how it ends
  unfoldable pub send_on : Writer → T → List ℕ × Outcome (Unit {0})
  unfolding written then_write
  send_on write x =
      then_write (written (write (size_bytes (u32 (length (encode x))))))
        (written (write (encode x)))

  decoded : Option T → List ℕ → Outcome (T × List ℕ)
  decoded (some x) rest = ok (x, rest)
  decoded none rest = throw (runtime_error (str_append "Deserialization error: " bad_data))

  unfoldable pub short_read : Outcome (T × List ℕ)
  short_read = throw (runtime_error (str_append "Network error while receiving data: " end_of_file))

  body_from : Option (List ℕ × List ℕ) → Outcome (T × List ℕ)
  unfolding decoded short_read
  body_from none = short_read
  body_from (some (bytes, rest)) = decoded (decode bytes) rest

  read_body : ℕ → List ℕ → Outcome (T × List ℕ)
  unfolding body_from read
  read_body size stream = body_from (read size stream)

  unfoldable pub bad_size : ℕ → Outcome (T × List ℕ)
  bad_size size = throw (runtime_error (str_append "Invalid packet size: " (to_string size)))

  unfoldable pub checked_body : ℕ → List ℕ → Outcome (T × List ℕ)
  unfolding read_body bad_size
  checked_body size stream =
      if size == 0 || ltb max_packet_size size then bad_size size else read_body size stream

  -- `receive_data`: the value, and the bytes behind it
  unfoldable pub receive_data : List ℕ → Outcome (T × List ℕ)
  unfolding checked_body read short_read size_of
  receive_data stream = elim (read 4 stream) [
    | none ↦ short_read
    | some (bytes, rest) ↦ checked_body (size_of bytes) rest
  ]

  -- Several calls of `send_data`, and of `receive_data`, on one connection
  unfoldable pub send_all : List T → List ℕ
  unfolding send_data
  send_all [] = []
  send_all (x ∷ xs) = send_data x ++ send_all xs

  unfoldable pub receive_all : ℕ → List ℕ → Outcome (List T × List ℕ)
  unfolding receive_data
  receive_all zero stream = ok ([], stream)
  receive_all (suc n) stream = do
    (x, rest) ← receive_data stream
    (xs, last) ← receive_all n rest
    ok (x ∷ xs, last)
