-- ===== src/NativeHost.antt =====
-- extension/native-host/host.py: the messages between the browser and the native host, on a machine whose native
-- order is little-endian. `parse` is the decoding of a message with its action.
pub mod Framing
mod Tests
use hypr_blocker.Base.{
  ℕ, zero, suc, ◌+◌, ◌*◌, ◌/◌, ◌%◌, Bool, true, false, Option, none, some, List, [], ◌∷◌, ◌++◌,
  length, ltb, if◌then◌else◌,
}
use hypr_blocker.Base.Text.{Text}

abbrev pub Bytes : Type 0
Bytes = List ℕ

abbrev pub limit : ℕ
limit = 4294967296

-- `struct.pack('I', n)`, for a number below the limit.
unfoldable pub pack_length : ℕ → Bytes
pack_length n = (n % 256) ∷ (n / 256 % 256) ∷ (n / 65536 % 256) ∷ (n / 16777216) ∷ []

-- `struct.unpack('I', raw)`
abbrev pub unpack_length : ℕ → ℕ → ℕ → ℕ → ℕ
unpack_length a b c d = a + 256 * b + 65536 * c + 16777216 * d

-- `send_message` of an encoded message, none where the length cannot be packed.
unfoldable pub send_message : Bytes → Option Bytes
unfolding pack_length
send_message m = if ltb (length m) limit then some (pack_length (length m) ++ m) else none

-- `read(n)`: what it returns, and what is left.
abbrev pub take_bytes : ℕ → Bytes → Bytes
take_bytes zero t = []
take_bytes (suc n) [] = []
take_bytes (suc n) (c ∷ t) = c ∷ take_bytes n t

abbrev pub drop_bytes : ℕ → Bytes → Bytes
drop_bytes zero t = t
drop_bytes (suc n) [] = []
drop_bytes (suc n) (c ∷ t) = drop_bytes n t

-- What `read_message` finds: the end, a length that is cut off, or a message with the input behind it.
pub data Read : Type 0 where
  end_of_input broken : Read
  message : Bytes → Bytes → Read

unfoldable pub read_message : Bytes → Read
read_message [] = end_of_input
read_message (a ∷ []) = broken
read_message (a ∷ b ∷ []) = broken
read_message (a ∷ b ∷ c ∷ []) = broken
read_message (a ∷ b ∷ c ∷ d ∷ t) =
    message (take_bytes (unpack_length a b c d) t) (drop_bytes (unpack_length a b c d) t)

pub data Action : Type 0 where
  get_pid ping : Action
  other_action : Text → Action

-- What a message decodes to: JSON null, something on which `.get` raises or that cannot be decoded, or an object
-- with its action.
pub data Parsed : Type 0 where
  null undecodable : Parsed
  decoded : Action → Parsed

pub data Answer : Type 0 where
  pid : ℕ → Answer
  pong : Answer
  unknown_action : Text → Answer
  error : Answer

abbrev pub answer : ℕ → Action → Answer
answer browser get_pid = pid browser
answer browser ping = pong
answer browser (other_action a) = unknown_action a

abbrev pub answer_then : Answer → Option (List Answer) → Option (List Answer)
answer_then a none = none
answer_then a (some answers) = some (a ∷ answers)

-- A message that is null ends the loop like the end of the input.
abbrev pub on_action : ℕ → Parsed → Option (List Answer) → Option (List Answer)
on_action browser null rest = some []
on_action browser undecodable rest = some (error ∷ [])
on_action browser (decoded a) rest = answer_then (answer browser a) rest

-- One round of the loop; `rounds` are those after it. An exception ends the loop with an error.
unfoldable pub round :
    (Bytes → Parsed) → ℕ → (Bytes → Option (List Answer)) → Read → Option (List Answer)
round parse browser rounds end_of_input = some []
round parse browser rounds broken = some (error ∷ [])
round parse browser rounds (message m rest) = on_action browser (parse m) (rounds rest)

-- `main`: its answers, none where the fuel runs out.
unfoldable pub run : (Bytes → Parsed) → ℕ → ℕ → Bytes → Option (List Answer)
unfolding round read_message
run parse browser zero input = none
run parse browser (suc fuel) input =
    round parse browser (run parse browser fuel) (read_message input)
