-- ===== src/ServerMessenger.antt =====
-- `ZincServerMessenger::parseMessage` of src/loader/ZincServerMessenger.cpp: how the server answers a
-- message that a plugin sent over the bridge. The threads of `start` and `parse` run it once for each
-- message; they are not modelled.
pub mod Answers
use zinc.Common.{
  ℕ, ◌%◌, Bool, true, false, not, Option, none, some, List, [], ◌∷◌, if◌then◌else◌, ◌==◌, length,
}
use zinc.Common.Texts.{codes}
use zinc.ByteBuffer.{
  ByteBuffer, Action, pure, ◌>>=◌, ◌>>◌, when, empty, size, write_byte, write_unsigned_byte,
  read_unsigned_byte,
}
use zinc.Text.{write_string, read_string, string_eq}
use zinc.Arrays.{write_array, read_array, write_prefixed_array, read_prefixed_array}
use zinc.GameTypes.{read_flag}

-- `if (hasCallbackId) callbackId = ...`
unfoldable pub read_callback_id : Bool → Action (List ℕ)
read_callback_id true = read_prefixed_array read_unsigned_byte
read_callback_id false = pure []

-- The size is cast to a `char`.
unfoldable pub write_callback_id : List ℕ → Action (Unit {0})
write_callback_id id = do
  write_byte (length id % 256)
  when (not (length id == 0)) (write_prefixed_array write_unsigned_byte id)

unfoldable pub answer_call : List ℕ → Action (Unit {0})
answer_call operation =
    if string_eq operation (codes "base.test")
    then (do write_string (codes "value"); write_string (codes "bool"); write_byte 1)
    else pure tt

unfoldable pub answer_unknown : Action (Unit {0})
answer_unknown = do
  write_string (codes "value")
  write_string (codes "error")
  write_string (codes "wrong_packet")
  write_string (codes "Unknown SDK packet type")

-- What is read of the message after its type, and what is then written to the reply.
unfoldable pub answer : List ℕ → Action (Action (Unit {0}))
answer type_ =
    if string_eq type_ (codes "value")
    then (do value_type ← read_string; pure (pure tt))
    else (if string_eq type_ (codes "call")
        then (do operation ← read_string; pure (answer_call operation))
        else pure answer_unknown)

unfoldable pub read_message : Action (Action (Unit {0}))
read_message = do
  has_callback_id ← read_flag
  id ← read_callback_id has_callback_id
  type_ ← read_string
  body ← answer type_
  pure (write_callback_id id >> body)

-- The bytes that are sent back over the bridge; `[]` is no reply.
unfoldable pub send_reply : Action (Unit {0}) → Option (List ℕ)
send_reply reply = elim (reply (empty true)) [
  | none ↦ none
  | some (_, b) ↦ elim (read_array read_unsigned_byte (size b) b) [
    | none ↦ none
    | some (bytes, _) ↦ some bytes
  ]
]

unfoldable pub parse_message : List ℕ → Option (List ℕ)
parse_message message = elim (write_array write_unsigned_byte message (empty true)) [
  | none ↦ none
  | some (_, b) ↦ elim (read_message b) [ none ↦ none | some (reply, _) ↦ send_reply reply ]
]
