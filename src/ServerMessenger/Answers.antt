-- ===== src/ServerMessenger/Answers.antt =====
-- What the server answers to each message, byte by byte.
use zinc.Common.{
  ℕ, ◌%◌, ◌≡◌, refl, ap, sym, subst, ◌∙◌, arith, Bool, true, false, not, some, List, [], ◌∷◌, ◌++◌,
  append-nil, append_assoc, if◌then◌else◌, length, ==_ne,
}
use zinc.Common.Texts.{codes}
use zinc.ByteBuffer.{Action, pure, ◌>>=◌, ◌>>◌, when, empty, write_byte, write_unsigned_byte}
use zinc.ByteBuffer.Rules.{
  Writes, Reads, Writes-bind, Writes-pure, Writes-eq, Reads-bind, Reads-map, Reads-pure, leaves,
}
use zinc.Buffer.Writing.{unread-write}
use zinc.ByteBuffer.Raw.{write_byte-Writes, empty-IsReady, unread-empty, size-fresh}
use zinc.Text.{write_string, read_string, string_eq}
use zinc.Text.Strings.{IsLength, prefixed, write_string-Writes, read_string-Reads}
use zinc.Arrays.{write_prefixed_array}
use zinc.Arrays.Sequences.{bytes-Writes, bytes-Reads, prefixed_bytes-Writes, prefixed_bytes-Reads}
use zinc.GameTypes.Properties.{flag-Reads}
use zinc.ServerMessenger.{
  read_callback_id, write_callback_id, answer_call, answer_unknown, answer, read_message,
  send_reply, parse_message,
}

-- How a message starts: whether it has a callback id, and the id.
abbrev pub message_head : List ℕ → List ℕ
message_head [] = 0 ∷ []
message_head (c ∷ id) = 1 ∷ prefixed (c ∷ id)

-- How its answer starts: the number of bytes of the id, of which one byte is written, and the id.
abbrev pub answer_head : List ℕ → List ℕ
answer_head [] = 0 ∷ []
answer_head (c ∷ id) = (length (c ∷ id) % 256) ∷ prefixed (c ∷ id)

abbrev pub bool_answer : List ℕ
bool_answer = prefixed (codes "value") ++ (prefixed (codes "bool") ++ (1 ∷ []))

abbrev pub error_answer : List ℕ
error_answer =
    prefixed (codes "value")
    ++ (prefixed (codes "error")
        ++ (prefixed (codes "wrong_packet") ++ prefixed (codes "Unknown SDK packet type")))

-- The rest of the answer, for a message with this type and operation.
abbrev pub answer_body : List ℕ → List ℕ → List ℕ
answer_body type_ operation =
    if string_eq type_ (codes "value")
    then []
    else (if string_eq type_ (codes "call")
        then (if string_eq operation (codes "base.test") then bool_answer else [])
        else error_answer)

callback_id-Writes :
    (id : List ℕ) → IsLength (length id) → Writes true (write_callback_id id) (answer_head id)
unfolding write_callback_id
callback_id-Writes [] h = Writes-bind (write_byte-Writes 0) Writes-pure
callback_id-Writes (c ∷ id) h = Writes-bind (write_byte-Writes (length (c ∷ id) % 256)) (
    subst
      (λ q.
        Writes true (when (not q) (write_prefixed_array write_unsigned_byte (c ∷ id)))
          (prefixed (c ∷ id)))
      (sym (==_ne (length (c ∷ id)) 0 (λ e. absurd (omega (arith, e)))))
      (prefixed_bytes-Writes (c ∷ id) h))

call-Writes :
    (q : Bool)
    → Writes true
        (if q
          then (write_string (codes "value") >> (write_string (codes "bool") >> write_byte 1))
          else pure tt)
        (if q then bool_answer else [])
call-Writes true =
    Writes-bind (write_string-Writes (codes "value") (omega arith))
      (Writes-bind (write_string-Writes (codes "bool") (omega arith)) (write_byte-Writes 1))
call-Writes false = Writes-pure

unknown-Writes : Writes true answer_unknown error_answer
unfolding answer_unknown
unknown-Writes = Writes-bind (write_string-Writes (codes "value") (omega arith)) (
    Writes-bind (write_string-Writes (codes "error") (omega arith)) (
      Writes-bind (write_string-Writes (codes "wrong_packet") (omega arith))
        (write_string-Writes (codes "Unknown SDK packet type") (omega arith))))

body_for : Bool → Bool → List ℕ → Action (Unit {0})
body_for v c operation =
    if v then pure tt else (if c then answer_call operation else answer_unknown)

taken : Bool → Bool → List ℕ → List ℕ
taken v c operation = if v then prefixed operation else (if c then prefixed operation else [])

left : Bool → Bool → List ℕ → List ℕ
left v c operation = if v then [] else (if c then [] else prefixed operation)

taken-left :
    (v c : Bool) (operation : List ℕ)
    → taken v c operation ++ left v c operation ≡ prefixed operation
unfolding taken left
taken-left true c operation = append-nil (prefixed operation)
taken-left false true operation = append-nil (prefixed operation)
taken-left false false operation = refl

body-Writes :
    (v c : Bool) (operation : List ℕ)
    → Writes true (body_for v c operation) (
        if v
        then []
        else (if c
            then (if string_eq operation (codes "base.test") then bool_answer else [])
            else error_answer))
unfolding body_for answer_call
body-Writes true c operation = Writes-pure
body-Writes false true operation = call-Writes (string_eq operation (codes "base.test"))
body-Writes false false operation = unknown-Writes

branches :
    (v c : Bool) (operation : List ℕ)
    → IsLength (length operation)
    → Reads true
        (if v
          then (read_string >>= (λ _. pure (pure tt)))
          else (if c
              then (read_string >>= (λ operation. pure (answer_call operation)))
              else pure answer_unknown))
        (taken v c operation)
        (body_for v c operation)
unfolding body_for taken
branches true c operation h = Reads-map (λ _. pure tt) (read_string-Reads operation h)
branches false true operation h = Reads-map answer_call (read_string-Reads operation h)
branches false false operation h = Reads-pure answer_unknown

-- The message from its type on, after the id.
rest-Reads :
    (id type_ operation : List ℕ)
    → IsLength (length type_)
    → IsLength (length operation)
    → (let v : Bool = string_eq type_ (codes "value") in
        let c : Bool = string_eq type_ (codes "call") in
        Reads true
          (read_string
            >>= (λ type_. answer type_ >>= (λ body. pure (write_callback_id id >> body))))
          (prefixed type_ ++ taken v c operation)
          (write_callback_id id >> body_for v c operation))
unfolding answer
rest-Reads id type_ operation ht ho =
    Reads-bind (λ type_. answer type_ >>= (λ body. pure (write_callback_id id >> body)))
      (read_string-Reads type_ ht)
      (Reads-map (λ body. write_callback_id id >> body)
        (branches (string_eq type_ (codes "value")) (string_eq type_ (codes "call")) operation ho))

abbrev after_id : List ℕ → Action (Action (Unit {0}))
after_id id =
    read_string >>= (λ type_. answer type_ >>= (λ body. pure (write_callback_id id >> body)))

message-Reads :
    (id type_ operation : List ℕ)
    → IsLength (length id)
    → IsLength (length type_)
    → IsLength (length operation)
    → (let v : Bool = string_eq type_ (codes "value") in
        let c : Bool = string_eq type_ (codes "call") in
        Reads true read_message
          (message_head id ++ (prefixed type_ ++ taken v c operation))
          (write_callback_id id >> body_for v c operation))
unfolding read_message read_callback_id
message-Reads [] type_ operation hi ht ho =
    Reads-bind (λ flag. read_callback_id flag >>= after_id) (flag-Reads false)
      (Reads-bind after_id (Reads-pure []) (rest-Reads [] type_ operation ht ho))
message-Reads (c ∷ id) type_ operation hi ht ho =
    Reads-bind (λ flag. read_callback_id flag >>= after_id) (flag-Reads true)
      (Reads-bind after_id (prefixed_bytes-Reads (c ∷ id) hi)
        (rest-Reads (c ∷ id) type_ operation ht ho))

send_reply-Writes :
    (reply : Action (Unit {0})) (bytes : List ℕ)
    → Writes true reply bytes
    → send_reply reply ≡ some bytes
unfolding send_reply empty
send_reply-Writes reply bytes w =
    let one = w.run (empty true) (empty-IsReady true) refl in
    let len = size-fresh true bytes one in
    let two = (bytes-Reads {e = true} bytes).run one.after [] one.joined.valid one.same_order (
      unread-write bytes (empty-IsReady true) one.joined
      ∙ (ap (λ t. t ++ bytes) (unread-empty true) ∙ sym (append-nil bytes))) in
    rw (one.returns, send_reply, len, two.returns) refl

split_message :
    (id type_ operation : List ℕ) (v c : Bool)
    → message_head id ++ (prefixed type_ ++ prefixed operation)
      ≡ (message_head id ++ (prefixed type_ ++ taken v c operation)) ++ left v c operation
split_message id type_ operation v c = sym (
    append_assoc (message_head id) (prefixed type_ ++ taken v c operation) (left v c operation)
    ∙ ap (λ t. message_head id ++ t)
        (append_assoc (prefixed type_) (taken v c operation) (left v c operation)
          ∙ ap (λ t. prefixed type_ ++ t) (taken-left v c operation)))

-- Sent a message with a callback id, a type and an operation, each of fewer than 2 ^ 31 bytes, the
-- server answers: the reply starts with the number of bytes of the id, of which only one byte is
-- written, and the id; then nothing for a value, the value true for the call of `base.test`, nothing
-- for another call, and an error for any other type.
pub parse_message_lem :
    (id type_ operation : List ℕ)
    → IsLength (length id)
    → IsLength (length type_)
    → IsLength (length operation)
    → parse_message (message_head id ++ (prefixed type_ ++ prefixed operation))
      ≡ some (answer_head id ++ answer_body type_ operation)
unfolding parse_message empty
parse_message_lem id type_ operation hi ht ho =
    let v = string_eq type_ (codes "value") in
    let c = string_eq type_ (codes "call") in
    let xs = message_head id ++ (prefixed type_ ++ taken v c operation) in
    let message = message_head id ++ (prefixed type_ ++ prefixed operation) in
    let (b, rest, wrote, read, _) =
      leaves xs (left v c operation) (empty true) (empty-IsReady true) (unread-empty true)
        (Writes-eq (split_message id type_ operation v c) (bytes-Writes message))
        (message-Reads id type_ operation hi ht ho) in
    rw (wrote, read, parse_message)
      (send_reply-Writes (write_callback_id id >> body_for v c operation)
        (answer_head id ++ answer_body type_ operation)
        (Writes-bind (callback_id-Writes id hi) (body-Writes v c operation)))
