-- ===== src/SrvCtl/Frames.antt =====
-- How the control server takes a frame from its input: the length of the rest in eight bytes, the
-- packet id, and the payload.
use zinc.Common.{
  ℕ, ◌+◌, ◌%◌, ◌^◌, ◌≤◌, ◌<◌, ◌≡◌, refl, ap, ◌∙◌, arith, Bool, true, false, inl, inr, Option, none,
  some, List, [], ◌∷◌, ◌++◌, append_assoc, length, length-append, if◌then◌else◌, ◌==◌, ltb,
  below-cases, ◌⊎◌, ◌-◌, lt→ltb, le→ltb_false,
}
use zinc.ByteBuffer.{ByteBuffer, empty, size}
use zinc.ByteBuffer.Rules.{Writes, Reads, Writes-bind, Writes-eq, IsReady, unread}
use zinc.Buffer.Writing.{unread-write}
use zinc.ByteBuffer.Raw.{
  write_byte-Writes, write_bytes-Writes, empty-IsReady, unread-empty, size-fresh, to_bytes-Writes,
}
use zinc.Numeric.{int, ulong, write_numeric, read_numeric, to_memory, in_order}
use zinc.Numeric.Bytes.{length-to_memory, length-in_order}
use zinc.Numeric.RoundTrip.{write_memory-Writes, read_memory-Reads}
use zinc.Numeric.Sizes.{size-read_ulong, fresh_off}
use zinc.VarNumeric.{get_var_numeric_length}
use zinc.VarNumeric.Groups.{var_bytes, var_bytes-pos, write_var_numeric-Writes, length-var_bytes}
use zinc.VarNumeric.RoundTrip.{read_var_numeric-Reads}
use zinc.SrvCtl.{
  State, handshake, login, config, execution, Outcome, minus_one, invalid_packet, unsupported_state,
  success, write_status, reply, no_reply, dispatch, read_packet, on_buffer, on_input,
}

abbrev pub length_field : ℕ → List ℕ
length_field n = in_order true (to_memory 8 n)

abbrev pub body : ℕ → List ℕ → List ℕ
body id payload = var_bytes int id ++ payload

abbrev pub frame : ℕ → List ℕ → List ℕ
frame id payload = length_field (length (body id payload)) ++ body id payload

length-length_field : (n : ℕ) → length (length_field n) ≡ 8
length-length_field n = length-in_order true (to_memory 8 n) ∙ length-to_memory 8 n

-- A reply is a frame, too: the packet id -1 and the status.
pub status-Writes : (status : ℕ) → Writes true (write_status status) (frame minus_one (status ∷ []))
unfolding write_status write_numeric
status-Writes status =
    Writes-bind
      (Writes-eq (ap length_field counted)
        (write_memory-Writes 8 (1 + get_var_numeric_length int minus_one)))
      (Writes-bind (write_var_numeric-Writes int minus_one (omega arith))
        (write_byte-Writes status))
  where
    counted : 1 + get_var_numeric_length int minus_one ≡ length (body minus_one (status ∷ []))
    counted = omega (
      arith,
      length-var_bytes int minus_one (omega arith),
      length-append (var_bytes int minus_one) (status ∷ []),
    )

pub reply_lem :
    (s : State) (n status : ℕ)
    → reply s n status
      ≡ some (record { state = s; drained = n; sent = some (frame minus_one (status ∷ [])) })
unfolding reply
reply_lem s n status = rw (to_bytes-Writes (status-Writes status), reply) refl

field-Reads : (n : ℕ) → n < 2 ^ 64 → Reads true (read_numeric ulong) (length_field n) n
unfolding read_numeric
field-Reads n fits = read_memory-Reads 8 n (omega arith)

-- The input after its length field was read.
record IsOpened (s : State) (n : ℕ) (tail : List ℕ) : Type 0 where
  after : ByteBuffer
  valid : IsReady after
  order : after.is_big_endian ≡ true
  remains : unread after ≡ tail
  goes_on : on_input s (length_field n ++ tail) ≡ (
      if ltb (8 + length tail) ((n + 8) % 2 ^ 64)
      then reply s (8 + length tail) invalid_packet
      else read_packet s n after)

opened : (s : State) (n : ℕ) (tail : List ℕ) → n < 2 ^ 64 → 0 < length tail → IsOpened s n tail
unfolding on_input on_buffer empty
opened s n tail fits some_left =
    let input = length_field n ++ tail in
    let one = (write_bytes-Writes {e = true} input).run (empty true) (empty-IsReady true) refl in
    let sized : size one.after ≡ 8 + length tail =
      size-fresh true input one
      ∙ (length-append (length_field n) tail ∙ ap (λ k. k + length tail) (length-length_field n)) in
    let next =
      unread-write input (empty-IsReady true) one.joined
      ∙ ap (λ t. t ++ input) (unread-empty true) in
    let two = (field-Reads n fits).run one.after tail one.joined.valid one.same_order next in
    let kept : size two.after ≡ 8 + length tail =
      size-read_ulong one.after two.after n one.joined.valid (fresh_off true input one) two.returns
      ∙ sized in
    record {
      after = two.after;
      valid = two.valid;
      order = two.same_order ∙ one.same_order;
      remains = two.remains;
      goes_on =
          rw
            (
              one.returns,
              sized,
              le→ltb_false (8 + length tail) 9 (omega arith),
              two.returns,
              kept,
              on_input,
              on_buffer,
            )
            refl;
    }

-- What the protocol says of a packet: the state after it, and the status that is sent.
abbrev pub next : State → State
next handshake = login
next s = s

abbrev pub status_of : State → ℕ → Option ℕ
status_of handshake id = some success
status_of login id = if id == 0 then none else some invalid_packet
status_of _ id = some unsupported_state

abbrev pub sent_of : Option ℕ → Option (List ℕ)
sent_of none = none
sent_of (some status) = some (frame minus_one (status ∷ []))

dispatch_lem :
    (s : State) (id n : ℕ)
    → dispatch s id n
      ≡ some (record { state = next s; drained = n; sent = sent_of (status_of s id) })
unfolding dispatch
dispatch_lem handshake id n = reply_lem login n success
dispatch_lem login id n = login_case (id == 0)
  where
    login_case :
        (q : Bool)
        → (if q then no_reply login n else reply login n invalid_packet)
          ≡ some (record {
            state = login;
            drained = n;
            sent = sent_of (if q then none else some invalid_packet);
          })
    login_case true = refl
    login_case false = reply_lem login n invalid_packet
dispatch_lem config id n = reply_lem config n unsupported_state
dispatch_lem execution id n = reply_lem execution n unsupported_state

read_packet_lem :
    (s : State) (n id : ℕ) (rest : List ℕ) (b : ByteBuffer)
    → id < 2 ^ 32
    → IsReady b
    → b.is_big_endian ≡ true
    → unread b ≡ var_bytes int id ++ rest
    → read_packet s n b
      ≡ some
          (record { state = next s; drained = (8 + n) % 2 ^ 64; sent = sent_of (status_of s id) })
read_packet_lem s n id rest b small v o u =
    let one = (read_var_numeric-Reads {e = true} int id small).run b rest v o u in
    rw (one.returns, read_packet) (dispatch_lem s id ((8 + n) % 2 ^ 64))

-- Where the input starts with a whole frame, of a length that with the length field stays below 2 ^ 64,
-- `onRead` drains just this frame whatever comes after it; the state moves on and the status is sent as
-- the state and the packet id say.
pub on_input-frame :
    (s : State) (id : ℕ) (payload rest : List ℕ)
    → id < 2 ^ 32
    → length (frame id payload) < 2 ^ 64
    → on_input s (frame id payload ++ rest)
      ≡ some (record {
        state = next s;
        drained = length (frame id payload);
        sent = sent_of (status_of s id);
      })
on_input-frame s id payload rest small fits =
    let n = length (body id payload) in
    let whole : length (frame id payload) ≡ 8 + n =
      length-append (length_field n) (body id payload) ∙ ap (λ k. k + n) (length-length_field n) in
    let tail = body id payload ++ rest in
    let longer : length tail ≡ n + length rest = length-append (body id payload) rest in
    let some_there = length-append (var_bytes int id) payload in
    let o = opened s n tail (omega (arith, whole)) (omega (arith, var_bytes-pos id)) in
    ap (on_input s) (append_assoc (length_field n) (body id payload) rest)
    ∙ (o.goes_on
        ∙ rw (le→ltb_false (8 + length tail) ((n + 8) % 2 ^ 64) (omega (arith, whole))) (
            read_packet_lem s n id (payload ++ rest) o.after small o.valid o.order
              (o.remains ∙ append_assoc (var_bytes int id) payload rest)
            ∙ ap
                (λ k.
                  some (record { state = next s; drained = k; sent = sent_of (status_of s id) }))
                (omega (arith, whole))))

-- An input that ends before the frame does: in the length field, or after it.
abbrev pub IsCutOff : List ℕ → Type 0
IsCutOff input =
    (length input < 9)
    ⊎ ((n : ℕ) × (tail : List ℕ) × (input ≡ length_field n ++ tail)
        × (n + 8 < 2 ^ 64)
        × (length tail < n))

abbrev pub rejected : State → ℕ → Outcome
rejected s n = record {
  state = s;
  drained = n;
  sent = some (frame minus_one (invalid_packet ∷ []));
}

short_rejected :
    (s : State) (input : List ℕ)
    → length input < 9
    → on_input s input ≡ some (rejected s (length input))
unfolding on_input on_buffer empty
short_rejected s input short =
    let one = (write_bytes-Writes {e = true} input).run (empty true) (empty-IsReady true) refl in
    rw (one.returns, size-fresh true input one, lt→ltb (length input) 9 short, on_input, on_buffer)
      (reply_lem s (length input) invalid_packet)

cut_rejected :
    (s : State) (n : ℕ) (tail : List ℕ)
    → n + 8 < 2 ^ 64
    → length tail < n
    → 0 < length tail
    → on_input s (length_field n ++ tail) ≡ some (rejected s (8 + length tail))
cut_rejected s n tail fits cut some_there =
    let o = opened s n tail (omega arith) some_there in
    o.goes_on
    ∙ rw (lt→ltb (8 + length tail) ((n + 8) % 2 ^ 64) (omega arith))
        (reply_lem s (8 + length tail) invalid_packet)

-- An input that ends before its frame does is drained whole, the state stays, and the status for an
-- invalid packet is sent: what is left of the frame will be taken for a new one.
pub on_input_cut_off :
    (s : State) (input : List ℕ)
    → IsCutOff input
    → on_input s input ≡ some (rejected s (length input))
on_input_cut_off s input (inl short) = short_rejected s input short
on_input_cut_off s input (inr (n, tail, e, fits, cut)) = elim (below-cases 0 (length tail)) [
  | inl some_there ↦
      ap (on_input s) e
      ∙ (cut_rejected s n tail fits cut some_there
          ∙ ap (λ k. some (rejected s k))
              (omega
                (arith, ap length e, length-append (length_field n) tail, length-length_field n)))
  | inr none_there ↦
      short_rejected s input
        (omega (arith, ap length e, length-append (length_field n) tail, length-length_field n))
]

-- A length of 2 ^ 64 - 8 or more passes the check, since it wraps when 8 is added: the packet id is read
-- and answered as in a whole frame, and fewer than 8 bytes are drained, so the input that was answered
-- is not used up.
pub on_input_wrapped :
    (s : State) (n id : ℕ) (rest : List ℕ)
    → 2 ^ 64 ≤ n + 8
    → n < 2 ^ 64
    → id < 2 ^ 32
    → (on_input s (length_field n ++ (var_bytes int id ++ rest))
        ≡ some
            (record { state = next s; drained = n + 8 - 2 ^ 64; sent = sent_of (status_of s id) }))
      × (n + 8 - 2 ^ 64 < 8)
on_input_wrapped s n id rest wraps fits small =
    let tail = var_bytes int id ++ rest in
    let there : 0 < length tail =
      omega (arith, var_bytes-pos id, length-append (var_bytes int id) rest) in
    let o = opened s n tail fits there in
    (
      o.goes_on
          ∙ rw (le→ltb_false (8 + length tail) ((n + 8) % 2 ^ 64) (omega arith)) (
              read_packet_lem s n id rest o.after small o.valid o.order o.remains
              ∙ ap
                  (λ k.
                    some (record { state = next s; drained = k; sent = sent_of (status_of s id) }))
                  (omega arith)),
      omega arith,
    )
