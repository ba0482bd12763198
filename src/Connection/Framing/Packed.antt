-- ===== src/Connection/Framing/Packed.antt =====
-- What zlib makes of a packet, and the bytes of a frame before encryption.
use zinc.Common.{
  ℕ, ◌+◌, ◌-◌, ◌^◌, ◌<◌, ◌≤◌, ◌≡◌, refl, ap, ◌∙◌, arith, Bool, true, false, Option, some, List,
  ◌++◌, take, replicate, length, length-append, length-take, length-replicate, if◌then◌else◌,
  Bool-cases, inl, inr,
}
use zinc.Common.Slices.{take-append_ge, take-append_length}
use zinc.Buffer
use zinc.Buffer.View.{IsValid, init-IsValid, get_bytes-contents, length-contents}
use zinc.Buffer.Writing.{write-IsAppended}
use zinc.ByteBuffer.{ByteBuffer, ◌>>◌, size, get_bytes, from_bytes, write_byte_array}
use zinc.ByteBuffer.Rules.{Writes, Writes-bind, IsReady, unread}
use zinc.ByteBuffer.Raw.{write_bytes-Writes, to_bytes-Writes}
use zinc.Numeric.{int, truncate_to}
use zinc.VarNumeric.{write_var_numeric, get_var_numeric_length}
use zinc.VarNumeric.Groups.{var_bytes, seven_bits-last, write_var_numeric-Writes, length-var_bytes}
use zinc.Text.Strings.{IsLength}
use zinc.Wrappers.{Zlib, IsZlib, in_vector, compress, uncompress}
use zinc.Connection.{write_packet, held, int_ltb, write_compressed, write_frame}
use zinc.Connection.Framing.Plain.{packet_bytes, packet-Writes}

-- A buffer made of bytes, all of them still to be read.
pub record IsHeld (bytes : List ℕ) (outcome : Option ByteBuffer) : Type 0 where
  pub buffer : ByteBuffer
  pub made : outcome ≡ some buffer
  pub valid : IsReady buffer
  pub order : buffer.is_big_endian ≡ true
  pub all_unread : unread buffer ≡ bytes
  pub bytes_held : get_bytes buffer ≡ bytes
  pub sized : size buffer ≡ length bytes

pub held_lem : (bytes : List ℕ) → IsHeld bytes (held bytes)
unfolding from_bytes Buffer.set_reader get_bytes size Buffer.get_writer Buffer.init
held_lem bytes =
    let (s, returns, joined) = write-IsAppended Buffer.init bytes init-IsValid in
    let valid : IsValid (Buffer.set_reader (0, 0) s) = record {
      sizes = joined.valid.sizes;
      count = joined.valid.count;
      write_room = joined.valid.write_room;
      read_room = omega arith;
      behind = omega arith;
    } in
    record {
      buffer = record { internal_buffer = Buffer.set_reader (0, 0) s; is_big_endian = true };
      made = rw (returns, from_bytes) refl;
      valid = valid;
      order = refl;
      all_unread = joined.appended;
      bytes_held = get_bytes-contents _ valid ∙ joined.appended;
      sized = omega (arith, ap length joined.appended, length-contents s joined.valid);
    }

-- A vector with room for the bytes starts with them.
in_vector_lem :
    (n : ℕ) (bytes : List ℕ)
    → length bytes ≤ n
    → in_vector n bytes ≡ bytes ++ take (n - length bytes) (replicate n 0)
in_vector_lem n bytes room = take-append_ge n bytes (replicate n 0) room

pub length-in_vector : (n : ℕ) (bytes : List ℕ) → length (in_vector n bytes) ≡ n
length-in_vector n bytes = omega (
  arith,
  length-take n (bytes ++ replicate n 0),
  length-append bytes (replicate n 0),
  length-replicate {A = ℕ} n 0,
)

-- What was compressed is uncompressed again, although the vector has more bytes than zlib stored.
pub uncompress-compress :
    (z : Zlib)
    → IsZlib z
    → (bytes : List ℕ) → uncompress z (compress z bytes) (length bytes) ≡ bytes
unfolding compress uncompress
uncompress-compress z laws bytes =
    let (packed, made, room) = laws.compresses bytes in
    let n = z.bound (length bytes) in
    let back = laws.uncompresses bytes packed (take (n - length packed) (replicate n 0)) made in
    rw (made, compress, in_vector_lem n packed room, back, uncompress)
      (take-append_length bytes (replicate (length bytes) 0))

pub length-compress :
    (z : Zlib) → IsZlib z → (bytes : List ℕ) → length (compress z bytes) ≡ z.bound (length bytes)
unfolding compress
length-compress z laws bytes =
    let (packed, made, room) = laws.compresses bytes in
    rw (made, compress) (length-in_vector (z.bound (length bytes)) packed)

-- What stands in a frame after its length: the packet as it is, a 0 and the packet, or the packet's
-- length and what zlib made of it.
abbrev pub payload : Zlib → ℕ → Bool → List ℕ → List ℕ
payload z threshold is_compressed bytes =
    if is_compressed
    then (if int_ltb (length bytes) threshold
        then var_bytes int 0 ++ bytes
        else var_bytes int (length bytes) ++ compress z bytes)
    else bytes

abbrev pub frame_of : List ℕ → List ℕ
frame_of payload = var_bytes int (length payload) ++ payload

module _ (z : Zlib) (threshold id : ℕ) (bytes : List ℕ) (small : id < 2 ^ 32) where
  abbrev packet : List ℕ
  packet = packet_bytes id bytes

  compressed-Writes :
      IsLength (length (var_bytes int (length packet) ++ compress z packet))
      → IsLength (length packet)
      → Writes true
          (write_compressed z id bytes (length packet))
          (frame_of (var_bytes int (length packet) ++ compress z packet))
  unfolding write_compressed write_byte_array
  compressed-Writes fits short =
      let packed = held_lem (compress z packet) in
      let counted : truncate_to int
            (get_var_numeric_length int (length packet) + size packed.buffer)
          ≡ length (var_bytes int (length packet) ++ compress z packet) =
        omega (
          arith,
          packed.sized,
          length-var_bytes int (length packet) (omega arith),
          length-append (var_bytes int (length packet)) (compress z packet),
        ) in
      record {
        run = λ b v o.
            rw
              (
                to_bytes-Writes (packet-Writes id bytes small),
                packed.made,
                packed.bytes_held,
                counted,
                write_compressed,
              )
              ((Writes-bind
                  (write_var_numeric-Writes int
                    (length (var_bytes int (length packet) ++ compress z packet)) (omega arith))
                  (Writes-bind (write_var_numeric-Writes int (length packet) (omega arith))
                    (write_bytes-Writes (compress z packet)))).run
                b v o);
      }

  small-Writes :
      IsLength (length (var_bytes int 0 ++ packet))
      → Writes true
          (write_var_numeric int (truncate_to int (1 + length packet))
            >> (write_var_numeric int 0 >> write_packet id bytes))
          (frame_of (var_bytes int 0 ++ packet))
  small-Writes fits =
      let zero_byte : length (var_bytes int 0) ≡ 1 = ap length (seven_bits-last 3 0 refl) in
      let counted : truncate_to int (1 + length packet) ≡ length (var_bytes int 0 ++ packet) =
        omega (arith, zero_byte, length-append (var_bytes int 0) packet) in
      rw (counted) (
        Writes-bind
          (write_var_numeric-Writes int (length (var_bytes int 0 ++ packet)) (omega arith))
          (Writes-bind (write_var_numeric-Writes int 0 (omega arith))
            (packet-Writes id bytes small)))

  -- The frame of a packet, with a length that an `int` holds.
  pub frame-Writes :
      (q : Bool)
      → IsLength (length packet)
      → IsLength (length (payload z threshold q packet))
      → Writes true
          (write_frame z threshold q id bytes (length packet))
          (frame_of (payload z threshold q packet))
  unfolding write_frame
  frame-Writes false short fits =
      Writes-bind (write_var_numeric-Writes int (length packet) (omega arith))
        (packet-Writes id bytes small)
  frame-Writes true short fits = elim (Bool-cases (int_ltb (length packet) threshold)) [
    | inl below ↦ rw (below, write_frame) (small-Writes (rw (below) at fits))
    | inr above ↦ rw (above, write_frame) (compressed-Writes (rw (above) at fits) short)
  ]
