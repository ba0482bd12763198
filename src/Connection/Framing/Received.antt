-- ===== src/Connection/Framing/Received.antt =====
-- What `read` makes of a frame after decryption.
use zinc.Common.{
  ℕ, ◌+◌, ◌-◌, ◌%◌, ◌^◌, ◌<◌, ◌≡◌, refl, ap, sym, subst, ◌∙◌, arith, Bool, true, false, not, ◌==◌,
  some, List, [], ◌++◌, append-nil, append_assoc, length, length-append, if◌then◌else◌, Bool-cases,
  inl, inr, ltb, le→ltb_false,
}
use zinc.ByteBuffer.{ByteBuffer, size}
use zinc.ByteBuffer.Rules.{IsReady, unread}
use zinc.ByteBuffer.Raw.{read_bytes-Reads}
use zinc.Numeric.{int, ulong, truncate_to, sign_extend}
use zinc.VarNumeric.{get_var_numeric_length}
use zinc.VarNumeric.Groups.{
  var_bytes, var_bytes-pos, seven_bits-last, length-seven_bits, length-var_bytes,
}
use zinc.VarNumeric.RoundTrip.{read_var_numeric-Reads}
use zinc.Text.Strings.{IsLength}
use zinc.Packets.{ZincPacket}
use zinc.Packets.Copies.{Holds}
use zinc.Wrappers.{Zlib, IsZlib, compress, uncompress}
use zinc.Connection.{ZincConnection, int_ltb, read_packet, read_compressed, read_frame}
use zinc.Connection.Framing.Plain.{packet_bytes, read_packet-Holds, length-unread}
use zinc.Connection.Framing.Packed.{held_lem, uncompress-compress, payload, frame_of}

widened : (n : ℕ) → IsLength n → sign_extend int ulong n ≡ n
widened n h = ground arith

module _ (z : Zlib) (laws : IsZlib z) (threshold id : ℕ) (bytes : List ℕ)
    (small : id < 2 ^ 32) where
  abbrev packet : List ℕ
  packet = packet_bytes id bytes

  -- A packet that is not compressed has a 0 before it.
  read_small :
      (rest : List ℕ) (b : ByteBuffer)
      → IsLength (length (var_bytes int 0 ++ packet))
      → IsReady b
      → b.is_big_endian ≡ true
      → unread b ≡ (var_bytes int 0 ++ packet) ++ rest
      → (q : ZincPacket) × (read_compressed z (length (var_bytes int 0 ++ packet)) b ≡ some q)
        × Holds id bytes q
  unfolding read_compressed
  read_small rest b fits v o u =
      let one =
        (read_var_numeric-Reads {e = true} int 0 (omega arith)).run b (packet ++ rest) v o
          (u ∙ append_assoc (var_bytes int 0) packet rest) in
      let zero_byte : length (var_bytes int 0) ≡ 1 = ap length (seven_bits-last 3 0 refl) in
      let len = length-append (var_bytes int 0) packet in
      let (q, made, holds) =
        read_packet-Holds (length (var_bytes int 0 ++ packet)) 1 id bytes rest one.after small
          (omega (arith, zero_byte, len)) (omega arith) one.valid (one.same_order ∙ o)
          one.remains in
      (q, rw (one.returns, read_compressed) made, holds)

  -- A packet that is compressed has its length before it, and is read from what is uncompressed.
  uncompressed :
      (rest : List ℕ) (b : ByteBuffer)
      → IsLength (length packet)
      → IsLength (length (var_bytes int (length packet) ++ compress z packet))
      → IsReady b
      → b.is_big_endian ≡ true
      → unread b ≡ (var_bytes int (length packet) ++ compress z packet) ++ rest
      → read_compressed z (length (var_bytes int (length packet) ++ compress z packet)) b
        ≡ read_packet (length packet) 0 (held_lem packet).buffer
  unfolding read_compressed
  uncompressed rest b short fits v o u =
      let n = length packet in
      let packed = compress z packet in
      let one =
        (read_var_numeric-Reads {e = true} int n (omega arith)).run b (packed ++ rest) v o
          (u ∙ append_assoc (var_bytes int n) packed rest) in
      let there : 0 < n = omega (arith, var_bytes-pos id, length-append (var_bytes int id) bytes) in
      let cast = widened n short in
      let asked : not (sign_extend int ulong n == 0) ≡ true = ground arith in
      let m =
        (length (var_bytes int n ++ packed)
          + 2 ^ 64
          - get_var_numeric_length int (truncate_to int (sign_extend int ulong n)))
        % 2 ^ 64 in
      let cut : truncate_to int (sign_extend int ulong n) ≡ n = omega (arith, cast) in
      let counted : length packed ≡ m = omega (
        arith,
        length-append (var_bytes int n) packed,
        ap (get_var_numeric_length int) cut,
        length-var_bytes int n (omega arith),
      ) in
      let two =
        (read_bytes-Reads {e = true} packed m counted).run one.after rest one.valid
          (one.same_order ∙ o) one.remains in
      let plain = held_lem packet in
      let back = ap (uncompress z packed) cast ∙ uncompress-compress z laws packet in
      rw (one.returns, asked, two.returns, back, plain.made, read_compressed)
        (ap (λ t. read_packet t 0 plain.buffer) cast)

  read_large :
      (rest : List ℕ) (b : ByteBuffer)
      → IsLength (length packet)
      → IsLength (length (var_bytes int (length packet) ++ compress z packet))
      → IsReady b
      → b.is_big_endian ≡ true
      → unread b ≡ (var_bytes int (length packet) ++ compress z packet) ++ rest
      → (q : ZincPacket) × (read_compressed z
            (length (var_bytes int (length packet) ++ compress z packet))
            b
          ≡ some q)
        × Holds id bytes q
  read_large rest b short fits v o u =
      let plain = held_lem packet in
      let (q, made, holds) =
        read_packet-Holds (length packet) 0 id bytes [] plain.buffer small (omega arith)
          (omega arith) plain.valid plain.order (plain.all_unread ∙ sym (append-nil packet)) in
      (q, uncompressed rest b short fits v o u ∙ made, holds)

  as_read :
      {xs ys : List ℕ} (b : ByteBuffer)
      → xs ≡ ys
      → (q : ZincPacket) × (read_compressed z (length xs) b ≡ some q) × Holds id bytes q
      → (q : ZincPacket) × (read_compressed z (length ys) b ≡ some q) × Holds id bytes q
  as_read b same =
      subst (λ t. (q : ZincPacket) × (read_compressed z (length t) b ≡ some q) × Holds id bytes q)
        same

  -- What stands after the length is read as the packet.
  read_payload :
      (compressed : Bool) (rest : List ℕ) (b : ByteBuffer)
      → IsLength (length packet)
      → IsLength (length (payload z threshold compressed packet))
      → IsReady b
      → b.is_big_endian ≡ true
      → unread b ≡ payload z threshold compressed packet ++ rest
      → (q : ZincPacket) × ((if compressed
            then read_compressed z (length (payload z threshold compressed packet)) b
            else read_packet (length (payload z threshold compressed packet)) 0 b)
          ≡ some q)
        × Holds id bytes q
  read_payload false rest b short fits v o u =
      read_packet-Holds (length packet) 0 id bytes rest b small (omega arith) (omega arith) v o u
  read_payload true rest b short fits v o u =
      elim (Bool-cases (int_ltb (length packet) threshold)) [
        | inl below ↦
            let same =
              ap
                (λ k.
                  if k
                  then var_bytes int 0 ++ packet
                  else var_bytes int (length packet) ++ compress z packet)
                below in
            as_read b (sym same) (
              read_small rest b (subst (λ t. IsLength (length t)) same fits) v o
                (u ∙ ap (λ t. t ++ rest) same))
        | inr above ↦
            let same =
              ap
                (λ k.
                  if k
                  then var_bytes int 0 ++ packet
                  else var_bytes int (length packet) ++ compress z packet)
                above in
            as_read b (sym same) (
              read_large rest b short (subst (λ t. IsLength (length t)) same fits) v o
                (u ∙ ap (λ t. t ++ rest) same))
      ]

  -- A frame that is next in the buffer is read as the packet that it holds, and just the frame is
  -- drained.
  pub read_frame-Holds :
      (c : ZincConnection) (rest : List ℕ) (b : ByteBuffer)
      → IsLength (length packet)
      → IsLength (length (payload z threshold c.is_compressed packet))
      → IsReady b
      → b.is_big_endian ≡ true
      → unread b ≡ frame_of (payload z threshold c.is_compressed packet) ++ rest
      → (q : ZincPacket) × (read_frame z b c
          ≡ some (record {
            packet = q;
            drained = length (frame_of (payload z threshold c.is_compressed packet));
            connection = record c { should_continue = false };
          }))
        × Holds id bytes q
  unfolding read_frame
  read_frame-Holds c rest b short fits v o u =
      let xs = payload z threshold c.is_compressed packet in
      let n = length xs in
      let one =
        (read_var_numeric-Reads {e = true} int n (omega arith)).run b (xs ++ rest) v o
          (u ∙ append_assoc (var_bytes int n) xs rest) in
      let cast = widened n fits in
      let enough : ltb (size one.after) n ≡ false = le→ltb_false (size one.after) n (
        omega (
          arith,
          length-unread one.after one.valid,
          ap length one.remains,
          length-append xs rest,
        )) in
      let (q, made, holds) =
        read_payload c.is_compressed rest one.after short fits one.valid (one.same_order ∙ o)
          one.remains in
      let kept : truncate_to int n ≡ n = omega arith in
      let counted : (get_var_numeric_length int (truncate_to int n) + n) % 2 ^ 64
          ≡ length (frame_of xs) =
        omega (
          arith,
          length-seven_bits 4 n,
          ap (get_var_numeric_length int) kept,
          length-var_bytes int n (omega arith),
          length-append (var_bytes int n) xs,
        ) in
      (q, rw (one.returns, cast, enough, made, counted, read_frame) refl, holds)
