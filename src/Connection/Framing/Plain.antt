-- ===== src/Connection/Framing/Plain.antt =====
-- The packet id and the data in a buffer.
use zinc.Common.{
  ℕ, ◌+◌, ◌-◌, ◌%◌, ◌^◌, ◌<◌, ◌≤◌, ◌≡◌, refl, subst, ◌∙◌, arith, true, some, List, ◌++◌,
  append_assoc, length, length-append, length-drop,
}
use zinc.Buffer.View.{contents, length-contents}
use zinc.ByteBuffer.{ByteBuffer, empty, size}
use zinc.Buffer
use zinc.ByteBuffer.Rules.{Writes, Writes-bind, IsReady, unread}
use zinc.ByteBuffer.Raw.{write_bytes-Writes, read_bytes-Reads, empty-IsReady, get_bytes-fresh}
use zinc.Numeric.{int}
use zinc.VarNumeric.{get_var_numeric_length}
use zinc.VarNumeric.Groups.{var_bytes, write_var_numeric-Writes, length-var_bytes}
use zinc.VarNumeric.RoundTrip.{read_var_numeric-Reads}
use zinc.Packets.{ZincPacket}
use zinc.Packets.Copies.{Holds, of_data-Holds}
use zinc.Connection.{write_packet, read_packet, packet_of}

abbrev pub packet_bytes : ℕ → List ℕ → List ℕ
packet_bytes id bytes = var_bytes int id ++ bytes

pub packet-Writes :
    (id : ℕ) (bytes : List ℕ)
    → id < 2 ^ 32
    → Writes true (write_packet id bytes) (packet_bytes id bytes)
unfolding write_packet
packet-Writes id bytes small =
    Writes-bind (write_var_numeric-Writes int id small) (write_bytes-Writes bytes)

pub length-packet_bytes :
    (id : ℕ) (bytes : List ℕ)
    → id < 2 ^ 32
    → length (packet_bytes id bytes) ≡ get_var_numeric_length int id + length bytes
length-packet_bytes id bytes small =
    omega (arith, length-append (var_bytes int id) bytes, length-var_bytes int id small)

packet_of-Holds :
    (id : ℕ) (bytes : List ℕ) → (q : ZincPacket) × (packet_of id bytes ≡ some q) × Holds id bytes q
unfolding empty
packet_of-Holds id bytes =
    let one = (write_bytes-Writes {e = true} bytes).run (empty true) (empty-IsReady true) refl in
    let (q, made, holds) = of_data-Holds id one.after one.joined.valid in
    (
      q,
      rw (one.returns, packet_of) made,
      subst (λ t. Holds id t q) (get_bytes-fresh true bytes one) holds,
    )

-- Where the packet's bytes are next, and `length` counts them and the `extra` bytes before, the packet
-- is read.
pub read_packet-Holds :
    (len extra id : ℕ) (bytes rest : List ℕ) (b : ByteBuffer)
    → id < 2 ^ 32
    → len ≡ length (packet_bytes id bytes) + extra
    → len < 2 ^ 63
    → IsReady b
    → b.is_big_endian ≡ true
    → unread b ≡ packet_bytes id bytes ++ rest
    → (q : ZincPacket) × (read_packet len extra b ≡ some q) × Holds id bytes q
unfolding read_packet
read_packet-Holds len extra id bytes rest b small counted fits v o u =
    let one =
      (read_var_numeric-Reads {e = true} int id small).run b (bytes ++ rest) v o
        (u ∙ append_assoc (var_bytes int id) bytes rest) in
    let two =
      (read_bytes-Reads {e = true} bytes
          ((len + 2 ^ 64 - (get_var_numeric_length int id + extra)) % 2 ^ 64)
          (omega (arith, length-packet_bytes id bytes small))).run
        one.after rest one.valid (one.same_order ∙ o) one.remains in
    let (q, made, holds) = packet_of-Holds id bytes in
    (q, rw (one.returns, two.returns, read_packet) made, holds)

-- No more is unread than the buffer holds.
pub length-unread : (b : ByteBuffer) → IsReady b → length (unread b) ≤ size b
unfolding size Buffer.get_writer
length-unread b v = omega (
  arith,
  length-drop (Buffer.read_position b.internal_buffer) (contents b.internal_buffer),
  length-contents b.internal_buffer v,
)
