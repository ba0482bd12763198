-- ===== src/Connection/Framing/RoundTrip.antt =====
-- A packet that is sent over a connection and read at its other end.
use zinc.Common.{
  ℕ, ◌+◌, ◌^◌, ◌<◌, ◌≡◌, refl, ap, sym, subst, ◌∙◌, arith, true, false, some, List, ◌++◌, length,
  length-append,
}
use zinc.ByteBuffer.{empty, size, get_bytes}
use zinc.ByteBuffer.Rules.{IsReady}
use zinc.ByteBuffer.Raw.{empty-IsReady}
use zinc.Numeric.{int, truncate_to}
use zinc.VarNumeric.{get_var_numeric_length}
use zinc.VarNumeric.Groups.{var_bytes}
use zinc.Text.Strings.{IsLength}
use zinc.Packets.{ZincPacket}
use zinc.Packets.Copies.{Holds, get_data_lem}
use zinc.Wrappers.{Cipher, IsCipher, Zlib, IsZlib}
use zinc.Connection.{ZincConnection, Received, send, read}
use zinc.Connection.Framing.Plain.{packet_bytes, length-packet_bytes}
use zinc.Connection.Framing.Packed.{payload, frame_of, frame-Writes}
use zinc.Connection.Framing.Received.{read_frame-Holds}
use zinc.Connection.Framing.Sealed.{
  IsPaired, IsSameSender, IsSameReceiver, CanFollow, filled, sealed,
}

-- A packet whose frame has a length that an `int` holds is sent, whether or not packets are compressed and
-- encrypted; the other end, with the same compression and the other half of the cipher, reads from the
-- bytes sent a packet with its id and its bytes, and drains just the bytes sent, also where more wait
-- behind a frame in plain text. Of the sender only the state of the cipher changes, of the other end the
-- state of the cipher and the flag to continue, which is cleared; so both still compress alike, and the
-- halves of the cipher still fit, for the next packet.
pub read-send :
    (k : Cipher) (z : Zlib) (threshold : ℕ) (p : ZincPacket) (c d : ZincConnection) (rest : List ℕ)
    → IsCipher k
    → IsZlib z
    → p.id < 2 ^ 32
    → IsReady p.data_
    → IsLength (length (packet_bytes p.id (get_bytes p.data_)))
    → IsLength (
        length
          (frame_of (payload z threshold c.is_compressed (packet_bytes p.id (get_bytes p.data_)))))
    → c.is_compressed ≡ d.is_compressed
    → IsPaired c d
    → CanFollow c rest
    → (sent : List ℕ) × (sender : ZincConnection) × (r : Received) × (send k z threshold p c
        ≡ some (sent, sender))
      × (read k z (sent ++ rest) d ≡ some r)
      × Holds p.id (get_bytes p.data_) r.packet
      × (r.drained ≡ length sent)
      × IsSameSender c sender
      × IsSameReceiver d r.connection
      × (sender.is_compressed ≡ r.connection.is_compressed)
      × IsPaired sender r.connection
unfolding send read empty
read-send k z threshold p c d rest cipher_laws zlib_laws small ready short fits same paired
      follows =
    let bytes = get_bytes p.data_ in
    let packet = packet_bytes p.id bytes in
    let (copy, copied, copy_held, copy_sized) = get_data_lem p ready in
    let counted : truncate_to int (get_var_numeric_length int p.id + size copy) ≡ length packet =
      omega (arith, length-packet_bytes p.id bytes small, copy_sized) in
    let inside = payload z threshold c.is_compressed packet in
    let xs = frame_of inside in
    let fits_inside : IsLength (length inside) =
      omega (arith, length-append (var_bytes int (length inside)) inside) in
    let one =
      (frame-Writes z threshold p.id bytes small c.is_compressed short fits_inside).run (empty true)
        (empty-IsReady true) refl in
    let s = sealed k cipher_laws c d one.after xs rest paired follows fits (filled xs one) in
    let alike = same ∙ sym (ap (λ t. t.is_compressed) s.receiver_keeps) in
    let (q, made, holds) =
      read_frame-Holds z zlib_laws threshold p.id bytes small s.receiver rest s.buffer short
        (subst (λ f. IsLength (length (payload z threshold f packet))) alike fits_inside)
        s.opened.ready s.opened.order
        (s.opened.all_unread ∙ ap (λ f. frame_of (payload z threshold f packet) ++ rest) alike) in
    let got : Received = record {
      packet = q;
      drained = length (frame_of (payload z threshold s.receiver.is_compressed packet));
      connection = record s.receiver { should_continue = false };
    } in
    (
      s.sent,
      s.sender,
      got,
      rw (copied, counted, copy_held, one.returns, send) s.encrypted,
      rw (s.decrypted, read) made,
      holds,
      ap (λ f. length (frame_of (payload z threshold f packet))) (sym alike) ∙ sym s.same_length,
      s.sender_keeps,
      ap {B = ZincConnection} (λ t. record t { should_continue = false }) s.receiver_keeps,
      ap (λ t. t.is_compressed) s.sender_keeps ∙ alike,
      s.paired,
    )
