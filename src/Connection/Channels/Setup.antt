-- ===== src/Connection/Channels/Setup.antt =====
-- The packet that sets up compression.
use zinc.Common.{
  ℕ, ◌^◌, ◌<◌, ◌≡◌, refl, ap, ap₂, sym, subst, ◌∙◌, arith, true, false, not, if◌then◌else◌, some,
  List, [], ◌++◌, length, length-append,
}
use zinc.ByteBuffer.{Action, empty, get_bytes}
use zinc.ByteBuffer.Rules.{Writes, IsReady}
use zinc.ByteBuffer.Raw.{empty-IsReady, get_bytes-fresh}
use zinc.Numeric.{int}
use zinc.Text.Strings.{IsLength}
use zinc.VarNumeric.Groups.{var_bytes, write_var_numeric-Writes, length-seven_bits}
use zinc.Packets.{ZincPacket, new_packet}
use zinc.Packets.Copies.{Holds}
use zinc.Wrappers.{Cipher, IsCipher, Zlib, IsZlib}
use zinc.Connection.{login, ZincConnection, Received, set_is_compressed, read}
use zinc.Connection.Framing.Packed.{payload, frame_of}
use zinc.Connection.Framing.Plain.{packet_bytes}
use zinc.Connection.Framing.Sealed.{IsPaired, IsSameSender, IsSameReceiver, CanFollow}
use zinc.Connection.Framing.RoundTrip.{read-send}
use zinc.Connection.Channels.{is_login, packet_with, send_with, send_compression, setup_compression}

packet_with_lem :
    (id : ℕ) {m : Action (Unit {0})} {bytes : List ℕ}
    → Writes true m bytes
    → (p : ZincPacket) × (packet_with id m ≡ some p)
      × (p.id ≡ id)
      × IsReady p.data_
      × (get_bytes p.data_ ≡ bytes)
unfolding packet_with new_packet empty
packet_with_lem id {bytes = bytes} w =
    let one = w.run (empty true) (empty-IsReady true) refl in
    (
      record { id = id; data_ = one.after },
      rw (one.returns, packet_with) refl,
      refl,
      one.joined.valid,
      get_bytes-fresh true bytes one,
    )

-- What an action writes is sent under a number, and read at the other end.
pub read-send_with :
    (k : Cipher) (z : Zlib) (threshold id : ℕ) (c d : ZincConnection) (rest : List ℕ)
    {m : Action (Unit {0})} {bytes : List ℕ}
    → IsCipher k
    → IsZlib z
    → id < 2 ^ 32
    → Writes true m bytes
    → IsLength (length (packet_bytes id bytes))
    → IsLength (length (frame_of (payload z threshold c.is_compressed (packet_bytes id bytes))))
    → c.is_compressed ≡ d.is_compressed
    → IsPaired c d
    → CanFollow c rest
    → (sent : List ℕ) × (sender : ZincConnection) × (r : Received) × (send_with k z threshold id m c
        ≡ some (sent, sender))
      × (read k z (sent ++ rest) d ≡ some r)
      × Holds id bytes r.packet
      × (r.drained ≡ length sent)
      × IsSameSender c sender
      × IsSameReceiver d r.connection
      × (sender.is_compressed ≡ r.connection.is_compressed)
      × IsPaired sender r.connection
unfolding send_with
read-send_with k z threshold id c d rest cipher_laws zlib_laws small w short fits same paired
      follows =
    let (packet, made, numbered, ready, holds) = packet_with_lem id w in
    let same_bytes = ap₂ packet_bytes numbered holds in
    let (sent, sender, r, sends, reads, held, drained, same_sender, same_receiver, alike, still) =
      read-send k z threshold packet c d rest cipher_laws zlib_laws (omega (arith, numbered)) ready
        (subst (λ t. IsLength (length t)) (sym same_bytes) short)
        (subst (λ t. IsLength (length (frame_of (payload z threshold c.is_compressed t))))
          (sym same_bytes) fits)
        same paired follows in
    let held_bytes =
      subst (λ t. Holds id t r.packet) holds
        (subst (λ n. Holds n (get_bytes packet.data_) r.packet) numbered held) in
    (
      sent,
      sender,
      r,
      rw (made, send_with) sends,
      reads,
      held_bytes,
      drained,
      same_sender,
      same_receiver,
      alike,
      still,
    )

-- In the login state `setupCompression` sends the packet 3 with the threshold, which the other end reads
-- as a packet without compression; from then on the sender compresses, and the ends are still paired.
pub read-setup_compression :
    (k : Cipher) (z : Zlib) (threshold : ℕ) (c d : ZincConnection) (rest : List ℕ)
    → IsCipher k
    → IsZlib z
    → threshold < 2 ^ 32
    → c.state ≡ login
    → c.is_compressed ≡ false
    → d.is_compressed ≡ false
    → IsPaired c d
    → CanFollow c rest
    → (sent : List ℕ) × (sender : ZincConnection) × (r : Received) × (setup_compression k z
          threshold c
        ≡ some (sent, sender))
      × (read k z (sent ++ rest) d ≡ some r)
      × Holds 3 (var_bytes int threshold) r.packet
      × (r.drained ≡ length sent)
      × (sender.is_compressed ≡ true)
      × IsPaired sender r.connection
unfolding setup_compression send_compression send_with set_is_compressed
read-setup_compression k z threshold c d rest cipher_laws zlib_laws fits at_login p q paired
      follows =
    let bytes = packet_bytes 3 (var_bytes int threshold) in
    let short : IsLength (length bytes) = omega (
      arith,
      length-append (var_bytes int 3) (var_bytes int threshold),
      length-seven_bits 4 3,
      length-seven_bits 4 threshold,
    ) in
    let fits_frame : IsLength (length (frame_of bytes)) = omega (
      arith,
      short,
      length-append (var_bytes int (length bytes)) bytes,
      length-append (var_bytes int 3) (var_bytes int threshold),
      length-seven_bits 4 (length bytes),
      length-seven_bits 4 3,
      length-seven_bits 4 threshold,
    ) in
    let (sent, sender, r, sends, reads, held, drained, _, _, _, still) =
      read-send_with k z threshold 3 c d rest cipher_laws zlib_laws (omega arith)
        (write_var_numeric-Writes int threshold fits) short
        (subst (λ f. IsLength (length (frame_of (payload z threshold f bytes)))) (sym p) fits_frame)
        (p ∙ sym q) paired follows in
    let compressed : send_compression k z threshold c ≡ some (sent, set_is_compressed true sender) =
      rw (sends, send_compression) refl in
    (
      sent,
      set_is_compressed true sender,
      r,
      ap (λ f. if not f then some ([], c) else send_compression k z threshold c)
            (ap is_login at_login)
          ∙ compressed,
      reads,
      held,
      drained,
      refl,
      still,
    )
