-- ===== src/Server/Logins/Packets.antt =====
-- The compression packet and the request for encryption, as the client reads them.
use zinc.Common.{
  ℕ, ◌+◌, ◌^◌, ◌<◌, ◌≡◌, refl, ap, sym, subst, ◌∙◌, arith, Bool, true, false, Option, some, List,
  [], ◌∷◌, ◌++◌, drop, append-nil, length, length-append, inl, inr, if◌then◌else◌,
}
use zinc.Common.Slices.{drop-append_length}
use zinc.ByteBuffer.Rules.{Writes, Writes-bind}
use zinc.ByteBuffer.Raw.{write_byte-Writes}
use zinc.Numeric.{int}
use zinc.VarNumeric.Groups.{var_bytes}
use zinc.Text.Strings.{IsLength, prefixed, write_string-Writes}
use zinc.Arrays.Sequences.{prefixed_bytes-Writes}
use zinc.Packets.Copies.{Holds}
use zinc.Wrappers.{Cipher, IsCipher, Zlib, IsZlib}
use zinc.Connection.{login, ZincConnection, Received, set_is_compressed, read}
use zinc.Connection.Channels.{send_with, setup_compression}
use zinc.Connection.Channels.Setup.{read-send_with, read-setup_compression}
use zinc.Connection.Framing.Packed.{payload, frame_of}
use zinc.Connection.Framing.Plain.{packet_bytes}
use zinc.Server.Logins.{LoginConfig, write_request}

-- What the request holds.
abbrev pub request_bytes : List ℕ → List ℕ → Bool → List ℕ
request_bytes public_key token online_mode =
    prefixed []
    ++ (prefixed public_key ++ (prefixed token ++ ((if online_mode then 1 else 0) ∷ [])))

request-Writes :
    (public_key token : List ℕ) (online_mode : Bool)
    → IsLength (length public_key)
    → IsLength (length token)
    → Writes true
        (write_request public_key token online_mode)
        (request_bytes public_key token online_mode)
unfolding write_request
request-Writes public_key token online_mode hk ht =
    Writes-bind (write_string-Writes [] (omega arith)) (
      Writes-bind (prefixed_bytes-Writes public_key hk) (
        Writes-bind (prefixed_bytes-Writes token ht)
          (write_byte-Writes (if online_mode then 1 else 0))))

-- The two packets, as the other end reads them one after the other: the rest of the input once it has
-- drained the first, and with compression from there on.
pub record IsRequested (k : Cipher) (z : Zlib) (threshold : ℕ) (request : List ℕ)
    (d : ZincConnection) (sent : List ℕ) : Type 0 where
  pub first : Received
  pub second : Received
  pub reads_first : read k z sent d ≡ some first
  pub holds_first : Holds 3 (var_bytes int threshold) first.packet
  pub reads_second :
      read k z (drop first.drained sent) (set_is_compressed true first.connection) ≡ some second
  pub holds_second : Holds 1 request second.packet
  pub drains_all : first.drained + second.drained ≡ length sent

-- The request alone, without compression.
pub record IsRequestedPlain (k : Cipher) (z : Zlib) (request : List ℕ) (d : ZincConnection)
    (sent : List ℕ) : Type 0 where
  pub only : Received
  pub reads_only : read k z sent d ≡ some only
  pub holds_only : Holds 1 request only.packet
  pub drains_only : only.drained ≡ length sent

-- The results of one call are one result.
same_result :
    {o : Option (List ℕ × ZincConnection)} {x y : List ℕ} {c d : ZincConnection}
    → o ≡ some (x, c)
    → o ≡ some (y, d)
    → (x ≡ y) × (c ≡ d)
same_result p q = let e = sym p ∙ q in (cc, cc)

module _ (k : Cipher) (z : Zlib) (g : LoginConfig) (public_key token : List ℕ)
    (cipher_laws : IsCipher k) (zlib_laws : IsZlib z) (fits : g.threshold < 2 ^ 32)
    (short_key : IsLength (length public_key)) (short_token : IsLength (length token)) where
  abbrev request : List ℕ
  request = request_bytes public_key token g.online_mode

  -- The second packet, with the first before it.
  pub two_packets :
      0 < g.threshold
      → g.threshold < 2 ^ 31
      → (c d : ZincConnection) → c.state ≡ login
      → c.is_compressed ≡ false
      → d.is_compressed ≡ false
      → c.is_encrypted ≡ false
      → d.is_encrypted ≡ false
      → IsLength (length (packet_bytes 1 request))
      → IsLength (length (frame_of (payload z g.threshold true (packet_bytes 1 request))))
      → (sent : List ℕ) × (c₁ : ZincConnection) × (more : List ℕ) × (c₂ : ZincConnection)
        × (setup_compression k z g.threshold c ≡ some (sent, c₁))
        × (send_with k z g.threshold 1 (write_request public_key token g.online_mode) c₁
            ≡ some (more, c₂))
        × IsRequested k z g.threshold request d (sent ++ more)
  unfolding set_is_compressed
  two_packets compresses positive c d at_login pc pd ec ed short fits₂ =
      let w = request-Writes public_key token g.online_mode short_key short_token in
      let (sent, c₁, r, sets, _, _, _, on, paired) =
        read-setup_compression k z g.threshold c d [] cipher_laws zlib_laws fits at_login pc pd
          (inl (ec, ed)) (inl ec) in
      let fits₁ =
        subst (λ f. IsLength (length (frame_of (payload z g.threshold f (packet_bytes 1 request)))))
          (sym on) fits₂ in
      let (more, c₂, _, sends, _, _, _, _, _, _, _) =
        read-send_with k z g.threshold 1 c₁ (set_is_compressed true r.connection) [] cipher_laws
          zlib_laws (omega arith) w short fits₁ on paired (inr refl) in
      let (sent', c', first, sets', reads, held, drained, on', paired') =
        read-setup_compression k z g.threshold c d more cipher_laws zlib_laws fits at_login pc pd
          (inl (ec, ed)) (inl ec) in
      let fits' =
        subst (λ f. IsLength (length (frame_of (payload z g.threshold f (packet_bytes 1 request)))))
          (sym on') fits₂ in
      let (more', c'', second, sends', reads', held', drained', _, _, _, _) =
        read-send_with k z g.threshold 1 c' (set_is_compressed true first.connection) [] cipher_laws
          zlib_laws (omega arith) w short fits' on' paired' (inr refl) in
      let (same_sent, same_sender) = same_result sets sets' in
      let (same_more, _) = same_result sends (
        ap (λ t. send_with k z g.threshold 1 (write_request public_key token g.online_mode) t)
          same_sender
        ∙ sends') in
      let counted : first.drained ≡ length sent = drained ∙ ap length (sym same_sent) in
      let left : drop first.drained (sent ++ more) ≡ more' ++ [] =
        ap (λ n. drop n (sent ++ more)) counted
        ∙ (drop-append_length sent more ∙ (same_more ∙ sym (append-nil more'))) in
      (
        sent,
        c₁,
        more,
        c₂,
        sets,
        sends,
        record {
          first = first;
          second = second;
          reads_first = ap (λ t. read k z (t ++ more) d) same_sent ∙ reads;
          holds_first = held;
          reads_second =
              ap (λ t. read k z t (set_is_compressed true first.connection)) left ∙ reads';
          holds_second = held';
          drains_all =
              omega (arith, counted, drained', ap length same_more, length-append sent more);
        },
      )

  -- The request as the only packet.
  pub one_packet :
      (c d : ZincConnection)
      → c.is_compressed ≡ false
      → d.is_compressed ≡ false
      → c.is_encrypted ≡ false
      → d.is_encrypted ≡ false
      → IsLength (length (packet_bytes 1 request))
      → IsLength (length (frame_of (packet_bytes 1 request)))
      → (sent : List ℕ) × (c₁ : ZincConnection) × (send_with k z g.threshold 1
            (write_request public_key token g.online_mode)
            c
          ≡ some (sent, c₁))
        × IsRequestedPlain k z request d sent
  one_packet c d pc pd ec ed short short_frame =
      let w = request-Writes public_key token g.online_mode short_key short_token in
      let fits_frame =
        subst (λ f. IsLength (length (frame_of (payload z g.threshold f (packet_bytes 1 request)))))
          (sym pc) short_frame in
      let (sent, c₁, r, sends, reads, held, drained, _, _, _, _) =
        read-send_with k z g.threshold 1 c d [] cipher_laws zlib_laws (omega arith) w short
          fits_frame (pc ∙ sym pd) (inl (ec, ed)) (inr refl) in
      (
        sent,
        c₁,
        sends,
        record {
          only = r;
          reads_only = ap (λ t. read k z t d) (sym (append-nil sent)) ∙ reads;
          holds_only = held;
          drains_only = drained;
        },
      )
