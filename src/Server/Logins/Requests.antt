-- ===== src/Server/Logins/Requests.antt =====
-- What a client that may join is sent: the request for encryption, and the compression packet before it
-- where the threshold is positive.
use zinc.Common.{
  ℕ, ◌^◌, ◌<◌, ◌≤◌, ◌≡◌, refl, ap, ◌∙◌, arith, true, false, none, some, List, [], ◌++◌, length,
  le→ltb_false, inl, inr, ◌⊎◌, if◌then◌else◌, ltb,
}
use native.Mathlib.Decide.{dec_lt}
use zinc.ByteBuffer.{◌>>=◌, pure}
use zinc.ByteBuffer.Rules.{Reads, Reads-bind, Reads-map, IsReady, unread}
use zinc.ByteBuffer.Raw.{read_bytes-Reads}
use zinc.Text.Strings.{IsLength, prefixed, read_string-Reads}
use zinc.Vectors.{read_uuid}
use zinc.Packets.{ZincPacket}
use zinc.Wrappers.{Cipher, IsCipher, Zlib, IsZlib}
use zinc.Connection.{login, ZincConnection, int_ltb}
use zinc.Connection.Channels.{send_with, setup_compression}
use zinc.Connection.Framing.Packed.{payload, frame_of}
use zinc.Connection.Framing.Plain.{packet_bytes}
use zinc.Server.{Client}
use zinc.Server.Logins.Packets.{
  request_bytes, IsRequested, IsRequestedPlain, two_packets, one_packet,
}
use zinc.Server.Logins.{
  LoginConfig, latest_minecraft_version_protocol, login_refusal, requested, read_login,
  write_request, start_compression, request_encryption, on_login_name, on_login_start,
}

-- What a login start packet holds.
abbrev pub login_bytes : List ℕ → List ℕ → List ℕ
login_bytes name uuid = prefixed name ++ uuid

login-Reads :
    (name uuid : List ℕ)
    → IsLength (length name)
    → length uuid ≡ 16
    → Reads true read_login (login_bytes name uuid) (name, uuid)
unfolding read_login read_uuid
login-Reads name uuid short sized =
    Reads-bind (λ player_name. read_uuid >>= (λ player_uuid. pure (player_name, player_uuid)))
      (read_string-Reads name short)
      (Reads-map (λ player_uuid. (name, player_uuid)) (read_bytes-Reads uuid 16 sized))

-- Who may join: not marked for refusal, while there is room, with the version of the server.
abbrev pub MayJoin : LoginConfig → ℕ → Client → Type 0
MayJoin g online_players client =
    (client.connection.kick_at_login ≡ 0)
    × (online_players < g.max_player_count)
    × (g.max_player_count < 2 ^ 31)
    × (client.protocol_version ≡ latest_minecraft_version_protocol)

not_refused :
    (g : LoginConfig) (online_players : ℕ) (client : Client)
    → MayJoin g online_players client
    → login_refusal g online_players client ≡ none
unfolding login_refusal
not_refused g online_players client (unmarked, room, small, version) =
    ground (arith, unmarked, version)

-- Two packets for a threshold that is positive as an `int`, and else one.
abbrev pub IsAsked : Cipher → Zlib → ℕ → List ℕ → ZincConnection → List ℕ → Type 0
IsAsked k z threshold request d sent =
    ((0 < threshold) × (threshold < 2 ^ 31) × IsRequested k z threshold request d sent)
    ⊎ (((threshold ≡ 0) ⊎ (2 ^ 31 ≤ threshold)) × IsRequestedPlain k z request d sent)

module _ (k : Cipher) (z : Zlib) (g : LoginConfig) (public_key token : List ℕ)
    (cipher_laws : IsCipher k) (zlib_laws : IsZlib z) (fits : g.threshold < 2 ^ 32)
    (short_key : IsLength (length public_key)) (short_token : IsLength (length token)) where
  abbrev request : List ℕ
  request = request_bytes public_key token g.online_mode

  named_lem :
      (client : Client) (name uuid sent more : List ℕ) (c₁ c₂ : ZincConnection)
      → length name ≤ 16
      → start_compression k z g public_key token client.connection ≡ some (sent, c₁)
      → send_with k z g.threshold 1 (write_request public_key token g.online_mode) c₁
        ≡ some (more, c₂)
      → on_login_name k z g public_key token name uuid client
        ≡ some (
          requested (sent ++ more),
          record client {
            player_name = name;
            player_uuid = uuid;
            verify_token = token;
            connection = c₂;
          },
        )
  unfolding on_login_name request_encryption
  named_lem client name uuid sent more c₁ c₂ short starts sends =
      let allowed : ltb 16 (length name) ≡ false = le→ltb_false 16 (length name) short in
      rw (allowed, starts, sends, on_login_name, request_encryption) refl

  -- What is sent to a client in the login state, whatever the threshold.
  asked_lem :
      (client : Client) (name uuid : List ℕ) (d : ZincConnection)
      → length name ≤ 16
      → client.connection.state ≡ login
      → client.connection.is_compressed ≡ false
      → d.is_compressed ≡ false
      → client.connection.is_encrypted ≡ false
      → d.is_encrypted ≡ false
      → IsLength (length (packet_bytes 1 request))
      → IsLength (length (frame_of (packet_bytes 1 request)))
      → IsLength (length (frame_of (payload z g.threshold true (packet_bytes 1 request))))
      → (sent : List ℕ) × (c : ZincConnection) × (on_login_name k z g public_key token name uuid
            client
          ≡ some (
            requested sent,
            record client {
              player_name = name;
              player_uuid = uuid;
              verify_token = token;
              connection = c;
            },
          ))
        × IsAsked k z g.threshold request d sent
  unfolding start_compression
  asked_lem client name uuid d short at_login pc pd ec ed short_request short_frame fits₂ =
      elim (dec_lt 0 g.threshold) [
        | no none_wanted ↦ alone (inl (omega (arith, none_wanted)))
        | yes wanted ↦ elim (dec_lt g.threshold (2 ^ 31)) [
          | no negative ↦ alone (inr (omega (arith, negative)))
          | yes positive ↦
              let (sent, c₁, more, c₂, sets, sends, both) =
                two_packets k z g public_key token cipher_laws zlib_laws fits short_key short_token
                  wanted positive client.connection d at_login pc pd ec ed short_request fits₂ in
              let compresses : int_ltb 0 g.threshold ≡ true = ground arith in
              let starts : start_compression k z g public_key token client.connection
                  ≡ some (sent, c₁) =
                ap
                  (λ t.
                    if t
                    then setup_compression k z g.threshold client.connection
                    else some ([], client.connection))
                  compresses
                ∙ sets in
              (
                sent ++ more,
                c₂,
                named_lem client name uuid sent more c₁ c₂ short starts sends,
                inl (wanted, positive, both),
              )
        ]
      ]
    where
      alone :
          ((g.threshold ≡ 0) ⊎ (2 ^ 31 ≤ g.threshold))
          → (sent : List ℕ) × (c : ZincConnection) × (on_login_name k z g public_key token name uuid
                client
              ≡ some (
                requested sent,
                record client {
                  player_name = name;
                  player_uuid = uuid;
                  verify_token = token;
                  connection = c;
                },
              ))
            × IsAsked k z g.threshold request d sent
      alone unwanted =
          let (sent, c₁, sends, request_read) =
            one_packet k z g public_key token cipher_laws zlib_laws fits short_key short_token
              client.connection d pc pd ec ed short_request short_frame in
          let stays : int_ltb 0 g.threshold ≡ false = ground arith in
          let starts : start_compression k z g public_key token client.connection
              ≡ some ([], client.connection) =
            ap
              (λ t.
                if t
                then setup_compression k z g.threshold client.connection
                else some ([], client.connection))
              stays in
          (
            sent,
            c₁,
            named_lem client name uuid [] sent client.connection c₁ short starts sends,
            inr (unwanted, request_read),
          )

  -- A client in the login state that is not marked for refusal, finds room and has the server's version, whose
  -- connection neither compresses nor encrypts yet, and that starts its login with a name of at most 16
  -- bytes, is sent, where the compression threshold is positive as an `int`, two packets: the threshold,
  -- which the client reads without compression, and then with compression the request for encryption,
  -- with the public key and the token. Where the threshold is 0 or negative it is sent the request
  -- alone, which it reads without compression. Name, id and token are kept. The frames of the request
  -- have lengths that an `int` holds.
  pub on_login_start_lem :
      (online_players : ℕ) (name uuid rest : List ℕ) (packet : ZincPacket) (client : Client)
      (d : ZincConnection)
      → MayJoin g online_players client
      → length name ≤ 16
      → length uuid ≡ 16
      → IsReady packet.data_
      → packet.data_.is_big_endian ≡ true
      → unread packet.data_ ≡ login_bytes name uuid ++ rest
      → client.connection.state ≡ login
      → client.connection.is_compressed ≡ false
      → d.is_compressed ≡ false
      → client.connection.is_encrypted ≡ false
      → d.is_encrypted ≡ false
      → IsLength (length (packet_bytes 1 request))
      → IsLength (length (frame_of (packet_bytes 1 request)))
      → IsLength (length (frame_of (payload z g.threshold true (packet_bytes 1 request))))
      → (sent : List ℕ) × (c : ZincConnection) × (on_login_start k z g public_key token
            online_players packet client
          ≡ some (
            requested sent,
            record client {
              player_name = name;
              player_uuid = uuid;
              verify_token = token;
              connection = c;
            },
          ))
        × IsAsked k z g.threshold request d sent
  unfolding on_login_start
  on_login_start_lem online_players name uuid rest packet client d joins short sized ready order u
        at_login pc pd ec ed short_request short_frame fits₂ =
      let (sent, c, named, asked) =
        asked_lem client name uuid d short at_login pc pd ec ed short_request short_frame fits₂ in
      let one = (login-Reads name uuid (omega arith) sized).run packet.data_ rest ready order u in
      (
        sent,
        c,
        rw (not_refused g online_players client joins, one.returns, on_login_start) named,
        asked,
      )
