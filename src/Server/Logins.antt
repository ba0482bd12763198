-- ===== src/Server/Logins.antt =====
-- The login start of `ZincServer::onRead` in src/network/minecraft/ZincServer.cpp: who is refused, and the
-- request for encryption that the others are sent. The public key and the random token are arguments.
pub mod Packets
pub mod Requests
pub mod Steps
use zinc.Common.{
  ℕ, ◌^◌, Bool, true, false, not, Option, none, some, List, [], ◌++◌, length, if◌then◌else◌, ◌==◌,
  ltb,
}
use zinc.Common.Texts.{codes}
use zinc.ByteBuffer.{Action, pure, ◌>>=◌, ◌>>◌, write_byte, write_unsigned_byte}
use zinc.Text.{write_string, read_string}
use zinc.Arrays.{write_prefixed_array}
use zinc.Vectors.{read_uuid}
use zinc.Packets.{ZincPacket}
use zinc.Wrappers.{Cipher, Zlib}
use zinc.Connection.{ZincConnection, int_ltb}
use zinc.Connection.Channels.{send_with, setup_compression}
use zinc.Server.{Client}

-- `g_zincConfig`, as far as a login asks it.
pub record LoginConfig : Type 0 where
  pub threshold : ℕ
  pub max_player_count : ℕ
  pub online_mode : Bool

abbrev pub latest_minecraft_version_protocol : ℕ
latest_minecraft_version_protocol = 770

abbrev pub kick_message : ℕ → List ℕ
kick_message n =
    if n == 1
    then codes "You have been rate limited. Try again later"
    else (if n == 2
        then codes "You have reached a maximum amount of concurrent account"
        else codes "Unknown error")

-- The error for a client that is refused before its name is read.
unfoldable pub login_refusal : LoginConfig → ℕ → Client → Option (List ℕ)
login_refusal g online_players client =
    if not (client.connection.kick_at_login == 0)
    then some (kick_message client.connection.kick_at_login)
    else (if not (int_ltb online_players g.max_player_count)
        then some (codes "Server is full")
        else (if int_ltb client.protocol_version latest_minecraft_version_protocol
            then some (codes "You are using outdated version")
            else (if int_ltb latest_minecraft_version_protocol client.protocol_version
                then some (codes "Server is using outdated version")
                else none)))

-- A call of `sendLoginError`, or the bytes that are sent.
pub data LoginAnswer : Type 0 where
  refused requested : List ℕ → LoginAnswer

unfoldable pub read_login : Action (List ℕ × List ℕ)
read_login = do player_name ← read_string; player_uuid ← read_uuid; pure (player_name, player_uuid)

unfoldable pub write_request : List ℕ → List ℕ → Bool → Action (Unit {0})
write_request public_key token online_mode = do
  write_string []
  write_prefixed_array write_unsigned_byte public_key
  write_prefixed_array write_unsigned_byte token
  write_byte (if online_mode then 1 else 0)

module _ (k : Cipher) (z : Zlib) (g : LoginConfig) (public_key : List ℕ) (token : List ℕ) where
  -- `setupCompression` where there is a threshold.
  unfoldable pub start_compression : ZincConnection → Option (List ℕ × ZincConnection)
  start_compression c =
      if int_ltb 0 g.threshold then setup_compression k z g.threshold c else some ([], c)

  -- The client with its token, after what `sent` holds was sent.
  unfoldable pub request_encryption : Client → Option (LoginAnswer × Client)
  request_encryption client = elim (start_compression client.connection) [
    | none ↦ none
    | some (sent, c) ↦
        elim (send_with k z g.threshold 1 (write_request public_key token g.online_mode) c) [
          | none ↦ none
          | some (request, c') ↦
              some (
                requested (sent ++ request),
                record client { verify_token = token; connection = c' },
              )
        ]
  ]

  unfoldable pub on_login_name : List ℕ → List ℕ → Client → Option (LoginAnswer × Client)
  on_login_name player_name player_uuid client =
      let named = record client { player_name = player_name; player_uuid = player_uuid } in
      if ltb 16 (length player_name)
      then some (refused (codes "Player name can't be longer than 16 characters"), named)
      else request_encryption named

  unfoldable pub on_login_start : ℕ → ZincPacket → Client → Option (LoginAnswer × Client)
  on_login_start online_players packet client = elim (login_refusal g online_players client) [
    | some message ↦ some (refused message, client)
    | none ↦ elim (read_login packet.data_) [
      | none ↦ none
      | some ((player_name, player_uuid), _) ↦ on_login_name player_name player_uuid client
    ]
  ]
