-- ===== src/Connection/Channels.antt =====
-- The login plugin channels of a connection, and the packets of inc/network/minecraft/ZincConnection.h that
-- a state gives their numbers: `setupCompression`, `sendCookieRequest` and `sendPluginMessage`.
pub mod Opened
pub mod Setup
use zinc.Common.{
  ℕ, ◌%◌, ◌^◌, Bool, true, false, not, Option, none, some, List, [], ◌∷◌, if◌then◌else◌, take,
}
use zinc.Common.Maps.{Key, text_key, find, contains, put, erase}
use zinc.Common.Texts.{codes}
use zinc.ByteBuffer.{Action, pure, ◌>>=◌, ◌>>◌, write_byte_array}
use zinc.Numeric.{int, from_memory}
use zinc.VarNumeric.{write_var_numeric}
use zinc.Text.{Identifier, to_string, write_identifier}
use zinc.Packets.{ZincPacket, default_packet}
use zinc.Wrappers.{Cipher, Zlib}
use zinc.Connection.{
  State, handshake, status, login, transfer, config, play, ZincConnection, set_is_compressed, send,
}

unfoldable pub is_login_plugin_channel_opened : List ℕ → ZincConnection → Bool
is_login_plugin_channel_opened id c = contains id c.opened_login_plugin_channels

unfoldable pub get_login_plugin_channel : List ℕ → ZincConnection → List ℕ
get_login_plugin_channel id c =
    if not (is_login_plugin_channel_opened id c)
    then codes "minecraft:brand"
    else elim (find id c.opened_login_plugin_channels) [ none ↦ [] | some channel ↦ channel ]

-- The ids that `randomBytes(3)` gives, one after the other, are an argument. `memcpy` to an `int` that
-- is 0 makes the number.
unfoldable pub open_login_plugin_channel :
    List (List ℕ) → List ℕ → ZincConnection → Option (ℕ × ZincConnection)
open_login_plugin_channel [] channel c = none
open_login_plugin_channel (id ∷ ids) channel c =
    let rest = open_login_plugin_channel ids channel c in
    if is_login_plugin_channel_opened id c
    then rest
    else some (
      from_memory (take 3 id),
      record c { opened_login_plugin_channels = put id channel c.opened_login_plugin_channels },
    )

unfoldable pub close_login_plugin_channel : List ℕ → ZincConnection → ZincConnection
close_login_plugin_channel id c =
    if is_login_plugin_channel_opened id c
    then record c { opened_login_plugin_channels = erase id c.opened_login_plugin_channels }
    else c

-- `ZincPacket packet; packet.setId(id); packet.getData()...`
unfoldable pub packet_with : ℕ → Action (Unit {0}) → Option ZincPacket
packet_with id m = elim (m default_packet.data_) [
  | none ↦ none
  | some (_, data_) ↦ some (record { id = id; data_ = data_ })
]

abbrev pub is_login : State → Bool
is_login login = true
is_login _ = false

-- The packet's number in each state; `none` sends nothing.
abbrev pub cookie_request_id : State → Option ℕ
cookie_request_id login = some 5
cookie_request_id config = some 0
cookie_request_id play = some 0x15
cookie_request_id _ = none

module _ (k : Cipher) (z : Zlib) (threshold : ℕ) where
  -- What is sent, and the connection after it.
  unfoldable pub send_with :
      ℕ → Action (Unit {0}) → ZincConnection → Option (List ℕ × ZincConnection)
  send_with id m c = elim (packet_with id m) [
    | none ↦ none
    | some packet ↦ send k z threshold packet c
  ]

  unfoldable pub send_compression : ZincConnection → Option (List ℕ × ZincConnection)
  send_compression c = elim (send_with 3 (write_var_numeric int threshold) c) [
    | none ↦ none
    | some (sent, c') ↦ some (sent, set_is_compressed true c')
  ]

  unfoldable pub setup_compression : ZincConnection → Option (List ℕ × ZincConnection)
  setup_compression c = if not (is_login c.state) then some ([], c) else send_compression c

  unfoldable pub send_cookie_request :
      Identifier → ZincConnection → Option (List ℕ × ZincConnection)
  send_cookie_request cookie_id c = elim (cookie_request_id c.state) [
    | none ↦ some ([], c)
    | some id ↦ send_with id (write_identifier cookie_id) c
  ]

  -- In the login state a channel is opened first, and its number stands before the rest.
  unfoldable pub send_plugin_message :
      List (List ℕ) → Identifier → List ℕ → ZincConnection → Option (List ℕ × ZincConnection)
  send_plugin_message ids plugin_channel bytes c =
      let message : Action (Unit {0}) = (do
        write_identifier plugin_channel
        write_byte_array bytes) in
      elim c.state [
        | login ↦ elim (open_login_plugin_channel ids (to_string plugin_channel) c) [
          | none ↦ none
          | some (number, c') ↦ send_with 4 (do write_var_numeric int number; message) c'
        ]
        | config ↦ send_with 1 message c
        | play ↦ send_with 0x18 message c
        | handshake ↦ some ([], c)
        | status ↦ some ([], c)
        | transfer ↦ some ([], c)
      ]
