-- ===== src/Connection.antt =====
-- `ZincConnection` of inc/network/minecraft/ZincConnection.h and src/network/minecraft/ZincConnection.cpp:
-- how packets are framed, compressed and encrypted, and which packet each message is in each state. The
-- input that waits is an argument; what is sent, and how much of the input is drained, are results.
pub mod Framing
pub mod Channels
use zinc.Common.{
  ℕ, ◌+◌, ◌-◌, ◌%◌, ◌^◌, Bool, true, false, not, ◌&&◌, Option, none, some, List, [], ◌∷◌,
  if◌then◌else◌, ◌==◌, ltb,
}
use zinc.ByteBuffer.{
  ByteBuffer, Action, pure, ◌>>=◌, ◌>>◌, when, empty, size, get_bytes, from_bytes, write_byte,
  write_bytes, read_bytes, write_byte_array, write_unsigned_byte, read_unsigned_byte, to_bytes,
}
use zinc.Numeric.{int, ulong, truncate_to, sign_extend}
use zinc.VarNumeric.{write_var_numeric, read_var_numeric, get_var_numeric_length}
use zinc.Arrays.{write_array, read_array}
use zinc.Text.{Identifier, write_identifier, write_string}
use zinc.Packets.{ZincPacket, get_data, of_data, new_packet}
use zinc.Wrappers.{
  Cipher, AesWrapper, new_aes, set_key, set_iv, process_cfb8, Zlib, compress, uncompress,
}

pub data State : Type 0 where
  handshake status login transfer config play : State

pub record ZincConnection : Type 0 where
  pub state : State
  pub is_compressed : Bool
  pub is_encrypted : Bool
  pub encrypt : AesWrapper
  pub decrypt : AesWrapper
  pub opened_login_plugin_channels : List (List ℕ × List ℕ)
  pub kick_at_login : ℕ
  pub login_finished : Bool
  pub should_continue : Bool

unfoldable pub new_connection : ZincConnection
new_connection = record {
  state = handshake;
  is_compressed = false;
  is_encrypted = false;
  encrypt = new_aes;
  decrypt = new_aes;
  opened_login_plugin_channels = [];
  kick_at_login = 0;
  login_finished = false;
  should_continue = true;
}

unfoldable pub set_state : State → ZincConnection → ZincConnection
set_state state c = record c { state = state }

unfoldable pub set_is_compressed : Bool → ZincConnection → ZincConnection
set_is_compressed flag c = record c { is_compressed = flag }

unfoldable pub set_is_encrypted : Bool → ZincConnection → ZincConnection
set_is_encrypted flag c = record c { is_encrypted = flag }

unfoldable pub setup_encryption : List ℕ → ZincConnection → ZincConnection
setup_encryption secret c = record c {
  encrypt = set_iv secret (set_key secret c.encrypt);
  decrypt = set_iv secret (set_key secret c.decrypt);
  is_encrypted = true;
}

-- `<` on `int`.
abbrev pub int_ltb : ℕ → ℕ → Bool
int_ltb a b = ltb ((a + 2 ^ 31) % 2 ^ 32) ((b + 2 ^ 31) % 2 ^ 32)

-- The packet id and the data, as every frame has them.
unfoldable pub write_packet : ℕ → List ℕ → Action (Unit {0})
write_packet id bytes = do write_var_numeric int id; write_bytes bytes

-- `ByteBuffer buffer = bytes;`, a big-endian buffer that holds them.
abbrev pub held : List ℕ → Option ByteBuffer
held bytes = from_bytes bytes 0 true

module _ (z : Zlib) where
  -- Compressed: the lengths, and what zlib makes of the packet.
  unfoldable pub write_compressed : ℕ → List ℕ → ℕ → Action (Unit {0})
  write_compressed id bytes data_length b = elim (to_bytes (write_packet id bytes)) [
    | none ↦ none
    | some plain ↦ elim (held (compress z plain)) [
      | none ↦ none
      | some packed ↦
          (do
            write_var_numeric int
                (truncate_to int (get_var_numeric_length int data_length + size packed))
            write_var_numeric int data_length
            write_byte_array (get_bytes packed))
            b
    ]
  ]

module _ (z : Zlib) (threshold : ℕ) where
  -- The frame, before encryption.
  unfoldable pub write_frame : Bool → ℕ → List ℕ → ℕ → Action (Unit {0})
  write_frame is_compressed id bytes data_length =
      if is_compressed
      then (if int_ltb data_length threshold
          then (do
            write_var_numeric int (truncate_to int (1 + data_length))
            write_var_numeric int 0
            write_packet id bytes)
          else write_compressed z id bytes data_length)
      else (do write_var_numeric int data_length; write_packet id bytes)

-- `ZincPacket(packetId, dataBuffer)`
abbrev pub packet_of : ℕ → List ℕ → Option ZincPacket
packet_of id bytes = elim (write_bytes bytes (empty true)) [
  | none ↦ none
  | some (_, data_buffer) ↦ of_data id data_buffer
]

-- The id, and the bytes up to `length`, of which `extra` were read before the id.
unfoldable pub read_packet : ℕ → ℕ → ByteBuffer → Option ZincPacket
read_packet length extra b = elim (read_var_numeric int b) [
  | none ↦ none
  | some (id, b') ↦
      elim (read_bytes ((length + 2 ^ 64 - (get_var_numeric_length int id + extra)) % 2 ^ 64) b') [
        | none ↦ none
        | some (bytes, _) ↦ packet_of id bytes
      ]
]

-- What `read` leaves: the packet, the bytes drained, and the connection.
pub record Received : Type 0 where
  pub packet : ZincPacket
  pub drained : ℕ
  pub connection : ZincConnection

abbrev pub received : ℕ → ZincConnection → Option ZincPacket → Option Received
received drained c none = none
received drained c (some packet) = some (record {
  packet = packet;
  drained = drained;
  connection = record c { should_continue = false };
})

-- `return ZincPacket(-1); // wait for more data`
unfoldable pub wait : ZincConnection → Received
wait c = record { packet = new_packet (2 ^ 32 - 1); drained = 0; connection = c }

module _ (z : Zlib) where
  -- A frame with a data length: 0 for a packet as it is, or the length of what is uncompressed.
  unfoldable pub read_compressed : ℕ → ByteBuffer → Option ZincPacket
  read_compressed length b = elim (read_var_numeric int b) [
    | none ↦ none
    | some (n, b') ↦
        let data_length = sign_extend int ulong n in
        if not (data_length == 0)
        then elim (read_bytes
            ((length + 2 ^ 64 - get_var_numeric_length int (truncate_to int data_length)) % 2 ^ 64)
            b') [
              | none ↦ none
              | some (packed, _) ↦ elim (held (uncompress z packed data_length)) [
                | none ↦ none
                | some plain ↦ read_packet data_length 0 plain
              ]
            ]
        else read_packet length 1 b'
  ]

  unfoldable pub read_frame : ByteBuffer → ZincConnection → Option Received
  read_frame b c = elim (read_var_numeric int b) [
    | none ↦ none
    | some (n, b') ↦
        let length = sign_extend int ulong n in
        if ltb (size b') length
        then some (wait c)
        else received ((get_var_numeric_length int (truncate_to int length) + length) % 2 ^ 64) c
            (if c.is_compressed then read_compressed length b' else read_packet length 0 b')
  ]

module _ (k : Cipher) where
  -- `data.writeArray(m_encrypt.encryptCFB8(...))`, or the bytes as they are.
  unfoldable pub encrypt_frame : ByteBuffer → ZincConnection → Option (List ℕ × ZincConnection)
  encrypt_frame frame c =
      if c.is_encrypted
      then elim (read_array read_unsigned_byte (size frame) frame) [
        | none ↦ none
        | some (plain, _) ↦
            let (bytes, encrypt) = process_cfb8 k.encrypt plain c.encrypt in
            elim (to_bytes (write_array write_unsigned_byte bytes)) [
              | none ↦ none
              | some sent ↦ some (sent, record c { encrypt = encrypt })
            ]
      ]
      else elim (to_bytes (write_bytes (get_bytes frame))) [
        | none ↦ none
        | some sent ↦ some (sent, c)
      ]

  -- The decrypted input, in a new buffer. The cipher's state moves on by all of it.
  unfoldable pub decrypt_input : List ℕ → ZincConnection → Option (ByteBuffer × ZincConnection)
  decrypt_input input c = elim (write_bytes input (empty true)) [
    | none ↦ none
    | some (_, tmp) ↦
        if c.is_encrypted
        then elim (read_array read_unsigned_byte (size tmp) tmp) [
          | none ↦ none
          | some (received, _) ↦
              let (bytes, decrypt) = process_cfb8 k.decrypt received c.decrypt in
              elim (write_array write_unsigned_byte bytes (empty true)) [
                | none ↦ none
                | some (_, b) ↦ some (b, record c { decrypt = decrypt })
              ]
        ]
        else elim (write_bytes (get_bytes tmp) (empty true)) [
          | none ↦ none
          | some (_, b) ↦ some (b, c)
        ]
  ]

module _ (k : Cipher) (z : Zlib) where
  -- The bytes that are written to the socket.
  unfoldable pub send : ℕ → ZincPacket → ZincConnection → Option (List ℕ × ZincConnection)
  send threshold packet c = elim (get_data packet) [
    | none ↦ none
    | some held_data ↦
        let data_length = truncate_to int (get_var_numeric_length int packet.id + size held_data) in
        elim (write_frame z threshold c.is_compressed packet.id (get_bytes held_data) data_length
          (empty true)) [ none ↦ none | some (_, frame) ↦ encrypt_frame k frame c ]
  ]

  unfoldable pub read : List ℕ → ZincConnection → Option Received
  read input c = elim (decrypt_input k input c) [ none ↦ none | some (b, c') ↦ read_frame z b c' ]
