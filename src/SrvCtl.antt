-- ===== src/SrvCtl.antt =====
-- The control server: `SrvCtlConnection` and `SrvCtlServer` of src/network/srvctl and
-- inc/network/srvctl. libevent is outside: a handler is given what waits in the connection's input, and
-- returns how many bytes of it are drained and what is sent.
pub mod Frames
pub mod States
use zinc.Common.{
  ℕ, ◌+◌, ◌-◌, ◌%◌, ◌^◌, Bool, true, false, not, ◌&&◌, ◌||◌, Option, none, some, List, [], ◌∷◌,
  if◌then◌else◌, ◌==◌, ltb, leb,
}
use zinc.Common.Maps.{Key, number_key, find, contains, put, erase}
use zinc.ByteBuffer.{
  ByteBuffer, Action, pure, ◌>>=◌, ◌>>◌, empty, size, write_byte, write_bytes, to_bytes,
}
use zinc.Numeric.{int, ulong, ushort, write_numeric, read_numeric, truncate_to}
use zinc.VarNumeric.{write_var_numeric, read_var_numeric, get_var_numeric_length}

pub data State : Type 0 where
  handshake login config execution : State

pub record SrvCtlConnection : Type 0 where
  pub fd : ℕ
  pub state : State

-- The `int` -1, and the `char`s -1 and -2.
abbrev pub minus_one : ℕ
minus_one = 2 ^ 32 - 1

abbrev pub invalid_packet : ℕ
invalid_packet = 255

abbrev pub unsupported_state : ℕ
unsupported_state = 254

abbrev pub success : ℕ
success = 1

-- The three writes of every reply: a length, the packet id -1 and a status.
unfoldable pub write_status : ℕ → Action (Unit {0})
write_status status = do
  write_numeric ulong (1 + get_var_numeric_length int minus_one)
  write_var_numeric int minus_one
  write_byte status

-- What a handler leaves: the state, the bytes drained and the bytes sent, if any.
pub record Outcome : Type 0 where
  pub state : State
  pub drained : ℕ
  pub sent : Option (List ℕ)

unfoldable pub reply : State → ℕ → ℕ → Option Outcome
reply state drained status = elim (to_bytes (write_status status)) [
  | none ↦ none
  | some bytes ↦ some (record { state = state; drained = drained; sent = some bytes })
]

abbrev pub no_reply : State → ℕ → Option Outcome
no_reply state drained = some (record { state = state; drained = drained; sent = none })

-- The `switch` over the state, after `drain(bev, 8 + length)`.
unfoldable pub dispatch : State → ℕ → ℕ → Option Outcome
dispatch handshake packet_id drained = reply login drained success
dispatch login packet_id drained =
    if packet_id == 0 then no_reply login drained else reply login drained invalid_packet
dispatch config packet_id drained = reply config drained unsupported_state
dispatch execution packet_id drained = reply execution drained unsupported_state

abbrev pub read_packet : State → ℕ → ByteBuffer → Option Outcome
read_packet state length b = elim (read_var_numeric int b) [
  | none ↦ none
  | some (packet_id, _) ↦ dispatch state packet_id ((8 + length) % 2 ^ 64)
]

-- `onRead` from the buffer on; `length + 8` is computed in 64 bits.
unfoldable pub on_buffer : State → ByteBuffer → Option Outcome
on_buffer state b =
    if ltb (size b) 9 then reply state (size b) invalid_packet else elim (read_numeric ulong b) [
      | none ↦ none
      | some (length, b') ↦
          if ltb (size b') ((length + 8) % 2 ^ 64)
          then reply state (size b') invalid_packet
          else read_packet state length b'
    ]

-- `TCPUtil::read` copies the input into a new buffer.
unfoldable pub on_input : State → List ℕ → Option Outcome
on_input state input = elim (write_bytes input (empty true)) [
  | none ↦ none
  | some (_, b) ↦ on_buffer state b
]

pub record SrvCtlServer : Type 0 where
  pub started : Bool
  pub port : ℕ
  pub clients : List (ℕ × SrvCtlConnection)

unfoldable pub start : SrvCtlServer → SrvCtlServer
start s = record s { started = true }

-- The port of the TCP server is the argument as an `unsigned short`; it is returned.
unfoldable pub set_port : ℕ → SrvCtlServer → SrvCtlServer × ℕ
set_port port s = (record s { port = port }, truncate_to ushort port)

unfoldable pub is_connected : ℕ → SrvCtlServer → Bool
is_connected fd s = contains fd s.clients

unfoldable pub add_client : SrvCtlConnection → SrvCtlServer → SrvCtlServer
add_client client s =
    if not (is_connected client.fd s)
    then record s { clients = put client.fd client s.clients }
    else s

-- The connection is closed and freed, too.
unfoldable pub remove_client : ℕ → SrvCtlServer → SrvCtlServer
remove_client fd s = if is_connected fd s then record s { clients = erase fd s.clients } else s

-- An unknown client is a fatal error, which ends the program.
unfoldable pub get_client : ℕ → SrvCtlServer → Option SrvCtlConnection
get_client fd s = find fd s.clients

unfoldable pub set_state : State → SrvCtlConnection → SrvCtlConnection
set_state state c = record c { state = state }

-- `onAccept`, told whether `bufferevent_socket_new` gave a buffer.
unfoldable pub on_accept : Bool → ℕ → SrvCtlServer → SrvCtlServer
on_accept is_buffered fd s =
    if is_buffered then add_client (record { fd = fd; state = handshake }) s else s

-- The bytes drained and sent, and the server after it. The state is that of the shared connection.
unfoldable pub on_read : ℕ → List ℕ → SrvCtlServer → Option (ℕ × Option (List ℕ) × SrvCtlServer)
on_read fd input s = if not (is_connected fd s) then some (0, none, s) else elim (get_client fd s) [
  | none ↦ none
  | some connection ↦ elim (on_input connection.state input) [
    | none ↦ none
    | some o ↦
        some (
          o.drained,
          o.sent,
          record s { clients = put fd (set_state o.state connection) s.clients },
        )
  ]
]

-- The events of a connection, as libevent flags them.
pub record Flags : Type 0 where
  pub is_eof : Bool
  pub is_error : Bool
  pub is_timeout : Bool

unfoldable pub on_event : ℕ → Flags → SrvCtlServer → SrvCtlServer
on_event fd events s =
    if not (is_connected fd s)
    then s
    else (if events.is_eof
        then remove_client fd s
        else (if events.is_error
            then remove_client fd s
            else (if events.is_timeout then remove_client fd s else s)))
