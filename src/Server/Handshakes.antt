-- ===== src/Server/Handshakes.antt =====
-- What a handshake does to a client.
use zinc.Common.{
  ℕ, ◌%◌, ◌==◌, if◌then◌else◌, ◌^◌, ◌<◌, ◌≡◌, refl, arith, true, some, List, ◌++◌, length,
}
use zinc.ByteBuffer.Rules.{Reads, Reads-bind, Reads-map, IsReady, unread}
use zinc.Numeric.{int, to_memory, in_order, read_numeric}
use zinc.Numeric.RoundTrip.{read_memory-Reads}
use zinc.VarNumeric.Groups.{var_bytes}
use zinc.VarNumeric.RoundTrip.{read_var_numeric-Reads}
use zinc.Text.Strings.{IsLength, prefixed, read_string-Reads}
use zinc.Packets.{ZincPacket}
use zinc.Connection.{State, status, login, transfer, set_state}
use zinc.Server.{Client, asked_state, read_handshake, on_handshake}

abbrev pub handshake_bytes : ℕ → List ℕ → ℕ → ℕ → List ℕ
handshake_bytes version addr port next =
    var_bytes int version
    ++ (prefixed addr ++ (in_order true (to_memory 2 port) ++ var_bytes int next))

handshake-Reads :
    (version port next : ℕ) (addr : List ℕ)
    → version < 2 ^ 32
    → IsLength (length addr)
    → port < 2 ^ 16
    → next < 2 ^ 32
    → Reads true read_handshake (handshake_bytes version addr port next) (version, addr, port, next)
unfolding read_handshake read_numeric
handshake-Reads version port next addr hv ha hp hn =
    Reads-bind _ (read_var_numeric-Reads int version hv) (
      Reads-bind _ (read_string-Reads addr ha) (
        Reads-bind _ (read_memory-Reads 2 port (omega arith))
          (Reads-map (λ n. (version, addr, port, n)) (read_var_numeric-Reads int next hn))))

-- What the protocol says of the number that stands last: 2 is the login and 3 a transfer.
abbrev pub state_for : ℕ → State
state_for next = if next % 256 == 2 then login else (if next % 256 == 3 then transfer else status)

asked_state_lem : (next : ℕ) → asked_state next ≡ state_for next
unfolding asked_state
asked_state_lem next = ground arith

-- A handshake packet that holds a version, an address, a port and a state, whatever comes after them, leaves
-- these in the client, and leads by the lowest byte of the last number to the login for 2, to a transfer
-- for 3, and to the status for any other byte.
pub on_handshake_lem :
    (version port next : ℕ) (addr rest : List ℕ) (packet : ZincPacket) (c : Client)
    → version < 2 ^ 32
    → IsLength (length addr)
    → port < 2 ^ 16
    → next < 2 ^ 32
    → packet.id ≡ 0
    → IsReady packet.data_
    → packet.data_.is_big_endian ≡ true
    → unread packet.data_ ≡ handshake_bytes version addr port next ++ rest
    → on_handshake packet c
      ≡ some (record c {
        protocol_version = version;
        server_addr = addr;
        server_port = port;
        connection = record c.connection { state = state_for next; should_continue = true };
      })
unfolding on_handshake set_state
on_handshake_lem version port next addr rest packet c hv ha hp hn numbered ready order u =
    let one =
      (handshake-Reads version port next addr hv ha hp hn).run packet.data_ rest ready order u in
    rw (numbered, one.returns, on_handshake, asked_state_lem next) refl
