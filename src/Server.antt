-- ===== src/Server.antt =====
-- `ZincServer` of inc/network/minecraft/ZincServer.h and src/network/minecraft/ZincServer.cpp: the clients,
-- the counters that the server keeps of them, and the packets by which a client's state goes on. The time
-- and the configuration are arguments.
pub mod Counts
pub mod Kept
pub mod Reached
pub mod Admission
pub mod Handshakes
pub mod Logins
pub mod Configured
use zinc.Common.{
  ℕ, ◌+◌, ◌-◌, ◌%◌, ◌^◌, Bool, true, false, not, Option, none, some, List, [], ◌∷◌, if◌then◌else◌,
  ◌==◌, ltb,
}
use zinc.Common.Maps.{Key, number_key, text_key, find, contains, put, erase}
use zinc.ByteBuffer.{ByteBuffer, Action, pure, ◌>>=◌}
use zinc.Numeric.{int, long, ushort, read_numeric, truncate_to, sign_extend}
use zinc.VarNumeric.{read_var_numeric}
use zinc.Text.{read_string}
use zinc.Packets.{ZincPacket}
use zinc.Connection.{
  State, handshake, status, login, transfer, config, play, ZincConnection, new_connection,
  set_state, int_ltb,
}
use zinc.SrvCtl.{Flags}

-- `SettingsInfo`; an `enum` is the `int` that it was cast from.
pub record Settings : Type 0 where
  pub locale : List ℕ
  pub render_distance : ℕ
  pub chat_mode : ℕ
  pub enable_chat_colors : Bool
  pub skin_parts : ℕ
  pub main_hand : ℕ
  pub enable_text_filtering : Bool
  pub enable_server_listing : Bool
  pub particle_status : ℕ

-- Before the client sends them.
abbrev pub unset : Settings
unset = record {
  locale = [];
  render_distance = 0;
  chat_mode = 0;
  enable_chat_colors = false;
  skin_parts = 0;
  main_hand = 0;
  enable_text_filtering = false;
  enable_server_listing = false;
  particle_status = 0;
}

-- The connection, with the address of its `TCPConnection` and what is known of the player in `m_info`.
pub record Client : Type 0 where
  pub ip : List ℕ
  pub connection : ZincConnection
  pub protocol_version : ℕ
  pub server_addr : List ℕ
  pub server_port : ℕ
  pub verify_token : List ℕ
  pub player_name : List ℕ
  pub player_uuid : List ℕ
  pub last_keep_alive : ℕ
  pub settings : Settings

-- `g_zincConfig.m_core.m_security`, as far as it is used here.
pub record Security : Type 0 where
  pub rate_limit : ℕ
  pub max_concurrent_account : ℕ

pub record ZincServer : Type 0 where
  pub started : Bool
  pub port : ℕ
  pub clients : List (ℕ × Client)
  pub rate_limiter_data : List (List ℕ × ℕ)
  pub concurrent_accounts : List (List ℕ × ℕ)
  pub online_players : ℕ

unfoldable pub start : ZincServer → ZincServer
start s = record s { started = true }

-- The port of the TCP server is the argument as an `unsigned short`; it is returned.
unfoldable pub set_port : ℕ → ZincServer → ZincServer × ℕ
set_port port s = (record s { port = port }, truncate_to ushort port)

unfoldable pub is_connected : ℕ → ZincServer → Bool
is_connected fd s = contains fd s.clients

-- `<` on `long`.
abbrev pub long_ltb : ℕ → ℕ → Bool
long_ltb a b = ltb ((a + 2 ^ 63) % 2 ^ 64) ((b + 2 ^ 63) % 2 ^ 64)

-- The address was let in no longer ago than the limit, an `int` that is added to a `long`.
abbrev pub is_too_early : ℕ → ℕ → Option ℕ → Bool
is_too_early rate_limit now none = false
is_too_early rate_limit now (some since) =
    not (long_ltb ((since + sign_extend int long rate_limit) % 2 ^ 64) now)

abbrev pub is_limited : Security → ℕ → List ℕ → ZincServer → Bool
is_limited g now ip s = is_too_early g.rate_limit now (find ip s.rate_limiter_data)

-- `m_concurrentAccounts[ip]++`, or 1 for a new address.
abbrev pub one_more : Option ℕ → ℕ
one_more none = 1
one_more (some n) = (n + 1) % 2 ^ 32

-- Why a client will be refused: 1 for its rate, 2 for the accounts of its address.
abbrev pub kick_at_login : Bool → Bool → ℕ → ℕ
kick_at_login limited crowded n = if crowded then 2 else (if limited then 1 else n)

-- The client as it is kept: with the reason for which it will be refused, if any.
abbrev pub admitted : Security → ℕ → Client → ZincServer → Client
admitted g now client s =
    let crowded =
      int_ltb g.max_concurrent_account (one_more (find client.ip s.concurrent_accounts)) in
    let kick =
      kick_at_login (is_limited g now client.ip s) crowded client.connection.kick_at_login in
    record client { connection = record client.connection { kick_at_login = kick } }

-- `addClient` for a socket that is not known.
unfoldable pub admit : Security → ℕ → ℕ → Client → ZincServer → ZincServer
admit g now fd client s = record s {
  rate_limiter_data =
      if is_limited g now client.ip s
      then s.rate_limiter_data
      else put client.ip now s.rate_limiter_data;
  concurrent_accounts =
      put client.ip (one_more (find client.ip s.concurrent_accounts)) s.concurrent_accounts;
  clients = put fd (admitted g now client s) s.clients;
}

unfoldable pub add_client : Security → ℕ → ℕ → Client → ZincServer → ZincServer
add_client g now fd client s = if not (is_connected fd s) then admit g now fd client s else s

-- `m_concurrentAccounts[ip]` with a missing address as 0, less one, and its entry removed at 0.
abbrev pub one_less : ℕ → ℕ
one_less n = if not (n == 0) then (n + 2 ^ 32 - 1) % 2 ^ 32 else n

abbrev pub leave : List ℕ → List (List ℕ × ℕ) → List (List ℕ × ℕ)
leave ip accounts =
    let left = one_less (elim (find ip accounts) [ none ↦ 0 | some n ↦ n ]) in
    if left == 0 then erase ip accounts else put ip left accounts

-- `removeClient` for a known client, whose connection is closed and freed, too.
unfoldable pub forget : ℕ → Client → ZincServer → ZincServer
forget fd client s = record s {
  concurrent_accounts = leave client.ip s.concurrent_accounts;
  online_players =
      if client.connection.login_finished
      then (s.online_players + 2 ^ 32 - 1) % 2 ^ 32
      else s.online_players;
  clients = erase fd s.clients;
}

unfoldable pub remove_client : ℕ → ZincServer → ZincServer
remove_client fd s = elim (find fd s.clients) [ none ↦ s | some client ↦ forget fd client s ]

unfoldable pub new_client : List ℕ → Client
new_client ip = record {
  ip = ip;
  connection = new_connection;
  protocol_version = 0;
  server_addr = [];
  server_port = 0;
  verify_token = [];
  player_name = [];
  player_uuid = [];
  last_keep_alive = 0;
  settings = unset;
}

-- `onAccept`, told whether `bufferevent_socket_new` gave a buffer.
unfoldable pub on_accept : Bool → Security → ℕ → ℕ → List ℕ → ZincServer → ZincServer
on_accept is_buffered g now fd ip s =
    if is_buffered then add_client g now fd (new_client ip) s else s

unfoldable pub on_event : ℕ → Flags → ZincServer → ZincServer
on_event fd events s =
    if not (is_connected fd s)
    then s
    else (if events.is_eof
        then remove_client fd s
        else (if events.is_error
            then remove_client fd s
            else (if events.is_timeout then remove_client fd s else s)))

-- The cast to `State`, of one byte; `none` is a value without a name.
abbrev pub cast_state : ℕ → Option State
cast_state n =
    if n == 0
    then some handshake
    else (if n == 1
        then some status
        else (if n == 2
            then some login
            else (if n == 3
                then some transfer
                else (if n == 4 then some config else (if n == 5 then some play else none)))))

abbrev pub may_ask : State → Bool
may_ask status = true
may_ask login = true
may_ask transfer = true
may_ask _ = false

-- What a handshake may not ask for becomes the status.
unfoldable pub asked_state : ℕ → State
asked_state n = elim (cast_state (n % 256)) [
  | none ↦ status
  | some state ↦ if may_ask state then state else status
]

-- What `onRead` takes from a handshake: the version, the address, the port and the state.
unfoldable pub read_handshake : Action (ℕ × List ℕ × ℕ × ℕ)
read_handshake = do
  protocol_version ← read_var_numeric int
  server_addr ← read_string
  server_port ← read_numeric ushort
  next_state ← read_var_numeric int
  pure (protocol_version, server_addr, server_port, next_state)

-- `onRead` in the state of the handshake.
unfoldable pub on_handshake : ZincPacket → Client → Option Client
on_handshake packet client =
    if packet.id == 0
    then elim (read_handshake packet.data_) [
      | none ↦ none
      | some ((protocol_version, server_addr, server_port, next_state), _) ↦ some (record client {
        protocol_version = protocol_version;
        server_addr = server_addr;
        server_port = server_port;
        connection = record (set_state (asked_state next_state) client.connection) {
          should_continue = true;
        };
      })
    ]
    else some client

abbrev pub with_client : ℕ → Client → ZincServer → ZincServer
with_client fd client s = record s { clients = put fd client s.clients }

-- The acknowledgement of the login, by which the client is a player, and that of the configuration.
unfoldable pub on_login_ack : ℕ → Client → ZincServer → ZincServer
on_login_ack fd client s = record s {
  clients =
      put fd
        (record client {
          connection = record (set_state config client.connection) { login_finished = true };
        })
        s.clients;
  online_players = (s.online_players + 1) % 2 ^ 32;
}

unfoldable pub on_config_ack : ℕ → Client → ZincServer → ZincServer
on_config_ack fd client s =
    with_client fd (record client { connection = set_state play client.connection }) s
