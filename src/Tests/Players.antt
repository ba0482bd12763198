-- ===== src/Tests/Players.antt =====
-- The server's clients at concrete inputs.
use zinc.Common.{replicate, ◌∷◌, All, ◌<◌}
use zinc.Common.{
  ℕ, ◌^◌, ◌≡◌, refl, ap, sym, ◌∙◌, arith, Bool, true, false, none, some, List, [], ◌++◌, append-nil,
  length, if◌then◌else◌, leb,
}
use zinc.Common.Maps.{number_key, text_key, find, put}
use zinc.Common.Texts.{codes}
use zinc.Common.Ordered.{tally}
use zinc.Buffer.Writing.{unread-write}
use zinc.ByteBuffer.{empty}
use zinc.ByteBuffer.Rules.{IsWritten}
use zinc.ByteBuffer.Raw.{write_bytes-Writes, empty-IsReady, unread-empty}
use zinc.ByteBuffer.{write_bytes}
use zinc.Packets.{ZincPacket}
use zinc.Connection.{login, ZincConnection, new_connection}
use zinc.Tests.Network.{no_cipher, no_cipher-IsCipher, stored, stored-IsZlib, joining}
use zinc.Server.Logins.{LoginConfig, requested, on_login_start}
use zinc.Server.Logins.Requests.{login_bytes, IsAsked, on_login_start_lem}
use zinc.Server.Logins.Packets.{request_bytes}
use zinc.Nbt.{element, plain, no_values, nil}
use zinc.Nbt
use zinc.Bans.{BanData, Player, new_ban, matched_ban}
use zinc.Bans.Kept.{by_name, unban, is_found, unban_still_banned}
use zinc.Checksums.{Crc32, crc32, init_crc32}
use zinc.Checksums.Serial.{serial_crc32, crc32_lem}
use zinc.VarNumeric.Groups.{seven_bits}
use zinc.Wrappers.{compress}
use zinc.SrvCtl.{Flags}
use zinc.Server.{
  Client, Security, ZincServer, add_client, admit, is_connected, new_client, on_accept, on_event,
  on_handshake,
}
use zinc.Server.Counts.{IsConsistent, has_ip}
use zinc.Server.Reached.{Reach, here, next, accepts, events, Reach-IsConsistent}
use zinc.Server.Admission.{came_soon, add_client_lem}
use zinc.Server.Handshakes.{handshake_bytes, on_handshake_lem}

abbrev security : Security
security = record { rate_limit = 5; max_concurrent_account = 1 }

abbrev server : ZincServer
server = record {
  started = true;
  port = 25565;
  clients = [];
  rate_limiter_data = [];
  concurrent_accounts = [];
  online_players = 0;
}

abbrev home : List ℕ
home = codes "10.0.0.1"

abbrev first_in : ZincServer
first_in = on_accept true security 100 5 home server

abbrev closed : Flags
closed = record { is_eof = true; is_error = false; is_timeout = false }

abbrev gone : ZincServer
gone = on_event 5 closed first_in

first_in_reached : Reach server first_in
first_in_reached = next here (accepts true security 100 5 home (omega arith) refl)

first_in-IsConsistent : IsConsistent first_in
first_in-IsConsistent = Reach-IsConsistent refl refl refl first_in_reached

Reach-IsConsistent_example : IsConsistent gone
Reach-IsConsistent_example =
    Reach-IsConsistent {s = server} refl refl refl (next first_in_reached (events 5 closed refl))

six_unknown : find 6 first_in.clients ≡ none
unfolding on_accept add_client admit is_connected find put new_client new_connection
six_unknown = refl

one_client : length first_in.clients ≡ 1
unfolding on_accept add_client admit is_connected find put new_client new_connection
one_client = refl

seen_early :
    (since : ℕ) → find (new_client home).ip first_in.rate_limiter_data ≡ some since → since < 2 ^ 62
unfolding on_accept add_client admit is_connected find put new_client new_connection
seen_early since seen = let e : some 100 ≡ some since = seen in ground arith

-- The second client of an address, two seconds after the first.
add_client_lem_example :
    (let t : ZincServer = add_client security 102 6 (new_client home) first_in in
      let soon : Bool = came_soon 5 102 (find (new_client home).ip first_in.rate_limiter_data) in
      (find 6 t.clients
        ≡ some (record (new_client home) {
          connection = record (new_client home).connection {
            kick_at_login =
                if leb 1 (tally (has_ip (new_client home).ip) first_in.clients)
                then 2
                else (if soon then 1 else (new_client home).connection.kick_at_login);
          };
        }))
      × (find (new_client home).ip t.rate_limiter_data
          ≡ (if soon then find (new_client home).ip first_in.rate_limiter_data else some 102)))
add_client_lem_example =
    add_client_lem security 102 6 (new_client home) first_in first_in-IsConsistent six_unknown
      (omega (arith, one_client)) (omega arith) (omega arith) (omega arith) seen_early

abbrev asking : List ℕ
asking = handshake_bytes 772 (codes "localhost") 25565 2

written : IsWritten (empty true) asking (write_bytes asking (empty true))
unfolding empty
written = (write_bytes-Writes {e = true} asking).run (empty true) (empty-IsReady true) refl

abbrev handshake_packet : ZincPacket
handshake_packet = record { id = 0; data_ = written.after }

on_handshake_lem_example :
    on_handshake handshake_packet (new_client home)
    ≡ some (record (new_client home) {
      protocol_version = 772;
      server_addr = codes "localhost";
      server_port = 25565;
      connection = record (new_client home).connection { state = login; should_continue = true };
    })
unfolding empty
on_handshake_lem_example =
    on_handshake_lem 772 25565 2 (codes "localhost") [] handshake_packet (new_client home)
      (omega arith) (omega arith) (omega arith) (omega arith) refl written.joined.valid
      written.same_order
      (unread-write asking (empty-IsReady true) written.joined
        ∙ (ap (λ t. t ++ asking) (unread-empty true) ∙ sym (append-nil asking)))

abbrev entry_rules : LoginConfig
entry_rules = record { threshold = 256; max_player_count = 20; online_mode = false }

abbrev guest : Client
guest = record (new_client home) { connection = joining; protocol_version = 770 }

abbrev uuid : List ℕ
uuid = replicate 16 1

written_login :
    IsWritten
      (empty true)
      (login_bytes (codes "steve") uuid)
      (write_bytes (login_bytes (codes "steve") uuid) (empty true))
unfolding empty
written_login =
    (write_bytes-Writes {e = true} (login_bytes (codes "steve") uuid)).run (empty true)
      (empty-IsReady true) refl

abbrev login_packet : ZincPacket
login_packet = record { id = 0; data_ = written_login.after }

on_login_start_lem_example :
    (sent : List ℕ) × (c : ZincConnection) × (on_login_start no_cipher stored entry_rules
        (1 ∷ 2 ∷ 3 ∷ [])
        (4 ∷ 5 ∷ [])
        0
        login_packet
        guest
      ≡ some (
        requested sent,
        record guest {
          player_name = codes "steve";
          player_uuid = uuid;
          verify_token = 4 ∷ 5 ∷ [];
          connection = c;
        },
      ))
    × IsAsked no_cipher stored 256
        (request_bytes (1 ∷ 2 ∷ 3 ∷ []) (4 ∷ 5 ∷ []) false)
        new_connection
        sent
unfolding empty new_client new_connection seven_bits compress
on_login_start_lem_example =
    on_login_start_lem no_cipher stored entry_rules (1 ∷ 2 ∷ 3 ∷ []) (4 ∷ 5 ∷ []) no_cipher-IsCipher
      stored-IsZlib (omega arith) (omega arith) (omega arith) 0 (codes "steve") uuid [] login_packet
      guest new_connection (refl, omega arith, omega arith, refl) (omega arith) refl
      written_login.joined.valid written_login.same_order
      (unread-write (login_bytes (codes "steve") uuid) (empty-IsReady true) written_login.joined
        ∙ (ap (λ t. t ++ login_bytes (codes "steve") uuid) (unread-empty true)
            ∙ sym (append-nil (login_bytes (codes "steve") uuid))))
      refl refl refl refl refl (omega arith) (omega arith) (omega arith)

abbrev fresh_table : Crc32
fresh_table = record { table = []; is_init = false }

digits_small : All (λ byte. byte < 256) (codes "123456789")
digits_small = ground arith

crc32_lem_example :
    crc32 (init_crc32 fresh_table) (codes "123456789") ≡ serial_crc32 (codes "123456789")
crc32_lem_example = crc32_lem fresh_table (codes "123456789") refl digits_small

-- A ban of one player, the only one; a ban that was moved from has no name.
abbrev banned : BanData
banned =
    record (new_ban false (element plain [] Nbt.end no_values nil) (codes "console") 100
      (codes "id")) { player_name = codes "steve" }

abbrev moved_from : BanData → BanData
moved_from ban = record ban { player_name = [] }

abbrev steve : Player
steve = record { name = codes "steve"; uuid = uuid; ip = home }

unban_still_banned_example :
    (is_found
        (matched_ban false steve (unban moved_from (by_name (codes "steve")) ([] ++ (banned ∷ []))))
      ≡ true)
    × (length (unban moved_from (by_name (codes "steve")) ([] ++ (banned ∷ [])))
        ≡ length ([] ++ (banned ∷ [])))
unban_still_banned_example =
    unban_still_banned moved_from false steve (by_name (codes "steve")) [] banned refl refl
