-- ===== src/Server/Configured.antt =====
-- Packets of the configuration in `ZincServer::onRead` of src/network/minecraft/ZincServer.cpp: the settings
-- of a client, its answer to a keep-alive and its answer to a ping.
use zinc.Common.{ℕ, ◌-◌, ◌^◌, ◌%◌, Option, none, some, List, if◌then◌else◌, ◌==◌, not}
use zinc.Common.Maps.{same_text}
use zinc.Common.Texts.{codes}
use zinc.ByteBuffer.{Action, pure, ◌>>=◌, read_unsigned_byte}
use zinc.Numeric.{int, long, read_numeric}
use zinc.VarNumeric.{read_var_numeric}
use zinc.Text.{read_string}
use zinc.Arrays.{read_array}
use zinc.GameTypes.{read_flag}
use zinc.Packets.{ZincPacket}
use zinc.Connection.{int_ltb}
use zinc.Server.{Client, Settings}

unfoldable pub read_settings : Action Settings
read_settings = do
  locale ← read_string
  render_distance ← read_unsigned_byte
  chat_mode ← read_var_numeric int
  enable_chat_colors ← read_flag
  skin_parts ← read_unsigned_byte
  main_hand ← read_var_numeric int
  enable_text_filtering ← read_flag
  enable_server_listing ← read_flag
  particle_status ← read_var_numeric int
  pure (record {
    locale = locale;
    render_distance = render_distance;
    chat_mode = chat_mode;
    enable_chat_colors = enable_chat_colors;
    skin_parts = skin_parts;
    main_hand = main_hand;
    enable_text_filtering = enable_text_filtering;
    enable_server_listing = enable_server_listing;
    particle_status = particle_status;
  })

-- A distance above the server's is cut to it, cast to a byte.
unfoldable pub within : ℕ → Settings → Settings
within view_distance settings =
    if int_ltb view_distance settings.render_distance
    then record settings { render_distance = view_distance % 256 }
    else settings

-- The settings are kept, with the time and the token that are then sent as a keep-alive and a ping.
unfoldable pub on_settings : ℕ → ℕ → List ℕ → ZincPacket → Client → Option Client
on_settings view_distance now token packet client = elim (read_settings packet.data_) [
  | none ↦ none
  | some (settings, _) ↦ some (record client {
    settings = within view_distance settings;
    last_keep_alive = now;
    verify_token = token;
  })
]

-- The text of the error that is sent, if any, and the client.
unfoldable pub on_keep_alive : ZincPacket → Client → Option (Option (List ℕ) × Client)
on_keep_alive packet client = elim (read_numeric long packet.data_) [
  | none ↦ none
  | some (keep_alive, _) ↦
      if not (client.last_keep_alive == keep_alive)
      then some (some (codes "Server received invalid keep alive packet"), client)
      else some (none, record client { last_keep_alive = 2 ^ 64 - 1 })
]

unfoldable pub on_ping : ZincPacket → Client → Option (Option (List ℕ) × Client)
on_ping packet client = elim (read_array read_unsigned_byte 4 packet.data_) [
  | none ↦ none
  | some (ping, _) ↦
      if not (same_text client.verify_token ping)
      then some (some (codes "Server received invalid ping packet"), client)
      else some (none, client)
]
