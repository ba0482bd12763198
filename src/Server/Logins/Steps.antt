-- ===== src/Server/Logins/Steps.antt =====
-- A login start leaves the address of its client, the state and whether the login is finished.
use zinc.Common.{ℕ, ◌≡◌, arith, some, List}
use zinc.ByteBuffer.{Action, ByteBuffer}
use zinc.Packets.{ZincPacket}
use zinc.Wrappers.{Cipher, Zlib}
use zinc.Connection.{ZincConnection, set_is_compressed, encrypt_frame, send}
use zinc.Connection.Channels.{send_with, send_compression, setup_compression}
use zinc.Server.{Client}
use zinc.Server.Logins.{
  LoginConfig, LoginAnswer, start_compression, request_encryption, on_login_name, on_login_start,
}

abbrev pub IsKept : ZincConnection → ZincConnection → Type 0
IsKept c d = (d.state ≡ c.state) × (d.login_finished ≡ c.login_finished)

encrypt_frame-IsKept :
    (k : Cipher) (frame : ByteBuffer) (c : ZincConnection) (r : List ℕ × ZincConnection)
    → encrypt_frame k frame c ≡ some r
    → IsKept c r.1
unfolding encrypt_frame
encrypt_frame-IsKept k frame c r e = ground arith

module _ (k : Cipher) (z : Zlib) (threshold : ℕ) where
  send-IsKept :
      (packet : ZincPacket) (c : ZincConnection) (r : List ℕ × ZincConnection)
      → send k z threshold packet c ≡ some r
      → IsKept c r.1
  unfolding send
  send-IsKept packet c r e = grind (arith, encrypt_frame-IsKept)

  send_with-IsKept :
      (id : ℕ) (m : Action (Unit {0})) (c : ZincConnection) (r : List ℕ × ZincConnection)
      → send_with k z threshold id m c ≡ some r
      → IsKept c r.1
  unfolding send_with
  send_with-IsKept id m c r e = grind (arith, send-IsKept)

  setup_compression-IsKept :
      (c : ZincConnection) (r : List ℕ × ZincConnection)
      → setup_compression k z threshold c ≡ some r
      → IsKept c r.1
  unfolding setup_compression send_compression set_is_compressed
  setup_compression-IsKept c r e = grind (arith, send_with-IsKept)

-- The client after a login start, by its connection and its address.
abbrev pub IsSameStage : Client → Client → Type 0
IsSameStage c d = (d.ip ≡ c.ip) × IsKept c.connection d.connection

module _ (k : Cipher) (z : Zlib) (g : LoginConfig) (public_key token : List ℕ) where
  start_compression-IsKept :
      (c : ZincConnection) (r : List ℕ × ZincConnection)
      → start_compression k z g public_key token c ≡ some r
      → IsKept c r.1
  unfolding start_compression
  start_compression-IsKept c r e = grind (arith, setup_compression-IsKept)

  request-IsSameStage :
      (c : Client) (r : LoginAnswer × Client)
      → request_encryption k z g public_key token c ≡ some r
      → IsSameStage c r.1
  unfolding request_encryption
  request-IsSameStage c r e = grind (arith, start_compression-IsKept, send_with-IsKept)

  name-IsSameStage :
      (name uuid : List ℕ) (c : Client) (r : LoginAnswer × Client)
      → on_login_name k z g public_key token name uuid c ≡ some r
      → IsSameStage c r.1
  unfolding on_login_name
  name-IsSameStage name uuid c r e = grind (arith, request-IsSameStage)

  pub on_login_start-IsSameStage :
      (online_players : ℕ) (packet : ZincPacket) (c : Client) (r : LoginAnswer × Client)
      → on_login_start k z g public_key token online_players packet c ≡ some r
      → IsSameStage c r.1
  unfolding on_login_start
  on_login_start-IsSameStage online_players packet c r e = grind (arith, name-IsSameStage)
