-- ===== src/Tests/Network.antt =====
-- Connections at concrete inputs, with a stand-in for each library.
use zinc.Common.{
  ℕ, ◌≡◌, refl, ap, ◌∙◌, arith, inl, inr, true, false, Option, some, List, [], ◌∷◌, ◌++◌, length,
  take, replicate,
}
use zinc.Common.Slices.{take-append_length}
use zinc.ByteBuffer.{empty, get_bytes}
use zinc.ByteBuffer.Raw.{empty-IsReady}
use zinc.Packets.{ZincPacket, new_packet}
use zinc.Packets.Copies.{Holds}
use zinc.Common.Maps.{find, put}
use zinc.Common.Texts.{codes}
use zinc.Numeric.{int, from_memory}
use zinc.VarNumeric.Groups.{var_bytes}
use zinc.Connection.{login}
use zinc.Connection.Channels.{
  setup_compression, is_login_plugin_channel_opened, open_login_plugin_channel,
}
use zinc.Connection.Channels.Opened.{
  IsOpening, here, next, opens, open_login_plugin_channel-IsOpening, response_unknown,
}
use zinc.Connection.Channels.Setup.{read-setup_compression}
use zinc.Wrappers.{Cipher, IsCipher, Zlib, IsZlib, compress, set_iv, set_key}
use zinc.Buffer
use zinc.VarNumeric.Groups.{seven_bits}
use zinc.Connection.{
  ZincConnection, Received, new_connection, setup_encryption, set_is_compressed, send, read,
}
use zinc.Connection.Framing.Sealed.{IsPaired, IsSameSender, IsSameReceiver}
use zinc.Connection.Framing.RoundTrip.{read-send}

-- A cipher that leaves the bytes, and a compression that stores them.
abbrev same_bytes : List ℕ → List ℕ → List ℕ → ℕ → Option (List ℕ × Option (List ℕ))
same_bytes key iv plain size = some (plain, some iv)

abbrev pub no_cipher : Cipher
no_cipher = record { encrypt = same_bytes; decrypt = same_bytes }

pub no_cipher-IsCipher : IsCipher no_cipher
no_cipher-IsCipher = record {
  encrypts = λ key iv plain k v short. (plain, iv, refl, v);
  decrypts = λ key iv plain sent iv' e. cc;
  keeps_length = λ key iv plain sent iv' e. ap length cc;
}

abbrev pub stored : Zlib
stored = record {
  bound = λ n. n;
  compress = λ text. some text;
  uncompress = λ bytes n. some (take n bytes);
}

pub stored-IsZlib : IsZlib stored
stored-IsZlib = record {
  compresses = λ text. (text, refl, omega arith);
  uncompresses = λ text packed behind e.
      let joined : packed ++ behind ≡ text ++ behind = ap (λ t. t ++ behind) cc in
      ap (λ t. some (take (length text) t)) joined ∙ ap some (take-append_length text behind);
}

-- Both ends after the encryption response and the setup of compression.
abbrev end : ZincConnection
end = set_is_compressed true (setup_encryption (replicate 16 9) new_connection)

abbrev ping : ZincPacket
ping = new_packet 300

read-send_example :
    (sent : List ℕ) × (sender : ZincConnection) × (r : Received) × (send no_cipher stored 2 ping end
      ≡ some (sent, sender))
    × (read no_cipher stored (sent ++ []) end ≡ some r)
    × Holds 300 (get_bytes ping.data_) r.packet
    × (r.drained ≡ length sent)
    × IsSameSender end sender
    × IsSameReceiver end r.connection
    × (sender.is_compressed ≡ r.connection.is_compressed)
    × IsPaired sender r.connection
unfolding new_packet seven_bits get_bytes Buffer.get_bytes Buffer.bytes_from empty Buffer.init
    set_is_compressed compress setup_encryption new_connection set_iv set_key
read-send_example =
    read-send no_cipher stored 2 ping end end [] no_cipher-IsCipher stored-IsZlib (omega arith)
      (empty-IsReady true) (omega arith) (omega arith) refl
      (inr (refl, refl, refl, (refl, refl, refl, refl))) (inr refl)

-- A connection in the login state, and the client at its other end.
abbrev pub joining : ZincConnection
joining = record new_connection { state = login }

read-setup_compression_example :
    (sent : List ℕ) × (sender : ZincConnection) × (r : Received) × (setup_compression no_cipher
        stored 256 joining
      ≡ some (sent, sender))
    × (read no_cipher stored (sent ++ (1 ∷ [])) new_connection ≡ some r)
    × Holds 3 (var_bytes int 256) r.packet
    × (r.drained ≡ length sent)
    × (sender.is_compressed ≡ true)
    × IsPaired sender r.connection
unfolding new_connection
read-setup_compression_example =
    read-setup_compression no_cipher stored 256 joining new_connection (1 ∷ []) no_cipher-IsCipher
      stored-IsZlib (omega arith) refl refl refl (inl (refl, refl)) (inl refl)

abbrev brand : List ℕ
brand = 7 ∷ 8 ∷ 9 ∷ []

abbrev with_brand : ZincConnection
with_brand = record joining { opened_login_plugin_channels = (brand, codes "zinc:brand") ∷ [] }

-- The first id is taken.
open_login_plugin_channel-IsOpening_example :
    (id : List ℕ) × (d : ZincConnection) × (open_login_plugin_channel
        (brand ∷ (1 ∷ 2 ∷ 3 ∷ []) ∷ [])
        (codes "zinc:other")
        with_brand
      ≡ some (from_memory (take 3 id), d))
    × IsOpening id (codes "zinc:other") with_brand d
unfolding is_login_plugin_channel_opened find
open_login_plugin_channel-IsOpening_example =
    open_login_plugin_channel-IsOpening (brand ∷ (1 ∷ 2 ∷ 3 ∷ []) ∷ []) (codes "zinc:other")
      with_brand (inr (inl refl))

brand_opened :
    open_login_plugin_channel (brand ∷ []) (codes "zinc:brand") joining
    ≡ some (from_memory brand, with_brand)
unfolding open_login_plugin_channel is_login_plugin_channel_opened find put new_connection
brand_opened = refl

response_unknown_example : is_login_plugin_channel_opened (7 ∷ 8 ∷ 9 ∷ 0 ∷ []) with_brand ≡ false
unfolding new_connection
response_unknown_example =
    response_unknown {c = joining} (7 ∷ 8 ∷ 9 ∷ 0 ∷ []) refl
      (next here
        (opens (brand ∷ []) (codes "zinc:brand") (from_memory brand) (refl, tt) brand_opened))
      refl
