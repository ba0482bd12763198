-- ===== src/Wrappers.antt =====
-- The wrappers of third-party libraries: `AESWrapper` (util/crypto/AES) over OpenSSL and `ZLibUtil`
-- (util/ZLibUtil) over zlib-ng. The libraries are parameters, with what their documentation says of
-- them as laws.
use zinc.Common.{
  ℕ, ◌≤◌, ◌≡◌, Bool, true, false, not, ◌&&◌, ◌||◌, Option, none, some, List, [], ◌++◌, length, take,
  replicate, if◌then◌else◌, ◌==◌, ◌<◌, ◌^◌,
}
use zinc.Numeric.{int, truncate_to}

-- `EVP_CipherInit_ex`, `EVP_CipherUpdate`, `EVP_CipherFinal_ex` and `EVP_CIPHER_CTX_get_updated_iv`
-- for AES in CFB8 mode: what a key and an initialisation vector make of the bytes, whose number is given
-- as an `int`, and the vector for the bytes after them. `none` is an error, as every negative number is;
-- without a vector only the last of the calls failed, or the vector has another size than 16.
pub record Cipher : Type 0 where
  pub encrypt : List ℕ → List ℕ → List ℕ → ℕ → Option (List ℕ × Option (List ℕ))
  pub decrypt : List ℕ → List ℕ → List ℕ → ℕ → Option (List ℕ × Option (List ℕ))

pub record AesWrapper : Type 0 where
  pub key : List ℕ
  pub iv : List ℕ
  pub is_key_set : Bool
  pub is_iv_set : Bool

unfoldable pub new_aes : AesWrapper
new_aes = record { key = []; iv = replicate 16 0; is_key_set = false; is_iv_set = false }

abbrev pub is_key_size : ℕ → Bool
is_key_size n = n == 16 || (n == 24 || n == 32)

-- With a key and a vector of the right sizes encryption of bytes whose number is an `int` succeeds and
-- leaves such a vector; what was encrypted is decrypted, to the same next vector; and a stream cipher
-- keeps the length.
pub record IsCipher (c : Cipher) : Type 0 where
  pub encrypts :
      (key iv plain : List ℕ)
      → is_key_size (length key) ≡ true
      → length iv ≡ 16
      → length plain < 2 ^ 31
      → (sent : List ℕ) × (iv' : List ℕ) × (c.encrypt key iv plain (length plain)
          ≡ some (sent, some iv'))
        × (length iv' ≡ 16)
  pub decrypts :
      (key iv plain sent iv' : List ℕ)
      → c.encrypt key iv plain (length plain) ≡ some (sent, some iv')
      → c.decrypt key iv sent (length sent) ≡ some (plain, some iv')
  pub keeps_length :
      (key iv plain sent iv' : List ℕ)
      → c.encrypt key iv plain (length plain) ≡ some (sent, some iv')
      → length sent ≡ length plain

unfoldable pub set_key : List ℕ → AesWrapper → AesWrapper
set_key key a = if is_key_size (length key) then record a { key = key; is_key_set = true } else a

unfoldable pub set_iv : List ℕ → AesWrapper → AesWrapper
set_iv iv a = if length iv == 16 then record a { iv = iv; is_iv_set = true } else a

-- The next vector is kept; without one `m_isIVSet` is cleared, and the bytes are returned all the same.
abbrev pub next_iv : Option (List ℕ) → AesWrapper → AesWrapper
next_iv none a = record a { is_iv_set = false }
next_iv (some iv) a = record a { iv = iv }

-- `processCFB8`, with the direction's function; an error before the bytes are complete gives no bytes.
unfoldable pub process_cfb8 :
    (List ℕ → List ℕ → List ℕ → ℕ → Option (List ℕ × Option (List ℕ)))
    → List ℕ
    → AesWrapper
    → List ℕ × AesWrapper
process_cfb8 run bytes a =
    if not (a.is_key_set && a.is_iv_set)
    then ([], a)
    else (if not (is_key_size (length a.key))
        then ([], a)
        else elim (run a.key a.iv bytes (truncate_to int (length bytes))) [
          | none ↦ ([], a)
          | some (out, iv) ↦ (out, next_iv iv a)
        ])

-- `zng_compressBound`, `zng_compress2` and `zng_uncompress2`: the bytes that are stored, and the bytes
-- for a buffer of the given size. `none` is an error.
pub record Zlib : Type 0 where
  pub bound : ℕ → ℕ
  pub compress : List ℕ → Option (List ℕ)
  pub uncompress : List ℕ → ℕ → Option (List ℕ)

-- Compression with room for the bound succeeds; uncompression into as much room as the text has gives
-- the text, and stops at the end of the stream, whatever stands behind it.
pub record IsZlib (z : Zlib) : Type 0 where
  pub compresses :
      (text : List ℕ)
      → (packed : List ℕ) × (z.compress text ≡ some packed)
        × (length packed ≤ z.bound (length text))
  pub uncompresses :
      (text packed behind : List ℕ)
      → z.compress text ≡ some packed
      → z.uncompress (packed ++ behind) (length text) ≡ some text

-- `std::vector<char> v(size)` with the first bytes stored.
abbrev pub in_vector : ℕ → List ℕ → List ℕ
in_vector size bytes = take size (bytes ++ replicate size 0)

-- The vector has the size of the bound; what zlib did not store stays zero.
unfoldable pub compress : Zlib → List ℕ → List ℕ
compress z buffer = elim (z.compress buffer) [
  | none ↦ []
  | some packed ↦ in_vector (z.bound (length buffer)) packed
]

unfoldable pub uncompress : Zlib → List ℕ → ℕ → List ℕ
uncompress z buffer decompressed_size = elim (z.uncompress buffer decompressed_size) [
  | none ↦ []
  | some text ↦ in_vector decompressed_size text
]
