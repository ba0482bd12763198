-- ===== src/Checksums.antt =====
-- `initCRC32` and `crc32` of src/util/crypto/CRC32.cpp. The table and its flag are a state.
pub mod Serial
use zinc.Common.{
  ℕ, zero, suc, ◌+◌, ◌/◌, Bool, true, false, not, List, [], ◌∷◌, if◌then◌else◌, ◌==◌, bit_and,
  bit_xor, get_or, ◌^◌,
}

abbrev pub polynomial : ℕ
polynomial = 0xEDB88320

-- One round of the inner loop.
unfoldable pub shift_bit : ℕ → ℕ
shift_bit c = if not (bit_and c 1 == 0) then bit_xor (c / 2) polynomial else c / 2

abbrev pub shift_bits : ℕ → ℕ → ℕ
shift_bits zero c = c
shift_bits (suc j) c = shift_bits j (shift_bit c)

-- The entries from `i` on.
unfoldable pub fill_table : ℕ → ℕ → List ℕ
fill_table zero i = []
fill_table (suc n) i = shift_bits 8 i ∷ fill_table n (i + 1)

pub record Crc32 : Type 0 where
  pub table : List ℕ
  pub is_init : Bool

unfoldable pub init_crc32 : Crc32 → Crc32
init_crc32 s = if s.is_init then s else record { table = fill_table 256 0; is_init = true }

unfoldable pub crc_byte : List ℕ → ℕ → ℕ → ℕ
crc_byte table crc byte = bit_xor (crc / 2 ^ 8) (get_or table (bit_xor (bit_and crc 0xFF) byte) 0)

unfoldable pub crc_bytes : List ℕ → ℕ → List ℕ → ℕ
crc_bytes table crc [] = crc
crc_bytes table crc (byte ∷ bytes) = crc_bytes table (crc_byte table crc byte) bytes

unfoldable pub crc32 : Crc32 → List ℕ → ℕ
crc32 s bytes = bit_xor (crc_bytes s.table 0xFFFFFFFF bytes) 0xFFFFFFFF
