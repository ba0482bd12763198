-- ===== src/BitSet/Bytes.antt =====
-- Searches, comparison and byte arrays of `BitSet` (src/type/BitSet.cpp), and the fixed bit sets and
-- enum sets of src/type/ByteBuffer.cpp and inc/type/ByteBuffer.h.
use zinc.Common.{
  ℕ, zero, suc, ◌+◌, ◌-◌, ◌*◌, ◌/◌, ◌%◌, ◌^◌, bit_and, bit_or, Bool, true, not, ◌&&◌, max,
}
use zinc.Common.{
  Option, none, some, List, [], ◌∷◌, ◌++◌, length, get_or, ◌==◌, leb, ltb, if◌then◌else◌,
}
use zinc.ByteBuffer.{Action, pure, ◌>>=◌, write_unsigned_byte, read_unsigned_byte}
use zinc.Arrays.{write_array, read_array}
use zinc.Text.{or_throw}
use zinc.BitSet.{BitSet, npos, word, complement, empty, set_bit, get_bit, from_long_array}

-- `__builtin_ctzll` of a word that is not 0.
unfoldable pub ctz : ℕ → ℕ → ℕ
ctz zero w = 0
ctz (suc n) w = let rest = ctz n (w / 2) in if w % 2 == 1 then 0 else suc rest

-- The loop of `nextSetBit`, over `fuel` more words.
unfoldable pub next_set_from : ℕ → List ℕ → ℕ → ℕ → ℕ
next_set_from zero words block_idx bit_offset = npos
next_set_from (suc fuel) words block_idx bit_offset =
    let rest = next_set_from fuel words (block_idx + 1) 0 in
    let shifted = word words block_idx / 2 ^ bit_offset in
    if not (word words block_idx == 0) && not (shifted == 0)
    then block_idx * 64 + bit_offset + ctz 64 shifted
    else rest

unfoldable pub next_set_bit : ℕ → BitSet → ℕ
next_set_bit from_index s =
    if ltb s.highest_set from_index
    then npos
    else next_set_from (length s.words - from_index / 64) s.words (from_index / 64)
        (from_index % 64)

-- The loop of `nextClearBit`, over `fuel` more words.
unfoldable pub next_clear_from : ℕ → List ℕ → ℕ → ℕ → ℕ
next_clear_from zero words block_idx bit_offset = length words * 64
next_clear_from (suc fuel) words block_idx bit_offset =
    let rest = next_clear_from fuel words (block_idx + 1) 0 in
    let clear = bit_and (complement (word words block_idx)) (complement (2 ^ bit_offset - 1)) in
    if clear == 0 then rest else block_idx * 64 + ctz 64 clear

unfoldable pub next_clear_bit : ℕ → BitSet → ℕ
next_clear_bit from_index s =
    next_clear_from (length s.words - from_index / 64) s.words (from_index / 64) (from_index % 64)

-- `i` counts down; the words are compared as padded with zeros.
unfoldable pub same_words : ℕ → List ℕ → List ℕ → Bool
same_words zero xs ys = true
same_words (suc i) xs ys = same_words i xs ys && (word xs i == word ys i)

-- `operator==`
unfoldable pub bit_set_eq : BitSet → BitSet → Bool
bit_set_eq s other = same_words (max (length s.words) (length other.words)) s.words other.words

-- The inner loop of `toByteArray`, over the bits below `j` of byte `i`.
unfoldable pub byte_from : ℕ → ℕ → BitSet → ℕ
byte_from zero i s = 0
byte_from (suc j) i s =
    let byte = byte_from j i s in if get_bit (i * 8 + j) s then bit_or byte (2 ^ j) else byte

-- The first `n` bytes.
unfoldable pub bytes_of : ℕ → BitSet → List ℕ
bytes_of zero s = []
bytes_of (suc n) s = bytes_of n s ++ (byte_from 8 n s ∷ [])

unfoldable pub to_byte_array : BitSet → List ℕ
to_byte_array s =
    if s.highest_set == npos then [] else bytes_of ((s.highest_set + 7) % 2 ^ 64 / 8) s

-- The inner loop of `fromByteArray`, over the bytes below `j` of word `i`.
unfoldable pub block_from : ℕ → ℕ → List ℕ → ℕ
block_from zero i bytes = 0
block_from (suc j) i bytes =
    let block = block_from j i bytes in
    if leb (length bytes) (i * 8 + j)
    then block
    else bit_or block (get_or bytes (i * 8 + j) 0 * 2 ^ (j * 8) % 2 ^ 64)

-- The first `n` words.
unfoldable pub blocks_of : ℕ → List ℕ → List ℕ
blocks_of zero bytes = []
blocks_of (suc n) bytes = blocks_of n bytes ++ (block_from 8 n bytes ∷ [])

unfoldable pub from_byte_array : List ℕ → BitSet
from_byte_array bytes = from_long_array (blocks_of ((length bytes + 7) / 8) bytes)

unfoldable pub write_fixed_bit_set : BitSet → Action (Unit {0})
write_fixed_bit_set s = write_array write_unsigned_byte (to_byte_array s)

unfoldable pub read_fixed_bit_set : ℕ → Action BitSet
read_fixed_bit_set n = do bytes ← read_array read_unsigned_byte n; pure (from_byte_array bytes)

-- `for (const T& value : enumSet) bitSet.set(value);`
unfoldable pub set_all : List ℕ → BitSet → Option BitSet
set_all [] s = some s
set_all (value ∷ rest) s = elim (set_bit value s) [ none ↦ none | some t ↦ set_all rest t ]

unfoldable pub write_enum_set : List ℕ → Action (Unit {0})
write_enum_set values = do s ← or_throw (set_all values empty); write_fixed_bit_set s

-- The positions below `n` that are set, in order.
unfoldable pub positions : ℕ → BitSet → List ℕ
positions zero s = []
positions (suc n) s =
    let before = positions n s in if get_bit n s then before ++ (n ∷ []) else before

unfoldable pub read_enum_set : ℕ → Action (List ℕ)
read_enum_set n = do s ← read_fixed_bit_set n; pure (positions (n * 8) s)
