-- ===== src/BitSet.antt =====
-- `BitSet` of inc/type/BitSet.h and src/type/BitSet.cpp: a vector of 64-bit words with the position
-- of its highest set bit. `none` is an access out of the vector's bounds.
pub mod Words
pub mod Highest
pub mod Changes
pub mod Updates
pub mod OneBit
pub mod Operators
pub mod Coding
pub mod Bytes
use zinc.Common.{
  ℕ, zero, suc, ◌+◌, ◌-◌, ◌*◌, ◌/◌, ◌%◌, ◌^◌, bit_and, bit_or, bit_xor, Bool, true, false, not,
}
use zinc.Common.{
  ◌&&◌, ◌||◌, Option, none, some, List, [], ◌∷◌, ◌++◌, length, get_elem?, get_or, set, take,
}
use zinc.Numeric.{ulong, write_numeric, read_numeric}
use zinc.ByteBuffer.{ByteBuffer, Action, pure, ◌>>=◌}
use zinc.Arrays.{write_prefixed_array, read_prefixed_array}
use zinc.Common.{replicate, ◌==◌, leb, ltb, if◌then◌else◌}

pub record BitSet : Type 0 where
  pub words : List ℕ
  pub highest_set : ℕ

abbrev pub npos : ℕ
npos = 2 ^ 64 - 1

-- `m_data[i]` in range; the vector is as good as padded with zeros.
abbrev pub word : List ℕ → ℕ → ℕ
word words i = get_or words i 0

-- `word & (1ULL << k)` as a test.
abbrev pub has_bit : ℕ → ℕ → Bool
has_bit w k = not (bit_and w (2 ^ k) == 0)

-- `~word`
abbrev pub complement : ℕ → ℕ
complement w = bit_xor w (2 ^ 64 - 1)

-- The number of binary digits of a word; `__builtin_clzll` is 64 less this number.
unfoldable pub bit_length : ℕ → ℕ → ℕ
bit_length zero w = 0
bit_length (suc n) w = let rest = bit_length n (w / 2) in if w == 0 then 0 else suc rest

abbrev pub clz : ℕ → ℕ
clz w = 64 - bit_length 64 w

-- The loop of `findHighestSet`, from word `i - 1` down.
unfoldable pub highest_from : ℕ → List ℕ → ℕ
highest_from zero words = npos
highest_from (suc i) words =
    let rest = highest_from i words in
    if word words i == 0 then rest else i * 64 + (63 - clz (word words i))

unfoldable pub find_highest_set : List ℕ → ℕ
find_highest_set words = highest_from (length words) words

-- `BitSet()`
unfoldable pub empty : BitSet
empty = record { words = []; highest_set = npos }

-- `BitSet(unsigned long n)`
unfoldable pub of_size : ℕ → BitSet
of_size n = record { words = replicate ((n + 63) % 2 ^ 64 / 64) 0; highest_set = npos }

-- `m_data.resize(n)` for a larger `n`.
abbrev pub resize : ℕ → List ℕ → List ℕ
resize n words = words ++ replicate (n - length words) 0

-- `if (((pos + 64) / 64) > m_data.size()) m_data.resize((pos + 64) / 64);`
unfoldable pub grow : ℕ → List ℕ → List ℕ
grow pos words =
    let n = (pos + 64) % 2 ^ 64 / 64 in if ltb (length words) n then resize n words else words

-- `if (m_highestSet == NPOS || pos > m_highestSet) m_highestSet = pos;`
unfoldable pub raise : ℕ → ℕ → ℕ
raise pos highest_set = if (highest_set == npos) || ltb highest_set pos then pos else highest_set

-- `set` once the word `w` of the position was found.
unfoldable pub set_in : ℕ → ℕ → List ℕ → ℕ → BitSet
set_in pos w words highest_set =
    if has_bit w (pos % 64) then record { words = words; highest_set = highest_set } else record {
      words = set words (pos / 64) (bit_or w (2 ^ (pos % 64)));
      highest_set = raise pos highest_set;
    }

unfoldable pub set_bit : ℕ → BitSet → Option BitSet
set_bit pos s =
    let words = grow pos s.words in
    elim (get_elem? words (pos / 64)) [
      | none ↦ none
      | some w ↦ some (set_in pos w words s.highest_set)
    ]

unfoldable pub clear_bit : ℕ → BitSet → BitSet
clear_bit pos s =
    let w = word s.words (pos / 64) in
    let words = set s.words (pos / 64) (bit_and w (complement (2 ^ (pos % 64)))) in
    if leb (length s.words) (pos / 64)
    then s
    else if has_bit w (pos % 64)
    then record {
      words = words;
      highest_set = if pos == s.highest_set then find_highest_set words else s.highest_set;
    }
    else s

-- `flip` once the word `w` of the position was found.
unfoldable pub flip_in : ℕ → ℕ → List ℕ → ℕ → BitSet
flip_in pos w words highest_set =
    let flipped = bit_xor w (2 ^ (pos % 64)) in
    let words = set words (pos / 64) flipped in
    record {
      words = words;
      highest_set =
          if has_bit flipped (pos % 64)
          then raise pos highest_set
          else if pos == highest_set
          then find_highest_set words
          else highest_set;
    }

unfoldable pub flip_bit : ℕ → BitSet → Option BitSet
flip_bit pos s =
    let words = grow pos s.words in
    elim (get_elem? words (pos / 64)) [
      | none ↦ none
      | some w ↦ some (flip_in pos w words s.highest_set)
    ]

unfoldable pub get_bit : ℕ → BitSet → Bool
get_bit pos s =
    if leb (length s.words) (pos / 64) then false else has_bit (word s.words (pos / 64)) (pos % 64)

unfoldable pub size : BitSet → ℕ
size s = if s.highest_set == npos then 0 else s.highest_set + 1

unfoldable pub any : BitSet → Bool
any s = not (s.highest_set == npos)

unfoldable pub no_bits : BitSet → Bool
no_bits s = s.highest_set == npos

-- `__builtin_popcountll`
unfoldable pub popcount : ℕ → ℕ → ℕ
popcount zero w = 0
popcount (suc n) w = w % 2 + popcount n (w / 2)

unfoldable pub count_words : List ℕ → ℕ
count_words [] = 0
count_words (w ∷ rest) = popcount 64 w + count_words rest

unfoldable pub count : BitSet → ℕ
count s = count_words s.words

unfoldable pub and_not_words : List ℕ → List ℕ → List ℕ
and_not_words [] ys = []
and_not_words (x ∷ xs) [] = x ∷ xs
and_not_words (x ∷ xs) (y ∷ ys) = bit_and x (complement y) ∷ and_not_words xs ys

unfoldable pub and_words : List ℕ → List ℕ → List ℕ
and_words [] ys = []
and_words (x ∷ xs) [] = 0 ∷ and_words xs []
and_words (x ∷ xs) (y ∷ ys) = bit_and x y ∷ and_words xs ys

-- The vector is resized to the larger size first.
unfoldable pub or_words : List ℕ → List ℕ → List ℕ
or_words xs [] = xs
or_words [] (y ∷ ys) = bit_or 0 y ∷ or_words [] ys
or_words (x ∷ xs) (y ∷ ys) = bit_or x y ∷ or_words xs ys

unfoldable pub xor_words : List ℕ → List ℕ → List ℕ
xor_words xs [] = xs
xor_words [] (y ∷ ys) = bit_xor 0 y ∷ xor_words [] ys
xor_words (x ∷ xs) (y ∷ ys) = bit_xor x y ∷ xor_words xs ys

-- `bs.m_data = ...; bs.m_highestSet = bs.findHighestSet();`
unfoldable pub from_long_array : List ℕ → BitSet
from_long_array longs = record { words = longs; highest_set = find_highest_set longs }

unfoldable pub and_not : BitSet → BitSet → BitSet
and_not s other = from_long_array (and_not_words s.words other.words)

unfoldable pub and_with : BitSet → BitSet → BitSet
and_with s other = from_long_array (and_words s.words other.words)

unfoldable pub or_with : BitSet → BitSet → BitSet
or_with s other = from_long_array (or_words s.words other.words)

unfoldable pub xor_with : BitSet → BitSet → BitSet
xor_with s other = from_long_array (xor_words s.words other.words)

unfoldable pub to_long_array : BitSet → List ℕ
to_long_array s = if s.highest_set == npos then [] else take (s.highest_set / 64 + 1) s.words

unfoldable pub write_bit_set : BitSet → Action (Unit {0})
write_bit_set s = write_prefixed_array (write_numeric ulong) (to_long_array s)

unfoldable pub read_bit_set : Action BitSet
read_bit_set = do longs ← read_prefixed_array (read_numeric ulong); pure (from_long_array longs)
