-- ===== src/Numeric.antt =====
-- `ByteBuffer::writeNumeric` and `readNumeric` of inc/type/ByteBuffer.h, and the conversions that
-- the codecs use. A value of a w-bit type is its bit pattern, a number below 2 ^ w: two's
-- complement for the signed types, the IEEE format for `float` and `double`. The host is
-- little-endian, as its memory is copied byte by byte.
pub mod Bytes
pub mod RoundTrip
pub mod Sizes
use zinc.Common.{ℕ, zero, suc, ◌+◌, ◌-◌, ◌*◌, ◌/◌, ◌%◌, ◌^◌, ◌<◌, Bool, true, false}
use zinc.Common.{List, [], ◌∷◌, reverse, ltb, ◌==◌, if◌then◌else◌}
use zinc.ByteBuffer.{
  ByteBuffer, Action, pure, ◌>>=◌, write_bytes, read_bytes, write_byte, read_byte,
}
use zinc.ByteBuffer.{write_unsigned_byte, read_unsigned_byte}

-- The arithmetic types for which the templates are used.
pub data NumericType : Type 0 where
  bool char uchar short ushort int uint long ulong float double : NumericType

-- `sizeof(T)` on the platform (LP64).
abbrev pub size_of : NumericType → ℕ
size_of bool = 1
size_of char = 1
size_of uchar = 1
size_of short = 2
size_of ushort = 2
size_of int = 4
size_of uint = 4
size_of long = 8
size_of ulong = 8
size_of float = 4
size_of double = 8

abbrev pub bits_of : NumericType → ℕ
bits_of t = size_of t * 8

abbrev pub is_signed : NumericType → Bool
is_signed short = true
is_signed int = true
is_signed long = true
is_signed char = true
is_signed _ = false

-- The object representation: `n` bytes, the lowest first.
unfoldable pub to_memory : ℕ → ℕ → List ℕ
to_memory zero v = []
to_memory (suc n) v = (v % 256) ∷ to_memory n (v / 256)

unfoldable pub from_memory : List ℕ → ℕ
from_memory [] = 0
from_memory (c ∷ rest) = c + 256 * from_memory rest

-- `if (m_isBigEndian) std::reverse(...)`
abbrev pub in_order : Bool → List ℕ → List ℕ
in_order is_big_endian bytes = if is_big_endian then reverse bytes else bytes

abbrev pub ask_order : Action Bool
ask_order b = pure b.is_big_endian b

unfoldable pub write_memory : ℕ → ℕ → Action (Unit {0})
write_memory n v = do order ← ask_order; write_bytes (in_order order (to_memory n v))

unfoldable pub write_numeric : NumericType → ℕ → Action (Unit {0})
write_numeric bool v = write_byte (if v == 0 then 0 else 1)
write_numeric char v = write_byte v
write_numeric uchar v = write_unsigned_byte v
write_numeric t v = write_memory (size_of t) v

-- `T result = 0` and a copy of the bytes that were read over its memory.
unfoldable pub read_memory : ℕ → Action ℕ
read_memory n = do
  bytes ← read_bytes n
  order ← ask_order
  pure (from_memory (in_order order bytes))

abbrev pub to_bool : ℕ → ℕ
to_bool c = if c == 0 then 0 else 1

unfoldable pub read_numeric : NumericType → Action ℕ
read_numeric bool = do c ← read_byte; pure (to_bool c)
read_numeric char = read_byte
read_numeric uchar = read_unsigned_byte
read_numeric t = read_memory (size_of t)

-- `zinc_safe_cast` between integer types is the cast of the language (inc/util/Memory.h).
-- To a narrower type, or one of the same width:
abbrev pub truncate_to : NumericType → ℕ → ℕ
truncate_to t v = v % 2 ^ bits_of t

-- From a signed type to a wider one:
abbrev pub sign_extend : NumericType → NumericType → ℕ → ℕ
sign_extend from to v =
    if ltb v (2 ^ (bits_of from - 1)) then v else v + 2 ^ bits_of to - 2 ^ bits_of from
