-- ===== src/VarNumeric.antt =====
-- `writeVarNumeric`, `readVarNumeric`, their zigzag forms and their lengths, of
-- inc/type/ByteBuffer.h: seven bits to a byte, the lowest first, with the top bit set on every byte
-- but the last. Values are bit patterns, so the casts to and from the unsigned type are no steps. The
-- templates are for the integer types: `std::make_unsigned_t` has no result for `bool`, `float` and
-- `double`, so the code has no instance for what the definitions say of these three.
pub mod Groups
pub mod RoundTrip
pub mod ZigZag
use zinc.Common.{ℕ, zero, suc, ◌+◌, ◌-◌, ◌*◌, ◌/◌, ◌%◌, ◌^◌, Bool, true, false, Option, none, some}
use zinc.Common.{List, [], ◌∷◌, ltb, leb, ◌==◌, if◌then◌else◌, bit_and, bit_or, bit_xor}
use zinc.ByteBuffer.{ByteBuffer, Action, pure, ◌>>=◌, write_bytes, read_bytes, first_byte}
use zinc.Numeric.{NumericType, size_of, bits_of, is_signed}

abbrev pub var_numeric_max_size : NumericType → ℕ
var_numeric_max_size t = size_of t * 8 / 7 + 1

-- `do { temp[count++] = (uv & 0x7F) | 0x80; uv >>= 7; } while (uv);` with `room` places left in
-- `temp`; `none` is a write past its end.
unfoldable pub groups : ℕ → ℕ → Option (List ℕ)
groups zero uv = none
groups (suc room) uv =
    let byte = bit_or (bit_and uv 0x7f) 0x80 in
    elim (uv / 2 ^ 7 == 0) [
      | true ↦ some (byte ∷ [])
      | false ↦ elim (groups room (uv / 2 ^ 7)) [ none ↦ none | some rest ↦ some (byte ∷ rest) ]
    ]

-- `temp[count-1] &= 0x7F`
unfoldable pub clear_last : List ℕ → List ℕ
clear_last [] = []
clear_last (byte ∷ []) = bit_and byte 0x7f ∷ []
clear_last (byte ∷ next ∷ rest) = byte ∷ clear_last (next ∷ rest)

-- For an integer type; the template has no instance for `bool`, `float` and `double`.
unfoldable pub write_var_numeric : NumericType → ℕ → Action (Unit {0})
write_var_numeric t value b = elim (groups (var_numeric_max_size t) value) [
  | none ↦ none
  | some temp ↦ write_bytes (clear_last temp) b
]

-- `do { count++; uv >>= 7; } while (uv);` with fuel.
unfoldable pub count_groups : ℕ → ℕ → ℕ → ℕ
count_groups zero uv count = count
count_groups (suc fuel) uv count = elim (uv / 2 ^ 7 == 0) [
  | true ↦ count + 1
  | false ↦ count_groups fuel (uv / 2 ^ 7) (count + 1)
]

-- A shift by seven bits empties the word after `var_numeric_max_size` rounds.
unfoldable pub get_var_numeric_length : NumericType → ℕ → ℕ
get_var_numeric_length t value = count_groups (var_numeric_max_size t) value 0

-- The sign bit is set again where it is set.
unfoldable pub extend_sign : ℕ → Bool → ℕ → ℕ
extend_sign w signed result =
    if signed
    then if bit_and result (2 ^ (w - 1)) == 0 then result else bit_or result (2 ^ (w - 1))
    else result

-- The loop over at most `room` bytes, for a type of `w` bits. Both errors are logged, and 0 is
-- returned: a shift past the type, and too many bytes.
unfoldable pub read_groups : ℕ → Bool → ℕ → ℕ → ℕ → Action ℕ
read_groups w signed zero shift result = pure 0
read_groups w signed (suc room) shift result = do
  read_byte ← read_bytes 1
  byte ← first_byte read_byte
  let result' = bit_or result (bit_and byte 0x7f * 2 ^ shift % 2 ^ w)
  elim (bit_and byte 0x80 == 0) [
    | true ↦ pure (extend_sign w signed result')
    | false ↦ elim (leb w (shift + 7)) [
      | true ↦ pure 0
      | false ↦ read_groups w signed room (shift + 7) result'
    ]
  ]

unfoldable pub read_var_numeric : NumericType → Action ℕ
read_var_numeric t = read_groups (bits_of t) (is_signed t) (var_numeric_max_size t) 0 0

-- `(value << 1) ^ (value >> (w - 1))`: the right shift repeats the sign bit of a signed type, and leaves the
-- top bit of an unsigned one as a number.
unfoldable pub zig_zag : ℕ → Bool → ℕ → ℕ
zig_zag w signed value =
    bit_xor (value * 2 % 2 ^ w)
      (if ltb value (2 ^ (w - 1)) then 0 else (if signed then 2 ^ w - 1 else 1))

-- `(uv >> 1) ^ (-(uv & 1))`
unfoldable pub un_zig_zag : ℕ → ℕ → ℕ
un_zig_zag w uv = bit_xor (uv / 2) ((2 ^ w - bit_and uv 1) % 2 ^ w)

-- The transformed value is written as the unsigned type of the same size.
unfoldable pub unsigned_of : NumericType → NumericType
unsigned_of NumericType.short = NumericType.ushort
unsigned_of NumericType.int = NumericType.uint
unsigned_of NumericType.long = NumericType.ulong
unsigned_of NumericType.char = NumericType.uchar
unsigned_of t = t

unfoldable pub write_zig_zag_var_numeric : NumericType → ℕ → Action (Unit {0})
write_zig_zag_var_numeric t value =
    write_var_numeric (unsigned_of t) (zig_zag (bits_of t) (is_signed t) value)

unfoldable pub get_zig_zag_var_numeric_length : NumericType → ℕ → ℕ
get_zig_zag_var_numeric_length t value =
    get_var_numeric_length (unsigned_of t) (zig_zag (bits_of t) (is_signed t) value)

unfoldable pub read_zig_zag_var_numeric : NumericType → Action ℕ
read_zig_zag_var_numeric t = do
  uv ← read_var_numeric (unsigned_of t)
  pure (un_zig_zag (bits_of t) uv)
