-- ===== src/Vectors.antt =====
-- Vectors and what is packed into a position: `Vector2` and `Vector3` of inc/type/Vector.h, and
-- `writePosition` to `readBlockCoordinates` and the UUID functions of src/type/ByteBuffer.cpp.
-- A component is the bit pattern of an `int` or of a `float`.
pub mod Positions
pub mod Coordinates
use zinc.Common.{ℕ, zero, suc, ◌+◌, ◌-◌, ◌*◌, ◌/◌, ◌%◌, ◌^◌, bit_and, bit_or, List, [], ◌∷◌}
use zinc.Common.{Bool, ◌==◌, ltb, if◌then◌else◌, length, Option, none, some}
use zinc.ByteBuffer.{ByteBuffer, Action, pure, ◌>>=◌, ◌>>◌, write_unsigned_byte, read_bytes}
use zinc.Numeric.{
  NumericType, int, long, float, bits_of, sign_extend, truncate_to, write_numeric, read_numeric,
}
use zinc.VarNumeric.{write_var_numeric, read_var_numeric}
use zinc.Text.{or_throw}
use zinc.Arrays.{write_array}

pub record Vector2 : Type 0 where
  pub x : ℕ
  pub y : ℕ

pub record Vector3 : Type 0 where
  pub x : ℕ
  pub y : ℕ
  pub z : ℕ

-- `operator[]`
unfoldable pub component2 : ℕ → Vector2 → ℕ
component2 i v = if i == 0 then v.x else v.y

unfoldable pub component3 : ℕ → Vector3 → ℕ
component3 i v = if i == 0 then v.x else if i == 1 then v.y else v.z

unfoldable pub get_values2 : Vector2 → List ℕ
get_values2 v = v.x ∷ v.y ∷ []

unfoldable pub get_values3 : Vector3 → List ℕ
get_values3 v = v.x ∷ v.y ∷ v.z ∷ []

-- `<<` and `>>` on a signed type.
abbrev pub shift_left : NumericType → ℕ → ℕ → ℕ
shift_left t v k = v * 2 ^ k % 2 ^ bits_of t

abbrev pub shift_right : NumericType → ℕ → ℕ → ℕ
shift_right t v k =
    v / 2 ^ k + (if ltb v (2 ^ (bits_of t - 1)) then 0 else 2 ^ bits_of t - 2 ^ (bits_of t - k))

-- 26 bits of x, 26 bits of z and 12 bits of y, from the top.
unfoldable pub position_word : Vector3 → ℕ
position_word value =
    bit_or
      (bit_or (shift_left long (bit_and (sign_extend int long value.x) (2 ^ 26 - 1)) 38)
        (shift_left long (bit_and (sign_extend int long value.z) (2 ^ 26 - 1)) 12))
      (bit_and (sign_extend int long value.y) (2 ^ 12 - 1))

unfoldable pub write_position : Vector3 → Action (Unit {0})
write_position value = write_numeric long (position_word value)

-- The sign of a field of `32 - k` bits is spread by a shift up and down.
abbrev pub widen : ℕ → ℕ → ℕ
widen k v = shift_right int (shift_left int v k) k

unfoldable pub position_of : ℕ → Vector3
position_of long_val = record {
  x = widen 6 (truncate_to int (shift_right long long_val 38));
  y = widen 20 (truncate_to int (bit_and long_val (2 ^ 12 - 1)));
  z = widen 6 (truncate_to int (bit_and (shift_right long long_val 12) (2 ^ 26 - 1)));
}

unfoldable pub read_position : Action Vector3
read_position = do long_val ← read_numeric long; pure (position_of long_val)

-- C++ does not say in which order the arguments of `Vector3f(read(), read(), read())` are evaluated,
-- only that they are evaluated one after the other.
pub data ArgumentOrder : Type 0 where
  xyz : ArgumentOrder
  xzy : ArgumentOrder
  yxz : ArgumentOrder
  yzx : ArgumentOrder
  zxy : ArgumentOrder
  zyx : ArgumentOrder

-- The vector whose components were read one after the other, in that order.
unfoldable pub arrange : ArgumentOrder → ℕ → ℕ → ℕ → Vector3
arrange xyz first second third = record { x = first; y = second; z = third }
arrange xzy first second third = record { x = first; y = third; z = second }
arrange yxz first second third = record { x = second; y = first; z = third }
arrange yzx first second third = record { x = third; y = first; z = second }
arrange zxy first second third = record { x = second; y = third; z = first }
arrange zyx first second third = record { x = third; y = second; z = first }

unfoldable pub read_three : Action ℕ → ArgumentOrder → Action Vector3
read_three r order = do first ← r; second ← r; third ← r; pure (arrange order first second third)

unfoldable pub write_vector3 : Vector3 → Action (Unit {0})
write_vector3 vector = do
  write_numeric float vector.x
  write_numeric float vector.y
  write_numeric float vector.z

unfoldable pub read_vector3 : ArgumentOrder → Action Vector3
read_vector3 order = read_three (read_numeric float) order

unfoldable pub write_vector2 : Vector2 → Action (Unit {0})
write_vector2 vector = do write_numeric float vector.x; write_numeric float vector.y

-- `x_first`: the first argument is evaluated first.
unfoldable pub read_vector2 : Bool → Action Vector2
read_vector2 x_first = do
  first ← read_numeric float
  second ← read_numeric float
  pure (if x_first then record { x = first; y = second } else record { x = second; y = first })

unfoldable pub write_block_coordinates : Vector3 → Action (Unit {0})
write_block_coordinates block_coordinates = do
  write_var_numeric int block_coordinates.x
  write_var_numeric int block_coordinates.y
  write_var_numeric int block_coordinates.z

unfoldable pub read_block_coordinates : ArgumentOrder → Action Vector3
read_block_coordinates order = read_three (read_var_numeric int) order

-- The 16 bytes of a `uuids::uuid`.
unfoldable pub write_uuid : List ℕ → Action (Unit {0})
write_uuid uuid = write_array write_unsigned_byte uuid

unfoldable pub read_uuid : Action (List ℕ)
read_uuid = read_bytes 16
