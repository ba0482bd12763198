-- ===== src/ByteBuffer.antt =====
-- `ByteBuffer` of inc/type/ByteBuffer.h and src/type/ByteBuffer.cpp: the block buffer with a byte
-- order, and the operations on raw bytes. A member function is an action on the buffer's state;
-- `none` is undefined behaviour, such as `readBytes[0]` of an empty vector.
pub mod Rules
pub mod Raw
use zinc.Common.{ℕ, ◌+◌, ◌*◌, ◌/◌, ◌%◌, Bool, true, false, ◌&&◌, not, Option, none, some}
use zinc.Common.{List, [], ◌∷◌, length, ◌==◌, if◌then◌else◌}
use zinc.Buffer
use zinc.Buffer.{InternalByteBuffer, block_size}

pub record ByteBuffer : Type 0 where
  pub internal_buffer : InternalByteBuffer
  pub is_big_endian : Bool

abbrev pub Action {ℓ} : Type ℓ → Type ℓ
Action A = ByteBuffer → Option (A × ByteBuffer)

abbrev pub pure {ℓ} : {A : Type ℓ} → A → Action A
pure a b = some (a, b)

infixl 5 ◌>>=◌ ◌>>◌
abbrev pub ◌>>=◌ {ℓ κ} : {A : Type ℓ} {B : Type κ} → Action A → (A → Action B) → Action B
◌>>=◌ m f b = elim (m b) [ none ↦ none | some (a, b') ↦ f a b' ]

abbrev pub ◌>>◌ {κ} : {B : Type κ} → Action (Unit {0}) → Action B → Action B
m >> k = m >>= λ _. k

-- An `if` with no `else` around a statement.
abbrev pub when : Bool → Action (Unit {0}) → Action (Unit {0})
when c m = if c then m else pure tt

unfoldable pub empty : Bool → ByteBuffer
empty is_big_endian = record { internal_buffer = Buffer.init; is_big_endian = is_big_endian }

-- `ByteBuffer(bytes, readPtr, isBigEndian)`.
unfoldable pub from_bytes : List ℕ → ℕ → Bool → Option ByteBuffer
from_bytes bytes read_ptr is_big_endian = elim (Buffer.write bytes Buffer.init) [
  | none ↦ none
  | some s ↦ some (record {
    internal_buffer = Buffer.set_reader (read_ptr / block_size, read_ptr % block_size) s;
    is_big_endian = is_big_endian;
  })
]

-- `ByteBuffer(ByteBuffer&&)`: the bytes are written anew, so block recycling is off.
unfoldable pub move : ByteBuffer → Option ByteBuffer
move buffer = elim (Buffer.write (Buffer.get_bytes buffer.internal_buffer) Buffer.init) [
  | none ↦ none
  | some s ↦ some (record {
    internal_buffer = Buffer.set_reader (Buffer.get_reader buffer.internal_buffer) s;
    is_big_endian = buffer.is_big_endian;
  })
]

unfoldable pub clear : Action (Unit {0})
clear b = some (tt, record b { internal_buffer = Buffer.clear b.internal_buffer })

unfoldable pub get_bytes : ByteBuffer → List ℕ
get_bytes b = Buffer.get_bytes b.internal_buffer

unfoldable pub size : ByteBuffer → ℕ
size b = let writer = Buffer.get_writer b.internal_buffer in writer.0 * block_size + writer.1

unfoldable pub get_reader_pointer : ByteBuffer → ℕ
get_reader_pointer b =
    let reader = Buffer.get_reader b.internal_buffer in reader.0 * block_size + reader.1

unfoldable pub write_bytes : List ℕ → Action (Unit {0})
write_bytes bytes b = elim (Buffer.write bytes b.internal_buffer) [
  | none ↦ none
  | some s ↦ some (tt, record b { internal_buffer = s })
]

unfoldable pub read_bytes : ℕ → Action (List ℕ)
read_bytes n b = elim (Buffer.read n b.internal_buffer) [
  | none ↦ none
  | some (bytes, s) ↦ some (bytes, record b { internal_buffer = s })
]

unfoldable pub write_byte : ℕ → Action (Unit {0})
write_byte c = write_bytes (c ∷ [])

-- `readBytes[0]`
abbrev pub first_byte : List ℕ → Action ℕ
first_byte [] b = none
first_byte (c ∷ rest) b = some (c, b)

unfoldable pub read_byte : Action ℕ
read_byte = read_bytes 1 >>= first_byte

-- `char` and `unsigned char` have the same bit patterns.
unfoldable pub write_unsigned_byte : ℕ → Action (Unit {0})
write_unsigned_byte c = write_byte c

unfoldable pub read_unsigned_byte : Action ℕ
read_unsigned_byte = read_byte

unfoldable pub write_byte_array : List ℕ → Action (Unit {0})
write_byte_array bytes = write_bytes bytes

unfoldable pub read_byte_array : ℕ → Action (List ℕ)
read_byte_array n = read_bytes n

-- `ByteBuffer buffer; ...; return buffer.getBytes();`, the shape of every `toBytes`.
unfoldable pub to_bytes : Action (Unit {0}) → Option (List ℕ)
to_bytes m = elim (m (empty true)) [ none ↦ none | some (_, b) ↦ some (get_bytes b) ]
