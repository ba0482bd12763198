-- ===== src/Nbt/Coding.antt =====
-- `NBTElement::encode` and `NBTElement::decode` of src/type/nbt/NBTElement.cpp.
-- Recursion into the children of bytes that come from outside has fuel; `none` is its end.
use zinc.Common.{ℕ, suc, Bool, true, false, not, ◌&&◌, ◌==◌, if◌then◌else◌}
use zinc.Common.{List, [], length}
use zinc.ByteBuffer.{Action, pure, ◌>>=◌, ◌>>◌, when, write_byte, write_bytes, read_bytes}
use zinc.Numeric.{NumericType, ask_order, write_numeric, read_numeric, truncate_to}
use zinc.VarNumeric.{write_zig_zag_var_numeric, read_zig_zag_var_numeric}
use zinc.Text.{write_string, read_string}
use zinc.Arrays.{write_array}
use zinc.Nbt.{
  NbtElementType, end, byte, short, int, long, float, double, byte_array, string, list, compound,
}
use zinc.Nbt.{
  int_array, long_array, other, to_char, NbtSettings, plain, NbtValues, NbtElement, NbtElements,
}
use zinc.Nbt.{element, nil, cons}

abbrev pub is_end : NbtElementType → Bool
is_end t = to_char t == 0

-- `if (m_settings.m_type != End) type = m_settings.m_type;`
unfoldable pub override : NbtSettings → NbtElementType → NbtElementType
override s t = if is_end s.type_ then t else s.type_

-- What a buffer's byte order and the network setting choose.
abbrev pub choose {ℓ} : {A : Type ℓ} → Bool → Bool → Action A → Action A → Action A → Action A
choose big_endian network big net little =
    if big_endian then big else if network then net else little

abbrev pub by_order {ℓ} : {A : Type ℓ} → Bool → Action A → Action A → Action A → Action A
by_order network big net little = ask_order >>= λ e. choose e network big net little

-- An `int` or `long`: fixed width, but zigzag in a little-endian network buffer.
unfoldable pub write_number : Bool → NumericType → ℕ → Action (Unit {0})
write_number network t v =
    by_order network (write_numeric t v) (write_zig_zag_var_numeric t v) (write_numeric t v)

unfoldable pub read_number : Bool → NumericType → Action ℕ
read_number network t =
    by_order network (read_numeric t) (read_zig_zag_var_numeric t) (read_numeric t)

-- The length of an array or list.
unfoldable pub write_count : Bool → ℕ → Action (Unit {0})
write_count network n =
    by_order network (write_numeric NumericType.uint (truncate_to NumericType.uint n))
      (write_zig_zag_var_numeric NumericType.int (truncate_to NumericType.int n))
      (write_numeric NumericType.uint (truncate_to NumericType.uint n))

unfoldable pub read_count : Bool → Action ℕ
read_count network =
    by_order network (read_numeric NumericType.uint) (read_zig_zag_var_numeric NumericType.int)
      (read_numeric NumericType.uint)

-- A 16-bit length and the bytes.
unfoldable pub write_short_string : List ℕ → Action (Unit {0})
write_short_string s = do
  write_numeric NumericType.ushort (truncate_to NumericType.ushort (length s))
  write_bytes s

unfoldable pub read_short_string : Action (List ℕ)
read_short_string = do n ← read_numeric NumericType.ushort; read_bytes n

unfoldable pub write_text : Bool → List ℕ → Action (Unit {0})
write_text network s =
    by_order network (write_short_string s) (write_string s) (write_short_string s)

unfoldable pub read_text : Bool → Action (List ℕ)
read_text network = by_order network read_short_string read_string read_short_string

-- A big-endian network buffer has no tag where it is empty.
unfoldable pub write_tag : Bool → List ℕ → Action (Unit {0})
write_tag network tag =
    by_order network (when (not ((length tag == 0) && network)) (write_short_string tag))
      (write_string tag) (write_short_string tag)

unfoldable pub read_tag : Bool → Action (List ℕ)
read_tag network =
    by_order network (if not network then read_short_string else pure []) read_string
      read_short_string

-- The value after the tag; lists and compounds are written by the last two arguments.
unfoldable pub write_body :
    Bool → NbtElementType → NbtValues → Action (Unit {0}) → Action (Unit {0}) → Action (Unit {0})
write_body network byte v as_list as_compound = write_byte v.byte_value
write_body network short v as_list as_compound = write_numeric NumericType.short v.short_value
write_body network int v as_list as_compound = write_number network NumericType.int v.int_value
write_body network long v as_list as_compound = write_number network NumericType.long v.long_value
write_body network float v as_list as_compound = write_numeric NumericType.float v.float_value
write_body network double v as_list as_compound = write_numeric NumericType.double v.double_value
write_body network byte_array v as_list as_compound = do
  write_count network (length v.byte_array_value)
  write_bytes v.byte_array_value
write_body network string v as_list as_compound = write_text network v.string_value
write_body network list v as_list as_compound = as_list
write_body network compound v as_list as_compound = as_compound
write_body network int_array v as_list as_compound = do
  write_count network (length v.int_array_value)
  write_array (write_numeric NumericType.int) v.int_array_value
write_body network long_array v as_list as_compound = do
  write_count network (length v.long_array_value)
  write_array (write_numeric NumericType.long) v.long_array_value
write_body network end v as_list as_compound = pure tt
write_body network (other c) v as_list as_compound = pure tt

unfoldable pub count : NbtElements → ℕ
count nil = 0
count (cons x xs) = suc (count xs)

abbrev pub type_of : NbtElement → NbtElementType
type_of (element s tag t v children) = t

abbrev pub tag_of : NbtElement → List ℕ
tag_of (element s tag t v children) = tag

unfoldable pub all_of_type : NbtElementType → NbtElements → Bool
all_of_type t nil = true
all_of_type t (cons x xs) = (to_char (type_of x) == to_char t) && all_of_type t xs

-- `m_childElements[0].m_type`
abbrev pub first_type : NbtElements → NbtElementType
first_type nil = end
first_type (cons x xs) = type_of x

abbrev pub item_settings : NbtElementType → NbtSettings
item_settings t = record { is_in_array = true; is_network = false; type_ = t }

unfoldable pub write_empty_list : Bool → Action (Unit {0})
write_empty_list network = do write_byte 0; write_count network 0

-- A list whose elements have different types is written as an empty one, with an error message.
unfoldable pub write_list : Bool → NbtElements → Action (Unit {0}) → Action (Unit {0})
write_list network nil items = write_empty_list network
write_list network (cons x xs) items =
    if all_of_type (type_of x) (cons x xs)
    then (do write_byte (to_char (type_of x)); write_count network (count (cons x xs)); items)
    else write_empty_list network

-- `encode` of an element whose settings were replaced by `s`.
unfoldable mutual
  pub encode_as : NbtSettings → NbtElement → Action (Unit {0})
  encode_as s (element _ tag type_ v children) = do
    when (not s.is_in_array) (write_byte (to_char (override s type_)))
    when (not (is_end (override s type_)) && not s.is_in_array) (write_tag s.is_network tag)
    write_body s.is_network (override s type_) v
        (write_list s.is_network children
          (encode_all (item_settings (first_type children)) children))
        (do encode_all plain children; write_byte 0)

  pub encode_all : NbtSettings → NbtElements → Action (Unit {0})
  encode_all s nil = pure tt
  encode_all s (cons x xs) = do encode_as s x; encode_all s xs

unfoldable pub encode : NbtElement → Action (Unit {0})
encode (element s tag type_ v children) = encode_as s (element s tag type_ v children)
