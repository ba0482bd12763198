-- ===== src/Nbt/Decoding.antt =====
-- `NBTElement::decode` of src/type/nbt/NBTElement.cpp. Bytes from outside decide how deep it goes and
-- how many children a compound has, so both have fuel; `none` is its end.
use zinc.Common.{ℕ, zero, suc, Bool, true, false, not, ◌&&◌, ltb, if◌then◌else◌, Option, none, some}
use zinc.Common.{List, [], get_elem?}
use zinc.ByteBuffer.{
  Action, pure, ◌>>=◌, read_byte, read_bytes, get_bytes, get_reader_pointer, size,
}
use zinc.Numeric.{NumericType, ask_order, read_numeric}
use zinc.Text.{or_throw}
use zinc.Arrays.{read_array}
use zinc.Nbt.{
  NbtElementType, end, byte, short, int, long, float, double, byte_array, string, list, compound,
}
use zinc.Nbt.{
  int_array, long_array, other, of_char, NbtSettings, no_values, NbtElement, NbtElements,
}
use zinc.Nbt.{
  element, nil, cons, of_byte, of_short, of_int, of_long, of_float, of_double, of_byte_array,
}
use zinc.Nbt.{of_string, of_int_array, of_long_array, of_list, of_compound}
use zinc.Nbt.Coding.{is_end, read_number, read_count, read_text, read_tag}

unfoldable pub read_type : NbtSettings → Action NbtElementType
read_type s = if s.is_in_array then pure s.type_ else (do c ← read_byte; pure (of_char c))

unfoldable pub read_tag_of : NbtSettings → NbtElementType → Action (List ℕ)
read_tag_of s t = if not (is_end t) && not s.is_in_array then read_tag s.is_network else pure []

-- The settings of the children: `!m_isBigEndian && settings.m_isNetwork`.
abbrev pub child_settings : Bool → NbtElementType → Bool → Bool → NbtSettings
child_settings is_in_array t network big = record {
  is_in_array = is_in_array;
  is_network = not big && network;
  type_ = t;
}

unfoldable pub decode_items : Action NbtElement → ℕ → Action NbtElements
decode_items d zero = pure nil
decode_items d (suc n) = do x ← d; xs ← decode_items d n; pure (cons x xs)

-- `getBytes()[getReaderPointer()]`, or nothing where the reader has caught up with `size()`.
unfoldable pub next_byte : Action (Option ℕ)
next_byte b =
    if ltb (get_reader_pointer b) (size b)
    then elim (get_elem? (get_bytes b) (get_reader_pointer b)) [
      | none ↦ none
      | some c ↦ some (some c, b)
    ]
    else some (none, b)

-- The loop over the children of a compound, whose end is a zero byte or the end of the bytes.
unfoldable pub on_next : Action NbtElements → Option ℕ → Action NbtElements
on_next more none = pure nil
on_next more (some zero) = do _ ← read_byte; pure nil
on_next more (some (suc c)) = more

unfoldable pub decode_fields : ℕ → Action NbtElement → Action NbtElements
decode_fields zero d = or_throw none
decode_fields (suc n) d = do
  c ← next_byte
  on_next (do x ← d; xs ← decode_fields n d; pure (cons x xs)) c

-- The value after type and tag; `d` decodes a child with the given settings.
unfoldable pub decode_body :
    ℕ
    → (NbtSettings → Action NbtElement)
    → NbtSettings
    → List ℕ
    → NbtElementType
    → Action NbtElement
decode_body n d s tag byte = do v ← read_byte; pure (of_byte tag v s)
decode_body n d s tag short = do v ← read_numeric NumericType.short; pure (of_short tag v s)
decode_body n d s tag int = do v ← read_number s.is_network NumericType.int; pure (of_int tag v s)
decode_body n d s tag long = do
  v ← read_number s.is_network NumericType.long
  pure (of_long tag v s)
decode_body n d s tag float = do v ← read_numeric NumericType.float; pure (of_float tag v s)
decode_body n d s tag double = do v ← read_numeric NumericType.double; pure (of_double tag v s)
decode_body n d s tag byte_array = do
  k ← read_count s.is_network
  v ← read_bytes k
  pure (of_byte_array tag v s)
decode_body n d s tag string = do v ← read_text s.is_network; pure (of_string tag v s)
decode_body n d s tag list = do
  c ← read_byte
  k ← read_count s.is_network
  big ← ask_order
  items ←
      decode_items (d (child_settings true (of_char c) s.is_network big))
        (if is_end (of_char c) then 0 else k)
  pure (of_list tag items s)
decode_body n d s tag compound = do
  big ← ask_order
  children ← decode_fields n (d (child_settings false end s.is_network big))
  pure (of_compound tag children s)
decode_body n d s tag int_array = do
  k ← read_count s.is_network
  v ← read_array (read_numeric NumericType.int) k
  pure (of_int_array tag v s)
decode_body n d s tag long_array = do
  k ← read_count s.is_network
  v ← read_array (read_numeric NumericType.long) k
  pure (of_long_array tag v s)
decode_body n d s tag end = pure (element s tag end no_values nil)
decode_body n d s tag (other c) = pure (element s tag (other c) no_values nil)

-- `decode` of a new element with settings `s`.
unfoldable pub decode : ℕ → NbtSettings → Action NbtElement
decode zero s = or_throw none
decode (suc n) s = do t ← read_type s; tag ← read_tag_of s t; decode_body n (decode n) s tag t
