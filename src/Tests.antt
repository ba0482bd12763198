-- ===== src/Tests.antt =====
-- The theorems at concrete inputs: buffers, numbers, texts and sets small enough to read.
pub mod Services
pub mod Network
pub mod Players
use zinc.Common.{ℕ, suc, ◌+◌, ◌^◌, ◌≤◌, ◌<◌, ◌≡◌, refl, inl, inr, arith, true, false, not}
use zinc.Common.{
  ◌&&◌, ◌||◌, some, none, [], ◌∷◌, length, if◌then◌else◌, take, replicate, length-replicate, ap,
  ◌↔◌, ◌++◌,
}
use zinc.GameTypes.{Property, exact, write_property, read_property}
use zinc.GameTypes.Properties.{IsProperty, relevant, read_property-write_property}
use zinc.Nbt.Coding.{encode}
use zinc.Nbt.Decoding.{decode}
use zinc.Nbt.Headers.{named}
use zinc.Nbt.Trees.{
  Tree, fields, field, no_field, items, item, none_left, leaf, int_leaf, short_leaf, build, IsTree,
  count_items, AreItems, AreFields, weight,
}
use zinc.Nbt.RoundTrip.{decode-encode}
use zinc.Predicates.{write_matcher, read_matcher}
use zinc.Predicates.Matchers.{matcher, read_matcher-write_matcher}
use zinc.Packets.{ZincPacket, get_data, set_data}
use zinc.Packets.Copies.{get_data-set_data}
use zinc.Buffer
use zinc.Buffer.{InternalByteBuffer}
use zinc.Buffer.View
use zinc.Buffer.View.{init-IsValid, contents}
use zinc.Buffer.Writing.{IsAppended, write-IsAppended}
use zinc.Buffer.Reading.{IsConsumed, read-IsConsumed}
use zinc.Buffer.PastEnd.{ahead, read_past_end}
use zinc.ByteBuffer.{ByteBuffer, empty, size, get_bytes}
use zinc.ByteBuffer.Rules.{RoundTrips, Leaves, IsReady, unread}
use zinc.ByteBuffer.Raw.{empty-IsReady, unread-empty}
use zinc.Numeric.{int, short, write_numeric, read_numeric}
use zinc.Numeric.RoundTrip.{read_numeric-write_numeric}
use zinc.VarNumeric.{
  write_var_numeric, read_var_numeric, get_var_numeric_length, var_numeric_max_size,
}
use zinc.VarNumeric.{write_zig_zag_var_numeric, read_zig_zag_var_numeric}
use zinc.VarNumeric.Groups.{size-write_var_numeric}
use zinc.VarNumeric.RoundTrip.{read_var_numeric-write_var_numeric, var_numeric-Codes}
use zinc.VarNumeric.ZigZag.{read_zig_zag-write_zig_zag}
use zinc.Text.{Identifier, to_string, write_string, read_string, write_identifier, read_identifier}
use zinc.Text.Identifiers.{HasNoColon, read_identifier-write_identifier}
use zinc.Arrays.{write_prefixed_array, read_prefixed_array}
use zinc.Arrays.Sequences.{read_prefixed_array-write_prefixed_array}
use zinc.Vectors.{Vector3, zyx, arrange, write_position, read_position}
use zinc.Vectors.{write_block_coordinates, read_block_coordinates}
use zinc.Vectors.Positions.{read_position-write_position}
use zinc.Vectors.Coordinates.{ReadsBack, read_block_coordinates-write_block_coordinates}
use zinc.Teleport
use zinc.Teleport.{TeleportFlags, flags_eq, write_teleport_flags, read_teleport_flags}
use zinc.Teleport.Flags.{read_teleport_flags-write_teleport_flags}
use zinc.IdSets
use zinc.IdSets.{write_id_set, read_id_set}
use zinc.IdSets.Coding.{read_id_set-write_id_set}
use zinc.Sounds.{SoundEvent, write_sound_event, read_sound_event, has_fixed_range}
use zinc.Sounds.Coding.{read_sound_event-write_sound_event}
use zinc.BitSet.{
  BitSet, from_long_array, get_bit, set_bit, clear_bit, flip_bit, and_with, or_with, xor_with,
  and_not,
}
use zinc.BitSet.{write_bit_set, read_bit_set}
use zinc.BitSet.Words.{differs}
use zinc.BitSet.Changes.{IsBitSet}
use zinc.BitSet.OneBit.{Becomes, set_bit-Becomes, clear_bit-Becomes, flip_bit-Becomes}
use zinc.BitSet.Operators.{Combines, from_long_array-IsBitSet, operators-Combines}
use zinc.BitSet.Coding.{read_bit_set-write_bit_set}

-- The empty buffers that the examples write into.
abbrev buffer : ByteBuffer
buffer = empty true

abbrev little : ByteBuffer
little = empty false

read_var_numeric-write_var_numeric_example :
    RoundTrips (write_var_numeric int) (read_var_numeric int) 4294967295 buffer
read_var_numeric-write_var_numeric_example =
    read_var_numeric-write_var_numeric int 4294967295 buffer (omega arith) (empty-IsReady true)
      (unread-empty true)

-- Three bytes were written and none was read.
abbrev filled : InternalByteBuffer
filled = record {
  blocks = (1 ∷ 2 ∷ 3 ∷ replicate 4093 0) ∷ [];
  write_block = 0;
  write_offset = 3;
  read_block = 0;
  read_offset = 0;
  enable_block_recycle = false;
}

filled-IsValid : View.IsValid filled
filled-IsValid = record {
  sizes = (ap (λ n. suc (suc (suc n))) (length-replicate {A = ℕ} 4093 0), tt);
  count = refl;
  write_room = omega arith;
  read_room = omega arith;
  behind = omega arith;
}

write-IsAppended_example :
    (after : InternalByteBuffer) × (Buffer.write (4 ∷ 5 ∷ []) filled ≡ some after)
    × IsAppended filled (4 ∷ 5 ∷ []) after
write-IsAppended_example = write-IsAppended filled (4 ∷ 5 ∷ []) filled-IsValid

read-IsConsumed_example :
    (after : InternalByteBuffer) × (Buffer.read 2 filled
      ≡ some (take 2 (View.unread filled), after))
    × IsConsumed filled 2 after
read-IsConsumed_example = read-IsConsumed filled 2 filled-IsValid (omega arith)

read_past_end_example :
    (after : InternalByteBuffer) × (Buffer.read 9 filled ≡ some (take 9 (ahead filled), after))
    × (after.blocks ≡ filled.blocks)
    × (after.write_block ≡ 0)
    × (after.write_offset ≡ 3)
read_past_end_example = read_past_end filled 9 filled-IsValid.sizes filled-IsValid.read_room refl

read_numeric-write_numeric_example :
    RoundTrips (write_numeric short) (read_numeric short) 4660 little
read_numeric-write_numeric_example =
    read_numeric-write_numeric short 4660 little (omega arith) (empty-IsReady false)
      (unread-empty false)

size-write_var_numeric_example :
    (b : ByteBuffer) × (write_var_numeric int 300 buffer ≡ some (tt, b))
    × (size b ≡ size buffer + get_var_numeric_length int 300)
    × (get_var_numeric_length int 300 ≤ var_numeric_max_size int)
size-write_var_numeric_example =
    size-write_var_numeric int 300 buffer (omega arith) (empty-IsReady true)

read_zig_zag-write_zig_zag_example :
    RoundTrips (write_zig_zag_var_numeric int) (read_zig_zag_var_numeric int) 4294967294 buffer
read_zig_zag-write_zig_zag_example =
    read_zig_zag-write_zig_zag int 4294967294 buffer refl (omega arith) (empty-IsReady true)
      (unread-empty true)

-- `a:b`
abbrev name : Identifier
name = record { name_space = b'a' ∷ []; object = b'b' ∷ [] }

no_colon : HasNoColon name.name_space
no_colon = (λ e. absurd (omega (arith, e)), tt)

short_name : length (to_string name) < 2 ^ 31
unfolding to_string
short_name = omega arith

read_identifier-write_identifier_example : RoundTrips write_identifier read_identifier name buffer
read_identifier-write_identifier_example =
    read_identifier-write_identifier name buffer no_colon short_name (empty-IsReady true)
      (unread-empty true)

read_prefixed_array-write_prefixed_array_example :
    RoundTrips
      (write_prefixed_array (write_var_numeric int))
      (read_prefixed_array (read_var_numeric int))
      (7 ∷ 300 ∷ [])
      buffer
read_prefixed_array-write_prefixed_array_example =
    read_prefixed_array-write_prefixed_array (write_var_numeric int) (read_var_numeric int)
      (7 ∷ 300 ∷ []) buffer (omega arith)
      (var_numeric-Codes int 7 (omega arith), (var_numeric-Codes int 300 (omega arith), tt))
      (empty-IsReady true) (unread-empty true)

-- x = 5, y = -1, z = -2.
abbrev place : Vector3
place = record { x = 5; y = 4294967295; z = 4294967294 }

read_position-write_position_example : RoundTrips write_position read_position place buffer
read_position-write_position_example =
    read_position-write_position place buffer
      (inl (omega arith), inr (omega arith, omega arith), inr (omega arith, omega arith))
      (empty-IsReady true) (unread-empty true)

read_block_coordinates-write_block_coordinates_example :
    ReadsBack
      (write_block_coordinates place)
      (read_block_coordinates zyx)
      (record { x = 4294967294; y = 4294967295; z = 5 })
      buffer
read_block_coordinates-write_block_coordinates_example =
    read_block_coordinates-write_block_coordinates zyx place buffer (omega arith) (omega arith)
      (omega arith) (empty-IsReady true) (unread-empty true)

abbrev flags : TeleportFlags
flags = Teleport.of_int 257

read_teleport_flags-write_teleport_flags_example :
    RoundTrips write_teleport_flags read_teleport_flags flags buffer
read_teleport_flags-write_teleport_flags_example =
    read_teleport_flags-write_teleport_flags flags buffer (empty-IsReady true) (unread-empty true)

read_id_set-write_id_set_example :
    RoundTrips write_id_set read_id_set (IdSets.of_ids (3 ∷ 40 ∷ [])) buffer
read_id_set-write_id_set_example =
    read_id_set-write_id_set (3 ∷ 40 ∷ []) buffer (omega arith, (omega arith, (omega arith, tt)))
      (empty-IsReady true) (unread-empty true)

abbrev sound : SoundEvent
sound = record { identifier = name; fixed_range = none }

read_sound_event-write_sound_event_example :
    Leaves
      (write_sound_event sound)
      read_sound_event
      sound
      (if has_fixed_range sound then [] else 0 ∷ 0 ∷ 0 ∷ 0 ∷ [])
      buffer
read_sound_event-write_sound_event_example =
    read_sound_event-write_sound_event sound buffer (no_colon, short_name) tt (empty-IsReady true)
      (unread-empty true)

-- The bits 0 and 2, and the bits 2 and 64.
abbrev low : BitSet
low = from_long_array (5 ∷ [])

abbrev high : BitSet
high = from_long_array (4 ∷ 1 ∷ [])

low-IsBitSet : IsBitSet low
low-IsBitSet = from_long_array-IsBitSet (5 ∷ []) (omega arith, tt) (omega arith)

high-IsBitSet : IsBitSet high
high-IsBitSet = from_long_array-IsBitSet (4 ∷ 1 ∷ []) (omega arith, (omega arith, tt)) (omega arith)

set_bit-Becomes_example : (t : BitSet) × (set_bit 70 low ≡ some t) × Becomes low 70 true t
set_bit-Becomes_example = set_bit-Becomes 70 low (omega arith) low-IsBitSet

flip_bit-Becomes_example :
    (t : BitSet) × (flip_bit 2 low ≡ some t) × Becomes low 2 (not (get_bit 2 low)) t
flip_bit-Becomes_example = flip_bit-Becomes 2 low (omega arith) low-IsBitSet

clear_bit-Becomes_example : Becomes high 64 false (clear_bit 64 high)
clear_bit-Becomes_example = clear_bit-Becomes 64 high high-IsBitSet

operators-Combines_example :
    Combines ◌&&◌ low high (and_with low high)
    × Combines ◌||◌ low high (or_with low high)
    × Combines differs low high (xor_with low high)
    × Combines (λ a b. a && not b) low high (and_not low high)
operators-Combines_example = operators-Combines low high low-IsBitSet high-IsBitSet

two_words : length high.words < 2 ^ 31
unfolding from_long_array
two_words = omega arith

read_bit_set-write_bit_set_example :
    (t : BitSet) × Leaves (write_bit_set high) read_bit_set t [] buffer
    × IsBitSet t
    × ((q : ℕ) → get_bit q t ≡ get_bit q high)
read_bit_set-write_bit_set_example =
    read_bit_set-write_bit_set high buffer high-IsBitSet two_words (empty-IsReady true)
      (unread-empty true)

abbrev property : Property
property = exact (b'k' ∷ []) (b'v' ∷ [])

property-IsProperty : IsProperty property
unfolding exact
property-IsProperty = (omega arith, omega arith, omega arith, omega arith)

big_endian : buffer.is_big_endian ≡ true
unfolding empty
big_endian = refl

read_property-write_property_example :
    Leaves (write_property property) read_property (relevant property) [] buffer
read_property-write_property_example =
    read_property-write_property property buffer property-IsProperty (empty-IsReady true)
      (unread-empty true) big_endian

-- A compound with a number, and a list of two numbers.
abbrev tree : Tree
tree = fields (
    field (b'n' ∷ []) (leaf (int_leaf 7)) (
      field (b'l' ∷ []) (items (item (leaf (short_leaf 1)) (item (leaf (short_leaf 2)) none_left)))
        no_field))

tree-IsTree : IsTree tree
unfolding IsTree AreItems AreFields count_items
tree-IsTree = (
  omega arith,
  omega arith,
  (omega arith, ((refl, omega arith, (refl, omega arith, tt)), omega arith), tt),
)

light_enough : weight tree ≤ suc 9
unfolding weight
light_enough = omega arith

decode-encode_example :
    RoundTrips encode (decode 10 (named true)) (build (named true) [] tree) buffer
decode-encode_example =
    decode-encode tree [] true 9 buffer tree-IsTree (omega arith) (inr (big_endian, refl))
      light_enough (empty-IsReady true) (unread-empty true)

read_matcher-write_matcher_example :
    RoundTrips write_matcher (read_matcher 10) (matcher 3 tree) buffer
read_matcher-write_matcher_example =
    read_matcher-write_matcher 3 tree 9 buffer (omega arith) tree-IsTree light_enough
      (empty-IsReady true) (unread-empty true) big_endian

abbrev hello : InternalByteBuffer
hello = (write-IsAppended Buffer.init (b'h' ∷ b'i' ∷ []) init-IsValid).0

-- A packet that holds nothing takes a little-endian buffer of two bytes.
abbrev greeting : ByteBuffer
greeting = record { internal_buffer = hello; is_big_endian = false }

abbrev packet : ZincPacket
packet = record { id = 7; data_ = buffer }

get_data-set_data_example :
    (q : ZincPacket) × (c : ByteBuffer) × (set_data greeting packet ≡ some q)
    × (get_data q ≡ some c)
    × IsReady c
    × (get_bytes c ≡ get_bytes buffer ++ get_bytes greeting)
    × (unread c ≡ get_bytes buffer ++ get_bytes greeting)
    × (c.is_big_endian ≡ false)
get_data-set_data_example =
    get_data-set_data greeting packet
      (write-IsAppended Buffer.init (b'h' ∷ b'i' ∷ []) init-IsValid).2.valid (empty-IsReady true)
