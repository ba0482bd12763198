-- ===== src/GameTypes.antt =====
-- Values of the game that are coded by their own `toBytes`: `Property`, `PotionEffectDetail` and
-- `PotionEffect` of type/GameTypes, `LightData` of type/LightData, and their functions in
-- src/type/ByteBuffer.cpp. What `toBytes` writes goes through a new big-endian buffer.
pub mod Properties
use zinc.Common.{
  ℕ, zero, suc, Bool, true, false, not, ◌==◌, if◌then◌else◌, Option, none, some, List, [], ◌∷◌,
}
use zinc.ByteBuffer.{
  ByteBuffer, Action, pure, ◌>>=◌, ◌>>◌, write_byte, read_byte, write_byte_array, to_bytes,
}
use zinc.Numeric.{int}
use zinc.VarNumeric.{write_var_numeric, read_var_numeric}
use zinc.Text.{write_string, read_string, or_throw, string_eq}
use zinc.Arrays.{
  write_prefixed_array, read_prefixed_array, write_prefixed_byte_array, read_prefixed_byte_array,
}
use zinc.BitSet.{BitSet, write_bit_set, read_bit_set}

-- `writeByteArray(value.toBytes())`
abbrev pub write_value : Action (Unit {0}) → Action (Unit {0})
write_value m b = elim (to_bytes m) [ none ↦ none | some bytes ↦ write_byte_array bytes b ]

-- `writeByte(flag)`
abbrev pub write_flag : Bool → Action (Unit {0})
write_flag flag = write_byte (if flag then 1 else 0)

-- `flag = readByte()`
abbrev pub read_flag : Action Bool
read_flag = do c ← read_byte; pure (not (c == 0))

-- A comparison of two `toBytes`.
abbrev pub same_bytes : Action (Unit {0}) → Action (Unit {0}) → Option Bool
same_bytes m k = elim (to_bytes m) [
  | none ↦ none
  | some xs ↦ elim (to_bytes k) [ none ↦ none | some ys ↦ some (string_eq xs ys) ]
]

pub record Property : Type 0 where
  pub name : List ℕ
  pub is_exact : Bool
  pub exact_value : List ℕ
  pub min_value : List ℕ
  pub max_value : List ℕ

-- `Property(name, exact)`
unfoldable pub exact : List ℕ → List ℕ → Property
exact name value = record {
  name = name;
  is_exact = true;
  exact_value = value;
  min_value = [];
  max_value = [];
}

-- `Property(name, minValue, maxValue)`, which sets `m_isExact` too.
unfoldable pub ranged : List ℕ → List ℕ → List ℕ → Property
ranged name low high = record {
  name = name;
  is_exact = true;
  exact_value = [];
  min_value = low;
  max_value = high;
}

unfoldable pub put_property : Property → Action (Unit {0})
put_property p = do
  write_string p.name
  write_flag p.is_exact
  if p.is_exact
      then write_string p.exact_value
      else (write_string p.min_value >> write_string p.max_value)

unfoldable pub write_property : Property → Action (Unit {0})
write_property p = write_value (put_property p)

unfoldable pub read_property_values : List ℕ → Bool → Action Property
read_property_values name true = do
  value ← read_string
  pure
      (record { name = name; is_exact = true; exact_value = value; min_value = []; max_value = [] })
read_property_values name false = do
  low ← read_string
  high ← read_string
  pure (record {
    name = name;
    is_exact = false;
    exact_value = [];
    min_value = low;
    max_value = high;
  })

unfoldable pub read_property : Action Property
read_property = do name ← read_string; is_exact ← read_flag; read_property_values name is_exact

-- `Property::operator==`
unfoldable pub property_eq : Property → Property → Option Bool
property_eq p q = same_bytes (put_property p) (put_property q)

-- A detail: amplifier, duration, ambient, show particles, show icon, hidden effects.
mutual
  pub data PotionEffectDetail : Type 0 where
    detail : ℕ → ℕ → Bool → Bool → Bool → PotionEffectDetails → PotionEffectDetail

  pub data PotionEffectDetails : Type 0 where
    no_details : PotionEffectDetails
    more_details : PotionEffectDetail → PotionEffectDetails → PotionEffectDetails

-- Only the first hidden effect is written.
unfoldable mutual
  pub put_potion_effect_detail : PotionEffectDetail → Action (Unit {0})
  put_potion_effect_detail (detail amplifier duration ambient show_particles show_icon hidden) = do
    write_var_numeric int amplifier
    write_var_numeric int duration
    write_flag ambient
    write_flag show_particles
    write_flag show_icon
    put_hidden hidden

  pub put_hidden : PotionEffectDetails → Action (Unit {0})
  put_hidden no_details = write_flag false
  put_hidden (more_details first rest) = do
    write_flag true
    write_value (put_potion_effect_detail first)

unfoldable pub write_potion_effect_detail : PotionEffectDetail → Action (Unit {0})
write_potion_effect_detail d = write_value (put_potion_effect_detail d)

-- `if (readByte()) m_hiddenEffect.push_back(readPotionEffectDetail());`
unfoldable pub read_hidden : Action PotionEffectDetail → Bool → Action PotionEffectDetails
read_hidden r true = do first ← r; pure (more_details first no_details)
read_hidden r false = pure no_details

-- The recursion goes as deep as the bytes say; `none` is the end of the fuel.
unfoldable pub read_potion_effect_detail : ℕ → Action PotionEffectDetail
read_potion_effect_detail zero = or_throw none
read_potion_effect_detail (suc fuel) = do
  amplifier ← read_var_numeric int
  duration ← read_var_numeric int
  ambient ← read_flag
  show_particles ← read_flag
  show_icon ← read_flag
  is_hidden ← read_flag
  hidden ← read_hidden (read_potion_effect_detail fuel) is_hidden
  pure (detail amplifier duration ambient show_particles show_icon hidden)

pub record PotionEffect : Type 0 where
  pub type_ : ℕ
  pub effect : PotionEffectDetail

unfoldable pub put_potion_effect : PotionEffect → Action (Unit {0})
put_potion_effect e = do
  write_var_numeric int e.type_
  write_value (put_potion_effect_detail e.effect)

unfoldable pub write_potion_effect : PotionEffect → Action (Unit {0})
write_potion_effect e = write_value (put_potion_effect e)

unfoldable pub read_potion_effect : ℕ → Action PotionEffect
read_potion_effect fuel = do
  type_ ← read_var_numeric int
  effect ← read_potion_effect_detail fuel
  pure (record { type_ = type_; effect = effect })

pub record LightData : Type 0 where
  pub sky_light_mask : BitSet
  pub block_light_mask : BitSet
  pub empty_sky_light_mask : BitSet
  pub empty_block_light_mask : BitSet
  pub sky_light_arrays : List (List ℕ)
  pub block_light_arrays : List (List ℕ)

unfoldable pub put_light_data : LightData → Action (Unit {0})
put_light_data l = do
  write_bit_set l.sky_light_mask
  write_bit_set l.block_light_mask
  write_bit_set l.empty_sky_light_mask
  write_bit_set l.empty_block_light_mask
  write_prefixed_array write_prefixed_byte_array l.sky_light_arrays
  write_prefixed_array write_prefixed_byte_array l.block_light_arrays

unfoldable pub write_light_data : LightData → Action (Unit {0})
write_light_data l = write_value (put_light_data l)

unfoldable pub read_light_data : Action LightData
read_light_data = do
  sky ← read_bit_set
  block ← read_bit_set
  empty_sky ← read_bit_set
  empty_block ← read_bit_set
  sky_arrays ← read_prefixed_array read_prefixed_byte_array
  block_arrays ← read_prefixed_array read_prefixed_byte_array
  pure (record {
    sky_light_mask = sky;
    block_light_mask = block;
    empty_sky_light_mask = empty_sky;
    empty_block_light_mask = empty_block;
    sky_light_arrays = sky_arrays;
    block_light_arrays = block_arrays;
  })

-- `operator==`, and `operator!=`, which returns the same.
unfoldable pub light_data_eq : LightData → LightData → Option Bool
light_data_eq l m = same_bytes (put_light_data m) (put_light_data l)

unfoldable pub light_data_ne : LightData → LightData → Option Bool
light_data_ne l m = same_bytes (put_light_data m) (put_light_data l)
