-- ===== src/Predicates.antt =====
-- `writeNBTElement` and `readNBTElement` of src/type/ByteBuffer.cpp, and the predicates of
-- type/GameTypes that hold elements: `PartialDataComponentMatcher` and `BlockPredicate`.
pub mod Matchers
use zinc.Common.{ℕ, Bool, true, false, Option, none, some, List, [], ◌∷◌, length}
use zinc.ByteBuffer.{Action, pure, ◌>>=◌, ◌>>◌, write_byte_array}
use zinc.Numeric.{int, truncate_to}
use zinc.VarNumeric.{write_var_numeric, read_var_numeric}
use zinc.Arrays.{has_value, write_array, write_prefixed_optional}
use zinc.IdSets.{IdSet, write_id_set}
use zinc.GameTypes.{Property, put_property, write_value, write_flag, same_bytes}
use zinc.Nbt.{NbtElement, NbtSettings, end}
use zinc.Nbt.Coding.{encode_as}
use zinc.Nbt.Decoding.{decode}

-- `NBTSettings settings; settings.m_isNetwork = true;`
abbrev pub network_settings : NbtSettings
network_settings = record { is_in_array = false; is_network = true; type_ = end }

unfoldable pub write_nbt_element : NbtElement → Action (Unit {0})
write_nbt_element el = encode_as network_settings el

unfoldable pub read_nbt_element : ℕ → Action NbtElement
read_nbt_element fuel = decode fuel network_settings

pub record PartialDataComponentMatcher : Type 0 where
  pub type_ : ℕ
  pub predicate : NbtElement

unfoldable pub put_matcher : PartialDataComponentMatcher → Action (Unit {0})
put_matcher m = do write_var_numeric int m.type_; write_nbt_element m.predicate

unfoldable pub write_matcher : PartialDataComponentMatcher → Action (Unit {0})
write_matcher m = write_value (put_matcher m)

unfoldable pub read_matcher : ℕ → Action PartialDataComponentMatcher
read_matcher fuel = do
  type_ ← read_var_numeric int
  predicate ← read_nbt_element fuel
  pure (record { type_ = type_; predicate = predicate })

-- `PartialDataComponentMatcher::operator==`
unfoldable pub matcher_eq : PartialDataComponentMatcher → PartialDataComponentMatcher → Option Bool
matcher_eq m k = same_bytes (put_matcher m) (put_matcher k)

pub record BlockPredicate : Type 0 where
  pub blocks : Option IdSet
  pub properties : Option (List Property)
  pub nbt : Option NbtElement
  pub data_components : List (List ℕ)
  pub partial_data_components : List PartialDataComponentMatcher

-- A count, and then the elements.
abbrev pub write_counted {ℓ} : {A : Type ℓ} → (A → Action (Unit {0})) → List A → Action (Unit {0})
write_counted w xs = do write_var_numeric int (truncate_to int (length xs)); write_array w xs

abbrev pub write_properties : Option (List Property) → Action (Unit {0})
write_properties none = pure tt
write_properties (some ps) = write_counted (λ p. write_value (put_property p)) ps

unfoldable pub put_block_predicate : BlockPredicate → Action (Unit {0})
put_block_predicate p = do
  write_prefixed_optional write_id_set p.blocks
  write_flag (has_value p.properties)
  write_properties p.properties
  write_prefixed_optional write_nbt_element p.nbt
  write_counted write_byte_array p.data_components
  write_counted write_matcher p.partial_data_components

unfoldable pub write_block_predicate : BlockPredicate → Action (Unit {0})
write_block_predicate p = write_value (put_block_predicate p)

-- `BlockPredicate::operator==`
unfoldable pub block_predicate_eq : BlockPredicate → BlockPredicate → Option Bool
block_predicate_eq p q = same_bytes (put_block_predicate p) (put_block_predicate q)
