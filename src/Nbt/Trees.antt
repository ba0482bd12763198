-- ===== src/Nbt/Trees.antt =====
-- Trees of tagged values as a data type with one constructor per type, and the elements that
-- `decode` makes of them: a value of each type in its field, every other field as in a new element.
use zinc.Common.{ℕ, suc, ◌+◌, ◌^◌, ◌<◌, ◌≡◌, refl}
use zinc.Common.{List, [], length, All}
use zinc.Nbt.{
  NbtElementType, end, byte, short, int, long, float, double, byte_array, string, list, compound,
}
use zinc.Nbt.{
  int_array, long_array, to_char, of_char, NbtSettings, plain, NbtElement, NbtElements, nil, cons,
}
use zinc.Nbt.{
  of_byte, of_short, of_int, of_long, of_float, of_double, of_byte_array, of_string, of_int_array,
  of_long_array,
}
use zinc.Nbt.{of_list, of_compound}
use zinc.Nbt.Coding.{item_settings}

pub data Leaf : Type 0 where
  byte_leaf : ℕ → Leaf
  short_leaf : ℕ → Leaf
  int_leaf : ℕ → Leaf
  long_leaf : ℕ → Leaf
  float_leaf : ℕ → Leaf
  double_leaf : ℕ → Leaf
  byte_array_leaf : List ℕ → Leaf
  string_leaf : List ℕ → Leaf
  int_array_leaf : List ℕ → Leaf
  long_array_leaf : List ℕ → Leaf

mutual
  pub data Tree : Type 0 where
    leaf : Leaf → Tree
    items : Items → Tree
    fields : Fields → Tree

  pub data Items : Type 0 where
    none_left : Items
    item : Tree → Items → Items

  pub data Fields : Type 0 where
    no_field : Fields
    field : List ℕ → Tree → Fields → Fields

abbrev pub kind_of_leaf : Leaf → NbtElementType
kind_of_leaf (byte_leaf v) = byte
kind_of_leaf (short_leaf v) = short
kind_of_leaf (int_leaf v) = int
kind_of_leaf (long_leaf v) = long
kind_of_leaf (float_leaf v) = float
kind_of_leaf (double_leaf v) = double
kind_of_leaf (byte_array_leaf v) = byte_array
kind_of_leaf (string_leaf v) = string
kind_of_leaf (int_array_leaf v) = int_array
kind_of_leaf (long_array_leaf v) = long_array

abbrev pub kind : Tree → NbtElementType
kind (leaf l) = kind_of_leaf l
kind (items xs) = list
kind (fields fs) = compound

abbrev pub first_kind : Items → NbtElementType
first_kind none_left = end
first_kind (item t rest) = kind t

unfoldable pub build_leaf : NbtSettings → List ℕ → Leaf → NbtElement
build_leaf s tag (byte_leaf v) = of_byte tag v s
build_leaf s tag (short_leaf v) = of_short tag v s
build_leaf s tag (int_leaf v) = of_int tag v s
build_leaf s tag (long_leaf v) = of_long tag v s
build_leaf s tag (float_leaf v) = of_float tag v s
build_leaf s tag (double_leaf v) = of_double tag v s
build_leaf s tag (byte_array_leaf v) = of_byte_array tag v s
build_leaf s tag (string_leaf v) = of_string tag v s
build_leaf s tag (int_array_leaf v) = of_int_array tag v s
build_leaf s tag (long_array_leaf v) = of_long_array tag v s

unfoldable mutual
  pub build : NbtSettings → List ℕ → Tree → NbtElement
  build s tag (leaf l) = build_leaf s tag l
  build s tag (items xs) = of_list tag (build_items (first_kind xs) xs) s
  build s tag (fields fs) = of_compound tag (build_fields fs) s

  pub build_items : NbtElementType → Items → NbtElements
  build_items k none_left = nil
  build_items k (item t rest) = cons (build (item_settings k) [] t) (build_items k rest)

  pub build_fields : Fields → NbtElements
  build_fields no_field = nil
  build_fields (field tag t rest) = cons (build plain tag t) (build_fields rest)

-- The values fit their types, and the lengths the fields that carry them.
abbrev pub IsLeaf : Leaf → Type 0
IsLeaf (byte_leaf v) = v < 2 ^ 8
IsLeaf (short_leaf v) = v < 2 ^ 16
IsLeaf (int_leaf v) = v < 2 ^ 32
IsLeaf (long_leaf v) = v < 2 ^ 64
IsLeaf (float_leaf v) = v < 2 ^ 32
IsLeaf (double_leaf v) = v < 2 ^ 64
IsLeaf (byte_array_leaf v) = length v < 2 ^ 32
IsLeaf (string_leaf v) = length v < 2 ^ 16
IsLeaf (int_array_leaf v) = (length v < 2 ^ 32) × All (λ x. x < 2 ^ 32) v
IsLeaf (long_array_leaf v) = (length v < 2 ^ 32) × All (λ x. x < 2 ^ 64) v

unfoldable pub count_items : Items → ℕ
count_items none_left = 0
count_items (item t rest) = suc (count_items rest)

-- All items of a list have one type.
unfoldable mutual
  pub IsTree : Tree → Type 0
  IsTree (leaf l) = IsLeaf l
  IsTree (items xs) = AreItems (first_kind xs) xs × (count_items xs < 2 ^ 32)
  IsTree (fields fs) = AreFields fs

  pub AreItems : NbtElementType → Items → Type 0
  AreItems k none_left = Unit
  AreItems k (item t rest) = (kind t ≡ k) × IsTree t × AreItems k rest

  pub AreFields : Fields → Type 0
  AreFields no_field = Unit
  AreFields (field tag t rest) = (length tag < 2 ^ 16) × IsTree t × AreFields rest

-- Fuel that decoding a tree needs.
unfoldable mutual
  pub weight : Tree → ℕ
  weight (leaf l) = 1
  weight (items xs) = suc (weight_items xs)
  weight (fields fs) = suc (weight_fields fs)

  pub weight_items : Items → ℕ
  weight_items none_left = 1
  weight_items (item t rest) = weight t + weight_items rest

  pub weight_fields : Fields → ℕ
  weight_fields no_field = 1
  weight_fields (field tag t rest) = weight t + weight_fields rest

-- A tree's type has a name, and is not the end.
pub kind_named :
    (t : Tree) → (of_char (to_char (kind t)) ≡ kind t) × (c : ℕ) × (to_char (kind t) ≡ suc c)
unfolding of_char to_char
kind_named (leaf l) = leaf_named l
  where
    leaf_named :
        (l : Leaf)
        → (of_char (to_char (kind_of_leaf l)) ≡ kind_of_leaf l)
          × (c : ℕ) × (to_char (kind_of_leaf l) ≡ suc c)
    leaf_named (byte_leaf v) = (refl, 0, refl)
    leaf_named (short_leaf v) = (refl, 1, refl)
    leaf_named (int_leaf v) = (refl, 2, refl)
    leaf_named (long_leaf v) = (refl, 3, refl)
    leaf_named (float_leaf v) = (refl, 4, refl)
    leaf_named (double_leaf v) = (refl, 5, refl)
    leaf_named (byte_array_leaf v) = (refl, 6, refl)
    leaf_named (string_leaf v) = (refl, 7, refl)
    leaf_named (int_array_leaf v) = (refl, 10, refl)
    leaf_named (long_array_leaf v) = (refl, 11, refl)
kind_named (items xs) = (refl, 8, refl)
kind_named (fields fs) = (refl, 9, refl)
