-- ===== src/Nbt/Built.antt =====
-- What encoding a built element comes to: its type byte and tag, and the value.
use zinc.Common.{ℕ, suc, ◌≡◌, refl, ap, ap₂, ◌∙◌, true, ◌&&◌, ◌==◌, ==_self, List, []}
use zinc.Nbt.{NbtElementType, to_char, NbtSettings}
use zinc.Nbt.{
  of_byte, of_short, of_int, of_long, of_float, of_double, of_byte_array, of_string, of_int_array,
  of_long_array,
}
use zinc.Nbt.{of_list, of_compound}
use zinc.Nbt.Coding.{type_of, item_settings, count, all_of_type, encode, encode_as, tag_of}
use zinc.Nbt.Trees.{
  Tree, Items, leaf, items, fields, none_left, item, kind, build_leaf, build, build_items,
}
use zinc.Nbt.Trees.{
  byte_leaf, short_leaf, int_leaf, long_leaf, float_leaf, double_leaf, byte_array_leaf, string_leaf,
}
use zinc.Nbt.Trees.{int_array_leaf, long_array_leaf, count_items, AreItems}

pub type_of-build : (s : NbtSettings) (tag : List ℕ) (t : Tree) → type_of (build s tag t) ≡ kind t
unfolding build build_leaf of_byte of_short of_int of_long of_float of_double of_byte_array
    of_string of_int_array of_long_array of_list of_compound
type_of-build s tag (leaf (byte_leaf v)) = refl
type_of-build s tag (leaf (short_leaf v)) = refl
type_of-build s tag (leaf (int_leaf v)) = refl
type_of-build s tag (leaf (long_leaf v)) = refl
type_of-build s tag (leaf (float_leaf v)) = refl
type_of-build s tag (leaf (double_leaf v)) = refl
type_of-build s tag (leaf (byte_array_leaf v)) = refl
type_of-build s tag (leaf (string_leaf v)) = refl
type_of-build s tag (leaf (int_array_leaf v)) = refl
type_of-build s tag (leaf (long_array_leaf v)) = refl
type_of-build s tag (items xs) = refl
type_of-build s tag (fields fs) = refl

pub count-build_items :
    (k : NbtElementType) (xs : Items) → count (build_items k xs) ≡ count_items xs
unfolding count build_items count_items
count-build_items k none_left = refl
count-build_items k (item t rest) = ap suc (count-build_items k rest)

pub all_of_type-build_items :
    (k j : NbtElementType) (xs : Items) → AreItems k xs → all_of_type k (build_items j xs) ≡ true
unfolding all_of_type build_items AreItems
all_of_type-build_items k j none_left h = refl
all_of_type-build_items k j (item t rest) (same, _, others) =
    ap₂ ◌&&◌
      (ap (λ u. to_char u == to_char k) (type_of-build (item_settings j) [] t ∙ same)
        ∙ ==_self (to_char k))
      (all_of_type-build_items k j rest others)

pub tag_of-build : (s : NbtSettings) (tag : List ℕ) (t : Tree) → tag_of (build s tag t) ≡ tag
unfolding build build_leaf of_byte of_short of_int of_long of_float of_double of_byte_array
    of_string of_int_array of_long_array of_list of_compound
tag_of-build s tag (leaf (byte_leaf v)) = refl
tag_of-build s tag (leaf (short_leaf v)) = refl
tag_of-build s tag (leaf (int_leaf v)) = refl
tag_of-build s tag (leaf (long_leaf v)) = refl
tag_of-build s tag (leaf (float_leaf v)) = refl
tag_of-build s tag (leaf (double_leaf v)) = refl
tag_of-build s tag (leaf (byte_array_leaf v)) = refl
tag_of-build s tag (leaf (string_leaf v)) = refl
tag_of-build s tag (leaf (int_array_leaf v)) = refl
tag_of-build s tag (leaf (long_array_leaf v)) = refl
tag_of-build s tag (items xs) = refl
tag_of-build s tag (fields fs) = refl

-- A built element is encoded with the settings that it was built with.
pub encode-build :
    (s : NbtSettings) (tag : List ℕ) (t : Tree)
    → encode (build s tag t) ≡ encode_as s (build s tag t)
unfolding build build_leaf of_byte of_short of_int of_long of_float of_double of_byte_array
    of_string of_int_array of_long_array of_list of_compound encode
encode-build s tag (leaf (byte_leaf v)) = refl
encode-build s tag (leaf (short_leaf v)) = refl
encode-build s tag (leaf (int_leaf v)) = refl
encode-build s tag (leaf (long_leaf v)) = refl
encode-build s tag (leaf (float_leaf v)) = refl
encode-build s tag (leaf (double_leaf v)) = refl
encode-build s tag (leaf (byte_array_leaf v)) = refl
encode-build s tag (leaf (string_leaf v)) = refl
encode-build s tag (leaf (int_array_leaf v)) = refl
encode-build s tag (leaf (long_array_leaf v)) = refl
encode-build s tag (items xs) = refl
encode-build s tag (fields fs) = refl
