-- ===== src/Nbt/Access.antt =====
-- Access to the children of an element and comparison of elements: `contains`, `at` and `operator==`
-- of src/type/nbt/NBTElement.cpp. `none` is an index past the children.
use zinc.Common.{
  ℕ, zero, suc, Bool, true, false, not, ◌&&◌, ◌||◌, ◌==◌, ltb, if◌then◌else◌, Option, none, some,
  List,
}
use zinc.Text.{string_eq}
use zinc.Nbt.{
  NbtElementType, end, byte, short, int, long, float, double, byte_array, string, list, compound,
}
use zinc.Nbt.{
  int_array, long_array, other, to_char, NbtValues, NbtElement, NbtElements, element, nil, cons,
}
use zinc.Nbt.Coding.{count}

abbrev pub is_type : NbtElementType → NbtElementType → Bool
is_type t u = to_char t == to_char u

unfoldable pub has_tag : List ℕ → NbtElements → Bool
has_tag tag nil = false
has_tag tag (cons (element s t k v children) rest) = string_eq t tag || has_tag tag rest

unfoldable pub contains_tag : List ℕ → NbtElement → Bool
contains_tag tag (element s t k v children) =
    if not (is_type k compound) then false else has_tag tag children

-- The bound is off by one: the position behind the last child counts as contained.
unfoldable pub contains_pos : ℕ → NbtElement → Bool
contains_pos pos (element s t k v children) =
    if ltb (count children) pos || not (is_type k list) then false else true

unfoldable pub first_with : List ℕ → NbtElements → Option NbtElement
first_with tag nil = none
first_with tag (cons (element s t k v children) rest) =
    let later = first_with tag rest in
    if string_eq t tag then some (element s t k v children) else later

unfoldable pub at_tag : List ℕ → NbtElement → NbtElement
at_tag tag (element s t k v children) =
    if not (is_type k compound)
    then element s t k v children
    else elim (first_with tag children) [ none ↦ element s t k v children | some child ↦ child ]

unfoldable pub child : ℕ → NbtElements → Option NbtElement
child pos nil = none
child zero (cons x rest) = some x
child (suc pos) (cons x rest) = child pos rest

unfoldable pub at_pos : ℕ → NbtElement → Option NbtElement
at_pos pos (element s t k v children) =
    if contains_pos pos (element s t k v children)
    then child pos children
    else some (element s t k v children)

-- The comparison of the values that a type has; `children` compares the children, and `float_eq` and
-- `double_eq` are the comparisons of the language.
module _ (float_eq double_eq : ℕ → ℕ → Bool) where
  unfoldable pub values_eq : NbtElementType → NbtValues → NbtValues → Bool → Bool
  values_eq byte v w children = v.byte_value == w.byte_value
  values_eq short v w children = v.short_value == w.short_value
  values_eq int v w children = v.int_value == w.int_value
  values_eq long v w children = v.long_value == w.long_value
  values_eq float v w children = float_eq v.float_value w.float_value
  values_eq double v w children = double_eq v.double_value w.double_value
  values_eq byte_array v w children = string_eq v.byte_array_value w.byte_array_value
  values_eq string v w children = string_eq v.string_value w.string_value
  values_eq list v w children = children
  values_eq compound v w children = children
  values_eq int_array v w children = string_eq v.int_array_value w.int_array_value
  values_eq long_array v w children = string_eq v.long_array_value w.long_array_value
  values_eq end v w children = true
  values_eq (other c) v w children = true

  unfoldable mutual
    pub nbt_eq : NbtElement → NbtElement → Bool
    nbt_eq (element s t k v children) (element s' t' k' v' children') =
        is_type k' k && values_eq k v v' (all_eq children children')

    pub all_eq : NbtElements → NbtElements → Bool
    all_eq nil nil = true
    all_eq nil (cons y ys) = false
    all_eq (cons x xs) nil = false
    all_eq (cons x xs) (cons y ys) = nbt_eq x y && all_eq xs ys
