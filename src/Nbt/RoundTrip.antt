-- ===== src/Nbt/RoundTrip.antt =====
-- Trees of any depth come back.
use zinc.Common.{
  ℕ, zero, suc, ◌^◌, ◌<◌, ◌≤◌, ◌≡◌, refl, ap, sym, ◌∙◌, subst, arith, Bool, true, false, not, ◌&&◌,
  ◌⊎◌, inl, inr,
}
use zinc.Common.{List, [], ◌∷◌, length}
use zinc.ByteBuffer.{ByteBuffer}
use zinc.ByteBuffer.Rules.{Writes, Codes, Reads-result}
use zinc.ByteBuffer.Rules.{IsReady, unread, RoundTrips, round_trip}
use zinc.Nbt.{NbtElementType, to_char, NbtSettings, plain}
use zinc.Nbt.Coding.{encode_as, write_tag, read_tag, item_settings, encode}
use zinc.Nbt.Decoding.{decode}
use zinc.Nbt.Trees.{
  Leaf, IsLeaf, kind_of_leaf, Tree, Items, Fields, leaf, items, fields, none_left, item, no_field,
  field, kind, kind_named,
}
use zinc.Nbt.Trees.{
  build, build_leaf, IsTree, AreItems, AreFields, weight, weight_items, weight_fields,
}
use zinc.Nbt.Built.{tag_of-build, encode-build, type_of-build}
use zinc.Nbt.Leaves.{leaf-Codes, build_leaf-element}
use zinc.Nbt.Lists.{
  ItemsCodes, FieldsCodes, none-ItemsCodes, item-ItemsCodes, none-FieldsCodes, field-FieldsCodes,
  Agrees, empty_list-BodyCodes, full_list-BodyCodes, compound-BodyCodes,
}
use zinc.Nbt.Headers.{BodyCodes, named, named-Codes, item-Codes}
use zinc.Nbt.Parts.{tag-Codes}

leaf-BodyCodes :
    (e : Bool) (n : ℕ) (s : NbtSettings) (tag : List ℕ) (l : Leaf)
    → IsLeaf l
    → BodyCodes e n s (kind_of_leaf l) (build_leaf s tag l)
leaf-BodyCodes e n s tag l h =
    let c = leaf-Codes e s tag l h in
    subst (BodyCodes e n s (kind_of_leaf l)) (sym (build_leaf-element s tag l)) (record {
      bytes = c.bytes;
      writes = c.writes _ _;
      reads = Reads-result (build_leaf-element s tag l) (c.reads n (decode n));
    })

weight-pos : (t : Tree) → 0 < weight t
unfolding weight
weight-pos (leaf l) = omega arith
weight-pos (items xs) = omega arith
weight-pos (fields fs) = omega arith

never : (q : Bool) → (q && false) ≡ false
never true = refl
never false = refl

mutual
  unfolding build IsTree weight

  tree-BodyCodes :
      (e : Bool) (n : ℕ) (s : NbtSettings) (tag : List ℕ) (t : Tree)
      → Agrees e s.is_network
      → IsTree t
      → weight t ≤ suc n
      → BodyCodes e n s (kind t) (build s tag t)
  tree-BodyCodes e n s tag (leaf l) agree h fuel = leaf-BodyCodes e n s tag l h
  tree-BodyCodes e n s tag (items none_left) agree h fuel = empty_list-BodyCodes e n s tag
  tree-BodyCodes e n s tag (items (item t rest)) agree (all, short) fuel =
      full_list-BodyCodes e n s tag t rest agree all short
        (items-ItemsCodes e n (kind t) (item t rest) all (omega arith))
  tree-BodyCodes e n s tag (fields fs) agree h fuel =
      compound-BodyCodes e n s tag fs agree
        (fields-FieldsCodes e n n fs h (omega arith) (omega arith))

  items-ItemsCodes :
      (e : Bool) (n : ℕ) (k : NbtElementType) (xs : Items)
      → AreItems k xs
      → weight_items xs ≤ n
      → ItemsCodes e n k xs
  items-ItemsCodes e n k none_left h fuel = none-ItemsCodes e n k
  items-ItemsCodes e zero k (item t rest) h fuel = absurd (omega (arith, weight-pos t))
  items-ItemsCodes e (suc n) k (item t rest) (same, valid, others) fuel =
      item-ItemsCodes e (suc n) k t rest
        (item-Codes n k (kind_named t).1 (build (item_settings k) [] t)
          (type_of-build (item_settings k) [] t ∙ same) (tag_of-build (item_settings k) [] t)
          (ap to_char (sym same) ∙ (kind_named t).2)
          (subst (λ j. BodyCodes e n (item_settings k) j (build (item_settings k) [] t)) same
            (tree-BodyCodes e n (item_settings k) [] t (never (not e)) valid (omega arith))))
        (items-ItemsCodes e (suc n) k rest others (omega arith))

  fields-FieldsCodes :
      (e : Bool) (n m : ℕ) (fs : Fields)
      → AreFields fs
      → weight_fields fs ≤ n
      → weight_fields fs ≤ m
      → FieldsCodes e n m fs
  fields-FieldsCodes e n zero no_field h fuel steps = absurd (omega arith)
  fields-FieldsCodes e n (suc m) no_field h fuel steps = none-FieldsCodes e n m
  fields-FieldsCodes e zero m (field tag t rest) h fuel steps = absurd (omega (arith, weight-pos t))
  fields-FieldsCodes e (suc n) zero (field tag t rest) h fuel steps =
      absurd (omega (arith, weight-pos t))
  fields-FieldsCodes e (suc n) (suc m) (field tag t rest) (short, valid, others) fuel steps =
      let (back, c, p) = kind_named t in
      let (found, tail, starts) =
        named-Codes {e = e} n false (kind t) c (build plain tag t) (type_of-build plain tag t) back
          p
          (subst (Codes e (write_tag false) (read_tag false)) (sym (tag_of-build plain tag t))
            (tag-Codes e false tag short (λ yes. absurd (ground (arith, yes, never e)))))
          (tree-BodyCodes e n plain tag t (never (not e)) valid (omega arith)) in
      field-FieldsCodes e (suc n) m tag t rest c tail found (starts ∙ ap (λ x. x ∷ tail) p) (
        fields-FieldsCodes e (suc n) m rest others (omega (arith, weight-pos t))
          (omega (arith, weight-pos t)))

-- The settings that the two directions treat alike: not for the network, or for a big-endian network
-- buffer with an empty tag.
abbrev pub IsSymmetric : Bool → Bool → List ℕ → Type 0
IsSymmetric e network tag = (network ≡ false) ⊎ ((e ≡ true) × (tag ≡ []))

symmetric-Agrees :
    (e network : Bool) (tag : List ℕ)
    → IsSymmetric e network tag
    → Agrees e network × ((e && network) ≡ true → tag ≡ [])
symmetric-Agrees e network tag (inl p) = (
  subst (λ m. (not e && m) ≡ false) (sym p) (never (not e)),
  λ yes. absurd (ground (arith, yes, p, never e)),
)
symmetric-Agrees e network tag (inr (p, q)) =
    (subst (λ d. (not d && network) ≡ false) (sym p) refl, λ _. q)

-- The bytes of a tree with the settings `named network`, written and read back.
pub element-Codes :
    (e : Bool) (t : Tree) (tag : List ℕ) (network : Bool) (n : ℕ)
    → IsTree t
    → length tag < 2 ^ 16
    → IsSymmetric e network tag
    → weight t ≤ suc n
    → Codes e
        (encode_as (named network))
        (decode (suc n) (named network))
        (build (named network) tag t)
element-Codes e t tag network n valid short symmetric fuel =
    let s = named network in
    let (agree, none_sent) = symmetric-Agrees e network tag symmetric in
    let (back, c, p) = kind_named t in
    (named-Codes {e = e} n network (kind t) c (build s tag t) (type_of-build s tag t) back p
      (subst (Codes e (write_tag network) (read_tag network)) (sym (tag_of-build s tag t))
        (tag-Codes e network tag short none_sent))
      (tree-BodyCodes e n s tag t agree valid fuel)).0

-- Into a valid buffer with nothing unread, `encode` of the element that is built from a tree of tagged
-- values and then `decode` give back that element and leave nothing unread. The numbers and texts of
-- the tree fit their types, a list has fewer than 2 ^ 32 values, all of one type, and every tag has
-- fewer than 2 ^ 16 bytes; the settings are not for the network, or the buffer is big-endian and the
-- tag of the whole element empty; and the fuel of `decode` is at least the weight of the tree.
pub decode-encode :
    (t : Tree) (tag : List ℕ) (network : Bool) (n : ℕ) (b : ByteBuffer)
    → IsTree t
    → length tag < 2 ^ 16
    → IsSymmetric b.is_big_endian network tag
    → weight t ≤ suc n
    → IsReady b
    → unread b ≡ []
    → RoundTrips encode (decode (suc n) (named network)) (build (named network) tag t) b
decode-encode t tag network n b valid short symmetric fuel ready all_read =
    let found = element-Codes b.is_big_endian t tag network n valid short symmetric fuel in
    round_trip {w = encode} b ready all_read (record {
      bytes = found.bytes;
      writes =
          subst (λ m. Writes b.is_big_endian m found.bytes)
            (sym (encode-build (named network) tag t)) found.writes;
      reads = found.reads;
    })
