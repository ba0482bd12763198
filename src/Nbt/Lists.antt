-- ===== src/Nbt/Lists.antt =====
-- Lists and compounds come back, when their children do.
use zinc.Common.{
  ℕ, suc, ◌^◌, ◌<◌, ◌≡◌, refl, ap, ap₂, sym, ◌∙◌, subst, arith, Bool, true, false, not, ◌&&◌,
}
use zinc.Common.{if◌then◌else◌, Option, none, some, List, [], ◌∷◌, ◌++◌, append-nil}
use zinc.ByteBuffer.{ByteBuffer, Action, pure, ◌>>=◌, ◌>>◌, write_byte}
use zinc.ByteBuffer.Rules.{
  Writes, Reads, Codes, Writes-bind, Writes-pure, Reads-bind, Reads-map, Reads-pure, Reads-result,
}
use zinc.ByteBuffer.Rules.{Reads-action, Reads-eq}
use zinc.ByteBuffer.Raw.{write_byte-Writes, read_byte-Reads}
use zinc.Numeric.{ask_order}
use zinc.Nbt.{
  NbtElementType, end, list, compound, to_char, of_char, NbtSettings, plain, NbtElement,
  NbtElements, nil, cons,
}
use zinc.Nbt.{of_list, of_compound}
use zinc.Nbt.Coding.{
  is_end, item_settings, type_of, count, all_of_type, write_list, write_empty_list, write_body,
  write_count, read_count, encode_as, encode_all,
}
use zinc.Nbt.Decoding.{child_settings, decode_items, decode_fields, on_next, decode_body, decode}
use zinc.Nbt.Trees.{
  Tree, Items, Fields, items, fields, none_left, item, no_field, field, kind, kind_named,
}
use zinc.Nbt.Trees.{build, build_items, build_fields, AreItems, count_items}
use zinc.Nbt.Built.{type_of-build, count-build_items, all_of_type-build_items}
use zinc.Nbt.Headers.{BodyCodes, not_end}
use zinc.Nbt.Parts.{Reads-ask, count-Codes, Reads-next}

-- The children of a list, one after the other.
pub record ItemsCodes (e : Bool) (n : ℕ) (k : NbtElementType) (xs : Items) : Type 0 where
  pub bytes : List ℕ
  pub writes : Writes e (encode_all (item_settings k) (build_items k xs)) bytes
  pub reads :
      Reads e (decode_items (decode n (item_settings k)) (count_items xs)) bytes (build_items k xs)

-- The children of a compound and the zero byte behind them.
pub record FieldsCodes (e : Bool) (n m : ℕ) (fs : Fields) : Type 0 where
  pub bytes : List ℕ
  pub writes : Writes e (do encode_all plain (build_fields fs); write_byte 0) bytes
  pub reads : Reads e (decode_fields m (decode n plain)) bytes (build_fields fs)

pub none-ItemsCodes : (e : Bool) (n : ℕ) (k : NbtElementType) → ItemsCodes e n k none_left
unfolding encode_all build_items decode_items count_items
none-ItemsCodes e n k = record { bytes = []; writes = Writes-pure; reads = Reads-pure nil }

pub item-ItemsCodes :
    (e : Bool) (n : ℕ) (k : NbtElementType) (t : Tree) (rest : Items)
    → Codes e
        (encode_as (item_settings k))
        (decode n (item_settings k))
        (build (item_settings k) [] t)
    → ItemsCodes e n k rest
    → ItemsCodes e n k (item t rest)
unfolding encode_all build_items decode_items count_items
item-ItemsCodes e n k t rest c r = record {
  bytes = c.bytes ++ r.bytes;
  writes = Writes-bind c.writes r.writes;
  reads =
      Reads-bind
        (λ x.
          decode_items (decode n (item_settings k)) (count_items rest) >>= λ xs. pure (cons x xs))
        c.reads (Reads-map (λ xs. cons (build (item_settings k) [] t) xs) r.reads);
}

pub none-FieldsCodes : (e : Bool) (n m : ℕ) → FieldsCodes e n (suc m) no_field
unfolding encode_all build_fields decode_fields on_next
none-FieldsCodes e n m = record {
  bytes = 0 ∷ [];
  writes = write_byte-Writes 0;
  reads = Reads-next _ 0 [] (Reads-map (λ _. nil) (read_byte-Reads 0));
}

-- `>>` is associative.
Writes-regroup :
    {e : Bool} (m k l : Action (Unit {0})) {xs : List ℕ}
    → Writes e (m >> (k >> l)) xs
    → Writes e ((m >> k) >> l) xs
Writes-regroup {e} m k l {xs} w = subst (λ a. Writes e a xs) (λ i b. regroup b (m b) i) w
  where
    regroup :
        (b : ByteBuffer) (o : Option (Unit {0} × ByteBuffer))
        → ((λ _. o) >> (k >> l)) b ≡ (((λ _. o) >> k) >> l) b
    regroup b none = refl
    regroup b (some (u, b')) = refl

pub field-FieldsCodes :
    (e : Bool) (n m : ℕ) (tag : List ℕ) (t : Tree) (rest : Fields) (c : ℕ) (tail : List ℕ)
    → (p : Codes e (encode_as plain) (decode n plain) (build plain tag t)) → p.bytes ≡ suc c ∷ tail
    → FieldsCodes e n m rest
    → FieldsCodes e n (suc m) (field tag t rest)
unfolding encode_all build_fields decode_fields on_next
field-FieldsCodes e n m tag t rest c tail p starts r = record {
  bytes = p.bytes ++ r.bytes;
  writes =
      Writes-regroup (encode_as plain (build plain tag t)) (encode_all plain (build_fields rest))
        (write_byte 0) (Writes-bind p.writes r.writes);
  reads = Reads-eq (sym (ap (λ t. t ++ r.bytes) starts)) (
      Reads-next _ (suc c) (tail ++ r.bytes) (
        Reads-eq (ap (λ t. t ++ r.bytes) starts) (
          Reads-bind (λ x. decode_fields m (decode n plain) >>= λ xs. pure (cons x xs)) p.reads
            (Reads-map (λ xs. cons (build plain tag t) xs) r.reads))));
}

-- The settings in which the children are read are those in which they were written.
abbrev pub Agrees : Bool → Bool → Type 0
Agrees e network = (not e && network) ≡ false

-- What `decode` does after the type and the number of the items.
abbrev read_items_in : ℕ → NbtSettings → List ℕ → ℕ → ℕ → Bool → Action NbtElement
read_items_in n s tag c k big =
    decode_items (decode n (child_settings true (of_char c) s.is_network big))
      (if is_end (of_char c) then 0 else k)
    >>= λ xs. pure (of_list tag xs s)

abbrev read_items : ℕ → NbtSettings → List ℕ → ℕ → ℕ → Action NbtElement
read_items n s tag c k = ask_order >>= read_items_in n s tag c k

pub empty_list-BodyCodes :
    (e : Bool) (n : ℕ) (s : NbtSettings) (tag : List ℕ)
    → BodyCodes e n s list (build s tag (items none_left))
unfolding build of_list build_items write_body write_list write_empty_list decode_body decode_items
    of_char to_char
empty_list-BodyCodes e n s tag =
    let c = count-Codes {e = e} s.is_network 0 (omega arith) in
    record {
      bytes = (0 ∷ []) ++ c.bytes;
      writes = Writes-bind (write_byte-Writes 0) c.writes;
      reads =
          Reads-bind (λ c. read_count s.is_network >>= λ k. read_items n s tag c k)
            (read_byte-Reads 0)
            (Reads-eq (append-nil c.bytes) (
              Reads-bind (read_items n s tag 0) c.reads (
                Reads-ask (read_items_in n s tag 0 0)
                  (Reads-map (λ xs. of_list tag xs s) (Reads-pure nil)))));
    }

full_list-Writes :
    {e : Bool} (network : Bool) (k : NbtElementType) (x : NbtElement) (xs : NbtElements)
    (rest : NbtElementType → Action (Unit {0})) (bs : List ℕ)
    → type_of x ≡ k
    → all_of_type k (cons x xs) ≡ true
    → Writes e (do write_byte (to_char k); write_count network (count (cons x xs)); rest k) bs
    → Writes e (write_list network (cons x xs) (rest (type_of x))) bs
unfolding write_list
full_list-Writes {e = e} network k x xs rest bs same all w =
    subst
      (λ j.
        Writes e
          (if all_of_type j (cons x xs)
            then (write_byte (to_char j) >> (write_count network (count (cons x xs)) >> rest j))
            else write_empty_list network)
          bs)
      (sym same) (rw all w)

-- The items are read in the settings in which they were written, and as many as were written.
items_action :
    (e : Bool) (n : ℕ) (s : NbtSettings) (tag : List ℕ) (t : Tree) (m : ℕ)
    → Agrees e s.is_network
    → (decode_items
          (decode n (child_settings true (of_char (to_char (kind t))) s.is_network e))
          (if is_end (of_char (to_char (kind t))) then 0 else m)
        >>= λ xs. pure (of_list tag xs s))
      ≡ (decode_items (decode n (item_settings (kind t))) m >>= λ xs. pure (of_list tag xs s))
items_action e n s tag t m agree =
    ap₂ (λ st z. decode_items (decode n st) z >>= λ xs. pure (of_list tag xs s))
      (λ i. record { is_in_array = true; is_network = agree i; type_ = (kind_named t).0 i }) counted
  where
    counted : (if is_end (of_char (to_char (kind t))) then 0 else m) ≡ m
    counted =
        ap (λ b. if b then 0 else m)
          (ap is_end (kind_named t).0 ∙ not_end (kind t) (kind_named t).1 (kind_named t).2)

pub full_list-BodyCodes :
    (e : Bool) (n : ℕ) (s : NbtSettings) (tag : List ℕ) (t : Tree) (rest : Items)
    → Agrees e s.is_network
    → AreItems (kind t) (item t rest)
    → count_items (item t rest) < 2 ^ 32
    → ItemsCodes e n (kind t) (item t rest)
    → BodyCodes e n s list (build s tag (items (item t rest)))
unfolding build of_list write_body decode_body build_items
full_list-BodyCodes e n s tag t rest agree h short r =
    let k = kind t in
    let same = count-build_items k (item t rest) in
    let c =
      count-Codes {e = e} s.is_network (count (build_items k (item t rest)))
        (omega (arith, same, short)) in
    record {
      bytes = (to_char k ∷ []) ++ (c.bytes ++ r.bytes);
      writes =
          full_list-Writes s.is_network k (build (item_settings k) [] t) (build_items k rest)
            (λ j. encode_all (item_settings j) (build_items k (item t rest))) _
            (type_of-build (item_settings k) [] t) (all_of_type-build_items k k (item t rest) h)
            (Writes-bind (write_byte-Writes (to_char k)) (Writes-bind c.writes r.writes));
      reads =
          Reads-bind (λ c. read_count s.is_network >>= λ k. read_items n s tag c k)
            (read_byte-Reads (to_char k))
            (Reads-bind (read_items n s tag (to_char k)) (Reads-result same c.reads) (
              Reads-ask (read_items_in n s tag (to_char k) (count_items (item t rest))) (
                Reads-action (items_action e n s tag t (count_items (item t rest)) agree)
                  (Reads-map (λ xs. of_list tag xs s) r.reads))));
    }

pub compound-BodyCodes :
    (e : Bool) (n : ℕ) (s : NbtSettings) (tag : List ℕ) (fs : Fields)
    → Agrees e s.is_network
    → FieldsCodes e n n fs
    → BodyCodes e n s compound (build s tag (fields fs))
unfolding build of_compound write_body decode_body
compound-BodyCodes e n s tag fs agree r = record {
  bytes = r.bytes;
  writes = r.writes;
  reads =
      Reads-ask
        (λ big. decode_fields n (decode n (child_settings false end s.is_network big)) >>= λ xs.
          pure (of_compound tag xs s))
        (Reads-action
          (ap (λ st. decode_fields n (decode n st) >>= λ xs. pure (of_compound tag xs s))
            (λ i. record { is_in_array = false; is_network = agree i; type_ = end }))
          (Reads-map (λ xs. of_compound tag xs s) r.reads));
}
