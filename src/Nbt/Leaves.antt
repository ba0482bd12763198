-- ===== src/Nbt/Leaves.antt =====
-- The value of an element without children comes back.
use zinc.Common.{ℕ, ◌≡◌, refl, Bool, List, [], ◌∷◌, ◌++◌, length, All}
use zinc.ByteBuffer.{Action, pure, ◌>>=◌, read_bytes}
use zinc.ByteBuffer.Rules.{Writes, Reads, Codes, Writes-bind, Reads-bind, Reads-map}
use zinc.ByteBuffer.Raw.{byte-Codes, write_bytes-Writes, read_bytes-Reads}
use zinc.Numeric.{NumericType, write_numeric, read_numeric}
use zinc.Numeric.RoundTrip.{numeric-Codes, IsValue}
use zinc.Arrays.{read_array}
use zinc.Arrays.Sequences.{array-Codes}
use zinc.Nbt.{NbtSettings, NbtElement, NbtValues, no_values, element, nil}
use zinc.Nbt.{
  of_byte, of_short, of_int, of_long, of_float, of_double, of_byte_array, of_string, of_int_array,
  of_long_array,
}
use zinc.Nbt.Coding.{write_body}
use zinc.Nbt.Decoding.{decode_body}
use zinc.Nbt.Trees.{
  Leaf, IsLeaf, kind_of_leaf, build_leaf, byte_leaf, short_leaf, int_leaf, long_leaf, float_leaf,
}
use zinc.Nbt.Trees.{double_leaf, byte_array_leaf, string_leaf, int_array_leaf, long_array_leaf}
use zinc.Nbt.Parts.{number-Codes, count-Codes, text-Codes}

abbrev pub values_of : Leaf → NbtValues
values_of (byte_leaf v) = record no_values { byte_value = v }
values_of (short_leaf v) = record no_values { short_value = v }
values_of (int_leaf v) = record no_values { int_value = v }
values_of (long_leaf v) = record no_values { long_value = v }
values_of (float_leaf v) = record no_values { float_value = v }
values_of (double_leaf v) = record no_values { double_value = v }
values_of (byte_array_leaf v) = record no_values { byte_array_value = v }
values_of (string_leaf v) = record no_values { string_value = v }
values_of (int_array_leaf v) = record no_values { int_array_value = v }
values_of (long_array_leaf v) = record no_values { long_array_value = v }

pub build_leaf-element :
    (s : NbtSettings) (tag : List ℕ) (l : Leaf)
    → build_leaf s tag l ≡ element s tag (kind_of_leaf l) (values_of l) nil
unfolding build_leaf of_byte of_short of_int of_long of_float of_double of_byte_array of_string
    of_int_array of_long_array
build_leaf-element s tag (byte_leaf v) = refl
build_leaf-element s tag (short_leaf v) = refl
build_leaf-element s tag (int_leaf v) = refl
build_leaf-element s tag (long_leaf v) = refl
build_leaf-element s tag (float_leaf v) = refl
build_leaf-element s tag (double_leaf v) = refl
build_leaf-element s tag (byte_array_leaf v) = refl
build_leaf-element s tag (string_leaf v) = refl
build_leaf-element s tag (int_array_leaf v) = refl
build_leaf-element s tag (long_array_leaf v) = refl

pub record LeafCodes (e : Bool) (s : NbtSettings) (tag : List ℕ) (l : Leaf) : Type 0 where
  pub bytes : List ℕ
  pub writes :
      (as_list as_compound : Action (Unit {0}))
      → Writes e (write_body s.is_network (kind_of_leaf l) (values_of l) as_list as_compound) bytes
  pub reads :
      (n : ℕ) (d : NbtSettings → Action NbtElement)
      → Reads e (decode_body n d s tag (kind_of_leaf l)) bytes (build_leaf s tag l)

numbers-Codes :
    (e : Bool) (t : NumericType) (xs : List ℕ)
    → All (IsValue t) xs
    → All (λ x. Codes e (write_numeric t) (read_numeric t) x) xs
numbers-Codes e t [] h = tt
numbers-Codes e t (x ∷ xs) (hx, hs) = (numeric-Codes t x hx, numbers-Codes e t xs hs)

pub leaf-Codes :
    (e : Bool) (s : NbtSettings) (tag : List ℕ) (l : Leaf) → IsLeaf l → LeafCodes e s tag l
unfolding write_body decode_body build_leaf
leaf-Codes e s tag (byte_leaf v) h =
    let c = byte-Codes {e = e} v in
    record {
      bytes = c.bytes;
      writes = λ _ _. c.writes;
      reads = λ n d. Reads-map (λ v. of_byte tag v s) c.reads;
    }
leaf-Codes e s tag (short_leaf v) h =
    let c = numeric-Codes {e = e} NumericType.short v h in
    record {
      bytes = c.bytes;
      writes = λ _ _. c.writes;
      reads = λ n d. Reads-map (λ v. of_short tag v s) c.reads;
    }
leaf-Codes e s tag (int_leaf v) h =
    let c = number-Codes {e = e} s.is_network NumericType.int v refl h h in
    record {
      bytes = c.bytes;
      writes = λ _ _. c.writes;
      reads = λ n d. Reads-map (λ v. of_int tag v s) c.reads;
    }
leaf-Codes e s tag (long_leaf v) h =
    let c = number-Codes {e = e} s.is_network NumericType.long v refl h h in
    record {
      bytes = c.bytes;
      writes = λ _ _. c.writes;
      reads = λ n d. Reads-map (λ v. of_long tag v s) c.reads;
    }
leaf-Codes e s tag (float_leaf v) h =
    let c = numeric-Codes {e = e} NumericType.float v h in
    record {
      bytes = c.bytes;
      writes = λ _ _. c.writes;
      reads = λ n d. Reads-map (λ v. of_float tag v s) c.reads;
    }
leaf-Codes e s tag (double_leaf v) h =
    let c = numeric-Codes {e = e} NumericType.double v h in
    record {
      bytes = c.bytes;
      writes = λ _ _. c.writes;
      reads = λ n d. Reads-map (λ v. of_double tag v s) c.reads;
    }
leaf-Codes e s tag (byte_array_leaf v) h =
    let c = count-Codes {e = e} s.is_network (length v) h in
    record {
      bytes = c.bytes ++ v;
      writes = λ _ _. Writes-bind c.writes (write_bytes-Writes v);
      reads = λ n d.
          Reads-bind (λ k. read_bytes k >>= λ v. pure (of_byte_array tag v s)) c.reads
            (Reads-map (λ v. of_byte_array tag v s) (read_bytes-Reads v (length v) refl));
    }
leaf-Codes e s tag (string_leaf v) h =
    let c = text-Codes {e = e} s.is_network v h in
    record {
      bytes = c.bytes;
      writes = λ _ _. c.writes;
      reads = λ n d. Reads-map (λ v. of_string tag v s) c.reads;
    }
leaf-Codes e s tag (int_array_leaf v) (short, all) =
    let c = count-Codes {e = e} s.is_network (length v) short in
    let t = NumericType.int in
    let xs = array-Codes (write_numeric t) (read_numeric t) {e = e} v (numbers-Codes e t v all) in
    record {
      bytes = c.bytes ++ xs.bytes;
      writes = λ _ _. Writes-bind c.writes xs.writes;
      reads = λ n d.
          Reads-bind (λ k. read_array (read_numeric t) k >>= λ v. pure (of_int_array tag v s))
            c.reads (Reads-map (λ v. of_int_array tag v s) xs.reads);
    }
leaf-Codes e s tag (long_array_leaf v) (short, all) =
    let c = count-Codes {e = e} s.is_network (length v) short in
    let t = NumericType.long in
    let xs = array-Codes (write_numeric t) (read_numeric t) {e = e} v (numbers-Codes e t v all) in
    record {
      bytes = c.bytes ++ xs.bytes;
      writes = λ _ _. Writes-bind c.writes xs.writes;
      reads = λ n d.
          Reads-bind (λ k. read_array (read_numeric t) k >>= λ v. pure (of_long_array tag v s))
            c.reads (Reads-map (λ v. of_long_array tag v s) xs.reads);
    }
