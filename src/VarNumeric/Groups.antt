-- ===== src/VarNumeric/Groups.antt =====
-- What `writeVarNumeric` writes, in plain arithmetic, and that it stays inside its array.
use zinc.Common.{ℕ, zero, suc, ◌+◌, ◌/◌, ◌%◌, ◌^◌, ◌≤◌, ◌<◌, ◌≡◌, refl, ap, ap₂, sym, ◌∙◌, arith}
use zinc.Common.{Bool, true, false, some, List, [], ◌∷◌, length, ◌==◌, inl, inr}
use zinc.Common.{Bool-cases, bit_and, bit_or}
use zinc.Common.Bits.{bit_and_ones, bit_or_shifted}
use zinc.Numeric.{int, NumericType, bits_of}
use zinc.ByteBuffer.Rules.{Writes, IsReady}
use zinc.ByteBuffer.Raw.{write_bytes-Writes, size-IsWritten}
use zinc.ByteBuffer.{ByteBuffer, size}
use zinc.VarNumeric.{groups, clear_last, write_var_numeric, var_numeric_max_size}
use zinc.VarNumeric.{count_groups, get_var_numeric_length}
use native.Mathlib.Nat.{pow-suc}

-- The groups of seven bits of `v`, for `v` below `128 ^ (k + 1)`.
unfoldable pub seven_bits : ℕ → ℕ → List ℕ
seven_bits zero v = v ∷ []
seven_bits (suc k) v = elim (v / 128 == 0) [
  | true ↦ v ∷ []
  | false ↦ (v % 128 + 128) ∷ seven_bits k (v / 128)
]

pub seven_bits-zero : (v : ℕ) → seven_bits 0 v ≡ v ∷ []
unfolding seven_bits
seven_bits-zero v = refl

pub seven_bits-last : (k v : ℕ) → (v / 128 == 0) ≡ true → seven_bits (suc k) v ≡ v ∷ []
unfolding seven_bits
seven_bits-last k v done = rw (done, seven_bits)

pub seven_bits-more :
    (k v : ℕ)
    → (v / 128 == 0) ≡ false
    → seven_bits (suc k) v ≡ (v % 128 + 128) ∷ seven_bits k (v / 128)
unfolding seven_bits
seven_bits-more k v more = rw (more, seven_bits)

low_group : (v : ℕ) → bit_and v 0x7f ≡ v % 128
low_group v = bit_and_ones 7 v

pub marked_group : (v : ℕ) → bit_or (bit_and v 0x7f) 0x80 ≡ v % 128 + 128
marked_group v = ap (λ t. bit_or t 0x80) (low_group v) ∙ bit_or_shifted 7 (v % 128) 1 (omega arith)

-- The mark is taken off the last byte.
unmarked_group : (v : ℕ) → v < 128 → bit_and (bit_or (bit_and v 0x7f) 0x80) 0x7f ≡ v
unmarked_group v h =
    ap (λ t. bit_and t 0x7f) (marked_group v) ∙ (bit_and_ones 7 (v % 128 + 128) ∙ omega arith)

-- The loop fills `temp` with what `seven_bits` says, but for the mark on the last byte.
groups_lem :
    (k v : ℕ)
    → v < 128 ^ suc k
    → (byte : ℕ) × (rest : List ℕ) × (groups (suc k) v ≡ some (byte ∷ rest))
      × (clear_last (byte ∷ rest) ≡ seven_bits k v)
unfolding groups clear_last seven_bits
groups_lem zero v h =
    let done : (v / 128 == 0) ≡ true = ground arith in
    (
      bit_or (bit_and v 0x7f) 0x80,
      [],
      rw (done, groups),
      ap (λ t. t ∷ []) (unmarked_group v (omega arith)),
    )
groups_lem (suc k) v h = elim (Bool-cases (v / 128 == 0)) [
  | inl done ↦ (
    bit_or (bit_and v 0x7f) 0x80,
    [],
    rw (done, groups),
    rw (done, seven_bits) (ap (λ t. t ∷ []) (unmarked_group v (ground arith))),
  )
  | inr more ↦
      let (byte, rest, e, c) = groups_lem k (v / 128) (omega (arith, pow-suc 128 (suc k))) in
      (
        bit_or (bit_and v 0x7f) 0x80,
        byte ∷ rest,
        rw (more, groups) (rw (e, groups)),
        rw (more, seven_bits) (ap₂ ◌∷◌ (marked_group v) c),
      )
]

-- The rounds that are needed fit the array of every type.
pub fits_groups : (t : NumericType) (v : ℕ) → v < 2 ^ bits_of t → v < 128 ^ suc (bits_of t / 7)
fits_groups NumericType.bool v h = omega arith
fits_groups NumericType.char v h = omega arith
fits_groups NumericType.uchar v h = omega arith
fits_groups NumericType.short v h = omega arith
fits_groups NumericType.ushort v h = omega arith
fits_groups NumericType.int v h = omega arith
fits_groups NumericType.uint v h = omega arith
fits_groups NumericType.long v h = omega arith
fits_groups NumericType.ulong v h = omega arith
fits_groups NumericType.float v h = omega arith
fits_groups NumericType.double v h = omega arith

abbrev pub var_bytes : NumericType → ℕ → List ℕ
var_bytes t v = seven_bits (bits_of t / 7) v

pub write_var_numeric-Writes :
    {e : Bool} (t : NumericType) (v : ℕ)
    → v < 2 ^ bits_of t
    → Writes e (write_var_numeric t v) (var_bytes t v)
unfolding write_var_numeric
write_var_numeric-Writes t v h = record {
  run = λ b ready o.
      let (byte, rest, e, c) = groups_lem (bits_of t / 7) v (fits_groups t v h) in
      let enough : var_numeric_max_size t ≡ suc (bits_of t / 7) = omega arith in
      let filled = ap (λ n. groups n v) enough ∙ e in
      rw (filled, write_var_numeric) (rw c ((write_bytes-Writes (var_bytes t v)).run b ready o));
}

count_groups_lem :
    (k v count : ℕ)
    → v < 128 ^ suc k
    → count_groups (suc k) v count ≡ count + length (seven_bits k v)
unfolding count_groups seven_bits
count_groups_lem zero v count h =
    let done : (v / 128 == 0) ≡ true = ground arith in rw (done, count_groups)
count_groups_lem (suc k) v count h = elim (Bool-cases (v / 128 == 0)) [
  | inl done ↦ rw (done, count_groups, seven_bits) (omega arith)
  | inr more ↦
      let rest = count_groups_lem k (v / 128) (count + 1) (omega (arith, pow-suc 128 (suc k))) in
      rw (more, count_groups, seven_bits) (omega (arith, rest))
]

pub length-var_bytes :
    (t : NumericType) (v : ℕ)
    → v < 2 ^ bits_of t
    → get_var_numeric_length t v ≡ length (var_bytes t v)
unfolding get_var_numeric_length
length-var_bytes t v h =
    let enough : var_numeric_max_size t ≡ suc (bits_of t / 7) = omega arith in
    ap (λ n. count_groups n v 0) enough
    ∙ (count_groups_lem (bits_of t / 7) v 0 (fits_groups t v h) ∙ omega arith)

pub length-seven_bits : (k v : ℕ) → length (seven_bits k v) ≤ suc k
unfolding seven_bits
length-seven_bits zero v = omega arith
length-seven_bits (suc k) v = ground (arith, length-seven_bits k (v / 128))

-- On a valid buffer `writeVarNumeric` never writes past its array of `varNumericMaxSize` bytes, and
-- the buffer grows by the number of bytes that `getVarNumericLength` answers.
pub size-write_var_numeric :
    (t : NumericType) (v : ℕ) (b : ByteBuffer)
    → v < 2 ^ bits_of t
    → IsReady b
    → (b' : ByteBuffer) × (write_var_numeric t v b ≡ some (tt, b'))
      × (size b' ≡ size b + get_var_numeric_length t v)
      × (get_var_numeric_length t v ≤ var_numeric_max_size t)
size-write_var_numeric t v b h ready =
    let w = (write_var_numeric-Writes t v h).run b ready refl in
    (
      w.after,
      w.returns,
      size-IsWritten b (var_bytes t v) ready w
          ∙ ap (λ n. size b + n) (sym (length-var_bytes t v h)),
      omega (arith, length-var_bytes t v h, length-seven_bits (bits_of t / 7) v),
    )

-- A number has at least one byte.
pub var_bytes-pos : (id : ℕ) → 0 < length (var_bytes int id)
var_bytes-pos id = elim (Bool-cases (id / 128 == 0)) [
  | inl last ↦ rw (seven_bits-last 3 id last) (omega arith)
  | inr more ↦ rw (seven_bits-more 3 id more) (omega arith)
]
