-- ===== src/VarNumeric/RoundTrip.antt =====
-- `readVarNumeric` returns what `writeVarNumeric` wrote.
use zinc.Common.{ℕ, zero, suc, ◌+◌, ◌-◌, ◌*◌, ◌/◌, ◌%◌, ◌^◌, ◌<◌, ◌≡◌, refl, ap, sym, ◌∙◌, arith}
use zinc.Common.{Bool, true, false, List, [], ◌∷◌, ◌==◌, leb, inl, inr}
use zinc.Common.{Bool-cases, bit_and, bit_or, ==_ne, lt→leb_false}
use zinc.Common.Bits.{bit_and_ones, bit_or_shifted, bit_and_below, bit_and_top, bit_or_top}
use zinc.Numeric.{NumericType, bits_of, is_signed}
use zinc.ByteBuffer.{ByteBuffer, Action, pure, ◌>>=◌, first_byte}
use zinc.ByteBuffer.Rules.{Reads, Codes, Reads-bind, Reads-eq, Reads-pure, IsReady, unread}
use zinc.ByteBuffer.Rules.{RoundTrips, round_trip, Reads-result, Reads-action}
use zinc.ByteBuffer.Raw.{read_bytes-Reads, first_byte-Reads}
use zinc.VarNumeric.{extend_sign, read_groups, read_var_numeric, write_var_numeric}
use zinc.VarNumeric.{var_numeric_max_size}
use zinc.VarNumeric.Groups.{seven_bits-zero, seven_bits-last, seven_bits-more}
use zinc.VarNumeric.Groups.{seven_bits, var_bytes, write_var_numeric-Writes, fits_groups}
use native.Mathlib.Nat.{pow-suc, one-le-pow, mod-eq_of_lt}
use native.Mathlib.Numerals.{towards_suc}
use native.Mathlib.Decide.{dec_lt}

-- Setting the sign bit where it is set changes nothing.
extend_sign_lem : (w : ℕ) (signed : Bool) (r : ℕ) → 0 < w → r < 2 ^ w → extend_sign w signed r ≡ r
unfolding extend_sign
extend_sign_lem w false r pos h = refl
extend_sign_lem w true r pos h = elim (dec_lt r (2 ^ (w - 1))) [
  | yes low ↦ rw (bit_and_below (w - 1) r low)
  | no high ↦
      let s = r - 2 ^ (w - 1) in
      let top : r ≡ s + 2 ^ (w - 1) = omega arith in
      let room : s < 2 ^ (w - 1) = omega (arith, double) in
      rw
        (
          ap (λ t. bit_and t (2 ^ (w - 1))) top ∙ bit_and_top (w - 1) s room,
          ==_ne (2 ^ (w - 1)) 0 (omega (arith, one-le-pow (w - 1) 2 (omega arith))),
        )
        (ap (λ t. bit_or t (2 ^ (w - 1))) top ∙ (bit_or_top (w - 1) s room ∙ sym top))
]
  where
    double : 2 ^ w ≡ 2 * 2 ^ (w - 1)
    double = ap (λ k. 2 ^ k) (omega arith) ∙ (pow-suc 2 (w - 1) ∙ omega arith)

seven_more : (s : ℕ) → 2 ^ (s + 7) ≡ 128 * 2 ^ s
seven_more s = simp towards_suc (omega arith)

-- The lowest group and the others, all shifted by `s`.
split_low : (v s : ℕ) → v * 2 ^ s ≡ v % 128 * 2 ^ s + v / 128 * 2 ^ (s + 7)
split_low v s =
    ap (λ (t : ℕ). t * 2 ^ s) divided ∙ omega (arith, ap (λ (t : ℕ). v / 128 * t) (seven_more s))
  where
    divided : v ≡ v % 128 + v / 128 * 128
    divided = omega arith

-- One byte: a first group of a number, under the mark `m`.
module _ (w : ℕ) (signed : Bool) (room shift acc : ℕ) where
  abbrev round : Bool → Bool → ℕ → Action ℕ
  round last past result' = elim last [
    | true ↦ pure (extend_sign w signed result')
    | false ↦ elim past [ true ↦ pure 0 | false ↦ read_groups w signed room (shift + 7) result' ]
  ]

  abbrev after_byte : ℕ → Action ℕ
  after_byte byte =
      round (bit_and byte 0x80 == 0) (leb w (shift + 7))
        (bit_or acc (bit_and byte 0x7f * 2 ^ shift % 2 ^ w))

  read_groups-Reads :
      {e : Bool} (byte v : ℕ) {rest : List ℕ}
      → Reads e (after_byte byte) rest v
      → Reads e (read_groups w signed (suc room) shift acc) (byte ∷ rest) v
  unfolding read_groups
  read_groups-Reads byte v r =
      Reads-bind (λ bs. first_byte bs >>= after_byte) (read_bytes-Reads (byte ∷ []) 1 refl)
        (Reads-bind after_byte (first_byte-Reads byte) r)

  joined :
      (g : ℕ)
      → acc < 2 ^ shift
      → g < 128
      → acc + g * 2 ^ shift < 2 ^ w
      → (byte : ℕ) → byte % 128 ≡ g
      → bit_or acc (bit_and byte 0x7f * 2 ^ shift % 2 ^ w) ≡ acc + g * 2 ^ shift
  joined g low hg fits byte e =
      ap (λ t. bit_or acc (t * 2 ^ shift % 2 ^ w)) (bit_and_ones 7 byte ∙ e)
      ∙ (ap (λ t. bit_or acc t) (mod-eq_of_lt (omega arith)) ∙ bit_or_shifted shift acc g low)

  -- The last byte has no mark.
  last-Reads :
      {e : Bool} (v : ℕ)
      → acc < 2 ^ shift
      → v < 128
      → 0 < w
      → acc + v * 2 ^ shift < 2 ^ w
      → Reads e (read_groups w signed (suc room) shift acc) (v ∷ []) (acc + v * 2 ^ shift)
  last-Reads v low hv pos fits = read_groups-Reads v (acc + v * 2 ^ shift) (
      Reads-action
        (λ i.
          round (ap (λ t. t == 0) (bit_and_below 7 v hv) i) (leb w (shift + 7))
            (joined v low hv fits v (omega arith) i))
        (Reads-result (extend_sign_lem w signed (acc + v * 2 ^ shift) pos fits)
          (Reads-pure (extend_sign w signed (acc + v * 2 ^ shift)))))

  -- A marked byte hands over to the next round.
  marked-Reads :
      {e : Bool} (g v : ℕ) {rest : List ℕ}
      → acc < 2 ^ shift
      → g < 128
      → shift + 7 < w
      → acc + g * 2 ^ shift < 2 ^ w
      → Reads e (read_groups w signed room (shift + 7) (acc + g * 2 ^ shift)) rest v
      → Reads e (read_groups w signed (suc room) shift acc) ((g + 128) ∷ rest) v
  marked-Reads g v low hg more fits r = read_groups-Reads (g + 128) v (
      Reads-action
        (λ i.
          round (ap (λ t. t == 0) (bit_and_top 7 g hg) i) (lt→leb_false w (shift + 7) more i)
            (joined g low hg fits (g + 128) (omega arith) i))
        r)

fits_next : (acc g s : ℕ) → acc < 2 ^ s → g < 128 → acc + g * 2 ^ s < 2 ^ (s + 7)
fits_next acc g s low hg = rw (seven_more s) (grind arith)

-- `v` is what is still to be read, and it counts from bit `shift` on.
read_groups_lem :
    {e : Bool} (w : ℕ) (signed : Bool) (k room v shift acc : ℕ)
    → k < room
    → 0 < w
    → shift + 7 * k < w
    → v < 128 ^ suc k
    → acc < 2 ^ shift
    → acc + v * 2 ^ shift < 2 ^ w
    → Reads e (read_groups w signed room shift acc) (seven_bits k v) (acc + v * 2 ^ shift)
read_groups_lem w signed k zero v shift acc hk pos hs hv low fits = absurd (omega arith)
read_groups_lem w signed zero (suc room) v shift acc hk pos hs hv low fits =
    Reads-eq (sym (seven_bits-zero v))
      (last-Reads w signed room shift acc v low (omega arith) pos fits)
read_groups_lem {e} w signed (suc k) (suc room) v shift acc hk pos hs hv low fits =
    elim (Bool-cases (v / 128 == 0)) [
      | inl done ↦
          Reads-eq (sym (seven_bits-last k v done))
            (last-Reads w signed room shift acc v low (ground arith) pos fits)
      | inr more ↦ Reads-eq (sym (seven_bits-more k v more)) (
          marked-Reads w signed room shift acc g (acc + v * 2 ^ shift) low small next prefix (
            Reads-result whole (
              read_groups_lem w signed k room (v / 128) (shift + 7) (acc + g * 2 ^ shift)
                (omega arith) pos (omega arith) (omega (arith, pow-suc 128 (suc k)))
                (fits_next acc g shift low small) (omega (arith, whole)))))
    ]
  where
    g : ℕ
    g = v % 128

    small : g < 128
    small = omega arith

    next : shift + 7 < w
    next = omega arith

    prefix : acc + g * 2 ^ shift < 2 ^ w
    prefix = omega (arith, split_low v shift)

    whole : acc + g * 2 ^ shift + v / 128 * 2 ^ (shift + 7) ≡ acc + v * 2 ^ shift
    whole = omega (arith, split_low v shift)

-- No type has a width that is a multiple of seven.
no_seventh : (t : NumericType) → 7 * (bits_of t / 7) < bits_of t
no_seventh NumericType.bool = omega arith
no_seventh _ = omega arith

pub read_var_numeric-Reads :
    {e : Bool} (t : NumericType) (v : ℕ)
    → v < 2 ^ bits_of t
    → Reads e (read_var_numeric t) (var_bytes t v) v
unfolding read_var_numeric
read_var_numeric-Reads t v h = Reads-result (omega arith) (
    read_groups_lem (bits_of t) (is_signed t) (bits_of t / 7) (var_numeric_max_size t) v 0 0
      (omega arith) (omega (arith, no_seventh t)) (omega (arith, no_seventh t)) (fits_groups t v h)
      (omega arith) (omega arith))

pub var_numeric-Codes :
    {e : Bool} (t : NumericType) (v : ℕ)
    → v < 2 ^ bits_of t
    → Codes e (write_var_numeric t) (read_var_numeric t) v
var_numeric-Codes t v h = record {
  bytes = var_bytes t v;
  writes = write_var_numeric-Writes t v h;
  reads = read_var_numeric-Reads t v h;
}

-- Into a valid buffer with nothing unread, `writeVarNumeric` and then `readVarNumeric` give back
-- every value of every arithmetic type, negative numbers included, and leave nothing unread.
pub read_var_numeric-write_var_numeric :
    (t : NumericType) (v : ℕ) (b : ByteBuffer)
    → v < 2 ^ bits_of t
    → IsReady b
    → unread b ≡ []
    → RoundTrips (write_var_numeric t) (read_var_numeric t) v b
read_var_numeric-write_var_numeric t v b h ready none_left =
    round_trip b ready none_left (var_numeric-Codes t v h)
