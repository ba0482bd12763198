-- ===== src/VarNumeric/ZigZag.antt =====
-- The zigzag transform is undone by the reader, for signed values of both signs.
use zinc.Common.{ℕ, ◌+◌, ◌-◌, ◌*◌, ◌/◌, ◌%◌, ◌^◌, ◌≤◌, ◌<◌, ◌≡◌, refl, ap, ◌∙◌, arith}
use zinc.Common.{[], lt→ltb, le→ltb_false, if◌then◌else◌, bit_and, bit_xor, Bool, true, sym, subst}
use zinc.Common.Bits.{bit_and_ones, bit_xor_ones, bit_xor_zero, mod_unique}
use zinc.Numeric.{NumericType, bits_of, is_signed}
use zinc.ByteBuffer.{ByteBuffer}
use zinc.ByteBuffer.Rules.{
  Codes, Writes, Reads-map, Reads-result, IsReady, unread, RoundTrips, round_trip,
}
use zinc.VarNumeric.{write_var_numeric, zig_zag, un_zig_zag, unsigned_of, write_zig_zag_var_numeric}
use zinc.VarNumeric.{read_zig_zag_var_numeric}
use zinc.VarNumeric.RoundTrip.{var_numeric-Codes}
use native.Mathlib.Nat.{pow-suc, mod-eq_of_lt, mod_self}
use native.Mathlib.Decide.{dec_lt}

double_half : (w : ℕ) → 0 < w → 2 ^ w ≡ 2 * 2 ^ (w - 1)
double_half w h = ap (λ k. 2 ^ k) (omega arith) ∙ (pow-suc 2 (w - 1) ∙ omega arith)

-- 0, -1, 1, -2, ... go to 0, 1, 2, 3, ...
zig_zag-pos : (w v : ℕ) → 0 < w → v < 2 ^ (w - 1) → zig_zag w true v ≡ v * 2
unfolding zig_zag
zig_zag-pos w v pos h =
    ap (λ t. bit_xor (v * 2 % 2 ^ w) (if t then 0 else 2 ^ w - 1)) (lt→ltb _ _ h)
    ∙ (bit_xor_zero (v * 2 % 2 ^ w) ∙ mod-eq_of_lt (omega (arith, double_half w pos)))

zig_zag-neg :
    (w v : ℕ) → 0 < w → 2 ^ (w - 1) ≤ v → v < 2 ^ w → zig_zag w true v ≡ 2 * (2 ^ w - 1 - v) + 1
unfolding zig_zag
zig_zag-neg w v pos low high =
    ap (λ t. bit_xor (v * 2 % 2 ^ w) (if t then 0 else 2 ^ w - 1)) (le→ltb_false _ _ low)
    ∙ (ap (λ t. bit_xor t (2 ^ w - 1)) wraps
        ∙ (bit_xor_ones w (v * 2 - 2 ^ w) (omega arith) ∙ omega (arith, double_half w pos)))
  where
    wraps : v * 2 % 2 ^ w ≡ v * 2 - 2 ^ w
    wraps =
        mod_unique (2 ^ w) 1 (v * 2 - 2 ^ w) (v * 2) (omega arith)
          (omega (arith, double_half w pos))

un_zig_zag-even : (w v : ℕ) → v < 2 ^ w → un_zig_zag w (v * 2) ≡ v
unfolding un_zig_zag
un_zig_zag-even w v h =
    ap (λ t. bit_xor (v * 2 / 2) ((2 ^ w - t) % 2 ^ w)) low_bit
    ∙ (ap (λ t. bit_xor (v * 2 / 2) t) negated ∙ (bit_xor_zero (v * 2 / 2) ∙ omega arith))
  where
    low_bit : bit_and (v * 2) 1 ≡ 0
    low_bit = bit_and_ones 1 (v * 2) ∙ omega arith

    negated : (2 ^ w - 0) % 2 ^ w ≡ 0
    negated = ap (λ t. t % 2 ^ w) (omega arith) ∙ mod_self (2 ^ w)

un_zig_zag-odd : (w u : ℕ) → u < 2 ^ w → un_zig_zag w (2 * u + 1) ≡ 2 ^ w - 1 - u
unfolding un_zig_zag
un_zig_zag-odd w u h =
    ap (λ t. bit_xor ((2 * u + 1) / 2) ((2 ^ w - t) % 2 ^ w))
      (bit_and_ones 1 (2 * u + 1) ∙ omega arith)
    ∙ (ap (λ t. bit_xor ((2 * u + 1) / 2) t) (mod-eq_of_lt (omega arith))
        ∙ (ap (λ t. bit_xor t (2 ^ w - 1)) (omega arith) ∙ bit_xor_ones w u h))

pub un_zig_zag-zig_zag : (w v : ℕ) → 0 < w → v < 2 ^ w → un_zig_zag w (zig_zag w true v) ≡ v
un_zig_zag-zig_zag w v pos h = elim (dec_lt v (2 ^ (w - 1))) [
  | yes low ↦ ap (un_zig_zag w) (zig_zag-pos w v pos low) ∙ un_zig_zag-even w v h
  | no high ↦
      ap (un_zig_zag w) (zig_zag-neg w v pos (omega arith) h)
      ∙ (un_zig_zag-odd w (2 ^ w - 1 - v) (omega arith) ∙ omega arith)
]

pub zig_zag-lt : (w v : ℕ) → 0 < w → v < 2 ^ w → zig_zag w true v < 2 ^ w
zig_zag-lt w v pos h = elim (dec_lt v (2 ^ (w - 1))) [
  | yes low ↦ omega (arith, zig_zag-pos w v pos low, double_half w pos)
  | no high ↦ omega (arith, zig_zag-neg w v pos (omega arith) h, double_half w pos)
]

same_bits : (t : NumericType) → bits_of (unsigned_of t) ≡ bits_of t
unfolding unsigned_of
same_bits NumericType.bool = refl
same_bits _ = refl

size_pos : (t : NumericType) → 0 < bits_of t
size_pos NumericType.bool = omega arith
size_pos _ = omega arith

pub zig_zag-Codes :
    {e : Bool} (t : NumericType) (v : ℕ)
    → is_signed t ≡ true
    → v < 2 ^ bits_of t
    → Codes e (write_zig_zag_var_numeric t) (read_zig_zag_var_numeric t) v
unfolding write_zig_zag_var_numeric read_zig_zag_var_numeric
zig_zag-Codes {e = e} t v signed h =
    let w = bits_of t in
    let pos : 0 < w = size_pos t in
    let c =
      var_numeric-Codes {e = e} (unsigned_of t) (zig_zag w true v)
        (rw (same_bits t) (zig_zag-lt w v pos h)) in
    record {
      bytes = c.bytes;
      writes =
          subst (λ q. Writes e (write_var_numeric (unsigned_of t) (zig_zag w q v)) c.bytes)
            (sym signed) c.writes;
      reads = Reads-result (un_zig_zag-zig_zag w v pos h) (Reads-map (un_zig_zag w) c.reads);
    }

-- Into a valid buffer with nothing unread, `writeZigZagVarNumeric` and then
-- `readZigZagVarNumeric` give back every value of every signed integer type, and leave nothing unread.
pub read_zig_zag-write_zig_zag :
    (t : NumericType) (v : ℕ) (b : ByteBuffer)
    → is_signed t ≡ true
    → v < 2 ^ bits_of t
    → IsReady b
    → unread b ≡ []
    → RoundTrips (write_zig_zag_var_numeric t) (read_zig_zag_var_numeric t) v b
read_zig_zag-write_zig_zag t v b signed h ready none_left =
    round_trip b ready none_left (zig_zag-Codes t v signed h)
