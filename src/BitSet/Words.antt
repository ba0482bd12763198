-- ===== src/BitSet/Words.antt =====
-- One bit of a word, and what the operations on words do to it.
use zinc.Common.{
  ℕ, zero, suc, ◌+◌, ◌-◌, ◌*◌, ◌/◌, ◌%◌, ◌^◌, ◌<◌, min, max, ◌≡◌, ◌≢◌, refl, ap, ap₂, sym, ◌∙◌,
  arith,
}
use zinc.Common.{bit_and, bit_or, bit_xor, Bool, true, false, not, ◌&&◌, ◌||◌, ◌==◌, ==_ne}
use zinc.Common.Digits.{
  digit, digit-and, digit-or, digit-xor, bit_and_single, digit_power_self, digit_power_other,
}
use zinc.Common.Digits.{digit-zero, digit-suc, digit_none}
use native.Mathlib.Nat.{one-le-pow, pow-suc}
use zinc.BitSet.{has_bit, complement}

-- `^` of two truth values.
abbrev pub differs : Bool → Bool → Bool
differs true q = not q
differs false q = q

-- The digit as a Boolean.
abbrev pub truth : ℕ → Bool
truth zero = false
truth (suc n) = true

pub has_bit-digit : (w k : ℕ) → has_bit w k ≡ truth (digit k w)
has_bit-digit w k = ap (λ t. not (t == 0)) (bit_and_single k w) ∙ by_digit (digit k w) (omega arith)
  where
    by_digit : (d : ℕ) → d < 2 → not (d * 2 ^ k == 0) ≡ truth d
    by_digit zero h = ap (λ t. not (t == 0)) nothing ∙ refl
      where
        nothing : 0 * 2 ^ k ≡ 0
        nothing = omega arith
    by_digit (suc d) h =
        ap not (==_ne (suc d * 2 ^ k) 0 (λ e. absurd (grind (arith, one-le-pow k 2 (omega arith)))))

digit-lt : (k w : ℕ) → digit k w < 2
digit-lt k w = omega arith

truth-min : (a b : ℕ) → truth (min a b) ≡ (truth a && truth b)
truth-min a b = ground arith

truth-max : (a b : ℕ) → truth (max a b) ≡ (truth a || truth b)
truth-max a b = ground arith

truth-sum : (a b : ℕ) → a < 2 → b < 2 → truth ((a + b) % 2) ≡ differs (truth a) (truth b)
truth-sum zero b ha hb = ground arith
truth-sum (suc zero) zero ha hb = refl
truth-sum (suc zero) (suc zero) ha hb = refl
truth-sum (suc zero) (suc (suc b)) ha hb = absurd (omega arith)
truth-sum (suc (suc a)) b ha hb = absurd (omega arith)

pub has_bit-and : (v w k : ℕ) → has_bit (bit_and v w) k ≡ (has_bit v k && has_bit w k)
has_bit-and v w k =
    has_bit-digit (bit_and v w) k
    ∙ (ap truth (digit-and k v w)
        ∙ (truth-min (digit k v) (digit k w)
            ∙ ap₂ ◌&&◌ (sym (has_bit-digit v k)) (sym (has_bit-digit w k))))

pub has_bit-or : (v w k : ℕ) → has_bit (bit_or v w) k ≡ (has_bit v k || has_bit w k)
has_bit-or v w k =
    has_bit-digit (bit_or v w) k
    ∙ (ap truth (digit-or k v w)
        ∙ (truth-max (digit k v) (digit k w)
            ∙ ap₂ ◌||◌ (sym (has_bit-digit v k)) (sym (has_bit-digit w k))))

pub has_bit-xor : (v w k : ℕ) → has_bit (bit_xor v w) k ≡ differs (has_bit v k) (has_bit w k)
has_bit-xor v w k =
    has_bit-digit (bit_xor v w) k
    ∙ (ap truth (digit-xor k v w)
        ∙ (truth-sum (digit k v) (digit k w) (digit-lt k v) (digit-lt k w)
            ∙ ap₂ differs (sym (has_bit-digit v k)) (sym (has_bit-digit w k))))

digit_ones : (n k : ℕ) → k < n → digit k (2 ^ n - 1) ≡ 1
digit_ones zero k h = absurd (omega arith)
digit_ones (suc n) zero h =
    digit-zero (2 ^ suc n - 1) ∙ omega (arith, pow-suc 2 n, one-le-pow n 2 (omega arith))
digit_ones (suc n) (suc k) h =
    digit-suc k (2 ^ suc n - 1) ∙ (ap (digit k) half ∙ digit_ones n k (omega arith))
  where
    half : (2 ^ suc n - 1) / 2 ≡ 2 ^ n - 1
    half = omega (arith, pow-suc 2 n, one-le-pow n 2 (omega arith))

differs-true : (q : Bool) → differs q true ≡ not q
differs-true true = refl
differs-true false = refl

pub has_bit-complement : (w k : ℕ) → k < 64 → has_bit (complement w) k ≡ not (has_bit w k)
has_bit-complement w k h =
    has_bit-xor w (2 ^ 64 - 1) k
    ∙ (ap (differs (has_bit w k)) (has_bit-digit (2 ^ 64 - 1) k ∙ ap truth (digit_ones 64 k h))
        ∙ differs-true (has_bit w k))

pub has_bit-none : (k : ℕ) → has_bit 0 k ≡ false
has_bit-none k = has_bit-digit 0 k ∙ ap truth (digit_none k)

pub has_bit-single : (k : ℕ) → has_bit (2 ^ k) k ≡ true
has_bit-single k = has_bit-digit (2 ^ k) k ∙ ap truth (digit_power_self k)

pub has_bit-other : (j k : ℕ) → k ≢ j → has_bit (2 ^ j) k ≡ false
has_bit-other j k h = has_bit-digit (2 ^ j) k ∙ ap truth (digit_power_other j k h)

or_true : (q : Bool) → (q || true) ≡ true
or_true true = refl
or_true false = refl

pub or_false : (q : Bool) → (q || false) ≡ q
or_false true = refl
or_false false = refl

pub and_true : (q : Bool) → (q && true) ≡ q
and_true true = refl
and_true false = refl

pub and_false : (q : Bool) → (q && false) ≡ false
and_false true = refl
and_false false = refl

pub differs-false : (q : Bool) → differs q false ≡ q
differs-false true = refl
differs-false false = refl

-- The three updates of the bit `k` of a word: at `k`, and at another bit.
module _ (w k : ℕ) where
  pub set_here : has_bit (bit_or w (2 ^ k)) k ≡ true
  set_here =
      has_bit-or w (2 ^ k) k
      ∙ (ap (λ q. has_bit w k || q) (has_bit-single k) ∙ or_true (has_bit w k))

  pub set_elsewhere : (j : ℕ) → j ≢ k → has_bit (bit_or w (2 ^ k)) j ≡ has_bit w j
  set_elsewhere j h =
      has_bit-or w (2 ^ k) j
      ∙ (ap (λ q. has_bit w j || q) (has_bit-other k j h) ∙ or_false (has_bit w j))

  pub clear_here : k < 64 → has_bit (bit_and w (complement (2 ^ k))) k ≡ false
  clear_here small =
      has_bit-and w (complement (2 ^ k)) k
      ∙ (ap (λ q. has_bit w k && q) (has_bit-complement (2 ^ k) k small ∙ ap not (has_bit-single k))
          ∙ and_false (has_bit w k))

  pub clear_elsewhere :
      (j : ℕ) → j < 64 → j ≢ k → has_bit (bit_and w (complement (2 ^ k))) j ≡ has_bit w j
  clear_elsewhere j small h =
      has_bit-and w (complement (2 ^ k)) j
      ∙ (ap (λ q. has_bit w j && q)
            (has_bit-complement (2 ^ k) j small ∙ ap not (has_bit-other k j h))
          ∙ and_true (has_bit w j))

  pub flip_here : has_bit (bit_xor w (2 ^ k)) k ≡ not (has_bit w k)
  flip_here =
      has_bit-xor w (2 ^ k) k
      ∙ (ap (differs (has_bit w k)) (has_bit-single k) ∙ differs-true (has_bit w k))

  pub flip_elsewhere : (j : ℕ) → j ≢ k → has_bit (bit_xor w (2 ^ k)) j ≡ has_bit w j
  flip_elsewhere j h =
      has_bit-xor w (2 ^ k) j
      ∙ (ap (differs (has_bit w j)) (has_bit-other k j h) ∙ differs-false (has_bit w j))
