-- ===== src/BitSet/Operators.antt =====
-- `&=`, `|=`, `^=` and `andNot` combine two sets bit by bit.
use zinc.Common.{ℕ, zero, suc, ◌-◌, ◌/◌, ◌%◌, ◌^◌, ◌≤◌, ◌<◌, ◌≡◌, max, ap, ap₂, sym, ◌∙◌, arith}
use zinc.Common.{Bool, false, not, ◌&&◌, ◌||◌, List, [], ◌∷◌, length, All}
use zinc.Common.Digits.{bit_and-lt, bit_or-lt, bit_xor-lt}
use zinc.BitSet.{
  BitSet, word, has_bit, complement, get_bit, and_words, or_words, xor_words, and_not_words,
}
use zinc.BitSet.{and_with, or_with, xor_with, and_not, from_long_array}
use zinc.BitSet.Words.{
  has_bit-and, has_bit-or, has_bit-xor, has_bit-complement, has_bit-none, differs,
}
use zinc.BitSet.Words.{and_false, and_true, or_false, differs-false}
use zinc.BitSet.Highest.{IsWord, bit_in, find_highest_set-IsHighest}
use zinc.BitSet.Changes.{IsBitSet, get_bit-bit_in}

-- Bit `k` of word `i`.
abbrev at : List ℕ → ℕ → ℕ → Bool
at words i k = has_bit (word words i) k

at-none : (i k : ℕ) → at [] i k ≡ false
at-none i k = has_bit-none k

and_words-at : (xs ys : List ℕ) (i k : ℕ) → at (and_words xs ys) i k ≡ (at xs i k && at ys i k)
unfolding and_words
and_words-at [] ys i k = has_bit-none k ∙ sym (ap (λ q. q && at ys i k) (has_bit-none k))
and_words-at (x ∷ xs) [] zero k =
    has_bit-none k ∙ sym (ap (λ q. has_bit x k && q) (has_bit-none k) ∙ and_false (has_bit x k))
and_words-at (x ∷ xs) [] (suc i) k = and_words-at xs [] i k
and_words-at (x ∷ xs) (y ∷ ys) zero k = has_bit-and x y k
and_words-at (x ∷ xs) (y ∷ ys) (suc i) k = and_words-at xs ys i k

or_words-at : (xs ys : List ℕ) (i k : ℕ) → at (or_words xs ys) i k ≡ (at xs i k || at ys i k)
unfolding or_words
or_words-at xs [] i k = sym (ap (λ q. at xs i k || q) (has_bit-none k) ∙ or_false (at xs i k))
or_words-at [] (y ∷ ys) zero k = has_bit-or 0 y k
or_words-at [] (y ∷ ys) (suc i) k = or_words-at [] ys i k
or_words-at (x ∷ xs) (y ∷ ys) zero k = has_bit-or x y k
or_words-at (x ∷ xs) (y ∷ ys) (suc i) k = or_words-at xs ys i k

xor_words-at :
    (xs ys : List ℕ) (i k : ℕ) → at (xor_words xs ys) i k ≡ differs (at xs i k) (at ys i k)
unfolding xor_words
xor_words-at xs [] i k = sym (ap (differs (at xs i k)) (has_bit-none k) ∙ differs-false (at xs i k))
xor_words-at [] (y ∷ ys) zero k = has_bit-xor 0 y k
xor_words-at [] (y ∷ ys) (suc i) k = xor_words-at [] ys i k
xor_words-at (x ∷ xs) (y ∷ ys) zero k = has_bit-xor x y k
xor_words-at (x ∷ xs) (y ∷ ys) (suc i) k = xor_words-at xs ys i k

and_not_words-at :
    (xs ys : List ℕ) (i k : ℕ)
    → k < 64
    → at (and_not_words xs ys) i k ≡ (at xs i k && not (at ys i k))
unfolding and_not_words
and_not_words-at [] ys i k h =
    has_bit-none k ∙ sym (ap (λ q. q && not (at ys i k)) (has_bit-none k))
and_not_words-at (x ∷ xs) [] i k h =
    sym (ap (λ q. at (x ∷ xs) i k && not q) (has_bit-none k) ∙ and_true (at (x ∷ xs) i k))
and_not_words-at (x ∷ xs) (y ∷ ys) zero k h =
    has_bit-and x (complement y) k ∙ ap (λ q. has_bit x k && q) (has_bit-complement y k h)
and_not_words-at (x ∷ xs) (y ∷ ys) (suc i) k h = and_not_words-at xs ys i k h

-- The result has words only, and is no longer than the longer vector.
abbrev Fits : List ℕ → List ℕ → List ℕ → Type 0
Fits xs ys zs = All IsWord zs × (length zs ≤ max (length xs) (length ys))

and_words-Fits : (xs ys : List ℕ) → All IsWord xs → All IsWord ys → Fits xs ys (and_words xs ys)
unfolding and_words
and_words-Fits [] ys hx hy = (tt, omega arith)
and_words-Fits (x ∷ xs) [] (px, hx) hy =
    let rest = and_words-Fits xs [] hx hy in ((omega arith, rest.0), omega (arith, rest.1))
and_words-Fits (x ∷ xs) (y ∷ ys) (px, hx) (py, hy) =
    let rest = and_words-Fits xs ys hx hy in
    ((bit_and-lt 64 x y px py, rest.0), omega (arith, rest.1))

or_words-Fits : (xs ys : List ℕ) → All IsWord xs → All IsWord ys → Fits xs ys (or_words xs ys)
unfolding or_words
or_words-Fits xs [] hx hy = (hx, omega arith)
or_words-Fits [] (y ∷ ys) hx (py, hy) =
    let rest = or_words-Fits [] ys hx hy in
    ((bit_or-lt 64 0 y (omega arith) py, rest.0), omega (arith, rest.1))
or_words-Fits (x ∷ xs) (y ∷ ys) (px, hx) (py, hy) =
    let rest = or_words-Fits xs ys hx hy in
    ((bit_or-lt 64 x y px py, rest.0), omega (arith, rest.1))

xor_words-Fits : (xs ys : List ℕ) → All IsWord xs → All IsWord ys → Fits xs ys (xor_words xs ys)
unfolding xor_words
xor_words-Fits xs [] hx hy = (hx, omega arith)
xor_words-Fits [] (y ∷ ys) hx (py, hy) =
    let rest = xor_words-Fits [] ys hx hy in
    ((bit_xor-lt 64 0 y (omega arith) py, rest.0), omega (arith, rest.1))
xor_words-Fits (x ∷ xs) (y ∷ ys) (px, hx) (py, hy) =
    let rest = xor_words-Fits xs ys hx hy in
    ((bit_xor-lt 64 x y px py, rest.0), omega (arith, rest.1))

and_not_words-Fits :
    (xs ys : List ℕ) → All IsWord xs → All IsWord ys → Fits xs ys (and_not_words xs ys)
unfolding and_not_words
and_not_words-Fits [] ys hx hy = (tt, omega arith)
and_not_words-Fits (x ∷ xs) [] hx hy = (hx, omega arith)
and_not_words-Fits (x ∷ xs) (y ∷ ys) (px, hx) (py, hy) =
    let rest = and_not_words-Fits xs ys hx hy in
    (
      (bit_and-lt 64 x (complement y) px (bit_xor-lt 64 y (2 ^ 64 - 1) py (omega arith)), rest.0),
      omega (arith, rest.1),
    )

-- What `findHighestSet` completes is a valid set.
pub from_long_array-IsBitSet :
    (longs : List ℕ) → All IsWord longs → length longs < 2 ^ 58 → IsBitSet (from_long_array longs)
unfolding from_long_array
from_long_array-IsBitSet longs h short = record {
  all_words = h;
  short = short;
  highest = find_highest_set-IsHighest longs h short;
}

-- `t` is a valid set, and its bits are those of `s` and `other`, combined by `op`.
abbrev pub Combines : (Bool → Bool → Bool) → BitSet → BitSet → BitSet → Type 0
Combines op s other t = IsBitSet t × ((q : ℕ) → get_bit q t ≡ op (get_bit q s) (get_bit q other))

module _ (s other : BitSet) (v : IsBitSet s) (w : IsBitSet other) where
  combined :
      (op : Bool → Bool → Bool) (zs : List ℕ)
      → Fits s.words other.words zs
      → ((q : ℕ) → bit_in zs q ≡ op (bit_in s.words q) (bit_in other.words q))
      → Combines op s other (from_long_array zs)
  unfolding from_long_array
  combined op zs fits bits = (
    from_long_array-IsBitSet zs fits.0 (omega (arith, fits.1, v.short, w.short)),
    λ q.
        get_bit-bit_in q (from_long_array zs)
        ∙ (bits q ∙ ap₂ op (sym (get_bit-bit_in q s)) (sym (get_bit-bit_in q other))),
  )

  -- The four operators on valid sets give valid sets, whose cached position is the highest one; the
  -- bits of the result are the conjunction, the disjunction, the exclusive disjunction and the
  -- conjunction with the negation of the bits of the operands.
  pub operators-Combines :
      Combines ◌&&◌ s other (and_with s other)
      × Combines ◌||◌ s other (or_with s other)
      × Combines differs s other (xor_with s other)
      × Combines (λ a b. a && not b) s other (and_not s other)
  unfolding and_with or_with xor_with and_not
  operators-Combines = (
    combined ◌&&◌ _ (and_words-Fits s.words other.words v.all_words w.all_words)
        (λ q. and_words-at s.words other.words (q / 64) (q % 64)),
    combined ◌||◌ _ (or_words-Fits s.words other.words v.all_words w.all_words)
        (λ q. or_words-at s.words other.words (q / 64) (q % 64)),
    combined differs _ (xor_words-Fits s.words other.words v.all_words w.all_words)
        (λ q. xor_words-at s.words other.words (q / 64) (q % 64)),
    combined (λ a b. a && not b) _ (and_not_words-Fits s.words other.words v.all_words w.all_words)
        (λ q. and_not_words-at s.words other.words (q / 64) (q % 64) (omega arith)),
  )
