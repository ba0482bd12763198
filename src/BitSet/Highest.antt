-- ===== src/BitSet/Highest.antt =====
-- `findHighestSet` finds the highest set bit.
use zinc.Common.{
  ℕ, zero, suc, ◌+◌, ◌-◌, ◌*◌, ◌/◌, ◌%◌, ◌^◌, ◌≤◌, ◌<◌, ◌≡◌, ◌≢◌, ◌⊎◌, inl, inr, refl, ap, sym, ◌∙◌,
  arith,
}
use zinc.Common.{
  Bool, true, false, ◌==◌, ==_ne, ==_self, zero-cases, below-cases, subst, if◌then◌else◌, List,
  length, All,
}
use zinc.Common.Digits.{digit, digit-suc, digit-zero, digit_none}
use zinc.Common.Indexing.{get_or_out, All-get_or}
use native.Mathlib.Nat.{pow-suc}
use zinc.BitSet.{npos, word, has_bit, bit_length, clz, highest_from, find_highest_set}
use zinc.BitSet.Words.{has_bit-digit, has_bit-none, truth}

abbrev pub IsWord : ℕ → Type 0
IsWord w = w < 2 ^ 64

-- The bit at a position, whatever the length of the vector.
abbrev pub bit_in : List ℕ → ℕ → Bool
bit_in words pos = has_bit (word words (pos / 64)) (pos % 64)

bit_length_zero : (n : ℕ) → bit_length n 0 ≡ 0
unfolding bit_length
bit_length_zero zero = refl
bit_length_zero (suc n) = refl

-- What `bit_length` finds: one more than the position of the highest digit.
pub record IsTopDigit (n w found : ℕ) : Type 0 where
  pub position : ℕ
  pub counted : found ≡ suc position
  pub inside : position < n
  pub is_set : digit position w ≡ 1
  pub above : (k : ℕ) → position < k → digit k w ≡ 0

IsTopDigit-one : (n w : ℕ) → w ≢ 0 → w / 2 ≡ 0 → IsTopDigit (suc n) w (bit_length (suc n) w)
unfolding bit_length
IsTopDigit-one n w nonzero e = record {
  position = 0;
  counted = rw (==_ne w 0 nonzero) (ap suc (ap (bit_length n) e ∙ bit_length_zero n));
  inside = omega arith;
  is_set = digit-zero w ∙ omega arith;
  above = above;
}
  where
    above : (k : ℕ) → 0 < k → digit k w ≡ 0
    above zero h = absurd (omega arith)
    above (suc k) h = digit-suc k w ∙ (ap (digit k) e ∙ digit_none k)

IsTopDigit-more :
    (n w : ℕ)
    → w ≢ 0
    → IsTopDigit n (w / 2) (bit_length n (w / 2))
    → IsTopDigit (suc n) w (bit_length (suc n) w)
unfolding bit_length
IsTopDigit-more n w nonzero t = record {
  position = suc t.position;
  counted = rw (==_ne w 0 nonzero) (ap suc t.counted);
  inside = omega (arith, t.inside);
  is_set = digit-suc t.position w ∙ t.is_set;
  above = above;
}
  where
    above : (k : ℕ) → suc t.position < k → digit k w ≡ 0
    above zero h = absurd (omega arith)
    above (suc k) h = digit-suc k w ∙ t.above k (omega arith)

top_digit : (n w : ℕ) → w < 2 ^ n → w ≢ 0 → IsTopDigit n w (bit_length n w)
top_digit zero w h nonzero = absurd (nonzero (omega arith))
top_digit (suc n) w h nonzero = elim (zero-cases (w / 2)) [
  | inl e ↦ IsTopDigit-one n w nonzero e
  | inr more ↦ IsTopDigit-more n w nonzero (top_digit n (w / 2) (omega (arith, pow-suc 2 n)) more)
]

-- The highest set position below `bound`, or none.
abbrev pub IsHighestBelow : ℕ → List ℕ → ℕ → Type 0
IsHighestBelow bound words h =
    ((h ≡ npos) × ((pos : ℕ) → pos < bound → bit_in words pos ≡ false))
    ⊎ ((h < bound)
        × (bit_in words h ≡ true)
        × ((pos : ℕ) → h < pos → pos < bound → bit_in words pos ≡ false))

-- A bit of word `i`.
pub bit_in-word :
    (words : List ℕ) (i pos : ℕ)
    → i * 64 ≤ pos
    → pos < suc i * 64
    → bit_in words pos ≡ has_bit (word words i) (pos % 64)
bit_in-word words i pos above below = ap (λ t. has_bit (word words t) (pos % 64)) same
  where
    same : pos / 64 ≡ i
    same = omega arith

-- One more word whose bits are all 0.
extend_zero :
    (i h : ℕ) (words : List ℕ)
    → word words i ≡ 0
    → IsHighestBelow (i * 64) words h
    → IsHighestBelow (suc i * 64) words h
extend_zero i h words nothing found = elim found [
  | inl (none_yet, unset) ↦ inl (none_yet, λ pos below. in_word pos below (unset pos))
  | inr (below, is_set, unset) ↦
      inr (omega arith, is_set, λ pos over under. in_word pos under (unset pos over))
]
  where
    in_word :
        (pos : ℕ)
        → pos < suc i * 64
        → (pos < i * 64 → bit_in words pos ≡ false)
        → bit_in words pos ≡ false
    in_word pos below before = elim (below-cases pos (i * 64)) [
      | inl h ↦ before h
      | inr h ↦
          bit_in-word words i pos h below
          ∙ (ap (λ w. has_bit w (pos % 64)) nothing ∙ has_bit-none (pos % 64))
    ]

-- One more word with a bit of its own.
extend_word :
    (i : ℕ) (words : List ℕ)
    → IsTopDigit 64 (word words i) (bit_length 64 (word words i))
    → IsHighestBelow (suc i * 64) words (i * 64 + (63 - clz (word words i)))
extend_word i words t = subst (IsHighestBelow (suc i * 64) words) (sym position) (
    inr (
      omega (arith, t.inside),
      bit_in-word words i (i * 64 + t.position) (omega arith) (omega (arith, t.inside))
          ∙ (has_bit-digit (word words i) ((i * 64 + t.position) % 64)
              ∙ (ap (λ k. truth (digit k (word words i))) low ∙ ap truth t.is_set)),
      λ pos over under.
          bit_in-word words i pos (omega arith) under
          ∙ (has_bit-digit (word words i) (pos % 64)
              ∙ ap truth (t.above (pos % 64) (omega (arith, t.inside)))),
    ))
  where
    position : i * 64 + (63 - clz (word words i)) ≡ i * 64 + t.position
    position = omega (arith, t.counted, t.inside)

    low : (i * 64 + t.position) % 64 ≡ t.position
    low = omega (arith, t.inside)

highest_from-IsHighestBelow :
    (i : ℕ) (words : List ℕ)
    → All IsWord words
    → IsHighestBelow (i * 64) words (highest_from i words)
unfolding highest_from
highest_from-IsHighestBelow zero words h = inl (refl, λ pos below. absurd (omega arith))
highest_from-IsHighestBelow (suc i) words h = elim (zero-cases (word words i)) [
  | inl e ↦
      subst (IsHighestBelow (suc i * 64) words) (sym (skipped e))
        (extend_zero i (highest_from i words) words e (highest_from-IsHighestBelow i words h))
  | inr nonzero ↦ rw (==_ne (word words i) 0 nonzero) (
      extend_word i words
        (top_digit 64 (word words i) (All-get_or IsWord words i 0 h (omega arith)) nonzero))
]
  where
    skipped :
        word words i ≡ 0
        → (if word words i == 0 then highest_from i words else i * 64 + (63 - clz (word words i)))
          ≡ highest_from i words
    skipped e =
        ap (λ t. if t then highest_from i words else i * 64 + (63 - clz (word words i)))
          (ap (λ w. w == 0) e ∙ ==_self 0)

-- The cached position is the highest set one, or `npos` where there is none.
abbrev pub IsHighest : List ℕ → ℕ → Type 0
IsHighest words h =
    ((h ≡ npos) × ((pos : ℕ) → bit_in words pos ≡ false))
    ⊎ ((h < npos) × (bit_in words h ≡ true) × ((pos : ℕ) → h < pos → bit_in words pos ≡ false))

pub bit_in_out : (words : List ℕ) (pos : ℕ) → length words * 64 ≤ pos → bit_in words pos ≡ false
bit_in_out words pos h =
    ap (λ w. has_bit w (pos % 64)) (get_or_out 0 words (pos / 64) (omega arith))
    ∙ has_bit-none (pos % 64)

pub find_highest_set-IsHighest :
    (words : List ℕ)
    → All IsWord words
    → length words < 2 ^ 58
    → IsHighest words (find_highest_set words)
unfolding find_highest_set
find_highest_set-IsHighest words h short =
    elim (highest_from-IsHighestBelow (length words) words h) [
      | inl (none_yet, unset) ↦ inl (none_yet, λ pos. beyond pos (unset pos))
      | inr (below, is_set, unset) ↦
          inr (omega arith, is_set, λ pos over. beyond pos (unset pos over))
    ]
  where
    beyond :
        (pos : ℕ) → (pos < length words * 64 → bit_in words pos ≡ false) → bit_in words pos ≡ false
    beyond pos before = elim (below-cases pos (length words * 64)) [
      | inl h ↦ before h
      | inr h ↦ bit_in_out words pos h
    ]
