-- ===== src/BitSet/Updates.antt =====
-- `set`, `clear` and `flip` on the word that holds the position.
use zinc.Common.{ℕ, ◌-◌, ◌/◌, ◌%◌, ◌^◌, ◌≤◌, ◌<◌, refl, sym, ◌∙◌, arith}
use zinc.Common.{bit_and, bit_or, bit_xor, Bool, true, false, not, ◌==◌, if◌then◌else◌}
use zinc.Common.{if-split, List, length, set}
use zinc.Common.{All, length-set, subst}
use zinc.Common.Indexing.{All-set, All-get_or}
use zinc.Common.Digits.{bit_and-lt, bit_or-lt, bit_xor-lt}
use native.Mathlib.Nat.{pow-le-pow_right}
use zinc.BitSet.{BitSet, npos, word, has_bit, complement, find_highest_set, set_in}
use zinc.BitSet.{flip_in}
use zinc.BitSet.Words.{
  set_here, set_elsewhere, clear_here, clear_elsewhere, flip_here, flip_elsewhere,
}
use zinc.BitSet.Highest.{IsWord, bit_in, IsHighest}
use zinc.BitSet.Changes.{IsBitSet, IsChanged, changed}
use zinc.BitSet.Changes.{raise-IsHighest, lower-IsHighest}

single-IsWord : (k : ℕ) → k < 64 → IsWord (2 ^ k)
single-IsWord k h = omega (arith, below)
  where
    below : 2 ^ k ≤ 2 ^ 63
    below = pow-le-pow_right {n = 2} (omega arith) {j = 63} (omega arith)

-- The word at a position of a valid set.
word-IsWord : (s : BitSet) → IsBitSet s → (i : ℕ) → IsWord (word s.words i)
word-IsWord s v i = All-get_or IsWord s.words i 0 v.all_words (omega arith)

-- The result of one of the operations: a valid set with one bit changed.
abbrev pub Updates : List ℕ → ℕ → Bool → BitSet → Type 0
Updates words pos new t = IsBitSet t × IsChanged words t.words pos new

module _ (s : BitSet) (pos : ℕ) (v : IsBitSet s) (inside : pos / 64 < length s.words) where
  abbrev w : ℕ
  w = word s.words (pos / 64)

  abbrev k : ℕ
  k = pos % 64

  -- A vector in which this word was replaced is as long, and has words only.
  replaced-All : (x : ℕ) → IsWord x → All IsWord (set s.words (pos / 64) x)
  replaced-All x h = All-set IsWord s.words (pos / 64) x v.all_words h

  replaced-short : (x : ℕ) → length (set s.words (pos / 64) x) < 2 ^ 58
  replaced-short x = omega (arith, length-set s.words (pos / 64) x, v.short)

  position-lt : pos < npos
  position-lt = omega (arith, inside, v.short)

  replaced :
      (x h : ℕ) (new : Bool)
      → IsWord x
      → IsChanged s.words (set s.words (pos / 64) x) pos new
      → IsHighest (set s.words (pos / 64) x) h
      → Updates s.words pos new (record { words = set s.words (pos / 64) x; highest_set = h })
  replaced x h new is_word c highest = (
    record { all_words = replaced-All x is_word; short = replaced-short x; highest = highest },
    c,
  )

  single : IsWord (2 ^ k)
  single = single-IsWord k (omega arith)

  w-IsWord : IsWord w
  w-IsWord = word-IsWord s v (pos / 64)

  pub set_in-Updates : Updates s.words pos true (set_in pos w s.words s.highest_set)
  unfolding set_in
  set_in-Updates =
      let x = bit_or w (2 ^ k) in
      let c =
        changed s.words pos x true inside (set_here w k) (λ j _ other. set_elsewhere w k j other) in
      if-split (Updates s.words pos true) (has_bit w k)
        (λ already. (v, record { here = already; elsewhere = λ q _. refl }))
        (λ _.
          replaced x _ true (bit_or-lt 64 w (2 ^ k) w-IsWord single) c
            (raise-IsHighest s.words _ pos s.highest_set position-lt c v.highest))

  pub clear_inside : Updates s.words pos false (
      if has_bit w k
      then record {
        words = set s.words (pos / 64) (bit_and w (complement (2 ^ k)));
        highest_set =
            if pos == s.highest_set
            then find_highest_set (set s.words (pos / 64) (bit_and w (complement (2 ^ k))))
            else s.highest_set;
      }
      else s)
  clear_inside =
      let x = bit_and w (complement (2 ^ k)) in
      let is_word =
        bit_and-lt 64 w (complement (2 ^ k)) w-IsWord
          (bit_xor-lt 64 (2 ^ k) (2 ^ 64 - 1) single (omega arith)) in
      let c =
        changed s.words pos x false inside (clear_here w k (omega arith))
          (λ j small other. clear_elsewhere w k j small other) in
      if-split (Updates s.words pos false) (has_bit w k)
        (λ _. replaced x _ false is_word c (
          lower-IsHighest s.words _ pos s.highest_set (replaced-All x is_word) (replaced-short x) c
            v.highest))
        (λ already. (v, record { here = already; elsewhere = λ q _. refl }))

  pub flip_in-Updates :
      Updates s.words pos (not (bit_in s.words pos)) (flip_in pos w s.words s.highest_set)
  unfolding flip_in
  flip_in-Updates =
      let x = bit_xor w (2 ^ k) in
      let is_word = bit_xor-lt 64 w (2 ^ k) w-IsWord single in
      let c =
        changed s.words pos x (not (has_bit w k)) inside (flip_here w k)
          (λ j _ other. flip_elsewhere w k j other) in
      replaced x _ (not (has_bit w k)) is_word c (
        if-split (IsHighest (set s.words (pos / 64) x)) (has_bit x k)
          (λ on.
            raise-IsHighest s.words _ pos s.highest_set position-lt
              (subst (IsChanged s.words (set s.words (pos / 64) x) pos) (sym (flip_here w k) ∙ on)
                c)
              v.highest)
          (λ off.
            lower-IsHighest s.words _ pos s.highest_set (replaced-All x is_word) (replaced-short x)
              (subst (IsChanged s.words (set s.words (pos / 64) x) pos) (sym (flip_here w k) ∙ off)
                c)
              v.highest))
