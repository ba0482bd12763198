-- ===== src/BitSet/Changes.antt =====
-- One bit of a vector of words changes, and the highest set position follows.
use zinc.Common.{
  ℕ, ◌+◌, ◌-◌, ◌/◌, ◌%◌, ◌^◌, ◌≤◌, ◌<◌, ◌≡◌, ◌≢◌, inl, inr, refl, ap, sym, ◌∙◌, arith,
}
use zinc.Common.{Bool, true, false, ◌==◌, leb, ltb, if◌then◌else◌, ◌||◌, below-cases}
use zinc.Common.{
  eq-cases, if-both, if-split, lt→leb_false, List, length, get_or, set, replicate, All, All-append,
}
use zinc.Common.{length-append, length-replicate, ltb→lt}
use zinc.Common.Indexing.{get_or-set_self, get_or-set_other, get_or_padded, All-replicate}
use zinc.BitSet.{BitSet, npos, word, has_bit, find_highest_set, grow, resize, raise, get_bit}
use zinc.BitSet.Highest.{IsWord, bit_in, bit_in_out, IsHighest, find_highest_set-IsHighest}

-- The words are words, the vector is of a possible length, and the cached position is the highest.
pub record IsBitSet (s : BitSet) : Type 0 where
  pub all_words : All IsWord s.words
  pub short : length s.words < 2 ^ 58
  pub highest : IsHighest s.words s.highest_set

pub get_bit-bit_in : (pos : ℕ) (s : BitSet) → get_bit pos s ≡ bit_in s.words pos
unfolding get_bit
get_bit-bit_in pos s = elim (below-cases (pos / 64) (length s.words)) [
  | inl inside ↦
      ap (λ t. if t then false else bit_in s.words pos)
        (lt→leb_false (length s.words) (pos / 64) inside)
  | inr outside ↦ outside_lem outside
]
  where
    outside_lem :
        length s.words ≤ pos / 64
        → (if leb (length s.words) (pos / 64) then false else bit_in s.words pos)
          ≡ bit_in s.words pos
    outside_lem outside =
        ap (λ t. if t then false else bit_in s.words pos) at_end
        ∙ sym (bit_in_out s.words pos (omega arith))
      where
        at_end : leb (length s.words) (pos / 64) ≡ true
        at_end = ground arith

-- The bit at `pos` is `new`, every other one is as it was.
pub record IsChanged (words after : List ℕ) (pos : ℕ) (new : Bool) : Type 0 where
  pub here : bit_in after pos ≡ new
  pub elsewhere : (q : ℕ) → q ≢ pos → bit_in after q ≡ bit_in words q

pub changed :
    (words : List ℕ) (pos v : ℕ) (new : Bool)
    → pos / 64 < length words
    → has_bit v (pos % 64) ≡ new
    → ((k : ℕ) → k < 64 → k ≢ pos % 64 → has_bit v k ≡ has_bit (word words (pos / 64)) k)
    → IsChanged words (set words (pos / 64) v) pos new
changed words pos v new inside at_pos others = record {
  here = ap (λ w. has_bit w (pos % 64)) (get_or-set_self 0 words (pos / 64) v inside) ∙ at_pos;
  elsewhere = elsewhere;
}
  where
    elsewhere : (q : ℕ) → q ≢ pos → bit_in (set words (pos / 64) v) q ≡ bit_in words q
    elsewhere q h = elim (eq-cases (q / 64) (pos / 64)) [
      | inl e ↦
          ap (λ i. has_bit (get_or (set words (pos / 64) v) i 0) (q % 64)) e
          ∙ (ap (λ w. has_bit w (q % 64)) (get_or-set_self 0 words (pos / 64) v inside)
              ∙ (others (q % 64) (omega arith) (λ f. h (omega (arith, e, f)))
                  ∙ ap (λ i. has_bit (word words i) (q % 64)) (sym e)))
      | inr ne ↦ ap (λ w. has_bit w (q % 64)) (get_or-set_other 0 words (pos / 64) (q / 64) v ne)
    ]

pub grow-bit_in : (pos : ℕ) (words : List ℕ) (q : ℕ) → bit_in (grow pos words) q ≡ bit_in words q
unfolding grow
grow-bit_in pos words q =
    let n = (pos + 64) % 2 ^ 64 / 64 in
    if-both (λ after. bit_in after q ≡ bit_in words q) (ltb (length words) n)
      (ap (λ w. has_bit w (q % 64)) (get_or_padded 0 words (n - length words) (q / 64))) refl

pub grow-All : (pos : ℕ) (words : List ℕ) → All IsWord words → All IsWord (grow pos words)
unfolding grow
grow-All pos words h =
    let n = (pos + 64) % 2 ^ 64 / 64 in
    if-both (All IsWord) (ltb (length words) n)
      (All-append IsWord words (replicate (n - length words) 0) h
        (All-replicate IsWord (n - length words) 0 (omega arith)))
      h

pub grow-length :
    (pos : ℕ) (words : List ℕ)
    → pos + 64 < 2 ^ 64
    → length words < 2 ^ 58
    → (pos / 64 < length (grow pos words)) × (length (grow pos words) < 2 ^ 58)
unfolding grow
grow-length pos words h short =
    let n = (pos + 64) % 2 ^ 64 / 64 in
    if-split (λ after. (pos / 64 < length after) × (length after < 2 ^ 58)) (ltb (length words) n)
      {x = resize n words} {y = words}
      (λ grows. (omega (arith, padded n grows), omega (arith, padded n grows)))
      (λ fits. (ground arith, short))
  where
    padded : (n : ℕ) → ltb (length words) n ≡ true → length (resize n words) ≡ n
    padded n grows =
        length-append words (replicate (n - length words) 0)
        ∙ (ap (λ t. length words + t) (length-replicate (n - length words) 0)
            ∙ omega (arith, ltb→lt (length words) n grows))

-- Only the bits matter to the highest position.
pub IsHighest-same :
    (words after : List ℕ) (h : ℕ)
    → ((q : ℕ) → bit_in after q ≡ bit_in words q)
    → IsHighest words h
    → IsHighest after h
IsHighest-same words after h same (inl (none_yet, unset)) = inl (none_yet, λ q. same q ∙ unset q)
IsHighest-same words after h same (inr (small, is_set, unset)) =
    inr (small, same h ∙ is_set, λ q over. same q ∙ unset q over)

-- A bit was set.
pub raise-IsHighest :
    (words after : List ℕ) (pos h : ℕ)
    → pos < npos
    → IsChanged words after pos true
    → IsHighest words h
    → IsHighest after (raise pos h)
unfolding raise
raise-IsHighest words after pos h small c (inl (none_yet, unset)) =
    if-split (IsHighest after) ((h == npos) || ltb h pos)
      (λ _. inr (small, c.here, λ q over. c.elsewhere q (λ e. absurd (omega arith)) ∙ unset q))
      (λ no. absurd (ground (arith, none_yet, no)))
raise-IsHighest words after pos h small c (inr (below, is_set, unset)) =
    if-split (IsHighest after) ((h == npos) || ltb h pos)
      (λ yes. inr (
        small,
        c.here,
        λ q over.
            c.elsewhere q (λ e. absurd (omega arith)) ∙ unset q (ground (arith, yes, below, over)),
      ))
      (λ no. inr (
        below,
        still_set,
        λ q over. c.elsewhere q (λ e. absurd (ground (arith, no, below, over, e))) ∙ unset q over,
      ))
  where
    still_set : bit_in after h ≡ true
    still_set = elim (eq-cases h pos) [
      | inl e ↦ ap (bit_in after) e ∙ c.here
      | inr ne ↦ c.elsewhere h ne ∙ is_set
    ]

-- A bit was cleared.
pub lower-IsHighest :
    (words after : List ℕ) (pos h : ℕ)
    → All IsWord after
    → length after < 2 ^ 58
    → IsChanged words after pos false
    → IsHighest words h
    → IsHighest after (if pos == h then find_highest_set after else h)
lower-IsHighest words after pos h all short c found =
    if-split (IsHighest after) (pos == h) (λ _. find_highest_set-IsHighest after all short)
      (λ other. elim found [
        | inl (none_yet, unset) ↦ inl (none_yet, λ q. still_unset q (unset q))
        | inr (below, is_set, unset) ↦ inr (
          below,
          c.elsewhere h (λ e. absurd (ground (arith, other, e))) ∙ is_set,
          λ q over. still_unset q (unset q over),
        )
      ])
  where
    still_unset : (q : ℕ) → bit_in words q ≡ false → bit_in after q ≡ false
    still_unset q unset = elim (eq-cases q pos) [
      | inl e ↦ ap (bit_in after) e ∙ c.here
      | inr ne ↦ c.elsewhere q ne ∙ unset
    ]
