-- ===== src/BitSet/OneBit.antt =====
-- `set`, `clear` and `flip` change one bit, and keep the position of the highest one.
use zinc.Common.{ℕ, ◌+◌, ◌/◌, ◌^◌, ◌≤◌, ◌<◌, ◌≡◌, inl, inr, refl, ap, sym, ◌∙◌, arith}
use zinc.Common.{Bool, true, false, not, ◌==◌, ==_ne, ==_self, leb, if◌then◌else◌}
use zinc.Common.{below-cases, eq-cases, lt→leb_false, some, List, length}
use zinc.Common.{subst}
use zinc.Common.Indexing.{get_elem?-get_or}
use zinc.BitSet.{BitSet, word, grow, set_in, set_bit}
use zinc.BitSet.{clear_bit, flip_in, flip_bit, get_bit}
use zinc.BitSet.Highest.{bit_in, bit_in_out}
use zinc.BitSet.Changes.{IsBitSet, IsChanged, get_bit-bit_in, grow-length, grow-bit_in, grow-All}
use zinc.BitSet.Updates.{set_in-Updates, flip_in-Updates, clear_inside}
use zinc.BitSet.Changes.{IsHighest-same}

-- `s` became the valid set `t`, in which `pos` is `new` and every other position is as it was.
abbrev pub Becomes : BitSet → ℕ → Bool → BitSet → Type 0
Becomes s pos new t = IsBitSet t × ((q : ℕ) → get_bit q t ≡ (if q == pos then new else get_bit q s))

becomes :
    (s t : BitSet) (pos : ℕ) (new : Bool)
    → IsBitSet t
    → IsChanged s.words t.words pos new
    → Becomes s pos new t
becomes s t pos new valid c = (
  valid,
  λ q. elim (eq-cases q pos) [
    | inl e ↦ get_bit-bit_in q t ∙ (ap (bit_in t.words) e ∙ (c.here ∙ sym (chosen q e)))
    | inr ne ↦
        get_bit-bit_in q t
        ∙ (c.elsewhere q ne
            ∙ (sym (get_bit-bit_in q s)
                ∙ sym (ap (λ b. if b then new else get_bit q s) (==_ne q pos ne))))
  ],
)
  where
    chosen : (q : ℕ) → q ≡ pos → (if q == pos then new else get_bit q s) ≡ new
    chosen q e = ap (λ b. if b then new else get_bit q s) (ap (λ t. t == pos) e ∙ ==_self pos)

-- The set whose vector was made long enough.
grown : ℕ → BitSet → BitSet
grown pos s = record { words = grow pos s.words; highest_set = s.highest_set }

grown-IsBitSet : (pos : ℕ) (s : BitSet) → pos + 64 < 2 ^ 64 → IsBitSet s → IsBitSet (grown pos s)
unfolding grown
grown-IsBitSet pos s h v = record {
  all_words = grow-All pos s.words v.all_words;
  short = (grow-length pos s.words h v.short).1;
  highest =
      IsHighest-same s.words (grow pos s.words) s.highest_set (grow-bit_in pos s.words) v.highest;
}

-- The change is one of the vector before it grew, too.
IsChanged-grown :
    (p : ℕ) {pos : ℕ} {words after : List ℕ} {new : Bool}
    → IsChanged (grow p words) after pos new
    → IsChanged words after pos new
IsChanged-grown p {words} c = record {
  here = c.here;
  elsewhere = λ q ne. c.elsewhere q ne ∙ grow-bit_in p words q;
}

-- For a position that leaves room for a word below 2 ^ 64, `set` on a valid set succeeds; the result
-- is a valid set, whose cached position is the highest one, and has the bit `pos` beside those of `s`.
pub set_bit-Becomes :
    (pos : ℕ) (s : BitSet)
    → pos + 64 < 2 ^ 64
    → IsBitSet s
    → (t : BitSet) × (set_bit pos s ≡ some t) × Becomes s pos true t
unfolding set_bit grown
set_bit-Becomes pos s h v =
    let room = (grow-length pos s.words h v.short).0 in
    let (valid, c) = set_in-Updates (grown pos s) pos (grown-IsBitSet pos s h v) room in
    (
      set_in pos (word (grow pos s.words) (pos / 64)) (grow pos s.words) s.highest_set,
      rw (get_elem?-get_or 0 (grow pos s.words) (pos / 64) room, set_bit) refl,
      becomes s _ pos true valid (IsChanged-grown pos c),
    )

-- For a position that leaves room for a word below 2 ^ 64, `flip` on a valid set succeeds; the result
-- is a valid set in which the bit `pos` is the opposite, and every other bit is as it was.
pub flip_bit-Becomes :
    (pos : ℕ) (s : BitSet)
    → pos + 64 < 2 ^ 64
    → IsBitSet s
    → (t : BitSet) × (flip_bit pos s ≡ some t) × Becomes s pos (not (get_bit pos s)) t
unfolding flip_bit grown
flip_bit-Becomes pos s h v =
    let room = (grow-length pos s.words h v.short).0 in
    let (valid, c) = flip_in-Updates (grown pos s) pos (grown-IsBitSet pos s h v) room in
    let t = flip_in pos (word (grow pos s.words) (pos / 64)) (grow pos s.words) s.highest_set in
    (
      t,
      rw (get_elem?-get_or 0 (grow pos s.words) (pos / 64) room, flip_bit) refl,
      becomes s t pos (not (get_bit pos s)) valid (
          subst (λ b. IsChanged s.words t.words pos (not b))
            (grow-bit_in pos s.words pos ∙ sym (get_bit-bit_in pos s)) (IsChanged-grown pos c)),
    )

-- `clear` of any position of a valid set gives a valid set, whose cached position is again the
-- highest one, without the bit `pos` and with every other bit as it was.
pub clear_bit-Becomes : (pos : ℕ) (s : BitSet) → IsBitSet s → Becomes s pos false (clear_bit pos s)
unfolding clear_bit
clear_bit-Becomes pos s v = elim (below-cases (pos / 64) (length s.words)) [
  | inl inside ↦
      let u = clear_inside s pos v inside in
      rw (lt→leb_false (length s.words) (pos / 64) inside) (becomes s _ pos false u.0 u.1)
  | inr outside ↦ rw (at_end outside) (
      becomes s s pos false v
        (record { here = bit_in_out s.words pos (omega arith); elsewhere = λ q _. refl }))
]
  where
    at_end : length s.words ≤ pos / 64 → leb (length s.words) (pos / 64) ≡ true
    at_end outside = ground arith
