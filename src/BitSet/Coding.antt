-- ===== src/BitSet/Coding.antt =====
-- `writeBitSet` and `readBitSet` of src/type/ByteBuffer.cpp, over `toLongArray` and `fromLongArray`.
use zinc.Common.{ℕ, ◌+◌, ◌/◌, ◌%◌, ◌≤◌, ◌≡◌, inl, inr, ap, sym, ◌∙◌, arith}
use zinc.Common.{Bool, ◌==◌, if-split, if-both, below-cases, List, [], ◌∷◌, length, All, take}
use zinc.Common.{length-take}
use zinc.Common.Indexing.{get_or-take, get_or_out, All-take}
use zinc.ByteBuffer.{ByteBuffer}
use zinc.ByteBuffer.Rules.{Codes, Reads-map, IsReady, unread, round_trip, Leaves}
use zinc.Numeric.{ulong, write_numeric, read_numeric}
use zinc.Numeric.RoundTrip.{numeric-Codes}
use zinc.Text.Strings.{IsLength}
use zinc.Arrays.Sequences.{prefixed_array-Codes}
use zinc.BitSet.{
  BitSet, npos, has_bit, get_bit, to_long_array, from_long_array, write_bit_set, read_bit_set,
}
use zinc.BitSet.Words.{has_bit-none}
use zinc.BitSet.Highest.{IsWord, bit_in}
use zinc.BitSet.Changes.{IsBitSet, get_bit-bit_in}
use zinc.BitSet.Operators.{from_long_array-IsBitSet}

-- No bit is lost with the words above the highest one.
taken-bit_in : (s : BitSet) → IsBitSet s → (q : ℕ) → bit_in (to_long_array s) q ≡ bit_in s.words q
unfolding to_long_array
taken-bit_in s v q = elim v.highest [
  | inl (e, unset) ↦
      if-split (λ t. bit_in t q ≡ bit_in s.words q) (s.highest_set == npos)
        (λ _. has_bit-none (q % 64) ∙ sym (unset q)) (λ no. absurd (ground (arith, e, no)))
  | inr (small, is_set, unset) ↦
      if-split (λ t. bit_in t q ≡ bit_in s.words q) (s.highest_set == npos)
        (λ yes. absurd (ground (arith, small, yes)))
        (λ _. elim (below-cases (q / 64) (s.highest_set / 64 + 1)) [
          | inl inside ↦
              ap (λ w. has_bit w (q % 64))
                (get_or-take 0 (s.highest_set / 64 + 1) s.words (q / 64) inside)
          | inr outside ↦
              ap (λ w. has_bit w (q % 64))
                (get_or_out 0 (take (s.highest_set / 64 + 1) s.words) (q / 64)
                  (omega (arith, length-take (s.highest_set / 64 + 1) s.words)))
              ∙ (has_bit-none (q % 64) ∙ sym (unset q (omega arith)))
        ])
]

taken :
    (s : BitSet)
    → IsBitSet s
    → All IsWord (to_long_array s) × (length (to_long_array s) ≤ length s.words)
unfolding to_long_array
taken s v =
    if-both (λ t. All IsWord t × (length t ≤ length s.words)) (s.highest_set == npos) {x = []}
      {y = take (s.highest_set / 64 + 1) s.words} (tt, omega arith)
      (
        All-take IsWord (s.highest_set / 64 + 1) s.words v.all_words,
        omega (arith, length-take (s.highest_set / 64 + 1) s.words),
      )

words-Codes :
    (e : Bool) (longs : List ℕ)
    → All IsWord longs
    → All (λ w. Codes e (write_numeric ulong) (read_numeric ulong) w) longs
words-Codes e [] h = tt
words-Codes e (w ∷ longs) (hw, hs) = (numeric-Codes ulong w hw, words-Codes e longs hs)

-- Into a valid buffer with nothing unread, `writeBitSet` and then `readBitSet` give back every valid
-- set of fewer than 2 ^ 31 words: a valid set with the same bits (zero words at the end are dropped),
-- and nothing stays unread.
pub read_bit_set-write_bit_set :
    (s : BitSet) (b : ByteBuffer)
    → IsBitSet s
    → IsLength (length s.words)
    → IsReady b
    → unread b ≡ []
    → (t : BitSet) × Leaves (write_bit_set s) read_bit_set t [] b
      × IsBitSet t
      × ((q : ℕ) → get_bit q t ≡ get_bit q s)
unfolding write_bit_set read_bit_set from_long_array
read_bit_set-write_bit_set s b v short ready none_left =
    let longs = to_long_array s in
    let (all, count) = taken s v in
    let c =
      prefixed_array-Codes (write_numeric ulong) (read_numeric ulong) {e = b.is_big_endian} longs
        (omega (arith, count, short)) (words-Codes b.is_big_endian longs all) in
    (
      from_long_array longs,
      round_trip {w = λ _. write_bit_set s} b ready none_left (record {
        bytes = c.bytes;
        writes = c.writes;
        reads = Reads-map from_long_array c.reads;
      }),
      from_long_array-IsBitSet longs all (omega (arith, count, v.short)),
      λ q.
          get_bit-bit_in q (from_long_array longs)
          ∙ (taken-bit_in s v q ∙ sym (get_bit-bit_in q s)),
    )
