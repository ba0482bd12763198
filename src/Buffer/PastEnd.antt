-- ===== src/Buffer/PastEnd.antt =====
-- `read` without block recycling, for every length: what comes back past the last written byte.
use zinc.Common.{ℕ, zero, suc, ◌+◌, ◌-◌, ◌≤◌, ◌<◌, min, ◌≡◌, refl, ap, sym, ◌∙◌, arith}
use zinc.Common.{false, Option, none, some, List, [], ◌∷◌, ◌++◌, length, get_elem?, take, drop}
use zinc.Common.{concat, All, append-nil, inl, inr, Option-cases}
use zinc.Common.Slices.{drop-drop, drop_all}
use zinc.Buffer.{InternalByteBuffer, block_size, leave_block, read_loop, read, read_position}
use zinc.Buffer.Blocks.{IsBlock, slice_of_block, length-concat}
use zinc.Buffer.Reading.{pieces}
use mathlib.Core.Path.{subst}

get_elem?-none {ℓ} : {A : Type ℓ} (xs : List A) (k : ℕ) → get_elem? xs k ≡ none → length xs ≤ k
get_elem?-none [] k e = omega arith
get_elem?-none (x ∷ xs) zero e = cc
get_elem?-none (x ∷ xs) (suc k) e = omega (arith, get_elem?-none xs k e)

-- The bytes from the reader to the end of the last block, written or not.
abbrev pub ahead : InternalByteBuffer → List ℕ
ahead s = drop (read_position s) (concat s.blocks)

record IsKept (s : InternalByteBuffer) (c : ℕ) (after : InternalByteBuffer) : Type 0 where
  same_blocks : after.blocks ≡ s.blocks
  same_writer : (after.write_block ≡ s.write_block) × (after.write_offset ≡ s.write_offset)
  advanced : read_position after ≡ read_position s + c
  read_room : after.read_offset < block_size
  no_recycle : after.enable_block_recycle ≡ false

leave_block-IsKept :
    (s : InternalByteBuffer) (c : ℕ)
    → s.enable_block_recycle ≡ false
    → s.read_offset + c ≤ block_size
    → IsKept s c (leave_block (record s { read_offset = s.read_offset + c }))
unfolding leave_block
leave_block-IsKept s c off inside = ground arith

ahead-IsKept :
    {s after : InternalByteBuffer} (c : ℕ) → IsKept s c after → ahead after ≡ drop c (ahead s)
ahead-IsKept {s} {after} c k =
    ap (λ t. drop (read_position after) (concat t)) k.same_blocks
    ∙ (ap (λ n. drop n (concat s.blocks)) k.advanced
        ∙ sym (drop-drop c (read_position s) (concat s.blocks)))

-- The blocks end before the reader: there is nothing ahead.
ahead-none :
    (s : InternalByteBuffer)
    → All IsBlock s.blocks
    → get_elem? s.blocks s.read_block ≡ none
    → ahead s ≡ []
ahead-none s sizes missing =
    drop_all (read_position s) (concat s.blocks)
      (omega (arith, length-concat s.blocks sizes, get_elem?-none s.blocks s.read_block missing))

abbrev EndsWith : List ℕ → InternalByteBuffer → Option (List ℕ × InternalByteBuffer) → Type 0
EndsWith bytes s outcome =
    (after : InternalByteBuffer) × (outcome ≡ some (bytes, after))
    × (after.blocks ≡ s.blocks)
    × (after.write_block ≡ s.write_block)
    × (after.write_offset ≡ s.write_offset)

read_loop-ahead :
    (fuel n : ℕ) (result : List ℕ) (s : InternalByteBuffer)
    → All IsBlock s.blocks
    → s.read_offset < block_size
    → s.enable_block_recycle ≡ false
    → n ≤ fuel
    → EndsWith (result ++ take n (ahead s)) s (read_loop fuel n result s)
unfolding read_loop
read_loop-ahead fuel zero result s sizes room off h =
    (s, ap (λ t. some (t, s)) (sym (append-nil result)), refl, refl, refl)
read_loop-ahead zero (suc n) result s sizes room off h = absurd (omega arith)
read_loop-ahead (suc fuel) (suc n) result s sizes room off h =
    elim (Option-cases (get_elem? s.blocks s.read_block)) [
      | inl missing ↦ (
        s,
        rw (missing, read_loop)
            (ap (λ t. some (t, s))
              (sym (append-nil result)
                ∙ ap (λ t. result ++ take (suc n) t) (sym (ahead-none s sizes missing)))),
        refl,
        refl,
        refl,
      )
      | inr (block, found) ↦
          let c = min (suc n) (block_size - s.read_offset) in
          let k = leave_block-IsKept s c off (omega arith) in
          let taken = take c (drop s.read_offset block) in
          let (after, more, blocks, w, o) =
            read_loop-ahead fuel (suc n - c) (result ++ taken)
              (leave_block (record s { read_offset = s.read_offset + c }))
              (subst (All IsBlock) (sym k.same_blocks) sizes) k.read_room k.no_recycle
              (omega arith) in
          (
            after,
            rw (found, read_loop)
                (more
                  ∙ ap (λ t. some (t, after))
                      (pieces result (ahead s) _ taken c (suc n - c) (suc n)
                        (slice_of_block s.blocks s.read_block s.read_offset c block sizes found
                          (omega arith))
                        (ahead-IsKept c k) (omega arith))),
            blocks ∙ k.same_blocks,
            w ∙ k.same_writer.0,
            o ∙ k.same_writer.1,
          )
    ]

-- Without recycling a read of any length ends, and returns what the blocks hold from the reader on,
-- as many bytes as there are up to the end of the last block: the check for missing data compares
-- blocks, so the unwritten rest of the last block counts as data. What was written is kept.
pub read_past_end :
    (s : InternalByteBuffer) (n : ℕ)
    → All IsBlock s.blocks
    → s.read_offset < block_size
    → s.enable_block_recycle ≡ false
    → (after : InternalByteBuffer) × (read n s ≡ some (take n (ahead s), after))
      × (after.blocks ≡ s.blocks)
      × (after.write_block ≡ s.write_block)
      × (after.write_offset ≡ s.write_offset)
unfolding read
read_past_end s n sizes room off = read_loop-ahead n n [] s sizes room off (omega arith)
