-- ===== src/Buffer/Writing.antt =====
-- `write` appends to what the buffer holds, across block boundaries, and keeps the reader.
use zinc.Common.{ℕ, zero, suc, ◌+◌, ◌-◌, ◌*◌, ◌≤◌, ◌<◌, min, ◌≡◌, refl, ap, sym, ◌∙◌, arith}
use zinc.Common.{some, List, [], ◌∷◌, ◌++◌, length, get_elem?, set, take, drop, concat}
use zinc.Common.{
  All, All-append, length-append, length-set, length-take, length-drop, append-nil, append_assoc,
}
use zinc.Common.{inl, inr, Bool-cases, ==_iff, ◌==◌}
use zinc.Common.Slices.{take-append_le, take-append_ge, take-append_length, take-append-drop}
use zinc.Common.Slices.{concat-append, drop-append_le}
use mathlib.Core.Path.{subst}
use mathlib.Core.Bool.{true}
use zinc.Buffer.{InternalByteBuffer, block_size, new_block, overwrite, roll_over, write_piece}
use zinc.Buffer.{write_loop, write, write_position, read_position}
use zinc.Buffer.Blocks.{IsBlock, split_last, get_elem?-snoc, set-snoc, length-concat, All-snoc}
use zinc.Buffer.View.{IsValid, contents, unread, length-new_block, length-contents}

-- The outcome of a write: a valid buffer with `piece` appended and the reader where it was.
pub record IsAppended (s : InternalByteBuffer) (piece : List ℕ) (after : InternalByteBuffer)
    : Type 0 where
  pub valid : IsValid after
  pub appended : contents after ≡ contents s ++ piece
  pub same_reader : read_position after ≡ read_position s
  pub same_recycle : after.enable_block_recycle ≡ s.enable_block_recycle

-- The bytes before offset `o` of the block behind `full`.
take_position :
    (full : List (List ℕ)) (last : List ℕ) (w o : ℕ)
    → All IsBlock full
    → length full ≡ w
    → o ≤ length last
    → take (w * block_size + o) (concat (full ++ (last ∷ []))) ≡ concat full ++ take o last
take_position full last w o sizes n room = rw (concat-append full (last ∷ [])) (
    take-append_ge (w * block_size + o) (concat full) (last ++ []) (omega (arith, len))
    ∙ ap (λ t. concat full ++ t)
        (ap (λ k. take k (last ++ [])) (omega (arith, len)) ∙ take-append_le o last [] room))
  where
    len : length (concat full) ≡ w * block_size
    len = omega (arith, length-concat full sizes)

length-overwrite :
    (block piece : List ℕ) (o : ℕ)
    → IsBlock block
    → o + length piece ≤ block_size
    → IsBlock (overwrite block o piece)
length-overwrite block piece o size fits = omega (
  arith,
  length-append (take o block) (piece ++ drop (o + length piece) block),
  length-append piece (drop (o + length piece) block),
  length-take o block,
  length-drop (o + length piece) block,
)

take-overwrite :
    (block piece : List ℕ) (o : ℕ)
    → IsBlock block
    → o + length piece ≤ block_size
    → take (o + length piece) (overwrite block o piece) ≡ take o block ++ piece
take-overwrite block piece o size fits =
    ap (λ t. take (o + length piece) t) (sym (append_assoc (take o block) piece _))
    ∙ (ap (λ k. take k ((take o block ++ piece) ++ drop (o + length piece) block)) len
        ∙ take-append_length (take o block ++ piece) _)
  where
    len : o + length piece ≡ length (take o block ++ piece)
    len = omega (arith, length-append (take o block) piece, length-take o block)

module _ (s : InternalByteBuffer) (sizes : All IsBlock s.blocks)
    (count : length s.blocks ≡ s.write_block + 1) (room : s.write_offset ≤ block_size)
    (read_room : s.read_offset < block_size) (behind : read_position s ≤ write_position s) where
  roll_over-IsValid : IsValid (roll_over s)
  unfolding roll_over
  roll_over-IsValid = elim (Bool-cases (s.write_offset == block_size)) [
    | inl full ↦ rw full (record {
      sizes = All-append IsBlock s.blocks (new_block ∷ []) sizes (length-new_block, tt);
      count = omega (arith, length-append s.blocks (new_block ∷ []));
      write_room = omega arith;
      read_room = read_room;
      behind = omega (arith, (==_iff _ _).0 full);
    })
    | inr more ↦ rw more (record {
      sizes = sizes;
      count = count;
      write_room = ground arith;
      read_room = read_room;
      behind = behind;
    })
  ]

  contents-roll_over : contents (roll_over s) ≡ contents s
  unfolding roll_over
  contents-roll_over = elim (Bool-cases (s.write_offset == block_size)) [
    | inl full ↦ rw full (
        ap (λ k. take k (concat (s.blocks ++ (new_block ∷ [])))) (same full)
        ∙ rw (concat-append s.blocks (new_block ∷ [])) (
            take-append_le (write_position s) (concat s.blocks) (new_block ++ [])
              (omega (arith, length-concat s.blocks sizes))))
    | inr more ↦ rw more
  ]
    where
      same :
          (s.write_offset == block_size) ≡ true
          → (s.write_block + 1) * block_size + 0 ≡ write_position s
      same full = omega (arith, (==_iff _ _).0 full)

  roll_over_reader :
      (read_position (roll_over s) ≡ read_position s)
      × ((roll_over s).enable_block_recycle ≡ s.enable_block_recycle)
  unfolding roll_over
  roll_over_reader = ground arith

-- One round, where the piece fits the block `last` that is being written.
module _ (s : InternalByteBuffer) (piece : List ℕ) (v : IsValid s)
    (fits : s.write_offset + length piece ≤ block_size) (full : List (List ℕ)) (last : List ℕ)
    (parts : s.blocks ≡ full ++ (last ∷ [])) (before : length full ≡ s.write_block) where
  abbrev written : List ℕ
  written = overwrite last s.write_offset piece

  abbrev stored : InternalByteBuffer
  stored = record s {
    blocks = set s.blocks s.write_block written;
    write_offset = s.write_offset + length piece;
  }

  sizes_before : All IsBlock full × IsBlock last
  sizes_before = All-snoc full last (subst (All IsBlock) parts v.sizes)

  found : get_elem? s.blocks s.write_block ≡ some last
  found =
      ap (λ t. get_elem? t s.write_block) parts
      ∙ (ap (λ k. get_elem? (full ++ (last ∷ [])) k) (sym before) ∙ get_elem?-snoc full last)

  stored_blocks : stored.blocks ≡ full ++ (written ∷ [])
  stored_blocks =
      ap (λ t. set t s.write_block written) parts
      ∙ (ap (λ k. set (full ++ (last ∷ [])) k written) (sym before) ∙ set-snoc full last written)

  stored_sizes : All IsBlock stored.blocks
  stored_sizes = subst (All IsBlock) (sym stored_blocks) (
      All-append IsBlock full (written ∷ []) sizes_before.0
        (length-overwrite last piece s.write_offset sizes_before.1 fits, tt))

  stored_count : length stored.blocks ≡ s.write_block + 1
  stored_count = length-set s.blocks s.write_block written ∙ v.count

  stored_behind : read_position stored ≤ write_position stored
  stored_behind = omega (arith, v.behind)

  contents-stored : contents stored ≡ contents s ++ piece
  contents-stored =
      ap (λ t. take (write_position stored) (concat t)) stored_blocks
      ∙ (take_position full written s.write_block (s.write_offset + length piece) sizes_before.0
            before (omega (arith, length-overwrite last piece s.write_offset sizes_before.1 fits))
          ∙ (ap (λ t. concat full ++ t)
                (take-overwrite last piece s.write_offset sizes_before.1 fits)
              ∙ (sym (append_assoc (concat full) (take s.write_offset last) piece)
                  ∙ ap (λ t. t ++ piece) (sym before_piece))))
    where
      before_piece : contents s ≡ concat full ++ take s.write_offset last
      before_piece =
          ap (λ t. take (write_position s) (concat t)) parts
          ∙ take_position full last s.write_block s.write_offset sizes_before.0 before
              (omega (arith, sizes_before.1))

  write_piece_fits : write_piece piece s ≡ some (roll_over stored)
  unfolding write_piece
  write_piece_fits = rw (found, write_piece)

  roll_over-IsAppended : IsAppended s piece (roll_over stored)
  roll_over-IsAppended =
      let (reader, recycle) =
        roll_over_reader stored stored_sizes stored_count fits v.read_room stored_behind in
      record {
        valid = roll_over-IsValid stored stored_sizes stored_count fits v.read_room stored_behind;
        appended =
            contents-roll_over stored stored_sizes stored_count fits v.read_room stored_behind
            ∙ contents-stored;
        same_reader = reader;
        same_recycle = recycle;
      }

write_piece_lem :
    (s : InternalByteBuffer) (piece : List ℕ)
    → IsValid s
    → s.write_offset + length piece ≤ block_size
    → (after : InternalByteBuffer) × (write_piece piece s ≡ some after) × IsAppended s piece after
write_piece_lem s piece v fits =
    let (full, last, parts, before) = split_last s.blocks s.write_block v.count in
    (
      roll_over (stored s piece v fits full last parts before),
      write_piece_fits s piece v fits full last parts before,
      roll_over-IsAppended s piece v fits full last parts before,
    )

pub IsAppended-trans :
    {s t u : InternalByteBuffer} (xs ys : List ℕ)
    → IsAppended s xs t
    → IsAppended t ys u
    → IsAppended s (xs ++ ys) u
IsAppended-trans {s} xs ys p q = record {
  valid = q.valid;
  appended = q.appended ∙ (ap (λ t. t ++ ys) p.appended ∙ append_assoc (contents s) xs ys);
  same_reader = q.same_reader ∙ p.same_reader;
  same_recycle = q.same_recycle ∙ p.same_recycle;
}

-- The loop, with fuel for each byte that remains.
write_loop_lem :
    (fuel : ℕ) (bytes : List ℕ) (s : InternalByteBuffer)
    → IsValid s
    → length bytes ≤ fuel
    → (after : InternalByteBuffer) × (write_loop fuel bytes s ≡ some after)
      × IsAppended s bytes after
unfolding write_loop
write_loop_lem fuel [] s v h = (
  s,
  refl,
  record { valid = v; appended = sym (append-nil _); same_reader = refl; same_recycle = refl },
)
write_loop_lem zero (c ∷ rest) s v h = absurd (omega arith)
write_loop_lem (suc fuel) (c ∷ rest) s v h =
    let bytes = c ∷ rest in
    let n = min (length bytes) (block_size - s.write_offset) in
    let (mid, first, p) =
      write_piece_lem s (take n bytes) v (omega (arith, length-take n bytes, v.write_room)) in
    let (after, more, q) =
      write_loop_lem fuel (drop n bytes) mid p.valid
        (omega (arith, length-drop n bytes, v.write_room)) in
    (
      after,
      rw (first, write_loop) more,
      subst (λ t. IsAppended s t after) (take-append-drop n bytes)
          (IsAppended-trans (take n bytes) (drop n bytes) p q),
    )

-- On every valid buffer `write` ends, and appends the bytes to what was written before.
pub write-IsAppended :
    (s : InternalByteBuffer) (bytes : List ℕ)
    → IsValid s
    → (after : InternalByteBuffer) × (write bytes s ≡ some after) × IsAppended s bytes after
unfolding write
write-IsAppended s bytes v = write_loop_lem (length bytes) bytes s v (omega arith)

-- Seen as a queue: the bytes join what is still to be read.
pub unread-write :
    {s after : InternalByteBuffer} (bytes : List ℕ)
    → IsValid s
    → IsAppended s bytes after
    → unread after ≡ unread s ++ bytes
unread-write {s} {after} bytes v p =
    ap (λ t. drop (read_position after) t) p.appended
    ∙ (ap (λ k. drop k (contents s ++ bytes)) p.same_reader
        ∙ drop-append_le (read_position s) (contents s) bytes
            (omega (arith, length-contents s v, v.behind)))
