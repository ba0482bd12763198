-- ===== src/Buffer/View.antt =====
-- The buffer as a queue of bytes: what was written, what is still to be read, and the invariant.
use zinc.Common.{ℕ, ◌+◌, ◌-◌, ◌*◌, ◌≤◌, ◌<◌, ◌≡◌, refl, ap, sym, ◌∙◌, arith}
use zinc.Common.{List, [], ◌∷◌, ◌++◌, length, take, drop, concat, All, length-replicate}
use zinc.Common.{length-take, lt→ltb, le→ltb_false, ==_self}
use native.Mathlib.Decide.{dec_lt}
use zinc.Common.Slices.{take-append_le, take-append_ge, take_all}
use zinc.Buffer.{InternalByteBuffer, block_size, new_block, init, clear, write_position}
use zinc.Buffer.{read_position, bytes_from, get_bytes}
use zinc.Buffer.Blocks.{IsBlock, length-concat}

pub length-new_block : length new_block ≡ block_size
unfolding new_block
length-new_block = length-replicate {A = ℕ} block_size 0

-- Blocks have their size, the last one is being written, and the reader is not ahead.
pub record IsValid (s : InternalByteBuffer) : Type 0 where
  pub sizes : All IsBlock s.blocks
  pub count : length s.blocks ≡ s.write_block + 1
  pub write_room : s.write_offset < block_size
  pub read_room : s.read_offset < block_size
  pub behind : read_position s ≤ write_position s

abbrev pub contents : InternalByteBuffer → List ℕ
contents s = take (write_position s) (concat s.blocks)

abbrev pub unread : InternalByteBuffer → List ℕ
unread s = drop (read_position s) (contents s)

pub init-IsValid : IsValid init
unfolding init
init-IsValid = record {
  sizes = (length-new_block, tt);
  count = refl;
  write_room = omega arith;
  read_room = omega arith;
  behind = omega arith;
}

pub clear-IsValid : (s : InternalByteBuffer) → IsValid (clear s)
unfolding clear
clear-IsValid s = record {
  sizes = (length-new_block, tt);
  count = refl;
  write_room = omega arith;
  read_room = omega arith;
  behind = omega arith;
}

pub unread-init : unread init ≡ []
unfolding init
unread-init = refl

pub unread-clear : (s : InternalByteBuffer) → unread (clear s) ≡ []
unfolding clear
unread-clear s = refl

pub length-contents : (s : InternalByteBuffer) → IsValid s → length (contents s) ≡ write_position s
length-contents s v = omega (
  arith,
  length-take (write_position s) (concat s.blocks),
  length-concat s.blocks v.sizes,
  v.count,
  v.write_room,
)

-- The loop of `getBytes` from block `i` on, with `rest` the blocks from there.
bytes_from_lem :
    (s : InternalByteBuffer) (rest : List (List ℕ)) (i : ℕ)
    → All IsBlock rest
    → s.write_offset < block_size
    → i + length rest ≡ s.write_block + 1
    → bytes_from i rest s ≡ take ((s.write_block - i) * block_size + s.write_offset) (concat rest)
unfolding bytes_from
bytes_from_lem s [] i sizes room e = sym (take_all _ [] (omega arith))
bytes_from_lem s (b ∷ rest) i (hb, sizes) room e = elim (dec_lt i s.write_block) [
  | yes p ↦ rw (lt→ltb _ _ p) (
      ap (λ t. b ++ t) (bytes_from_lem s rest (i + 1) sizes room (omega arith))
      ∙ sym (
          take-append_ge _ b (concat rest) (omega arith)
          ∙ ap (λ k. b ++ take k (concat rest)) (omega arith)))
  | no p ↦
      let here : i ≡ s.write_block = omega arith in
      rw (le→ltb_false i s.write_block (omega arith), here, ==_self s.write_block)
        (sym (take-append_le s.write_offset b (concat rest) (omega arith))
          ∙ ap (λ k. take k (b ++ concat rest)) (omega arith))
]

-- `getBytes` returns what was written.
pub get_bytes-contents : (s : InternalByteBuffer) → IsValid s → get_bytes s ≡ contents s
unfolding get_bytes
get_bytes-contents s v =
    bytes_from_lem s s.blocks 0 v.sizes v.write_room (omega (arith, v.count))
    ∙ ap (λ k. take (k * block_size + s.write_offset) (concat s.blocks)) (omega arith)
