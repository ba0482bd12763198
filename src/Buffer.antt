-- ===== src/Buffer.antt =====
-- `ByteBuffer::InternalByteBuffer` of inc/type/ByteBuffer.h and src/type/ByteBuffer.cpp: a queue of
-- blocks of 4096 bytes with a write and a read cursor. A `char` is the number of its bit pattern.
-- `none` is what the code leaves undefined: an index past the deque, or a copy past a block.
pub mod Blocks
pub mod Writing
pub mod Reading
pub mod View
pub mod PastEnd
use zinc.Common.{ℕ, zero, suc, ◌+◌, ◌-◌, ◌*◌, ◌≤◌, ◌<◌, min, Bool, true, false, ◌&&◌, not}
use zinc.Common.{Option, none, some, List, [], ◌∷◌, ◌++◌, length, get_elem?, set, take, drop}
use zinc.Common.{replicate, ltb, leb, ◌==◌, if◌then◌else◌}

abbrev pub block_size : ℕ
block_size = 4096

-- `emplace_back(BLOCK_SIZE)`: the characters of a new block are zero.
unfoldable pub new_block : List ℕ
new_block = replicate block_size 0

pub record InternalByteBuffer : Type 0 where
  pub blocks : List (List ℕ)
  pub write_block : ℕ
  pub write_offset : ℕ
  pub read_block : ℕ
  pub read_offset : ℕ
  pub enable_block_recycle : Bool

unfoldable pub init : InternalByteBuffer
init = record {
  blocks = new_block ∷ [];
  write_block = 0;
  write_offset = 0;
  read_block = 0;
  read_offset = 0;
  enable_block_recycle = false;
}

-- The recycle flag is kept.
unfoldable pub clear : InternalByteBuffer → InternalByteBuffer
clear s = record s {
  blocks = new_block ∷ [];
  write_block = 0;
  write_offset = 0;
  read_block = 0;
  read_offset = 0;
}

-- `std::copy` of `piece` into a block at `offset`.
abbrev pub overwrite : List ℕ → ℕ → List ℕ → List ℕ
overwrite block offset piece = take offset block ++ (piece ++ drop (offset + length piece) block)

-- The end of a round of `write`: a full block is followed by a new one.
unfoldable pub roll_over : InternalByteBuffer → InternalByteBuffer
roll_over s =
    if s.write_offset == block_size
    then record s {
      write_block = s.write_block + 1;
      write_offset = 0;
      blocks = s.blocks ++ (new_block ∷ []);
    }
    else s

-- One round of the loop of `write` over the bytes that remain.
unfoldable pub write_piece : List ℕ → InternalByteBuffer → Option InternalByteBuffer
write_piece piece s = elim (get_elem? s.blocks s.write_block) [
  | none ↦ none
  | some block ↦ some (
      roll_over (record s {
        blocks = set s.blocks s.write_block (overwrite block s.write_offset piece);
        write_offset = s.write_offset + length piece;
      }))
]

-- `while (remaining)` with fuel, one unit for a round.
unfoldable pub write_loop : ℕ → List ℕ → InternalByteBuffer → Option InternalByteBuffer
write_loop fuel [] s = some s
write_loop zero (c ∷ rest) s = none
write_loop (suc fuel) (c ∷ rest) s =
    let to_copy = min (length (c ∷ rest)) (block_size - s.write_offset) in
    elim (write_piece (take to_copy (c ∷ rest)) s) [
      | none ↦ none
      | some s' ↦ write_loop fuel (drop to_copy (c ∷ rest)) s'
    ]

-- Each round copies a byte at least, so the length of the input is enough fuel.
unfoldable pub write : List ℕ → InternalByteBuffer → Option InternalByteBuffer
write bytes s = write_loop (length bytes) bytes s

-- The end of a round of `read`: a block that is read to its end is left, and dropped from the
-- front of the deque if blocks are recycled.
unfoldable pub leave_block : InternalByteBuffer → InternalByteBuffer
leave_block s =
    if s.read_offset == block_size
    then if s.enable_block_recycle
      then record s {
        read_offset = 0;
        write_block = if s.write_block == 0 then 0 else s.write_block - 1;
        blocks = drop 1 s.blocks;
      }
      else record s { read_block = s.read_block + 1; read_offset = 0 }
    else s

-- `while (remaining)` with fuel. A read past the last block ends with the bytes that it has.
unfoldable pub read_loop :
    ℕ → ℕ → List ℕ → InternalByteBuffer → Option (List ℕ × InternalByteBuffer)
read_loop fuel zero result s = some (result, s)
read_loop zero (suc n) result s = none
read_loop (suc fuel) (suc n) result s = elim (get_elem? s.blocks s.read_block) [
  | none ↦ some (result, s)
  | some block ↦
      let to_copy = min (suc n) (block_size - s.read_offset) in
      read_loop fuel (suc n - to_copy) (result ++ take to_copy (drop s.read_offset block))
        (leave_block (record s { read_offset = s.read_offset + to_copy }))
]

unfoldable pub read : ℕ → InternalByteBuffer → Option (List ℕ × InternalByteBuffer)
read n s = read_loop n n [] s

-- The loop of `getBytes`: whole blocks before the write cursor, and the written part of its block.
unfoldable pub bytes_from : ℕ → List (List ℕ) → InternalByteBuffer → List ℕ
bytes_from i [] s = []
bytes_from i (block ∷ rest) s =
    let more = bytes_from (i + 1) rest s in
    if ltb i s.write_block
    then block ++ more
    else if i == s.write_block
    then take s.write_offset block
    else []

unfoldable pub get_bytes : InternalByteBuffer → List ℕ
get_bytes s = bytes_from 0 s.blocks s

unfoldable pub get_reader : InternalByteBuffer → ℕ × ℕ
get_reader s = (s.read_block, s.read_offset)

unfoldable pub get_writer : InternalByteBuffer → ℕ × ℕ
get_writer s = (s.write_block, s.write_offset)

unfoldable pub set_reader : ℕ × ℕ → InternalByteBuffer → InternalByteBuffer
set_reader (block, offset) s = record s { read_block = block; read_offset = offset }

unfoldable pub set_writer : ℕ × ℕ → InternalByteBuffer → InternalByteBuffer
set_writer writer s = record s { write_block = writer.0; write_offset = writer.1 }

unfoldable pub toggle_block_recycle : Bool → InternalByteBuffer → InternalByteBuffer
toggle_block_recycle state s = record s { enable_block_recycle = state }

-- Positions as `ByteBuffer::size` and `ByteBuffer::getReaderPointer` compute them.
abbrev pub write_position : InternalByteBuffer → ℕ
write_position s = s.write_block * block_size + s.write_offset

abbrev pub read_position : InternalByteBuffer → ℕ
read_position s = s.read_block * block_size + s.read_offset
