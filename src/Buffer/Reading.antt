-- ===== src/Buffer/Reading.antt =====
-- `read` takes bytes from the front of what is unread, across block boundaries, and with block
-- recycling forgets what was read.
use zinc.Common.{ℕ, zero, suc, ◌+◌, ◌-◌, ◌≤◌, ◌<◌, min, ◌≡◌, ◌≢◌, refl, ap, sym, ◌∙◌, arith}
use zinc.Common.{true, false, some, List, [], ◌∷◌, ◌++◌, length, get_elem?, take, drop, concat}
use zinc.Common.{All, length-drop, append-nil, append_assoc}
use zinc.Common.{inl, inr, Bool-cases, ==_iff, ==_ne, ◌==◌, if◌then◌else◌}
use zinc.Common.Slices.{take-append_ge, drop-append_ge, drop-drop, take_add, take-drop-take}
use zinc.Buffer.{InternalByteBuffer, block_size, leave_block, read_loop, read}
use zinc.Buffer.{write_position, read_position}
use zinc.Buffer.Blocks.{IsBlock, slice_of_block}
use zinc.Buffer.View.{IsValid, contents, unread, length-contents}
use mathlib.Core.Path.{subst}

-- The outcome of a read of `n` bytes: a valid buffer without the first `n` unread bytes.
pub record IsConsumed (s : InternalByteBuffer) (n : ℕ) (after : InternalByteBuffer) : Type 0 where
  pub valid : IsValid after
  pub rest : unread after ≡ drop n (unread s)
  pub same_recycle : after.enable_block_recycle ≡ s.enable_block_recycle

get_elem?-lt {ℓ} :
    {A : Type ℓ} (xs : List A) (k : ℕ) → k < length xs → (x : A) × (get_elem? xs k ≡ some x)
get_elem?-lt [] k h = absurd (omega arith)
get_elem?-lt (x ∷ xs) zero h = (x, refl)
get_elem?-lt (x ∷ xs) (suc k) h = get_elem?-lt xs k (omega arith)

-- The reader moves on by `c` bytes that were written, inside its block.
module _ (s : InternalByteBuffer) (c : ℕ) (v : IsValid s) (inside : s.read_offset + c ≤ block_size)
    (written : read_position s + c ≤ write_position s) where
  abbrev moved : InternalByteBuffer
  moved = record s { read_offset = s.read_offset + c }

  drop_moved : drop (read_position s + c) (contents s) ≡ drop c (unread s)
  drop_moved = sym (drop-drop c (read_position s) (contents s))

  -- The block is read to its end and stays in the deque.
  abbrev next_block : InternalByteBuffer
  next_block = record moved { read_block = s.read_block + 1; read_offset = 0 }

  next_block-IsConsumed : s.read_offset + c ≡ block_size → IsConsumed s c next_block
  next_block-IsConsumed full = record {
    valid = record {
      sizes = v.sizes;
      count = v.count;
      write_room = v.write_room;
      read_room = omega arith;
      behind = omega arith;
    };
    rest = ap (λ k. drop k (contents s)) (omega arith) ∙ drop_moved;
    same_recycle = refl;
  }

  -- Recycling drops the first block from the deque and from the write cursor.
  abbrev recycled : InternalByteBuffer
  recycled = record moved {
    read_offset = 0;
    write_block = if s.write_block == 0 then 0 else s.write_block - 1;
    blocks = drop 1 s.blocks;
  }

  recycled_writer :
      s.read_offset + c ≡ block_size
      → (s.write_block ≡ suc (s.write_block - 1)) × (recycled.write_block ≡ s.write_block - 1)
  recycled_writer full =
      let positive : s.write_block ≢ 0 = omega (arith, v.write_room) in
      (
        omega (arith, positive),
        ap (λ t. if t then 0 else s.write_block - 1) (==_ne s.write_block 0 positive),
      )

  module _ (b : List ℕ) (bs : List (List ℕ)) (parts : s.blocks ≡ b ∷ bs) where
    sizes : IsBlock b × All IsBlock bs
    sizes = subst (All IsBlock) parts v.sizes

    tail_blocks : recycled.blocks ≡ bs
    tail_blocks = ap (λ t. drop 1 t) parts

    contents-recycled :
        s.read_offset + c ≡ block_size → drop block_size (contents s) ≡ contents recycled
    contents-recycled full =
        ap (λ t. drop block_size (take (write_position s) (concat t))) parts
        ∙ (ap (λ t. drop block_size t)
              (take-append_ge (write_position s) b (concat bs) (omega (arith, sizes.0, writer)))
            ∙ (drop-append_ge block_size b _ (omega (arith, sizes.0))
                ∙ (ap (λ k. drop k (take (write_position s - length b) (concat bs))) same_block
                    ∙ (ap (λ k. take k (concat bs)) (omega (arith, sizes.0, writer))
                        ∙ ap (λ t. take (write_position recycled) (concat t)) (sym tail_blocks)))))
      where
        writer :
            (s.write_block ≡ suc (s.write_block - 1)) × (recycled.write_block ≡ s.write_block - 1)
        writer = recycled_writer full

        same_block : block_size - length b ≡ 0
        same_block = omega (arith, sizes.0)

    recycled-IsConsumed : s.read_offset + c ≡ block_size → IsConsumed s c recycled
    recycled-IsConsumed full =
        let (positive, writer) = recycled_writer full in
        record {
          valid = record {
            sizes = subst (All IsBlock) (sym tail_blocks) sizes.1;
            count = ap length tail_blocks ∙ omega (arith, ap length parts, v.count);
            write_room = v.write_room;
            read_room = omega arith;
            behind = omega arith;
          };
          rest =
              ap (λ t. drop (read_position recycled) t) (sym (contents-recycled full))
              ∙ (drop-drop (read_position recycled) block_size (contents s)
                  ∙ (ap (λ k. drop k (contents s)) (omega arith) ∙ drop_moved));
          same_recycle = refl;
        }

    pub leave_block-IsConsumed : IsConsumed s c (leave_block moved)
    unfolding leave_block
    leave_block-IsConsumed = elim (Bool-cases (s.read_offset + c == block_size)) [
      | inl full ↦
          let eq = (==_iff (s.read_offset + c) block_size).0 full in
          elim (Bool-cases s.enable_block_recycle) [
            | inl on ↦
                subst (IsConsumed s c)
                  (sym (left full ∙ ap (λ t. if t then recycled else next_block) on))
                  (recycled-IsConsumed eq)
            | inr off ↦
                subst (IsConsumed s c)
                  (sym (left full ∙ ap (λ t. if t then recycled else next_block) off))
                  (next_block-IsConsumed eq)
          ]
      | inr more ↦ subst (IsConsumed s c) (sym (stays more)) (record {
        valid = record {
          sizes = v.sizes;
          count = v.count;
          write_room = v.write_room;
          read_room = ground arith;
          behind = omega arith;
        };
        rest = ap (λ k. drop k (contents s)) (omega arith) ∙ drop_moved;
        same_recycle = refl;
      })
    ]
      where
        left :
            (s.read_offset + c == block_size) ≡ true
            → leave_block moved ≡ (if s.enable_block_recycle then recycled else next_block)
        left full =
            ap (λ t. if t then (if s.enable_block_recycle then recycled else next_block) else moved)
              full

        stays : (s.read_offset + c == block_size) ≡ false → leave_block moved ≡ moved
        stays more =
            ap (λ t. if t then (if s.enable_block_recycle then recycled else next_block) else moved)
              more

blocks_nonempty :
    (bs : List (List ℕ)) → 0 < length bs → (b : List ℕ) × (rest : List (List ℕ)) × (bs ≡ b ∷ rest)
blocks_nonempty [] h = absurd (omega arith)
blocks_nonempty (b ∷ bs) h = (b, bs, refl)

IsConsumed-trans :
    {s t u : InternalByteBuffer} (m n : ℕ)
    → IsConsumed s m t
    → IsConsumed t n u
    → IsConsumed s (m + n) u
IsConsumed-trans {s} m n p q = record {
  valid = q.valid;
  rest = q.rest ∙ (ap (λ t. drop n t) p.rest ∙ drop-drop n m (unread s));
  same_recycle = q.same_recycle ∙ p.same_recycle;
}

-- One round: `c` bytes that are unread, from one block.
module _ (s : InternalByteBuffer) (c : ℕ) (v : IsValid s) (inside : s.read_offset + c ≤ block_size)
    (enough : c ≤ length (unread s)) where
  written : read_position s + c ≤ write_position s
  written = omega (arith, length-drop (read_position s) (contents s), length-contents s v, v.behind)

  current : (block : List ℕ) × (get_elem? s.blocks s.read_block ≡ some block)
  current = get_elem?-lt s.blocks s.read_block (omega (arith, v.count, v.behind, v.write_room))

  piece : take c (drop s.read_offset current.0) ≡ take c (unread s)
  piece =
      slice_of_block s.blocks s.read_block s.read_offset c current.0 v.sizes current.1 inside
      ∙ sym (take-drop-take c (read_position s) (write_position s) (concat s.blocks) written)

  round : IsConsumed s c (leave_block (record s { read_offset = s.read_offset + c }))
  round =
      let (b, bs, parts) = blocks_nonempty s.blocks (omega (arith, v.count)) in
      leave_block-IsConsumed s c v inside written b bs parts

-- What a round has taken, followed by what the later rounds take.
pub pieces :
    (result u u' taken : List ℕ) (c m n : ℕ)
    → taken ≡ take c u
    → u' ≡ drop c u
    → c + m ≡ n
    → (result ++ taken) ++ take m u' ≡ result ++ take n u
pieces result u u' taken c m n p q e =
    append_assoc result taken (take m u')
    ∙ ap (λ t. result ++ t)
        (ap (λ t. t ++ take m u') p
          ∙ (ap (λ t. take c u ++ take m t) q ∙ (sym (take_add c m u) ∙ ap (λ k. take k u) e)))

-- The loop, with fuel for each byte that remains.
read_loop_lem :
    (fuel n : ℕ) (result : List ℕ) (s : InternalByteBuffer)
    → IsValid s
    → n ≤ length (unread s)
    → n ≤ fuel
    → (after : InternalByteBuffer) × (read_loop fuel n result s
        ≡ some (result ++ take n (unread s), after))
      × IsConsumed s n after
unfolding read_loop
read_loop_lem fuel zero result s v enough h = (
  s,
  ap (λ t. some (t, s)) (sym (append-nil result)),
  record { valid = v; rest = refl; same_recycle = refl },
)
read_loop_lem zero (suc n) result s v enough h = absurd (omega arith)
read_loop_lem (suc fuel) (suc n) result s v enough h =
    let c = min (suc n) (block_size - s.read_offset) in
    let inside : s.read_offset + c ≤ block_size = omega (arith, v.read_room) in
    let some_unread : c ≤ length (unread s) = omega arith in
    let p = round s c v inside some_unread in
    let taken = take c (drop s.read_offset (current s c v inside some_unread).0) in
    let (after, more, q) =
      read_loop_lem fuel (suc n - c) (result ++ taken) _ p.valid
        (omega (arith, ap length p.rest, length-drop c (unread s))) (omega (arith, v.read_room)) in
    let sum : c + (suc n - c) ≡ suc n = omega arith in
    (
      after,
      rw ((current s c v inside some_unread).1, read_loop)
          (more
            ∙ ap (λ t. some (t, after))
                (pieces result (unread s) _ taken c (suc n - c) (suc n)
                  (piece s c v inside some_unread) p.rest sum)),
      subst (λ k. IsConsumed s k after) sum (IsConsumed-trans c (suc n - c) p q),
    )

-- On every valid buffer a read of no more bytes than are unread ends, returns the oldest of them in
-- order, and takes just these away, with and without recycling.
pub read-IsConsumed :
    (s : InternalByteBuffer) (n : ℕ)
    → IsValid s
    → n ≤ length (unread s)
    → (after : InternalByteBuffer) × (read n s ≡ some (take n (unread s), after))
      × IsConsumed s n after
unfolding read
read-IsConsumed s n v enough = read_loop_lem n n [] s v enough (omega arith)
