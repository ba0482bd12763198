-- ===== src/Buffer/Blocks.antt =====
-- Lists of blocks of one size, seen as one list of bytes.
use zinc.Common.{ℕ, zero, suc, ◌+◌, ◌-◌, ◌*◌, ◌≤◌, ◌≡◌, refl, ap, sym, ◌∙◌, arith}
use zinc.Common.{some, List, [], ◌∷◌, ◌++◌, length, get_elem?, set, take, drop}
use zinc.Common.{concat, All, length-append, length-drop}
use zinc.Common.Slices.{take-append_le, drop-append_le, drop-append_ge}
use zinc.Buffer.{block_size}

abbrev pub IsBlock : List ℕ → Type 0
IsBlock block = length block ≡ block_size

-- The last block apart from those before it.
pub split_last :
    (bs : List (List ℕ)) (k : ℕ)
    → length bs ≡ k + 1
    → (full : List (List ℕ)) × (last : List ℕ) × (bs ≡ full ++ (last ∷ [])) × (length full ≡ k)
split_last [] k h = absurd (omega arith)
split_last (b ∷ []) k h = ([], b, refl, omega arith)
split_last (b ∷ c ∷ bs) zero h = absurd (omega arith)
split_last (b ∷ c ∷ bs) (suc k) h =
    let (full, last, e, n) = split_last (c ∷ bs) k (omega arith) in
    (b ∷ full, last, ap (λ t. b ∷ t) e, ap suc n)

pub get_elem?-snoc :
    (full : List (List ℕ)) (last : List ℕ)
    → get_elem? (full ++ (last ∷ [])) (length full) ≡ some last
get_elem?-snoc [] last = refl
get_elem?-snoc (b ∷ full) last = get_elem?-snoc full last

pub set-snoc :
    (full : List (List ℕ)) (last new : List ℕ)
    → set (full ++ (last ∷ [])) (length full) new ≡ full ++ (new ∷ [])
set-snoc [] last new = refl
set-snoc (b ∷ full) last new = ap (λ t. b ∷ t) (set-snoc full last new)

pub length-concat :
    (bs : List (List ℕ)) → All IsBlock bs → length (concat bs) ≡ length bs * block_size
length-concat [] h = refl
length-concat (b ∷ bs) (hb, hbs) = omega (arith, length-append b (concat bs), length-concat bs hbs)

pub All-snoc :
    (full : List (List ℕ)) (last : List ℕ)
    → All IsBlock (full ++ (last ∷ []))
    → All IsBlock full × IsBlock last
All-snoc [] last (h, _) = (tt, h)
All-snoc (b ∷ full) last (h, hs) = let (p, q) = All-snoc full last hs in ((h, p), q)

-- A range of the first part of a list.
slice-append :
    (c o : ℕ) (xs ys : List ℕ) → o + c ≤ length xs → take c (drop o (xs ++ ys)) ≡ take c (drop o xs)
slice-append c o xs ys h =
    ap (λ t. take c t) (drop-append_le o xs ys (omega arith))
    ∙ take-append_le c (drop o xs) ys (omega (arith, length-drop o xs))

-- A range inside block `k` is that range of the joined blocks.
pub slice_of_block :
    (bs : List (List ℕ)) (k o c : ℕ) (block : List ℕ)
    → All IsBlock bs
    → get_elem? bs k ≡ some block
    → o + c ≤ block_size
    → take c (drop o block) ≡ take c (drop (k * block_size + o) (concat bs))
slice_of_block [] k o c block h e fits = cc
slice_of_block (b ∷ bs) zero o c block (h, hs) e fits =
    ap (λ t. take c (drop o t)) same
    ∙ (sym (slice-append c o b (concat bs) (omega arith))
        ∙ ap (λ n. take c (drop n (b ++ concat bs))) here)
  where
    same : block ≡ b
    same = cc

    here : o ≡ 0 * block_size + o
    here = omega arith
slice_of_block (b ∷ bs) (suc k) o c block (h, hs) e fits =
    slice_of_block bs k o c block hs e fits
    ∙ ap (λ t. take c t)
        (sym (
          drop-append_ge (suc k * block_size + o) b (concat bs) (omega arith)
          ∙ ap (λ n. drop n (concat bs)) past))
  where
    past : suc k * block_size + o - length b ≡ k * block_size + o
    past = omega arith
