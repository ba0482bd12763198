-- ===== src/Common/Ordered.antt =====
-- Maps with numbers as keys, in the order of the keys, and how many of their values pass a test.
use zinc.Common.{
  ℕ, ◌+◌, ◌<◌, ◌≤◌, ◌≡◌, refl, arith, Bool, Option, none, some, List, [], ◌∷◌, if◌then◌else◌,
  ==_iff,
}
use zinc.Common.Maps.{number_key, find, put, erase}

abbrev pub bit : Bool → ℕ
bit q = if q then 1 else 0

module _ {ℓ} {V : Type ℓ} where
  -- All keys are above a number.
  abbrev pub IsAbove : ℕ → List (ℕ × V) → Type 0
  IsAbove j [] = Unit
  IsAbove j ((i, w) ∷ m) = (j < i) × IsAbove j m

  abbrev pub IsOrdered : List (ℕ × V) → Type 0
  IsOrdered [] = Unit
  IsOrdered ((j, w) ∷ m) = IsAbove j m × IsOrdered m

  abbrev pub tally : (V → Bool) → List (ℕ × V) → ℕ
  tally p [] = 0
  tally p ((j, w) ∷ m) = bit (p w) + tally p m

  -- What the value of a key, if any, counts.
  abbrev pub counted : (V → Bool) → Option V → ℕ
  counted p none = 0
  counted p (some w) = bit (p w)

  IsAbove-lower : (i j : ℕ) (m : List (ℕ × V)) → i ≤ j → IsAbove j m → IsAbove i m
  IsAbove-lower i j [] h a = tt
  IsAbove-lower i j ((k, w) ∷ m) h (a, others) = (omega arith, IsAbove-lower i j m h others)

  IsAbove-put : (j k : ℕ) (v : V) (m : List (ℕ × V)) → j < k → IsAbove j m → IsAbove j (put k v m)
  unfolding put
  IsAbove-put j k v [] h a = (h, tt)
  IsAbove-put j k v ((i, w) ∷ m) h (a, others) = ground (arith, IsAbove-put j k v m h others)

  IsAbove-erase : (j k : ℕ) (m : List (ℕ × V)) → IsAbove j m → IsAbove j (erase k m)
  unfolding erase
  IsAbove-erase j k [] a = tt
  IsAbove-erase j k ((i, w) ∷ m) (a, others) = ground (arith, IsAbove-erase j k m others)

  pub IsOrdered-put : (k : ℕ) (v : V) (m : List (ℕ × V)) → IsOrdered m → IsOrdered (put k v m)
  unfolding put
  IsOrdered-put k v [] o = (tt, tt)
  IsOrdered-put k v ((i, w) ∷ m) (a, o) =
      ground (arith, ==_iff i k, IsOrdered-put k v m o, IsAbove-put i k v m, IsAbove-lower k i m)

  pub IsOrdered-erase : (k : ℕ) (m : List (ℕ × V)) → IsOrdered m → IsOrdered (erase k m)
  unfolding erase
  IsOrdered-erase k [] o = tt
  IsOrdered-erase k ((i, w) ∷ m) (a, o) =
      ground (arith, IsOrdered-erase k m o, IsAbove-erase i k m a)

  find_above : (k : ℕ) (m : List (ℕ × V)) → IsAbove k m → find k m ≡ none
  unfolding find
  find_above k [] a = refl
  find_above k ((i, w) ∷ m) (a, others) = ground (arith, ==_iff i k, find_above k m others)

  erase_above : (k : ℕ) (m : List (ℕ × V)) → IsAbove k m → erase k m ≡ m
  unfolding erase
  erase_above k [] a = refl
  erase_above k ((i, w) ∷ m) (a, others) = ground (arith, ==_iff i k, erase_above k m others)

  pub tally-put :
      (p : V → Bool) (k : ℕ) (v : V) (m : List (ℕ × V))
      → IsOrdered m
      → tally p (put k v m) + counted p (find k m) ≡ tally p m + bit (p v)
  unfolding put find
  tally-put p k v [] o = omega arith
  tally-put p k v ((i, w) ∷ m) (a, o) =
      ground (arith, ==_iff i k, tally-put p k v m o, find_above k m, IsAbove-lower k i m)

  pub tally-erase :
      (p : V → Bool) (k : ℕ) (m : List (ℕ × V))
      → IsOrdered m
      → tally p (erase k m) + counted p (find k m) ≡ tally p m
  unfolding erase find
  tally-erase p k [] o = refl
  tally-erase p k ((i, w) ∷ m) (a, o) =
      ground (arith, ==_iff i k, tally-erase p k m o, erase_above k m)
