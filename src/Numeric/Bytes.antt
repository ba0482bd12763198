-- ===== src/Numeric/Bytes.antt =====
-- Memory and numbers.
use zinc.Common.{ℕ, zero, suc, ◌/◌, ◌^◌, ◌<◌, ◌≡◌, refl, ap, ◌∙◌, arith}
use zinc.Common.{List, [], ◌∷◌, reverse, length, Bool, true, false, length-append}
use zinc.Numeric.{to_memory, from_memory, in_order}
use native.Mathlib.Nat.{pow-suc}
use mathlib.Core.List.{reverse-reverse, reverse-append}

pub length-to_memory : (n v : ℕ) → length (to_memory n v) ≡ n
unfolding to_memory
length-to_memory zero v = refl
length-to_memory (suc n) v = ap suc (length-to_memory n (v / 256))

-- The memory of a value that fits holds the value.
pub from_memory-to_memory : (n v : ℕ) → v < 256 ^ n → from_memory (to_memory n v) ≡ v
unfolding from_memory to_memory
from_memory-to_memory zero v h = omega arith
from_memory-to_memory (suc n) v h =
    omega (arith, from_memory-to_memory n (v / 256) (omega (arith, pow-suc 256 n)))

pub length-reverse : (xs : List ℕ) → length (reverse xs) ≡ length xs
length-reverse [] = refl
length-reverse (x ∷ xs) =
    ap length (reverse-append (x ∷ []) xs)
    ∙ omega (arith, length-append (reverse xs) (x ∷ []), length-reverse xs)

pub length-in_order : (order : Bool) (xs : List ℕ) → length (in_order order xs) ≡ length xs
length-in_order true xs = length-reverse xs
length-in_order false xs = refl

pub in_order-in_order : (order : Bool) (xs : List ℕ) → in_order order (in_order order xs) ≡ xs
in_order-in_order true xs = reverse-reverse xs
in_order-in_order false xs = refl
