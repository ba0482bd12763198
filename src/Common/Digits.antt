-- ===== src/Common/Digits.antt =====
-- The binary digits of a word, and what `&`, `|` and `^` do to one of them.
use zinc.Common.{ℕ, zero, suc, ◌+◌, ◌*◌, ◌/◌, ◌%◌, ◌^◌, ◌<◌, min, max, ◌≡◌, ◌≢◌, refl, ap, ap₂}
use zinc.Common.{sym, ◌∙◌, arith, bit_and, bit_or, bit_xor}
use zinc.Common.Bits.{and_halves, or_halves, xor_halves, bit_and_zero, double_pow}
use Prim.Native.Nat.{differ}
use native.Mathlib.Nat.{pow-suc, div-div-eq-div-mul}

abbrev pub digit : ℕ → ℕ → ℕ
digit k x = x / 2 ^ k % 2

div_halves : (k x : ℕ) → x / 2 ^ suc k ≡ x / 2 / 2 ^ k
div_halves k x = ap (λ t. x / t) twice ∙ sym (div-div-eq-div-mul x 2 (2 ^ k))
  where
    twice : 2 ^ suc k ≡ 2 * 2 ^ k
    twice = omega (arith, pow-suc 2 k)

pub digit-suc : (k x : ℕ) → digit (suc k) x ≡ digit k (x / 2)
digit-suc k x = ap (λ t. t % 2) (div_halves k x)

pub digit-zero : (x : ℕ) → digit 0 x ≡ x % 2
digit-zero x = omega arith

-- An operation on words that works digit by digit.
module _ (f g : ℕ → ℕ → ℕ) (halves : (x y : ℕ) → f x y ≡ f (x / 2) (y / 2) * 2 + g (x % 2) (y % 2))
    (small : (x y : ℕ) → g (x % 2) (y % 2) < 2) where
  digit_by_digit : (k x y : ℕ) → digit k (f x y) ≡ g (digit k x) (digit k y)
  digit_by_digit zero x y =
      digit-zero (f x y) ∙ (last ∙ ap₂ g (sym (digit-zero x)) (sym (digit-zero y)))
    where
      last : f x y % 2 ≡ g (x % 2) (y % 2)
      last = omega (arith, halves x y, small x y)
  digit_by_digit (suc k) x y =
      digit-suc k (f x y)
      ∙ (ap (digit k) half
          ∙ (digit_by_digit k (x / 2) (y / 2) ∙ ap₂ g (sym (digit-suc k x)) (sym (digit-suc k y))))
    where
      half : f x y / 2 ≡ f (x / 2) (y / 2)
      half = omega (arith, halves x y, small x y)

  -- The result has no more digits than the operands.
  no_longer : (k x y : ℕ) → x < 2 ^ k → y < 2 ^ k → f 0 0 ≡ 0 → f x y < 2 ^ k
  no_longer zero x y hx hy base = omega (arith, ap₂ f no_x no_y ∙ base)
    where
      no_x : x ≡ 0
      no_x = omega arith

      no_y : y ≡ 0
      no_y = omega arith
  no_longer (suc k) x y hx hy base =
      let next =
        no_longer k (x / 2) (y / 2) (omega (arith, pow-suc 2 k)) (omega (arith, pow-suc 2 k))
          base in
      omega (arith, next, pow-suc 2 k, halves x y, small x y)

differ-sum : (a b : ℕ) → a < 2 → b < 2 → differ a b ≡ (a + b) % 2
differ-sum zero b ha hb = omega arith
differ-sum (suc a) zero ha hb = omega arith
differ-sum (suc zero) (suc zero) ha hb = refl
differ-sum (suc zero) (suc (suc b)) ha hb = absurd (omega arith)
differ-sum (suc (suc a)) (suc b) ha hb = absurd (omega arith)

pub differ-small : (x y : ℕ) → differ (x % 2) (y % 2) ≡ (x % 2 + y % 2) % 2
differ-small x y = differ-sum (x % 2) (y % 2) (omega arith) (omega arith)

pub digit-and : (k x y : ℕ) → digit k (bit_and x y) ≡ min (digit k x) (digit k y)
digit-and = digit_by_digit bit_and min and_halves (λ x y. omega arith)

pub digit-or : (k x y : ℕ) → digit k (bit_or x y) ≡ max (digit k x) (digit k y)
digit-or = digit_by_digit bit_or max or_halves (λ x y. omega arith)

pub digit-xor : (k x y : ℕ) → digit k (bit_xor x y) ≡ (digit k x + digit k y) % 2
digit-xor k x y =
    digit_by_digit bit_xor differ xor_halves (λ x y. omega (arith, differ-small x y)) k x y
    ∙ differ-small (x / 2 ^ k) (y / 2 ^ k)

pub bit_and-lt : (k x y : ℕ) → x < 2 ^ k → y < 2 ^ k → bit_and x y < 2 ^ k
bit_and-lt k x y hx hy = no_longer bit_and min and_halves (λ x y. omega arith) k x y hx hy refl

pub bit_or-lt : (k x y : ℕ) → x < 2 ^ k → y < 2 ^ k → bit_or x y < 2 ^ k
bit_or-lt k x y hx hy = no_longer bit_or max or_halves (λ x y. omega arith) k x y hx hy refl

pub bit_xor-lt : (k x y : ℕ) → x < 2 ^ k → y < 2 ^ k → bit_xor x y < 2 ^ k
bit_xor-lt k x y hx hy =
    no_longer bit_xor differ xor_halves (λ x y. omega (arith, differ-small x y)) k x y hx hy refl

-- `x & (1 << k)` tests the digit `k`.
pub bit_and_single : (k x : ℕ) → bit_and x (2 ^ k) ≡ digit k x * 2 ^ k
bit_and_single zero x = omega (arith, and_halves x 1, bit_and_zero (x / 2), digit-zero x)
bit_and_single (suc k) x =
    and_halves x (2 ^ suc k)
    ∙ rw (digit-suc k x, half, even, bit_and_single k (x / 2))
        (omega (arith, double_pow (digit k (x / 2)) k))
  where
    half : 2 ^ suc k / 2 ≡ 2 ^ k
    half = omega (arith, pow-suc 2 k)

    even : 2 ^ suc k % 2 ≡ 0
    even = omega (arith, pow-suc 2 k)

pub digit_none : (k : ℕ) → digit k 0 ≡ 0
digit_none zero = refl
digit_none (suc k) = digit-suc k 0 ∙ digit_none k

double_half : (j : ℕ) → 2 ^ suc j / 2 ≡ 2 ^ j
double_half j = omega (arith, pow-suc 2 j)

-- The digits of a power of two.
pub digit_power_self : (j : ℕ) → digit j (2 ^ j) ≡ 1
digit_power_self zero = refl
digit_power_self (suc j) =
    digit-suc j (2 ^ suc j) ∙ (ap (digit j) (double_half j) ∙ digit_power_self j)

pub digit_power_other : (j k : ℕ) → k ≢ j → digit k (2 ^ j) ≡ 0
digit_power_other zero zero h = absurd (h refl)
digit_power_other zero (suc k) h = digit-suc k 1 ∙ digit_none k
digit_power_other (suc j) zero h = digit-zero (2 ^ suc j) ∙ omega (arith, pow-suc 2 j)
digit_power_other (suc j) (suc k) h =
    digit-suc k (2 ^ suc j)
    ∙ (ap (digit k) (double_half j) ∙ digit_power_other j k (λ e. h (ap suc e)))

-- Numbers of `k` digits with the same digits are equal.
pub digits-eq :
    (k x y : ℕ) → x < 2 ^ k → y < 2 ^ k → ((i : ℕ) → i < k → digit i x ≡ digit i y) → x ≡ y
digits-eq zero x y hx hy same = omega arith
digits-eq (suc k) x y hx hy same =
    let halves =
      digits-eq k (x / 2) (y / 2) (omega (arith, pow-suc 2 k)) (omega (arith, pow-suc 2 k))
        (λ i h. sym (digit-suc i x) ∙ (same (suc i) (omega arith) ∙ digit-suc i y)) in
    omega (arith, halves, same 0 (omega arith), digit-zero x, digit-zero y)

pub bit_or_comm : (k x y : ℕ) → x < 2 ^ k → y < 2 ^ k → bit_or x y ≡ bit_or y x
bit_or_comm k x y hx hy =
    digits-eq k (bit_or x y) (bit_or y x) (bit_or-lt k x y hx hy) (bit_or-lt k y x hy hx)
      (λ i h. digit-or i x y ∙ (max_comm (digit i x) (digit i y) ∙ sym (digit-or i y x)))
  where
    max_comm : (a b : ℕ) → max a b ≡ max b a
    max_comm a b = omega arith
