-- ===== src/Common/Bits.antt =====
-- `&`, `|` and `^` of C++ on unsigned words, as arithmetic.
-- The native operations stand for a recursion on binary digits with fuel; `and_halves`, `or_halves`
-- and `xor_halves` state it for one digit, without the fuel.
use Prim.Native.Nat.{ℕ, zero, suc, ◌+◌, ◌*◌, ◌-◌, ◌/◌, ◌%◌, ◌^◌, ◌≤◌, ◌<◌, min, max}
use Prim.Native.Nat.{bit_and, bit_or, bit_xor, digits, bitwise, differ}
use Prim.Native.Nat.{bit_and-bitwise, bit_or-bitwise, bit_xor-bitwise}
use mathlib.Core.Path.{◌≡◌, refl, ap, sym, ◌∙◌}
use native.Mathlib.Omega.{arith}
use native.Mathlib.Nat.{
  pow-suc, one-le-pow, mod-lt, mod-eq_of_lt, div-add-mod', add-mul-mod_self_right,
}

-- The digit recursion with unit `e` and one-digit table `op`, at any sufficient fuel.
module _ (e : ℕ → ℕ) (op : ℕ → ℕ → ℕ) where
  same_digits : (x y p q : ℕ) → x ≤ p → x ≤ q → digits e op p x y ≡ digits e op q x y
  same_digits (suc x) y (suc p) (suc q) hp hq =
      ap (λ t. t * 2 + op (suc x % 2) (y % 2))
        (same_digits (suc x / 2) (y / 2) p q (omega arith) (omega arith))
  same_digits zero y zero zero hp hq = refl
  same_digits zero y zero (suc q) hp hq = refl
  same_digits zero y (suc p) zero hp hq = refl
  same_digits zero y (suc p) (suc q) hp hq = refl
  same_digits (suc x) y zero q hp hq = absurd (omega arith)
  same_digits (suc x) y (suc p) zero hp hq = absurd (omega arith)

  halves :
      (x y : ℕ)
      → bitwise e op (suc x) y ≡ bitwise e op (suc x / 2) (y / 2) * 2 + op (suc x % 2) (y % 2)
  halves x y =
      ap (λ t. t * 2 + op (suc x % 2) (y % 2))
        (same_digits (suc x / 2) (y / 2) x (suc x / 2) (omega arith) (omega arith))

pub and_halves : (x y : ℕ) → bit_and x y ≡ bit_and (x / 2) (y / 2) * 2 + min (x % 2) (y % 2)
and_halves zero y = omega (arith, bit_and-bitwise 0 y, bit_and-bitwise 0 (y / 2))
and_halves (suc x) y = simp bit_and-bitwise (halves (λ d. 0) min x y)

pub or_halves : (x y : ℕ) → bit_or x y ≡ bit_or (x / 2) (y / 2) * 2 + max (x % 2) (y % 2)
or_halves zero y = omega (arith, bit_or-bitwise 0 y, bit_or-bitwise 0 (y / 2))
or_halves (suc x) y = simp bit_or-bitwise (halves (λ d. d) max x y)

pub xor_halves : (x y : ℕ) → bit_xor x y ≡ bit_xor (x / 2) (y / 2) * 2 + differ (x % 2) (y % 2)
xor_halves zero y = omega (arith, bit_xor-bitwise 0 y, bit_xor-bitwise 0 (y / 2))
xor_halves (suc x) y = simp bit_xor-bitwise (halves (λ d. d) differ x y)

-- The second operand 0, by recursion on a bound of the first.
and-zero_below : (n x : ℕ) → x ≤ n → bit_and x 0 ≡ 0
and-zero_below n zero h = refl
and-zero_below zero (suc x) h = absurd (omega arith)
and-zero_below (suc n) (suc x) h =
    omega (arith, and_halves (suc x) 0, and-zero_below n (suc x / 2) (omega arith))

pub bit_and_zero : (x : ℕ) → bit_and x 0 ≡ 0
bit_and_zero x = and-zero_below x x (omega arith)

or-zero_below : (n x : ℕ) → x ≤ n → bit_or x 0 ≡ x
or-zero_below n zero h = refl
or-zero_below zero (suc x) h = absurd (omega arith)
or-zero_below (suc n) (suc x) h =
    omega (arith, or_halves (suc x) 0, or-zero_below n (suc x / 2) (omega arith))

differ-zero : (d : ℕ) → d < 2 → differ d 0 ≡ d
differ-zero zero h = refl
differ-zero (suc zero) h = refl
differ-zero (suc (suc d)) h = absurd (omega arith)

differ-one : (d : ℕ) → d < 2 → differ d 1 ≡ 1 - d
differ-one zero h = refl
differ-one (suc zero) h = refl
differ-one (suc (suc d)) h = absurd (omega arith)

xor-zero_below : (n x : ℕ) → x ≤ n → bit_xor x 0 ≡ x
xor-zero_below n zero h = refl
xor-zero_below zero (suc x) h = absurd (omega arith)
xor-zero_below (suc n) (suc x) h = omega (
  arith,
  xor_halves (suc x) 0,
  differ-zero (suc x % 2) (omega arith),
  xor-zero_below n (suc x / 2) (omega arith),
)

pub bit_xor_zero : (x : ℕ) → bit_xor x 0 ≡ x
bit_xor_zero x = xor-zero_below x x (omega arith)

pub double_pow : (a k : ℕ) → a * 2 ^ suc k ≡ 2 * (a * 2 ^ k)
double_pow a k = omega (arith, ap (λ (t : ℕ). a * t) (pow-suc 2 k))

ones_half : (k : ℕ) → (2 ^ suc k - 1) / 2 ≡ 2 ^ k - 1
ones_half k = omega (arith, pow-suc 2 k, one-le-pow k 2 (omega arith))

ones_odd : (k : ℕ) → (2 ^ suc k - 1) % 2 ≡ 1
ones_odd k = omega (arith, pow-suc 2 k, one-le-pow k 2 (omega arith))

shifted_half : (k a : ℕ) → a * 2 ^ suc k / 2 ≡ a * 2 ^ k
shifted_half k a = omega (arith, double_pow a k)

shifted_even : (k a : ℕ) → a * 2 ^ suc k % 2 ≡ 0
shifted_even k a = omega (arith, double_pow a k)

-- A remainder is determined by its range and one equation.
pub mod_unique : (m q r x : ℕ) → r < m → x ≡ r + q * m → x % m ≡ r
mod_unique m q r x h e = ap (λ t. t % m) e ∙ (add-mul-mod_self_right r q m ∙ mod-eq_of_lt h)

low_bits_half : (k x : ℕ) → x / 2 % 2 ^ k * 2 + x % 2 ≡ x % 2 ^ suc k
low_bits_half k x =
    let m = 2 ^ k in
    let q = x / 2 / m in
    sym (
      mod_unique (2 ^ suc k) q (x / 2 % m * 2 + x % 2) x
        (omega (arith, pow-suc 2 k, mod-lt (x / 2) (one-le-pow k 2 (omega arith))))
        (omega (arith, div-add-mod' (x / 2) m, ap (λ (t : ℕ). q * t) (pow-suc 2 k))))

-- `x & (2 ^ k - 1)` keeps the low `k` bits.
pub bit_and_ones : (k x : ℕ) → bit_and x (2 ^ k - 1) ≡ x % 2 ^ k
bit_and_ones zero x = omega (arith, bit_and_zero x)
bit_and_ones (suc k) x =
    and_halves x (2 ^ suc k - 1)
    ∙ rw (ones_half k, ones_odd k, bit_and_ones k (x / 2)) (omega (arith, low_bits_half k x))

-- `r | (a << k)` is a sum if `r` has only low bits.
pub bit_or_shifted : (k r a : ℕ) → r < 2 ^ k → bit_or r (a * 2 ^ k) ≡ r + a * 2 ^ k
bit_or_shifted zero zero a h = omega (arith, bit_or-bitwise 0 (a * 1))
bit_or_shifted zero (suc r) a h = absurd (omega arith)
bit_or_shifted (suc k) r a h =
    or_halves r (a * 2 ^ suc k)
    ∙ rw
        (
          shifted_half k a,
          shifted_even k a,
          bit_or_shifted k (r / 2) a (omega (arith, pow-suc 2 k)),
          double_pow a k,
        )
        (omega arith)

-- `x ^ (2 ^ k - 1)` complements the `k` bits of a word.
pub bit_xor_ones : (k x : ℕ) → x < 2 ^ k → bit_xor x (2 ^ k - 1) ≡ 2 ^ k - 1 - x
bit_xor_ones zero zero h = refl
bit_xor_ones zero (suc x) h = absurd (omega arith)
bit_xor_ones (suc k) x h =
    xor_halves x (2 ^ suc k - 1)
    ∙ rw
        (
          ones_half k,
          ones_odd k,
          bit_xor_ones k (x / 2) (omega (arith, pow-suc 2 k)),
          differ-one (x % 2) (omega arith),
        )
        (omega (arith, pow-suc 2 k))

one_half : (k : ℕ) → 2 ^ suc k / 2 ≡ 2 ^ k
one_half k = omega (arith, pow-suc 2 k)

one_even : (k : ℕ) → 2 ^ suc k % 2 ≡ 0
one_even k = omega (arith, pow-suc 2 k)

top_half : (k s : ℕ) → (s + 2 ^ suc k) / 2 ≡ s / 2 + 2 ^ k
top_half k s = omega (arith, pow-suc 2 k)

-- The bit `2 ^ k` of a number with `k` bits, and of one with that bit on top.
pub bit_and_below : (k r : ℕ) → r < 2 ^ k → bit_and r (2 ^ k) ≡ 0
bit_and_below zero zero h = refl
bit_and_below zero (suc r) h = absurd (omega arith)
bit_and_below (suc k) r h =
    and_halves r (2 ^ suc k)
    ∙ rw (one_half k, one_even k, bit_and_below k (r / 2) (omega (arith, pow-suc 2 k)))
        (omega arith)

pub bit_and_top : (k s : ℕ) → s < 2 ^ k → bit_and (s + 2 ^ k) (2 ^ k) ≡ 2 ^ k
bit_and_top zero zero h = refl
bit_and_top zero (suc s) h = absurd (omega arith)
bit_and_top (suc k) s h =
    and_halves (s + 2 ^ suc k) (2 ^ suc k)
    ∙ rw (top_half k s, one_half k, one_even k, bit_and_top k (s / 2) (omega (arith, pow-suc 2 k)))
        (omega (arith, pow-suc 2 k))

pub bit_or_top : (k s : ℕ) → s < 2 ^ k → bit_or (s + 2 ^ k) (2 ^ k) ≡ s + 2 ^ k
bit_or_top zero zero h = refl
bit_or_top zero (suc s) h = absurd (omega arith)
bit_or_top (suc k) s h =
    or_halves (s + 2 ^ suc k) (2 ^ suc k)
    ∙ rw (top_half k s, one_half k, one_even k, bit_or_top k (s / 2) (omega (arith, pow-suc 2 k)))
        (omega (arith, pow-suc 2 k))
