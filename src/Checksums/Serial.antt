-- ===== src/Checksums/Serial.antt =====
-- The checksum by its definition, a register that takes the message bit by bit, and the table against it.
use zinc.Common.{
  ℕ, zero, suc, ◌+◌, ◌*◌, ◌-◌, ◌/◌, ◌%◌, ◌^◌, ◌<◌, ◌≡◌, refl, ap, ap₂, sym, ◌∙◌, arith, true, false,
  List, [], ◌∷◌, if◌then◌else◌, ◌==◌, bit_and, bit_xor, get_or, All,
}
use zinc.Common.Bits.{xor_halves, bit_xor_zero, bit_and_ones, double_pow}
use zinc.Common.Digits.{digit-xor, digits-eq, bit_xor-lt, digit-zero, differ-small}
use zinc.Checksums.{
  shift_bit, shift_bits, fill_table, Crc32, init_crc32, crc_byte, crc_bytes, crc32,
}
use Prim.Native.Nat.{bit_xor-bitwise}
use native.Mathlib.Nat.{pow-suc}

-- x ^ 32 + x ^ 26 + x ^ 23 + x ^ 22 + x ^ 16 + x ^ 12 + x ^ 11 + x ^ 10 + x ^ 8 + x ^ 7 + x ^ 5 + x ^ 4 +
-- x ^ 2 + x + 1 without its first term, with the coefficient of 1 as the highest of 32 bits.
abbrev pub generator : ℕ
generator =
    2 ^ 31
    + 2 ^ 30
    + 2 ^ 29
    + 2 ^ 27
    + 2 ^ 26
    + 2 ^ 24
    + 2 ^ 23
    + 2 ^ 21
    + 2 ^ 20
    + 2 ^ 19
    + 2 ^ 15
    + 2 ^ 9
    + 2 ^ 8
    + 2 ^ 5

-- One bit of the message goes into the register.
abbrev pub take_bit : ℕ → ℕ → ℕ
take_bit register b =
    if (register + b) % 2 == 0 then register / 2 else bit_xor (register / 2) generator

-- The `n` lowest bits of a byte, the lowest first.
abbrev pub take_bits : ℕ → ℕ → ℕ → ℕ
take_bits zero register byte = register
take_bits (suc n) register byte = take_bits n (take_bit register (byte % 2)) (byte / 2)

abbrev pub register_after : ℕ → List ℕ → ℕ
register_after register [] = register
register_after register (byte ∷ bytes) = register_after (take_bits 8 register byte) bytes

abbrev pub serial_crc32 : List ℕ → ℕ
serial_crc32 bytes = bit_xor (register_after (2 ^ 32 - 1) bytes) (2 ^ 32 - 1)

xor_half : (a b : ℕ) → bit_xor a b / 2 ≡ bit_xor (a / 2) (b / 2)
xor_half a b = omega (arith, xor_halves a b, differ-small a b)

xor_odd : (a b : ℕ) → bit_xor a b % 2 ≡ (a + b) % 2
xor_odd a b = omega (arith, digit-xor 0 a b, digit-zero a, digit-zero b, digit-zero (bit_xor a b))

-- The order in which words are joined is of no importance.
xor_swap :
    (x y z : ℕ)
    → x < 2 ^ 32
    → y < 2 ^ 32
    → z < 2 ^ 32
    → bit_xor (bit_xor x y) z ≡ bit_xor (bit_xor x z) y
xor_swap x y z hx hy hz =
    digits-eq 32 (bit_xor (bit_xor x y) z) (bit_xor (bit_xor x z) y)
      (bit_xor-lt 32 (bit_xor x y) z (bit_xor-lt 32 x y hx hy) hz)
      (bit_xor-lt 32 (bit_xor x z) y (bit_xor-lt 32 x z hx hz) hy)
      (λ i h. omega (
        arith,
        digit-xor i (bit_xor x y) z,
        digit-xor i x y,
        digit-xor i (bit_xor x z) y,
        digit-xor i x z,
      ))

xor_comm : (x y : ℕ) → x < 2 ^ 32 → y < 2 ^ 32 → bit_xor x y ≡ bit_xor y x
xor_comm x y hx hy =
    digits-eq 32 (bit_xor x y) (bit_xor y x) (bit_xor-lt 32 x y hx hy) (bit_xor-lt 32 y x hy hx)
      (λ i h. omega (arith, digit-xor i x y, digit-xor i y x))

-- Words without a bit in common.
xor_shifted : (k x h : ℕ) → x < 2 ^ k → bit_xor x (h * 2 ^ k) ≡ x + h * 2 ^ k
xor_shifted zero x h small =
    let none_left : x ≡ 0 = omega arith in
    ap (λ t. bit_xor t (h * 1)) none_left ∙ omega (arith, bit_xor-bitwise 0 (h * 1), none_left)
xor_shifted (suc k) x h small =
    let halves = xor_shifted k (x / 2) h (omega (arith, pow-suc 2 k)) in
    let half : h * 2 ^ suc k / 2 ≡ h * 2 ^ k = omega (arith, double_pow h k) in
    omega (
      arith,
      xor_halves x (h * 2 ^ suc k),
      differ-small x (h * 2 ^ suc k),
      double_pow h k,
      ap (bit_xor (x / 2)) half,
      halves,
    )

shift_bit-lt : (c : ℕ) → c < 2 ^ 32 → shift_bit c < 2 ^ 32
unfolding shift_bit
shift_bit-lt c small = ground (arith, bit_xor-lt 32 (c / 2) generator (omega arith) (omega arith))

take_bit-lt : (r b : ℕ) → r < 2 ^ 32 → take_bit r b < 2 ^ 32
take_bit-lt r b small = ground (arith, bit_xor-lt 32 (r / 2) generator (omega arith) (omega arith))

no_bit : (a : ℕ) → take_bit a 0 ≡ shift_bit a
unfolding shift_bit
no_bit a = ground (arith, bit_and_ones 1 a)

-- A round on a register into which a word is joined takes the word's lowest bit.
shift-xor :
    (a b : ℕ)
    → a < 2 ^ 32
    → b < 2 ^ 32
    → shift_bit (bit_xor a b) ≡ bit_xor (take_bit a (b % 2)) (b / 2)
unfolding shift_bit
shift-xor a b ha hb = ground (
  arith,
  bit_and_ones 1 (bit_xor a b),
  xor_odd a b,
  xor_half a b,
  xor_swap (a / 2) (b / 2) generator (omega arith) (omega arith) (omega arith),
)

take_bits_lem :
    (n a b : ℕ) → a < 2 ^ 32 → b < 2 ^ 32 → b < 2 ^ n → shift_bits n (bit_xor a b) ≡ take_bits n a b
take_bits_lem zero a b ha hb hn =
    let none_left : b ≡ 0 = omega arith in ap (bit_xor a) none_left ∙ bit_xor_zero a
take_bits_lem (suc n) a b ha hb hn =
    ap (shift_bits n) (shift-xor a b ha hb)
    ∙ take_bits_lem n (take_bit a (b % 2)) (b / 2) (take_bit-lt a (b % 2) ha) (omega arith)
        (omega (arith, pow-suc 2 n))

-- Rounds leave the bits that they do not reach as they are.
shift_bits-xor :
    (n a h : ℕ)
    → a < 2 ^ 32
    → h * 2 ^ n < 2 ^ 32
    → shift_bits n (bit_xor a (h * 2 ^ n)) ≡ bit_xor (shift_bits n a) h
shift_bits-xor zero a h ha hh = ap (bit_xor a) (omega arith)
shift_bits-xor (suc n) a h ha hh =
    let even : h * 2 ^ suc n % 2 ≡ 0 = omega (arith, double_pow h n) in
    let half : h * 2 ^ suc n / 2 ≡ h * 2 ^ n = omega (arith, double_pow h n) in
    ap (shift_bits n)
      (shift-xor a (h * 2 ^ suc n) ha hh ∙ ap₂ bit_xor (ap (take_bit a) even ∙ no_bit a) half)
    ∙ shift_bits-xor n (shift_bit a) h (shift_bit-lt a ha) (omega (arith, double_pow h n))

get_or-fill_table : (n i j : ℕ) → j < n → get_or (fill_table n i) j 0 ≡ shift_bits 8 (i + j)
unfolding fill_table
get_or-fill_table zero i j h = absurd (omega arith)
get_or-fill_table (suc n) i zero h = ap (shift_bits 8) (omega arith)
get_or-fill_table (suc n) i (suc j) h =
    get_or-fill_table n (i + 1) j (omega arith) ∙ ap (shift_bits 8) (omega arith)

shift_bits-lt : (n c : ℕ) → c < 2 ^ 32 → shift_bits n c < 2 ^ 32
shift_bits-lt zero c h = h
shift_bits-lt (suc n) c h = shift_bits-lt n (shift_bit c) (shift_bit-lt c h)

take_bits-lt : (n r byte : ℕ) → r < 2 ^ 32 → take_bits n r byte < 2 ^ 32
take_bits-lt zero r byte h = h
take_bits-lt (suc n) r byte h =
    take_bits-lt n (take_bit r (byte % 2)) (byte / 2) (take_bit-lt r (byte % 2) h)

-- The table does in one step what the register does bit by bit.
byte_lem :
    (crc byte : ℕ)
    → crc < 2 ^ 32
    → byte < 256
    → crc_byte (fill_table 256 0) crc byte ≡ take_bits 8 crc byte
unfolding crc_byte
byte_lem crc byte hc hb =
    let low = crc % 256 in
    let high = crc / 256 in
    let index = bit_xor low byte in
    let small : index < 256 = bit_xor-lt 8 low byte (omega arith) hb in
    let parts : bit_xor low (high * 2 ^ 8) ≡ crc =
      omega (arith, xor_shifted 8 low high (omega arith)) in
    let joined : bit_xor index (high * 2 ^ 8) ≡ bit_xor crc byte =
      xor_swap low byte (high * 2 ^ 8) (omega arith) (omega arith) (omega arith)
      ∙ ap (λ t. bit_xor t byte) parts in
    let looked_up : get_or (fill_table 256 0) (bit_xor (bit_and crc 0xFF) byte) 0
        ≡ shift_bits 8 index =
      ap (λ t. get_or (fill_table 256 0) (bit_xor t byte) 0) (bit_and_ones 8 crc)
      ∙ (get_or-fill_table 256 0 index small ∙ ap (shift_bits 8) (omega arith)) in
    ap (bit_xor high) looked_up
    ∙ (xor_comm high (shift_bits 8 index) (omega arith)
          (shift_bits-lt 8 index (omega (arith, small)))
        ∙ (sym (shift_bits-xor 8 index high (omega (arith, small)) (omega arith))
            ∙ (ap (shift_bits 8) joined ∙ take_bits_lem 8 crc byte hc (omega arith) hb)))

bytes_lem :
    (crc : ℕ) (bytes : List ℕ)
    → crc < 2 ^ 32
    → All (λ byte. byte < 256) bytes
    → crc_bytes (fill_table 256 0) crc bytes ≡ register_after crc bytes
unfolding crc_bytes
bytes_lem crc [] hc h = refl
bytes_lem crc (byte ∷ bytes) hc (hb, h) =
    ap (λ t. crc_bytes (fill_table 256 0) t bytes) (byte_lem crc byte hc hb)
    ∙ bytes_lem (take_bits 8 crc byte) bytes (take_bits-lt 8 crc byte hc) h

-- After the first `initCRC32` the checksum of every sequence of bytes is that of the shift register with
-- the reflected polynomial of CRC-32, which takes the message bit by bit.
pub crc32_lem :
    (s : Crc32) (bytes : List ℕ)
    → s.is_init ≡ false
    → All (λ byte. byte < 256) bytes
    → crc32 (init_crc32 s) bytes ≡ serial_crc32 bytes
unfolding crc32 init_crc32
crc32_lem s bytes first h =
    ap (λ t. bit_xor t (2 ^ 32 - 1))
      (ap
          (λ q.
            crc_bytes
              (Crc32.table (if q then s else record { table = fill_table 256 0; is_init = true }))
              (2 ^ 32 - 1) bytes)
          first
        ∙ bytes_lem (2 ^ 32 - 1) bytes (omega arith) h)
