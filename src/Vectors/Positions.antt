-- ===== src/Vectors/Positions.antt =====
-- The packed position comes back, with the signs of its fields.
use zinc.Common.{ℕ, ◌+◌, ◌-◌, ◌*◌, ◌%◌, ◌^◌, ◌≤◌, ◌<◌, ◌≡◌, ◌⊎◌, ap, ap₂, ◌∙◌, arith}
use zinc.Common.{Bool, bit_and, bit_or, []}
use zinc.Common.Bits.{bit_and_ones, bit_or_shifted}
use zinc.Common.Digits.{bit_or_comm}
use zinc.ByteBuffer.{ByteBuffer}
use zinc.ByteBuffer.Rules.{Codes, Reads-map, Reads-result, IsReady, unread, RoundTrips, round_trip}
use zinc.Numeric.{int, long, sign_extend, truncate_to}
use zinc.Numeric.RoundTrip.{numeric-Codes}
use zinc.Vectors.{Vector3, shift_left, shift_right, position_word, position_of, widen}
use zinc.Vectors.{write_position, read_position}

-- The `int`s that `k` bits hold with their sign.
abbrev pub IsField : ℕ → ℕ → Type 0
IsField k v = (v < 2 ^ (k - 1)) ⊎ ((2 ^ 32 - 2 ^ (k - 1) ≤ v) × (v < 2 ^ 32))

abbrev pub IsPosition : Vector3 → Type 0
IsPosition p = IsField 26 p.x × IsField 12 p.y × IsField 26 p.z

-- The bits that go into the word.
low_bits : (k v : ℕ) → bit_and v (2 ^ k - 1) ≡ v % 2 ^ k
low_bits k v = bit_and_ones k v

-- The word as a sum of its three fields.
abbrev position_sum : ℕ → ℕ → ℕ → ℕ
position_sum x y z = y + z * 2 ^ 12 + x * 2 ^ 38

-- A field above what stands below it.
or_above :
    (k a low : ℕ)
    → low < 2 ^ k
    → low < 2 ^ 64
    → a * 2 ^ k < 2 ^ 64
    → bit_or (a * 2 ^ k) low ≡ low + a * 2 ^ k
or_above k a low h hl ha = bit_or_comm 64 (a * 2 ^ k) low ha hl ∙ bit_or_shifted k low a h

merge :
    (x y z : ℕ)
    → x < 2 ^ 26
    → y < 2 ^ 12
    → z < 2 ^ 26
    → bit_or (bit_or (shift_left long x 38) (shift_left long z 12)) y ≡ position_sum x y z
merge x y z hx hy hz =
    ap₂ (λ a b. bit_or (bit_or a b) y) whole_x whole_z
    ∙ (ap (λ t. bit_or t y)
          (or_above 38 x (z * 2 ^ 12) (omega arith) (omega arith) (omega arith) ∙ regroup)
        ∙ (or_above 12 (z + x * 2 ^ 26) y hy (omega arith) (omega arith) ∙ total))
  where
    whole_x : shift_left long x 38 ≡ x * 2 ^ 38
    whole_x = omega arith

    whole_z : shift_left long z 12 ≡ z * 2 ^ 12
    whole_z = omega arith

    regroup : z * 2 ^ 12 + x * 2 ^ 38 ≡ (z + x * 2 ^ 26) * 2 ^ 12
    regroup = omega arith

    total : y + (z + x * 2 ^ 26) * 2 ^ 12 ≡ position_sum x y z
    total = omega arith

-- Each field is found again in the sum.
x_of_sum :
    (v y z : ℕ)
    → IsField 26 v
    → y < 2 ^ 12
    → z < 2 ^ 26
    → widen 6 (truncate_to int (shift_right long (position_sum (v % 2 ^ 26) y z) 38)) ≡ v
x_of_sum v y z hv hy hz = ground arith

y_of_sum :
    (x v z : ℕ)
    → x < 2 ^ 26
    → IsField 12 v
    → z < 2 ^ 26
    → widen 20 (truncate_to int (position_sum x (v % 2 ^ 12) z % 2 ^ 12)) ≡ v
y_of_sum x v z hx hv hz = ground arith

z_of_sum :
    (x y v : ℕ)
    → x < 2 ^ 26
    → y < 2 ^ 12
    → IsField 26 v
    → widen 6 (truncate_to int (shift_right long (position_sum x y (v % 2 ^ 26)) 12 % 2 ^ 26)) ≡ v
z_of_sum x y v hx hy hv = ground arith

-- The sign of the argument is not among the bits that are kept.
wide_field : (v : ℕ) → bit_and (sign_extend int long v) (2 ^ 26 - 1) ≡ v % 2 ^ 26
wide_field v = low_bits 26 (sign_extend int long v) ∙ ground arith

narrow_field : (v : ℕ) → bit_and (sign_extend int long v) (2 ^ 12 - 1) ≡ v % 2 ^ 12
narrow_field v = low_bits 12 (sign_extend int long v) ∙ ground arith

word_sum :
    (p : Vector3) → position_word p ≡ position_sum (p.x % 2 ^ 26) (p.y % 2 ^ 12) (p.z % 2 ^ 26)
unfolding position_word
word_sum p =
    rw (wide_field p.x, wide_field p.z, narrow_field p.y)
      (merge (p.x % 2 ^ 26) (p.y % 2 ^ 12) (p.z % 2 ^ 26) (omega arith) (omega arith) (omega arith))

pub position_of-position_word : (p : Vector3) → IsPosition p → position_of (position_word p) ≡ p
unfolding position_of
position_of-position_word p (hx, hy, hz) = ap position_of (word_sum p) ∙ (λ i. record {
  x = x_of_sum p.x (p.y % 2 ^ 12) (p.z % 2 ^ 26) hx (omega arith) (omega arith) i;
  y =
      (ap narrow (low_bits 12 word)
          ∙ y_of_sum (p.x % 2 ^ 26) p.y (p.z % 2 ^ 26) (omega arith) hy (omega arith))
        i;
  z =
      (ap wide (low_bits 26 (shift_right long word 12))
          ∙ z_of_sum (p.x % 2 ^ 26) (p.y % 2 ^ 12) p.z (omega arith) (omega arith) hz)
        i;
})
  where
    word : ℕ
    word = position_sum (p.x % 2 ^ 26) (p.y % 2 ^ 12) (p.z % 2 ^ 26)

    narrow : ℕ → ℕ
    narrow v = widen 20 (truncate_to int v)

    wide : ℕ → ℕ
    wide v = widen 6 (truncate_to int v)

word-lt : (p : Vector3) → position_word p < 2 ^ 64
word-lt p = omega (arith, word_sum p)

pub position-Codes :
    {e : Bool} (p : Vector3) → IsPosition p → Codes e write_position read_position p
unfolding write_position read_position
position-Codes {e = e} p h =
    let c = numeric-Codes {e = e} long (position_word p) (word-lt p) in
    record {
      bytes = c.bytes;
      writes = c.writes;
      reads = Reads-result (position_of-position_word p h) (Reads-map position_of c.reads);
    }

-- Into a valid buffer with nothing unread, `writePosition` and then `readPosition` give back every
-- position whose x and z fit in 26 bits and whose y fits in 12 bits, signs included.
pub read_position-write_position :
    (p : Vector3) (b : ByteBuffer)
    → IsPosition p
    → IsReady b
    → unread b ≡ []
    → RoundTrips write_position read_position p b
read_position-write_position p b h ready none_left =
    round_trip b ready none_left (position-Codes p h)
