-- ===== src/Teleport/Flags.antt =====
-- The nine flags come back from the `int`, so equality of the `int`s is equality of the flags.
use zinc.Common.{
  ℕ, ◌+◌, ◌*◌, ◌^◌, ◌<◌, ◌≡◌, ◌↔◌, refl, ap, sym, ◌∙◌, arith, bit_and, Bool, true, false,
}
use zinc.Common.{not, ◌==◌, ==_iff, ==_ne, ==_self, if◌then◌else◌, []}
use zinc.Common.Digits.{digit, bit_and_single}
use native.Mathlib.Nat.{one-le-pow}
use zinc.ByteBuffer.{ByteBuffer}
use zinc.ByteBuffer.Rules.{Codes, Reads-map, Reads-result, IsReady, unread, RoundTrips, round_trip}
use zinc.Numeric.{int}
use zinc.Numeric.RoundTrip.{numeric-Codes}
use zinc.Teleport.{
  TeleportFlags, encode, add_if, test, of_int, flags_eq, write_teleport_flags, read_teleport_flags,
}

-- A flag as a number.
abbrev value : Bool → ℕ
value flag = if flag then 1 else 0

add_if-value :
    (flag : Bool) (place result : ℕ) → add_if flag place result ≡ result + value flag * place
unfolding add_if
add_if-value true place result = omega arith
add_if-value false place result = omega arith

-- The number is the sum of the nine values, each at its place.
encode-sum :
    (f : TeleportFlags)
    → encode f
      ≡ 0
        + value f.rel_x * 1
        + value f.rel_y * 2
        + value f.rel_z * 4
        + value f.rel_yaw * 8
        + value f.rel_pitch * 16
        + value f.rel_velocity_x * 32
        + value f.rel_velocity_y * 64
        + value f.rel_velocity_z * 128
        + value f.rot_velocity * 256
unfolding encode
encode-sum f = simp add_if-value refl

value-lt : (flag : Bool) → value flag < 2
value-lt true = omega arith
value-lt false = omega arith

-- A test of one bit reads one digit.
test-digit : (k v : ℕ) (flag : Bool) → digit k v ≡ value flag → test v (2 ^ k) ≡ flag
test-digit k v true h = ap not (
    ==_ne (bit_and v (2 ^ k)) 0 (λ e. absurd (omega (arith, e, one, one-le-pow k 2 (omega arith)))))
  where
    one : bit_and v (2 ^ k) ≡ 1 * 2 ^ k
    one = bit_and_single k v ∙ ap (λ d. d * 2 ^ k) h
test-digit k v false h = ap not (ap (λ t. t == 0) (zero_test ∙ none_set) ∙ ==_self 0)
  where
    zero_test : bit_and v (2 ^ k) ≡ 0 * 2 ^ k
    zero_test = bit_and_single k v ∙ ap (λ d. d * 2 ^ k) h

    none_set : 0 * 2 ^ k ≡ 0
    none_set = omega arith

-- Nine binary digits.
module _ (a b c d e f g h i v : ℕ) (ha : a < 2) (hb : b < 2) (hc : c < 2) (hd : d < 2) (he : e < 2)
    (hf : f < 2) (hg : g < 2) (hh : h < 2) (hi : i < 2)
    (sum : v
      ≡ 0 + a * 1 + b * 2 + c * 4 + d * 8 + e * 16 + f * 32 + g * 64 + h * 128 + i * 256) where
  nine_digits :
      (digit 0 v ≡ a)
      × (digit 1 v ≡ b)
      × (digit 2 v ≡ c)
      × (digit 3 v ≡ d)
      × (digit 4 v ≡ e)
      × (digit 5 v ≡ f)
      × (digit 6 v ≡ g)
      × (digit 7 v ≡ h)
      × (digit 8 v ≡ i)
  nine_digits = (
    omega arith,
    omega arith,
    omega arith,
    omega arith,
    omega arith,
    omega arith,
    omega arith,
    omega arith,
    omega arith,
  )

digits-encode :
    (f : TeleportFlags)
    → (digit 0 (encode f) ≡ value f.rel_x)
      × (digit 1 (encode f) ≡ value f.rel_y)
      × (digit 2 (encode f) ≡ value f.rel_z)
      × (digit 3 (encode f) ≡ value f.rel_yaw)
      × (digit 4 (encode f) ≡ value f.rel_pitch)
      × (digit 5 (encode f) ≡ value f.rel_velocity_x)
      × (digit 6 (encode f) ≡ value f.rel_velocity_y)
      × (digit 7 (encode f) ≡ value f.rel_velocity_z)
      × (digit 8 (encode f) ≡ value f.rot_velocity)
digits-encode f =
    nine_digits _ _ _ _ _ _ _ _ _ (encode f) (value-lt f.rel_x) (value-lt f.rel_y)
      (value-lt f.rel_z) (value-lt f.rel_yaw) (value-lt f.rel_pitch) (value-lt f.rel_velocity_x)
      (value-lt f.rel_velocity_y) (value-lt f.rel_velocity_z) (value-lt f.rot_velocity)
      (encode-sum f)

pub encode-lt : (f : TeleportFlags) → encode f < 2 ^ 9
encode-lt f = omega (
  arith,
  encode-sum f,
  value-lt f.rel_x,
  value-lt f.rel_y,
  value-lt f.rel_z,
  value-lt f.rel_yaw,
  value-lt f.rel_pitch,
  value-lt f.rel_velocity_x,
  value-lt f.rel_velocity_y,
  value-lt f.rel_velocity_z,
  value-lt f.rot_velocity,
)

pub of_int-encode : (f : TeleportFlags) → of_int (encode f) ≡ f
unfolding of_int
of_int-encode f =
    let (d0, d1, d2, d3, d4, d5, d6, d7, d8) = digits-encode f in
    λ i. record {
      rel_x = test-digit 0 (encode f) f.rel_x d0 i;
      rel_y = test-digit 1 (encode f) f.rel_y d1 i;
      rel_z = test-digit 2 (encode f) f.rel_z d2 i;
      rel_yaw = test-digit 3 (encode f) f.rel_yaw d3 i;
      rel_pitch = test-digit 4 (encode f) f.rel_pitch d4 i;
      rel_velocity_x = test-digit 5 (encode f) f.rel_velocity_x d5 i;
      rel_velocity_y = test-digit 6 (encode f) f.rel_velocity_y d6 i;
      rel_velocity_z = test-digit 7 (encode f) f.rel_velocity_z d7 i;
      rot_velocity = test-digit 8 (encode f) f.rot_velocity d8 i;
    }

-- `==` on teleport flags compares the encodings, and holds exactly for equal flags.
flags_eq_iff : (f g : TeleportFlags) → (flags_eq f g ≡ true) ↔ (f ≡ g)
unfolding flags_eq
flags_eq_iff f g = (
  λ h. sym (of_int-encode f) ∙ (ap of_int ((==_iff (encode f) (encode g)).0 h) ∙ of_int-encode g),
  λ e. (==_iff (encode f) (encode g)).1 (ap encode e),
)

pub teleport_flags-Codes :
    {e : Bool} (f : TeleportFlags) → Codes e write_teleport_flags read_teleport_flags f
unfolding write_teleport_flags read_teleport_flags
teleport_flags-Codes {e = e} f =
    let c = numeric-Codes {e = e} int (encode f) (omega (arith, encode-lt f)) in
    record {
      bytes = c.bytes;
      writes = c.writes;
      reads = Reads-result (of_int-encode f) (Reads-map of_int c.reads);
    }

-- Into a valid buffer with nothing unread, `writeTeleportFlags` and then `readTeleportFlags` give
-- back all nine flags.
pub read_teleport_flags-write_teleport_flags :
    (f : TeleportFlags) (b : ByteBuffer)
    → IsReady b
    → unread b ≡ []
    → RoundTrips write_teleport_flags read_teleport_flags f b
read_teleport_flags-write_teleport_flags f b ready none_left =
    round_trip b ready none_left (teleport_flags-Codes f)
