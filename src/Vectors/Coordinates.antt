-- ===== src/Vectors/Coordinates.antt =====
-- Three components read by the arguments of one constructor call, and the UUID.
use zinc.Common.{ℕ, zero, suc, refl, ◌^◌, ◌<◌, ◌≡◌, Bool, List, [], ◌∷◌, ◌++◌}
use zinc.Common.{length}
use zinc.ByteBuffer.{ByteBuffer, Action, pure, ◌>>=◌, ◌>>◌, write_unsigned_byte}
use zinc.ByteBuffer.Rules.{
  Writes, Reads, Codes, Writes-pure, Writes-bind, Reads-bind, Reads-map, Reads-result, IsReady,
  unread,
}
use zinc.ByteBuffer.Rules.{RoundTrips, round_trip}
use zinc.ByteBuffer.Raw.{read_bytes-Reads, write_byte-Writes}
use zinc.Numeric.{int}
use zinc.VarNumeric.{write_var_numeric, read_var_numeric}
use zinc.VarNumeric.RoundTrip.{var_numeric-Codes}
use zinc.Vectors.{Vector3, ArgumentOrder, xyz, xzy, yxz, yzx, zxy, zyx, arrange, read_three}
use zinc.Vectors.{write_block_coordinates, read_block_coordinates, write_uuid, read_uuid}
use zinc.Arrays.{write_array}

-- Writes of three components and reads of three components, in the orders of the code.
module _ (w : ℕ → Action (Unit {0})) (r : Action ℕ) where
  -- `w` and then `r` go through the same bytes, and the components land as the order says.
  pub read_three-Codes :
      {e : Bool} (order : ArgumentOrder) (v : Vector3)
      → Codes e w r v.x
      → Codes e w r v.y
      → Codes e w r v.z
      → (bytes : List ℕ) × Writes e (do w v.x; w v.y; w v.z) bytes
        × Reads e (read_three r order) bytes (arrange order v.x v.y v.z)
  unfolding read_three
  read_three-Codes order v cx cy cz = (
    cx.bytes ++ (cy.bytes ++ cz.bytes),
    Writes-bind cx.writes (Writes-bind cy.writes cz.writes),
    Reads-bind (λ first. r >>= λ second. r >>= λ third. pure (arrange order first second third))
        cx.reads
        (Reads-bind (λ second. r >>= λ third. pure (arrange order v.x second third)) cy.reads
          (Reads-map (λ third. arrange order v.x v.y third) cz.reads)),
  )

-- `m` and then `r` return `a` and leave nothing unread.
abbrev pub ReadsBack {ℓ} : {A : Type ℓ} → Action (Unit {0}) → Action A → A → ByteBuffer → Type ℓ
ReadsBack m r a b = RoundTrips (λ _. m) r a b

-- How many of the constructor's arguments are evaluated before each one.
abbrev pub before_x : ArgumentOrder → ℕ
before_x xyz = 0
before_x xzy = 0
before_x yxz = 1
before_x zxy = 1
before_x yzx = 2
before_x zyx = 2

abbrev pub before_y : ArgumentOrder → ℕ
before_y yxz = 0
before_y yzx = 0
before_y xyz = 1
before_y zyx = 1
before_y xzy = 2
before_y zxy = 2

abbrev pub before_z : ArgumentOrder → ℕ
before_z zxy = 0
before_z zyx = 0
before_z xzy = 1
before_z yzx = 1
before_z xyz = 2
before_z yxz = 2

-- The number that is written after `n` others: x, then y, then z.
abbrev pub written_after : Vector3 → ℕ → ℕ
written_after v zero = v.x
written_after v (suc zero) = v.y
written_after v (suc (suc _)) = v.z

arrange_lem :
    (order : ArgumentOrder) (v : Vector3)
    → arrange order v.x v.y v.z ≡ record {
      x = written_after v (before_x order);
      y = written_after v (before_y order);
      z = written_after v (before_z order);
    }
unfolding arrange
arrange_lem xyz v = refl
arrange_lem xzy v = refl
arrange_lem yxz v = refl
arrange_lem yzx v = refl
arrange_lem zxy v = refl
arrange_lem zyx v = refl

-- Into a valid buffer with nothing unread, `writeBlockCoordinates` writes x, y and z, and then
-- `readBlockCoordinates` returns a vector in which each component is the written number that has as many
-- others before it as the constructor's argument for that component has arguments evaluated before it;
-- nothing is left unread.
pub read_block_coordinates-write_block_coordinates :
    (order : ArgumentOrder) (v : Vector3) (b : ByteBuffer)
    → v.x < 2 ^ 32
    → v.y < 2 ^ 32
    → v.z < 2 ^ 32
    → IsReady b
    → unread b ≡ []
    → ReadsBack
        (write_block_coordinates v)
        (read_block_coordinates order)
        (record {
          x = written_after v (before_x order);
          y = written_after v (before_y order);
          z = written_after v (before_z order);
        })
        b
unfolding write_block_coordinates read_block_coordinates
read_block_coordinates-write_block_coordinates order v b hx hy hz ready none_left =
    let c =
      read_three-Codes (write_var_numeric int) (read_var_numeric int) {e = b.is_big_endian} order v
        (var_numeric-Codes int v.x hx) (var_numeric-Codes int v.y hy)
        (var_numeric-Codes int v.z hz) in
    round_trip {w = λ _. write_block_coordinates v} b ready none_left
      (record { bytes = c.0; writes = c.1; reads = Reads-result (arrange_lem order v) c.2 })

bytes-Writes : {e : Bool} (bytes : List ℕ) → Writes e (write_array write_unsigned_byte bytes) bytes
unfolding write_array write_unsigned_byte
bytes-Writes [] = Writes-pure
bytes-Writes (c ∷ rest) = Writes-bind (write_byte-Writes c) (bytes-Writes rest)

-- Every UUID of 16 bytes comes back.
pub uuid-Codes : {e : Bool} (uuid : List ℕ) → length uuid ≡ 16 → Codes e write_uuid read_uuid uuid
unfolding write_uuid read_uuid
uuid-Codes uuid h = record {
  bytes = uuid;
  writes = bytes-Writes uuid;
  reads = read_bytes-Reads uuid 16 h;
}
