-- ===== src/Arrays/Sequences.antt =====
-- Arrays and optional values come back, when their elements do.
use zinc.Common.{ℕ, ◌≡◌, refl, Bool, Option, none, some}
use zinc.Common.{List, [], ◌∷◌, ◌++◌, length, All, not, ◌==◌}
use zinc.ByteBuffer.{
  ByteBuffer, Action, pure, ◌>>=◌, read_bytes, write_unsigned_byte, read_unsigned_byte,
}
use zinc.ByteBuffer.Rules.{Writes, Reads, Codes, Writes-pure, Writes-bind, Reads-pure, Reads-bind}
use zinc.ByteBuffer.Rules.{Reads-map, IsReady, unread, RoundTrips, round_trip}
use zinc.ByteBuffer.Raw.{write_byte-Writes, read_byte-Reads, write_bytes-Writes, read_bytes-Reads}
use zinc.ByteBuffer.Raw.{write_unsigned_byte-Writes, read_unsigned_byte-Reads}
use zinc.Text.Strings.{IsLength, length-Codes, prefixed, write_length-Writes, read_length-Reads}
use zinc.Arrays.{write_array, read_array, write_prefixed_array, read_prefixed_array}
use zinc.Arrays.{has_value, write_optional, read_optional, write_prefixed_optional}
use zinc.Arrays.{read_prefixed_optional, write_prefixed_byte_array, read_prefixed_byte_array}

-- The elements' codes, one after the other.
pub record ArrayCodes {ℓ} {A : Type ℓ} (e : Bool) (w : A → Action (Unit {0})) (r : Action A)
    (xs : List A) : Type ℓ where
  pub bytes : List ℕ
  pub writes : Writes e (write_array w xs) bytes
  pub reads : Reads e (read_array r (length xs)) bytes xs

module _ {ℓ} {A : Type ℓ} (w : A → Action (Unit {0})) (r : Action A) where
  pub array-Codes : {e : Bool} (xs : List A) → All (λ x. Codes e w r x) xs → ArrayCodes e w r xs
  unfolding write_array read_array
  array-Codes [] h = record { bytes = []; writes = Writes-pure; reads = Reads-pure [] }
  array-Codes {e = e} (x ∷ xs) (hx, hxs) =
      let rest = array-Codes {e = e} xs hxs in
      record {
        bytes = hx.bytes ++ rest.bytes;
        writes = Writes-bind hx.writes rest.writes;
        reads =
            Reads-bind (λ y. read_array r (length xs) >>= (λ ys. pure (y ∷ ys))) hx.reads
              (Reads-map (λ ys. x ∷ ys) rest.reads);
      }

  pub prefixed_array-Codes :
      {e : Bool} (xs : List A)
      → IsLength (length xs)
      → All (λ x. Codes e w r x) xs
      → Codes e (write_prefixed_array w) (read_prefixed_array r) xs
  unfolding write_prefixed_array read_prefixed_array
  prefixed_array-Codes {e = e} xs short h =
      let n = length-Codes {e = e} (length xs) short in
      let c = array-Codes {e = e} xs h in
      record {
        bytes = n.bytes ++ c.bytes;
        writes = Writes-bind n.writes c.writes;
        reads = Reads-bind (read_array r) n.reads c.reads;
      }

  pub prefixed_optional-Codes :
      {e : Bool} (value : Option A)
      → ((x : A) → value ≡ some x → Codes e w r x)
      → Codes e (write_prefixed_optional w) (read_prefixed_optional r) value
  unfolding write_prefixed_optional read_prefixed_optional write_optional read_optional has_value
  prefixed_optional-Codes none h = record {
    bytes = 0 ∷ [];
    writes = Writes-bind (write_byte-Writes 0) Writes-pure;
    reads = Reads-bind (λ c. read_optional r (not (c == 0))) (read_byte-Reads 0) (Reads-pure none);
  }
  prefixed_optional-Codes (some x) h =
      let c = h x refl in
      record {
        bytes = (1 ∷ []) ++ c.bytes;
        writes = Writes-bind (write_byte-Writes 1) c.writes;
        reads =
            Reads-bind (λ c. read_optional r (not (c == 0))) (read_byte-Reads 1)
              (Reads-map (λ y. some y) c.reads);
      }

  -- Into a valid buffer with nothing unread, `writePrefixedArray` and then `readPrefixedArray` give
  -- back every array of fewer than 2 ^ 31 elements, where the functions for one element use the same
  -- bytes for each of them.
  pub read_prefixed_array-write_prefixed_array :
      (xs : List A) (b : ByteBuffer)
      → IsLength (length xs)
      → All (λ x. Codes b.is_big_endian w r x) xs
      → IsReady b
      → unread b ≡ []
      → RoundTrips (write_prefixed_array w) (read_prefixed_array r) xs b
  read_prefixed_array-write_prefixed_array xs b short h ready none_left =
      round_trip b ready none_left (prefixed_array-Codes xs short h)

pub prefixed_byte_array-Codes :
    {e : Bool} (bytes : List ℕ)
    → IsLength (length bytes)
    → Codes e write_prefixed_byte_array read_prefixed_byte_array bytes
unfolding write_prefixed_byte_array read_prefixed_byte_array
prefixed_byte_array-Codes {e = e} bytes h =
    let c = length-Codes {e = e} (length bytes) h in
    record {
      bytes = c.bytes ++ bytes;
      writes = Writes-bind c.writes (write_bytes-Writes bytes);
      reads = Reads-bind read_bytes c.reads (read_bytes-Reads bytes (length bytes) refl);
    }

pub bytes-Writes :
    {e : Bool} (bytes : List ℕ) → Writes e (write_array write_unsigned_byte bytes) bytes
unfolding write_array
bytes-Writes [] = Writes-pure
bytes-Writes (c ∷ bytes) = Writes-bind (write_unsigned_byte-Writes c) (bytes-Writes bytes)

pub bytes-Reads :
    {e : Bool} (bytes : List ℕ) → Reads e (read_array read_unsigned_byte (length bytes)) bytes bytes
unfolding read_array
bytes-Reads [] = Reads-pure []
bytes-Reads (c ∷ bytes) =
    Reads-bind (λ y. read_array read_unsigned_byte (length bytes) >>= (λ ys. pure (y ∷ ys)))
      (read_unsigned_byte-Reads c) (Reads-map (λ ys. c ∷ ys) (bytes-Reads bytes))

pub prefixed_bytes-Writes :
    {e : Bool} (bytes : List ℕ)
    → IsLength (length bytes)
    → Writes e (write_prefixed_array write_unsigned_byte bytes) (prefixed bytes)
unfolding write_prefixed_array
prefixed_bytes-Writes bytes h =
    Writes-bind (write_length-Writes (length bytes) h) (bytes-Writes bytes)

pub prefixed_bytes-Reads :
    {e : Bool} (bytes : List ℕ)
    → IsLength (length bytes)
    → Reads e (read_prefixed_array read_unsigned_byte) (prefixed bytes) bytes
unfolding read_prefixed_array
prefixed_bytes-Reads bytes h =
    Reads-bind (read_array read_unsigned_byte) (read_length-Reads (length bytes) h)
      (bytes-Reads bytes)
