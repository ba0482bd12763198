-- ===== src/Numeric/RoundTrip.antt =====
-- `readNumeric` returns what `writeNumeric` wrote, for every type and both byte orders.
use zinc.Common.{ℕ, ◌^◌, ◌<◌, ◌≡◌, refl, ap, ◌∙◌, arith, Bool}
use zinc.Common.{some, List, [], ◌∷◌, append-nil, ◌==◌, if◌then◌else◌}
use zinc.ByteBuffer.{ByteBuffer, pure, ◌>>=◌}
use zinc.ByteBuffer.Rules.{
  Writes, Reads, Reads-map, Reads-result, Codes, Reads-bind, Reads-eq, RoundTrips,
}
use zinc.ByteBuffer.Rules.{round_trip, IsReady, unread, IsWritten}
use zinc.ByteBuffer.Raw.{write_bytes-Writes, read_bytes-Reads, write_byte-Writes, read_byte-Reads}
use zinc.ByteBuffer.Raw.{byte-Codes, unsigned_byte-Codes}
use zinc.Numeric.{NumericType, bool, char, uchar, short, ushort, int, uint, long, ulong}
use zinc.Numeric.{float, double, size_of, to_memory, from_memory, in_order, ask_order}
use zinc.Numeric.{write_memory, read_memory, write_numeric, read_numeric, to_bool}
use zinc.Numeric.Bytes.{length-to_memory, from_memory-to_memory, length-in_order, in_order-in_order}
use mathlib.Core.Path.{subst}

-- The values of a type: `bool` is 0 or 1, and the others fill their bytes.
abbrev pub IsValue : NumericType → ℕ → Type 0
IsValue bool v = v < 2
IsValue t v = v < 256 ^ size_of t

pub write_memory-Writes :
    {e : Bool} (n v : ℕ) → Writes e (write_memory n v) (in_order e (to_memory n v))
unfolding write_memory
write_memory-Writes {e} n v = record {
  run = λ b ready o.
      subst (λ t. IsWritten b (in_order t (to_memory n v)) (write_memory n v b)) o
        ((write_bytes-Writes (in_order b.is_big_endian (to_memory n v))).run b ready refl);
}

pub ask_order-Reads : {e : Bool} → Reads e ask_order [] e
ask_order-Reads = record {
  run = λ b rest v o u. record {
    after = b;
    returns = ap (λ t. some (t, b)) o;
    valid = v;
    remains = u;
    same_order = refl;
  };
}

pub read_memory-Reads :
    {e : Bool} (n v : ℕ) → v < 256 ^ n → Reads e (read_memory n) (in_order e (to_memory n v)) v
unfolding read_memory
read_memory-Reads {e} n v fits = Reads-result stored (
    Reads-eq (append-nil bytes) (
      Reads-bind (λ bs. ask_order >>= λ order. pure (from_memory (in_order order bs)))
        (read_bytes-Reads bytes n (length-in_order e (to_memory n v) ∙ length-to_memory n v))
        (Reads-map (λ order. from_memory (in_order order bytes)) ask_order-Reads)))
  where
    bytes : List ℕ
    bytes = in_order e (to_memory n v)

    stored : from_memory (in_order e bytes) ≡ v
    stored = ap from_memory (in_order-in_order e (to_memory n v)) ∙ from_memory-to_memory n v fits

memory-Codes : {e : Bool} (n v : ℕ) → v < 256 ^ n → Codes e (write_memory n) (read_memory n) v
memory-Codes n v fits = record {
  bytes = _;
  writes = write_memory-Writes n v;
  reads = read_memory-Reads n v fits;
}

-- `bool` goes through one byte.
bool-Codes : {e : Bool} (v : ℕ) → v < 2 → Codes e (write_numeric bool) (read_numeric bool) v
unfolding write_numeric read_numeric
bool-Codes v fits = record {
  bytes = (if v == 0 then 0 else 1) ∷ [];
  writes = write_byte-Writes (if v == 0 then 0 else 1);
  reads =
      Reads-result (ground arith) (Reads-map to_bool (read_byte-Reads (if v == 0 then 0 else 1)));
}

pub numeric-Codes :
    {e : Bool} (t : NumericType) (v : ℕ)
    → IsValue t v
    → Codes e (write_numeric t) (read_numeric t) v
unfolding write_numeric read_numeric
numeric-Codes bool v fits = bool-Codes v fits
numeric-Codes char v fits = byte-Codes v
numeric-Codes uchar v fits = unsigned_byte-Codes v
numeric-Codes short v fits = memory-Codes 2 v fits
numeric-Codes ushort v fits = memory-Codes 2 v fits
numeric-Codes int v fits = memory-Codes 4 v fits
numeric-Codes uint v fits = memory-Codes 4 v fits
numeric-Codes long v fits = memory-Codes 8 v fits
numeric-Codes ulong v fits = memory-Codes 8 v fits
numeric-Codes float v fits = memory-Codes 4 v fits
numeric-Codes double v fits = memory-Codes 8 v fits

-- Into a valid buffer with nothing unread, in either byte order, `writeNumeric` and then
-- `readNumeric` give back every value of every arithmetic type, and leave nothing unread.
pub read_numeric-write_numeric :
    (t : NumericType) (v : ℕ) (b : ByteBuffer)
    → IsValue t v
    → IsReady b
    → unread b ≡ []
    → RoundTrips (write_numeric t) (read_numeric t) v b
read_numeric-write_numeric t v b fits ready none_left =
    round_trip b ready none_left (numeric-Codes t v fits)
