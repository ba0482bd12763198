-- ===== src/Text/Strings.antt =====
-- A string comes back, and so does the length in front of a sequence.
use zinc.Common.{ℕ, ◌^◌, ◌<◌, ◌≡◌, refl, ap, ◌∙◌, arith, Bool, List, [], ◌++◌}
use zinc.Common.{length}
use zinc.Numeric.{int, ulong, sign_extend, truncate_to}
use zinc.ByteBuffer.{ByteBuffer, read_bytes}
use zinc.ByteBuffer.Rules.{
  Codes, Writes, Reads, Writes-eq, Writes-bind, Reads-bind, Reads-map, Reads-result,
}
use zinc.ByteBuffer.Rules.{IsReady, unread, RoundTrips, round_trip}
use zinc.ByteBuffer.Raw.{write_bytes-Writes, read_bytes-Reads}
use zinc.VarNumeric.Groups.{var_bytes, write_var_numeric-Writes}
use zinc.VarNumeric.RoundTrip.{read_var_numeric-Reads}
use zinc.Text.{write_length, read_length, write_string, read_string}

-- Lengths that an `int` holds.
abbrev pub IsLength : ℕ → Type 0
IsLength n = n < 2 ^ 31

-- Both casts keep such a length.
pub cast_length : (n : ℕ) → IsLength n → sign_extend int ulong (truncate_to int n) ≡ n
cast_length n h = ground arith

pub write_length-Writes :
    {e : Bool} (n : ℕ) → IsLength n → Writes e (write_length n) (var_bytes int n)
unfolding write_length
write_length-Writes n h =
    Writes-eq (ap (var_bytes int) (kept n h))
      (write_var_numeric-Writes int (truncate_to int n) (omega arith))
  where
    kept : (n : ℕ) → IsLength n → truncate_to int n ≡ n
    kept n h = omega arith

pub read_length-Reads : {e : Bool} (n : ℕ) → IsLength n → Reads e read_length (var_bytes int n) n
unfolding read_length
read_length-Reads n h =
    Reads-result (ap (sign_extend int ulong) (kept n h) ∙ cast_length n h)
      (Reads-map (sign_extend int ulong) (read_var_numeric-Reads int n (omega arith)))
  where
    kept : (n : ℕ) → IsLength n → n ≡ truncate_to int n
    kept n h = omega arith

pub length-Codes : {e : Bool} (n : ℕ) → IsLength n → Codes e write_length read_length n
length-Codes n h = record {
  bytes = var_bytes int n;
  writes = write_length-Writes n h;
  reads = read_length-Reads n h;
}

-- A text with its length in front, as bytes.
abbrev pub prefixed : List ℕ → List ℕ
prefixed s = var_bytes int (length s) ++ s

pub write_string-Writes :
    {e : Bool} (s : List ℕ) → IsLength (length s) → Writes e (write_string s) (prefixed s)
unfolding write_string
write_string-Writes s h = Writes-bind (write_length-Writes (length s) h) (write_bytes-Writes s)

pub read_string-Reads :
    {e : Bool} (s : List ℕ) → IsLength (length s) → Reads e read_string (prefixed s) s
unfolding read_string
read_string-Reads s h =
    Reads-bind read_bytes (read_length-Reads (length s) h) (read_bytes-Reads s (length s) refl)

pub string-Codes :
    {e : Bool} (s : List ℕ) → IsLength (length s) → Codes e write_string read_string s
string-Codes s h = record {
  bytes = prefixed s;
  writes = write_string-Writes s h;
  reads = read_string-Reads s h;
}

-- Into a valid buffer with nothing unread, `writeString` and then `readString` give back every
-- string of fewer than 2 ^ 31 bytes, and leave nothing unread.
read_string-write_string :
    (s : List ℕ) (b : ByteBuffer)
    → IsLength (length s)
    → IsReady b
    → unread b ≡ []
    → RoundTrips write_string read_string s b
read_string-write_string s b h ready none_left = round_trip b ready none_left (string-Codes s h)
