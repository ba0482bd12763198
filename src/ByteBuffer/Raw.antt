-- ===== src/ByteBuffer/Raw.antt =====
-- The rules of the raw operations, from the theorems about the block buffer.
use zinc.Common.{
  ℕ, ◌+◌, Bool, true, Option, some, List, [], ◌∷◌, ◌++◌, length, take, drop, ◌≡◌, refl,
}
use zinc.Common.{ap, sym, ◌∙◌, arith, length-append}
use zinc.Common.Slices.{take-append_length, drop-append_length}
use zinc.Buffer.View.{unread-init, init-IsValid, get_bytes-contents, length-contents, contents}
use zinc.Buffer.Writing.{write-IsAppended}
use zinc.Buffer.Reading.{read-IsConsumed}
use zinc.ByteBuffer.{ByteBuffer, empty, get_bytes, size, write_bytes, read_bytes, write_byte}
use zinc.ByteBuffer.{first_byte, read_byte, write_unsigned_byte, read_unsigned_byte, Action}
use zinc.ByteBuffer.{write_byte_array, read_byte_array, to_bytes}
use zinc.ByteBuffer.Rules.{Writes, Reads, IsWritten, IsReady, unread, Codes, Reads-bind}
use zinc.Buffer

pub write_bytes-Writes : {e : Bool} (bytes : List ℕ) → Writes e (write_bytes bytes) bytes
unfolding write_bytes
write_bytes-Writes bytes = record {
  run = λ b v o.
      let (after, returns, joined) = write-IsAppended b.internal_buffer bytes v in
      record {
        after = record b { internal_buffer = after };
        returns = rw (returns, write_bytes);
        joined = joined;
        same_order = refl;
      };
}

pub read_bytes-Reads :
    {e : Bool} (bytes : List ℕ) (n : ℕ) → length bytes ≡ n → Reads e (read_bytes n) bytes bytes
unfolding read_bytes
read_bytes-Reads bytes n len = record {
  run = λ b rest v o u.
      let (after, returns, consumed) =
        read-IsConsumed b.internal_buffer n v
          (omega (arith, ap length u, length-append bytes rest)) in
      record {
        after = record b { internal_buffer = after };
        returns =
            rw (returns, read_bytes)
              (ap (λ t. some (t, record b { internal_buffer = after }))
                (ap (λ t. take n t) u
                  ∙ (ap (λ k. take k (bytes ++ rest)) (sym len) ∙ take-append_length bytes rest)));
        valid = consumed.valid;
        remains =
            consumed.rest
            ∙ (ap (λ t. drop n t) u
                ∙ (ap (λ k. drop k (bytes ++ rest)) (sym len) ∙ drop-append_length bytes rest));
        same_order = refl;
      };
}

pub write_byte-Writes : {e : Bool} (c : ℕ) → Writes e (write_byte c) (c ∷ [])
unfolding write_byte
write_byte-Writes c = write_bytes-Writes (c ∷ [])

pub first_byte-Reads : {e : Bool} (c : ℕ) → Reads e (first_byte (c ∷ [])) [] c
first_byte-Reads c = record {
  run = λ b rest v o u. record {
    after = b;
    returns = refl;
    valid = v;
    remains = u;
    same_order = refl;
  };
}

pub read_byte-Reads : {e : Bool} (c : ℕ) → Reads e read_byte (c ∷ []) c
unfolding read_byte
read_byte-Reads c = Reads-bind first_byte (read_bytes-Reads (c ∷ []) 1 refl) (first_byte-Reads c)

pub write_unsigned_byte-Writes : {e : Bool} (c : ℕ) → Writes e (write_unsigned_byte c) (c ∷ [])
unfolding write_unsigned_byte
write_unsigned_byte-Writes c = write_byte-Writes c

pub read_unsigned_byte-Reads : {e : Bool} (c : ℕ) → Reads e read_unsigned_byte (c ∷ []) c
unfolding read_unsigned_byte
read_unsigned_byte-Reads c = read_byte-Reads c

pub byte-Codes : {e : Bool} (c : ℕ) → Codes e write_byte read_byte c
byte-Codes c = record { bytes = c ∷ []; writes = write_byte-Writes c; reads = read_byte-Reads c }

pub unsigned_byte-Codes : {e : Bool} (c : ℕ) → Codes e write_unsigned_byte read_unsigned_byte c
unsigned_byte-Codes c = record {
  bytes = c ∷ [];
  writes = write_unsigned_byte-Writes c;
  reads = read_unsigned_byte-Reads c;
}

pub byte_array-Codes :
    {e : Bool} (bytes : List ℕ) → Codes e write_byte_array (read_byte_array (length bytes)) bytes
unfolding write_byte_array read_byte_array
byte_array-Codes bytes = record {
  bytes = bytes;
  writes = write_bytes-Writes bytes;
  reads = read_bytes-Reads bytes (length bytes) refl;
}

pub empty-IsReady : (e : Bool) → IsReady (empty e)
unfolding empty
empty-IsReady e = init-IsValid

-- `toBytes` returns what its action writes.
pub to_bytes-Writes :
    {m : Action (Unit {0})} {bytes : List ℕ} → Writes true m bytes → to_bytes m ≡ some bytes
unfolding to_bytes get_bytes empty Buffer.init
to_bytes-Writes {m} {bytes} w =
    let one = w.run (empty true) (empty-IsReady true) refl in
    rw (one.returns, to_bytes)
      (ap some (get_bytes-contents _ one.joined.valid ∙ one.joined.appended))

-- A write makes the buffer grow by what it appends.
pub size-IsWritten :
    (b : ByteBuffer) (bytes : List ℕ) {outcome : Option (Unit {0} × ByteBuffer)}
    → IsReady b
    → (w : IsWritten b bytes outcome) → size w.after ≡ size b + length bytes
unfolding size Buffer.get_writer
size-IsWritten b bytes ready w =
    sym (length-contents _ w.joined.valid)
    ∙ (ap length w.joined.appended
        ∙ (length-append (contents b.internal_buffer) bytes
            ∙ ap (λ n. n + length bytes) (length-contents _ ready)))

pub unread-empty : (e : Bool) → unread (empty e) ≡ []
unfolding empty
unread-empty e = unread-init

-- A new buffer holds just what is written to it.
pub size-fresh :
    (e : Bool) (bytes : List ℕ) {outcome : Option (Unit {0} × ByteBuffer)}
    → (w : IsWritten (empty e) bytes outcome) → size w.after ≡ length bytes
unfolding size empty Buffer.get_writer Buffer.init
size-fresh e bytes w = omega (arith, size-IsWritten (empty e) bytes (empty-IsReady e) w)

pub get_bytes-fresh :
    (e : Bool) (bytes : List ℕ) {outcome : Option (Unit {0} × ByteBuffer)}
    → (w : IsWritten (empty e) bytes outcome) → get_bytes w.after ≡ bytes
unfolding get_bytes empty Buffer.init
get_bytes-fresh e bytes w = get_bytes-contents _ w.joined.valid ∙ w.joined.appended
