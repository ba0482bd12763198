-- ===== src/IdSets/Coding.antt =====
-- A set of registry entries comes back, in both of its forms.
use zinc.Common.{ℕ, ◌+◌, ◌^◌, ◌<◌, ◌≡◌, refl, ap, ◌∙◌, arith, List, [], ◌∷◌, ◌++◌, length, All}
use zinc.Common.{Bool, ==_ne}
use zinc.ByteBuffer.{ByteBuffer, pure, ◌>>=◌}
use zinc.ByteBuffer.Rules.{Codes, Writes-bind, Reads-bind, Reads-map, Reads-action}
use zinc.ByteBuffer.Rules.{IsReady, unread, RoundTrips, round_trip}
use zinc.Numeric.{int, truncate_to}
use zinc.VarNumeric.{write_var_numeric, read_var_numeric}
use zinc.VarNumeric.RoundTrip.{var_numeric-Codes}
use zinc.Text.{Identifier, to_string}
use zinc.Text.Strings.{IsLength}
use zinc.Text.Identifiers.{HasNoColon, identifier-Codes}
use zinc.Arrays.{read_array}
use zinc.Arrays.Sequences.{array-Codes}
use zinc.IdSets.{no_set, of_identifier, of_ids, set_identifier, set_ids, set_type, write_id_set}
use zinc.IdSets.{read_members, read_id_set, count_of}

pub of_identifier-Codes :
    {e : Bool} (i : Identifier)
    → HasNoColon i.name_space
    → IsLength (length (to_string i))
    → Codes e write_id_set read_id_set (of_identifier i)
unfolding write_id_set read_id_set read_members of_identifier set_type set_identifier no_set
of_identifier-Codes {e = e} i h short =
    let n = var_numeric-Codes {e = e} int 0 (omega arith) in
    let c = identifier-Codes {e = e} i h short in
    record {
      bytes = n.bytes ++ c.bytes;
      writes = Writes-bind n.writes c.writes;
      reads =
          Reads-bind read_members n.reads
            (Reads-map (λ i. set_identifier i (set_type 0 no_set)) c.reads);
    }

-- The numbers of registry entries that an `int` holds, in a number that the type can count.
abbrev pub AreIds : List ℕ → Type 0
AreIds ids = (length ids + 1 < 2 ^ 31) × All (λ id. id < 2 ^ 32) ids

-- A type other than 0 is followed by one number less than it.
members_of :
    (n : ℕ)
    → n + 1 < 2 ^ 31
    → read_members (n + 1)
      ≡ (do ids ← read_array (read_var_numeric int) n; pure (set_ids ids (set_type (n + 1) no_set)))
unfolding read_members set_type no_set
members_of n h = rw (==_ne (n + 1) 0 (λ e. absurd (omega arith)), counted) refl
  where
    counted : count_of (n + 1) ≡ n
    counted = ground arith

all-Codes :
    (e : Bool) (ids : List ℕ)
    → All (λ id. id < 2 ^ 32) ids
    → All (λ id. Codes e (write_var_numeric int) (read_var_numeric int) id) ids
all-Codes e [] h = tt
all-Codes e (id ∷ ids) (small, rest) = (var_numeric-Codes int id small, all-Codes e ids rest)

pub of_ids-Codes :
    {e : Bool} (ids : List ℕ) → AreIds ids → Codes e write_id_set read_id_set (of_ids ids)
unfolding write_id_set read_id_set of_ids set_ids set_type no_set
of_ids-Codes {e = e} ids (short, small) =
    let type_ = truncate_to int (length ids + 1) in
    let n = var_numeric-Codes {e = e} int type_ (omega arith) in
    let c =
      array-Codes (write_var_numeric int) (read_var_numeric int) {e = e} ids
        (all-Codes e ids small) in
    record {
      bytes = n.bytes ++ c.bytes;
      writes = Writes-bind n.writes (rw (==_ne type_ 0 (λ z. absurd (omega arith))) c.writes);
      reads = Reads-bind read_members n.reads (
          Reads-action (ap read_members kept ∙ members_of (length ids) short)
            (Reads-map (λ ids. set_ids ids (set_type (length ids + 1) no_set)) c.reads));
    }
  where
    kept : truncate_to int (length ids + 1) ≡ length ids + 1
    kept = omega arith

-- Into a valid buffer with nothing unread, `writeIDSet` and then `readIDSet` give back every set
-- that lists fewer than 2 ^ 31 - 1 numbers, the empty one included.
pub read_id_set-write_id_set :
    (ids : List ℕ) (b : ByteBuffer)
    → AreIds ids
    → IsReady b
    → unread b ≡ []
    → RoundTrips write_id_set read_id_set (of_ids ids) b
read_id_set-write_id_set ids b h ready none_left = round_trip b ready none_left (of_ids-Codes ids h)
