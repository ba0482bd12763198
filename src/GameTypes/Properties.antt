-- ===== src/GameTypes/Properties.antt =====
-- A block property comes back, without the values that its flag does not ask for.
use zinc.Common.{
  ℕ, ◌≡◌, sym, subst, Bool, true, false, not, ◌==◌, if◌then◌else◌, List, [], ◌∷◌, ◌++◌, length,
}
use zinc.ByteBuffer.{ByteBuffer, Action, pure, ◌>>=◌, write_byte_array}
use zinc.ByteBuffer.Rules.{
  Writes, Reads, Codes, Writes-bind, Reads-bind, Reads-map, IsReady, unread, Leaves, round_trip,
}
use zinc.ByteBuffer.Raw.{write_byte-Writes, read_byte-Reads, write_bytes-Writes, to_bytes-Writes}
use zinc.Text.{read_string}
use zinc.Text.Strings.{IsLength, string-Codes}
use zinc.GameTypes.{
  Property, put_property, write_value, write_property, read_flag, read_property,
  read_property_values,
}

-- What a `toBytes` writes is written as it is.
pub value-Writes :
    {e : Bool} (m : Action (Unit {0})) (xs : List ℕ)
    → Writes true m xs
    → Writes e (write_value m) xs
unfolding write_byte_array
value-Writes m xs w = record {
  run = λ b v o. rw (to_bytes-Writes w, write_value) ((write_bytes-Writes xs).run b v o);
}

pub flag-Reads : {e : Bool} (flag : Bool) → Reads e read_flag ((if flag then 1 else 0) ∷ []) flag
flag-Reads true = Reads-map (λ c. not (c == 0)) (read_byte-Reads 1)
flag-Reads false = Reads-map (λ c. not (c == 0)) (read_byte-Reads 0)

-- The values that the flag asks for.
abbrev pub relevant : Property → Property
relevant p = record {
  name = p.name;
  is_exact = p.is_exact;
  exact_value = if p.is_exact then p.exact_value else [];
  min_value = if p.is_exact then [] else p.min_value;
  max_value = if p.is_exact then [] else p.max_value;
}

abbrev pub IsProperty : Property → Type 0
IsProperty p =
    IsLength (length p.name)
    × IsLength (length p.exact_value)
    × IsLength (length p.min_value)
    × IsLength (length p.max_value)

-- The values after the flag.
record Values (p : Property) : Type 0 where
  bytes : List ℕ
  writes : Writes true (put_property p) bytes
  reads : Reads true read_property bytes (relevant p)

values :
    (name : List ℕ) (is_exact : Bool) (exact_value low high : List ℕ)
    → (let p : Property = record {
      name = name;
      is_exact = is_exact;
      exact_value = exact_value;
      min_value = low;
      max_value = high;
    } in
        IsProperty p → Values p)
unfolding put_property read_property read_property_values
values name true value low high (hn, hv, _, _) =
    let n = string-Codes {e = true} name hn in
    let v = string-Codes {e = true} value hv in
    record {
      bytes = n.bytes ++ ((1 ∷ []) ++ v.bytes);
      writes = Writes-bind n.writes (Writes-bind (write_byte-Writes 1) v.writes);
      reads =
          Reads-bind (λ name. read_flag >>= λ flag. read_property_values name flag) n.reads
            (Reads-bind (λ flag. read_property_values name flag) (flag-Reads true)
              (Reads-map
                (λ value. record {
                  name = name;
                  is_exact = true;
                  exact_value = value;
                  min_value = [];
                  max_value = [];
                })
                v.reads));
    }
values name false value low high (hn, _, hl, hh) =
    let n = string-Codes {e = true} name hn in
    let l = string-Codes {e = true} low hl in
    let h = string-Codes {e = true} high hh in
    record {
      bytes = n.bytes ++ ((0 ∷ []) ++ (l.bytes ++ h.bytes));
      writes =
          Writes-bind n.writes (Writes-bind (write_byte-Writes 0) (Writes-bind l.writes h.writes));
      reads =
          Reads-bind (λ name. read_flag >>= λ flag. read_property_values name flag) n.reads
            (Reads-bind (λ flag. read_property_values name flag) (flag-Reads false)
              (Reads-bind
                (λ low. read_string >>= λ high. pure (record {
                  name = name;
                  is_exact = false;
                  exact_value = [];
                  min_value = low;
                  max_value = high;
                }))
                l.reads
                (Reads-map
                  (λ high. record {
                    name = name;
                    is_exact = false;
                    exact_value = [];
                    min_value = low;
                    max_value = high;
                  })
                  h.reads)));
    }

-- Into a valid big-endian buffer with nothing unread, `writeProperty` and then `readProperty` give
-- back every property whose texts are shorter than 2 ^ 31 bytes, with the values that its flag does
-- not ask for left empty, and leave nothing unread.
pub read_property-write_property :
    (p : Property) (b : ByteBuffer)
    → IsProperty p
    → IsReady b
    → unread b ≡ []
    → b.is_big_endian ≡ true
    → Leaves (write_property p) read_property (relevant p) [] b
unfolding write_property
read_property-write_property p b h ready none_left big =
    let c = values p.name p.is_exact p.exact_value p.min_value p.max_value h in
    round_trip {w = λ _. write_property p} b ready none_left (
      subst (λ e. Codes e (λ _. write_property p) read_property (relevant p)) (sym big)
        (record {
          bytes = c.bytes;
          writes = value-Writes (put_property p) c.bytes c.writes;
          reads = c.reads;
        }))
