-- ===== src/Sounds/Coding.antt =====
-- A sound event with a fixed range comes back; one without a range comes back too, but four bytes
-- that were written for it stay in the buffer.
use zinc.Common.{ℕ, ◌^◌, ◌<◌, ◌≡◌, sym, [], ◌∷◌, ◌++◌, length, append_assoc}
use zinc.Common.{Bool, true, false, not, ◌==◌, if◌then◌else◌, Option, none, some}
use zinc.ByteBuffer.{ByteBuffer, Action, ◌>>=◌, read_byte}
use zinc.ByteBuffer.Rules.{
  Writes, Codes, Writes-bind, Reads-bind, Reads-map, Reads-pure, IsReady, unread,
}
use zinc.ByteBuffer.Rules.{Leaves, leaves, Writes-eq, round_trip}
use zinc.ByteBuffer.Raw.{write_byte-Writes, read_byte-Reads}
use zinc.Numeric.{float, write_numeric, to_memory}
use zinc.Numeric.RoundTrip.{numeric-Codes, write_memory-Writes}
use zinc.Text.{Identifier, to_string}
use zinc.Text.Strings.{IsLength}
use zinc.Text.Identifiers.{HasNoColon, identifier-Codes}
use zinc.Arrays.{has_value}
use zinc.Sounds.{SoundEvent, of_identifier, has_fixed_range, get_fixed_range, set_fixed_range}
use zinc.Sounds.{write_sound_event, read_range, read_sound_event}

abbrev pub IsName : Identifier → Type 0
IsName i = HasNoColon i.name_space × IsLength (length (to_string i))

-- What follows the identifier when the events are read.
abbrev read_rest : Identifier → Action SoundEvent
read_rest i = read_byte >>= λ flag. read_range (of_identifier i) (not (flag == 0))

-- A range that was set.
ranged-Codes :
    {e : Bool} (i : Identifier)
    → IsName i
    → (range : ℕ) → range < 2 ^ 32
    → Codes e write_sound_event read_sound_event (set_fixed_range range (of_identifier i))
unfolding write_sound_event read_sound_event read_range has_fixed_range get_fixed_range
    set_fixed_range of_identifier has_value
ranged-Codes {e = e} i name range small =
    let c = identifier-Codes {e = e} i name.0 name.1 in
    let r = numeric-Codes {e = e} float range small in
    record {
      bytes = c.bytes ++ ((1 ∷ []) ++ r.bytes);
      writes = Writes-bind c.writes (Writes-bind (write_byte-Writes 1) r.writes);
      reads = Reads-bind read_rest c.reads (
          Reads-bind (λ flag. read_range (of_identifier i) (not (flag == 0))) (read_byte-Reads 1)
            (Reads-map (λ r. set_fixed_range r (of_identifier i)) r.reads));
    }

-- No range: four zero bytes are written and not read.
zero_range-Writes : {e : Bool} → Writes e (write_numeric float 0) (0 ∷ 0 ∷ 0 ∷ 0 ∷ [])
unfolding write_numeric to_memory
zero_range-Writes {e = true} = write_memory-Writes 4 0
zero_range-Writes {e = false} = write_memory-Writes 4 0

unranged :
    (i : Identifier) (b : ByteBuffer)
    → IsName i
    → IsReady b
    → unread b ≡ []
    → Leaves
        (write_sound_event (of_identifier i))
        read_sound_event
        (of_identifier i)
        (0 ∷ 0 ∷ 0 ∷ 0 ∷ [])
        b
unfolding write_sound_event read_sound_event read_range has_fixed_range get_fixed_range
    of_identifier has_value
unranged i b name ready none_left =
    let c = identifier-Codes {e = b.is_big_endian} i name.0 name.1 in
    leaves (c.bytes ++ (0 ∷ [])) (0 ∷ 0 ∷ 0 ∷ 0 ∷ []) b ready none_left
      (Writes-eq (sym (append_assoc c.bytes (0 ∷ []) (0 ∷ 0 ∷ 0 ∷ 0 ∷ [])))
        (Writes-bind c.writes (Writes-bind (write_byte-Writes 0) zero_range-Writes)))
      (Reads-bind read_rest c.reads (
        Reads-bind (λ flag. read_range (of_identifier i) (not (flag == 0))) (read_byte-Reads 0)
          (Reads-pure (of_identifier i))))

abbrev pub IsRange : Option ℕ → Type 0
IsRange none = Unit
IsRange (some range) = range < 2 ^ 32

by_range :
    (i : Identifier) (fixed_range : Option ℕ) (b : ByteBuffer)
    → IsName i
    → IsRange fixed_range
    → IsReady b
    → unread b ≡ []
    → (let s : SoundEvent = record { identifier = i; fixed_range = fixed_range } in
        Leaves
          (write_sound_event s)
          read_sound_event
          s
          (if has_fixed_range s then [] else 0 ∷ 0 ∷ 0 ∷ 0 ∷ [])
          b)
unfolding has_fixed_range of_identifier set_fixed_range has_value
by_range i none b name small ready none_left = unranged i b name ready none_left
by_range i (some range) b name small ready none_left =
    round_trip {w = write_sound_event} b ready none_left (ranged-Codes i name range small)

-- Into a valid buffer with nothing unread, `writeSoundEvent` and then `readSoundEvent` give back
-- every sound event whose name's namespace has no colon and whose name's text has fewer than 2 ^ 31 bytes,
-- with a range, if any, of 32 bits. Nothing stays unread where the event has a fixed range; without one, the four
-- zero bytes that were written for it stay in front of whatever is written next.
pub read_sound_event-write_sound_event :
    (s : SoundEvent) (b : ByteBuffer)
    → IsName s.identifier
    → IsRange s.fixed_range
    → IsReady b
    → unread b ≡ []
    → Leaves
        (write_sound_event s)
        read_sound_event
        s
        (if has_fixed_range s then [] else 0 ∷ 0 ∷ 0 ∷ 0 ∷ [])
        b
read_sound_event-write_sound_event s b name small ready none_left =
    by_range s.identifier s.fixed_range b name small ready none_left
