-- ===== src/Text/Identifiers.antt =====
-- Identifiers and their text.
use zinc.Common.{ℕ, suc, ◌+◌, ◌≡◌, ◌≢◌, refl, ap, ◌∙◌, arith, Bool}
use zinc.Common.{some, List, [], ◌∷◌, ◌++◌, length, drop, All, ==_ne}
use zinc.Common.{==_self, append-nil}
use zinc.Common.Slices.{take-append_length}
use zinc.ByteBuffer.{ByteBuffer}
use zinc.ByteBuffer.Rules.{
  Codes, Reads-pure, Reads-action, Reads-bind, Reads-eq, IsReady, unread, RoundTrips, round_trip,
}
use zinc.Text.{Identifier, find, parse_identifier, to_string}
use zinc.Text.{write_identifier, read_identifier, or_throw}
use zinc.Text.Strings.{IsLength, string-Codes}

abbrev pub HasNoColon : List ℕ → Type 0
HasNoColon = All (λ c. c ≢ b':')

find-append :
    (c : ℕ) (xs ys : List ℕ) → All (λ d. d ≢ c) xs → find c (xs ++ (c ∷ ys)) ≡ some (length xs)
unfolding find
find-append c [] ys h = rw (==_self c, find)
find-append c (x ∷ xs) ys (hx, hxs) =
    rw (==_ne x c hx, find-append c xs ys hxs, find) (ap some one_more)
  where
    one_more : length xs + 1 ≡ suc (length xs)
    one_more = omega arith

-- Printing and parsing again gives the identifier, where its namespace has no colon.
pub parse-to_string :
    (i : Identifier) → HasNoColon i.name_space → parse_identifier (to_string i) ≡ some i
unfolding parse_identifier to_string
parse-to_string i h =
    rw (find-append b':' i.name_space i.object h, parse_identifier)
      (λ k. some (record {
        name_space = take-append_length i.name_space (b':' ∷ i.object) k;
        object = drop-after i.name_space i.object k;
      }))
  where
    drop-after : (xs ys : List ℕ) → drop (length xs + 1) (xs ++ (b':' ∷ ys)) ≡ ys
    drop-after [] ys = refl
    drop-after (x ∷ xs) ys = ap (λ n. drop n (x ∷ (xs ++ (b':' ∷ ys)))) one_more ∙ drop-after xs ys
      where
        one_more : suc (length xs) + 1 ≡ suc (length xs + 1)
        one_more = omega arith

pub identifier-Codes :
    {e : Bool} (i : Identifier)
    → HasNoColon i.name_space
    → IsLength (length (to_string i))
    → Codes e write_identifier read_identifier i
unfolding write_identifier read_identifier
identifier-Codes {e} i h short =
    let c = string-Codes {e = e} (to_string i) short in
    record {
      bytes = c.bytes;
      writes = c.writes;
      reads = Reads-eq (append-nil c.bytes) (
          Reads-bind (λ value. or_throw (parse_identifier value)) c.reads
            (Reads-action (ap or_throw (parse-to_string i h)) (Reads-pure i)));
    }

-- Into a valid buffer with nothing unread, `writeIdentifier` and then `readIdentifier` give back
-- every identifier whose namespace has no colon and whose text has fewer than 2 ^ 31 bytes.
pub read_identifier-write_identifier :
    (i : Identifier) (b : ByteBuffer)
    → HasNoColon i.name_space
    → IsLength (length (to_string i))
    → IsReady b
    → unread b ≡ []
    → RoundTrips write_identifier read_identifier i b
read_identifier-write_identifier i b h short ready none_left =
    round_trip b ready none_left (identifier-Codes i h short)
