-- ===== src/Nbt/Parts.antt =====
-- The parts of an element come back: type, tag, numbers, counts and texts.
use zinc.Common.{
  ℕ, zero, suc, ◌^◌, ◌%◌, ◌<◌, ◌≡◌, refl, ap, sym, arith, subst, Bool, true, false, not,
}
use zinc.Common.{
  ◌&&◌, ◌==◌, lt→ltb, if◌then◌else◌, Option, some, List, [], ◌∷◌, ◌++◌, length, get_elem?, get_or,
  drop,
}
use zinc.Buffer.View.{contents, get_bytes-contents, length-contents}
use zinc.Buffer
use zinc.ByteBuffer.{
  ByteBuffer, Action, pure, when, ◌>>=◌, get_bytes, get_reader_pointer, size, read_bytes,
}
use zinc.ByteBuffer.Rules.{
  IsReady, unread, IsWritten, Writes, Reads, Codes, Writes-bind, Reads-bind, Writes-pure,
  Reads-pure, Reads-result,
}
use zinc.ByteBuffer.Raw.{write_bytes-Writes, read_bytes-Reads}
use zinc.Numeric.{
  is_signed, NumericType, bits_of, ask_order, write_numeric, read_numeric, truncate_to,
}
use zinc.Numeric.RoundTrip.{numeric-Codes, ask_order-Reads, IsValue}
use zinc.VarNumeric.{write_zig_zag_var_numeric, read_zig_zag_var_numeric}
use zinc.VarNumeric.ZigZag.{zig_zag-Codes}
use zinc.Text.{write_string, read_string}
use zinc.Text.Strings.{string-Codes}
use zinc.Nbt.Coding.{
  choose, by_order, write_number, read_number, write_count, read_count, write_short_string,
  read_short_string,
}
use zinc.Nbt.Coding.{write_text, read_text, write_tag, read_tag}
use zinc.Nbt.Decoding.{next_byte}

module _ (e network : Bool) (big net little : Action (Unit {0})) where
  pub by_order-Writes :
      {xs : List ℕ}
      → Writes e (choose e network big net little) xs
      → Writes e (by_order network big net little) xs
  by_order-Writes {xs} w = record {
    run = λ b v o.
        subst (λ t. IsWritten b xs (choose t network big net little b)) (sym o) (w.run b v o);
  }

module _ {ℓ} {A : Type ℓ} (e network : Bool) (big net little : Action A) where
  pub by_order-Reads :
      {xs : List ℕ} {a : A}
      → Reads e (choose e network big net little) xs a
      → Reads e (by_order network big net little) xs a
  by_order-Reads r = Reads-bind (λ t. choose t network big net little) ask_order-Reads r

pub Reads-ask {ℓ} :
    {A : Type ℓ} {e : Bool} (k : Bool → Action A) {xs : List ℕ} {a : A}
    → Reads e (k e) xs a
    → Reads e (ask_order >>= k) xs a
Reads-ask k r = Reads-bind k ask_order-Reads r

-- The three ways of a number, a text or a count, each with its own code.
module _ {ℓ} {A : Type ℓ} (e network : Bool) (wb wn wl : A → Action (Unit {0}))
    (rb rn rl : Action A) where
  pub by_order-Codes :
      (a : A)
      → Codes e wb rb a
      → Codes e wn rn a
      → Codes e wl rl a
      → Codes e (λ a. by_order network (wb a) (wn a) (wl a)) (by_order network rb rn rl) a
  by_order-Codes a b n l =
      let c = chosen e network b n l in
      record {
        bytes = c.bytes;
        writes = by_order-Writes e network (wb a) (wn a) (wl a) c.writes;
        reads = by_order-Reads e network rb rn rl c.reads;
      }
    where
      chosen :
          {a : A} (d m : Bool)
          → Codes e wb rb a
          → Codes e wn rn a
          → Codes e wl rl a
          → Codes e (λ a. choose d m (wb a) (wn a) (wl a)) (choose d m rb rn rl) a
      chosen true m b n l = b
      chosen false true b n l = n
      chosen false false b n l = l

pub number-Codes :
    {e : Bool} (network : Bool) (t : NumericType) (v : ℕ)
    → is_signed t ≡ true
    → v < 2 ^ bits_of t
    → IsValue t v
    → Codes e (write_number network t) (read_number network t) v
unfolding write_number read_number
number-Codes {e = e} network t v signed h valid =
    by_order-Codes e network (write_numeric t) (write_zig_zag_var_numeric t) (write_numeric t)
      (read_numeric t) (read_zig_zag_var_numeric t) (read_numeric t) v (numeric-Codes t v valid)
      (zig_zag-Codes t v signed h) (numeric-Codes t v valid)

pub count-Codes :
    {e : Bool} (network : Bool) (n : ℕ)
    → n < 2 ^ 32
    → Codes e (write_count network) (read_count network) n
unfolding write_count read_count
count-Codes {e = e} network n h =
    by_order-Codes e network (λ n. write_numeric NumericType.uint (truncate_to NumericType.uint n))
      (λ n. write_zig_zag_var_numeric NumericType.int (truncate_to NumericType.int n))
      (λ n. write_numeric NumericType.uint (truncate_to NumericType.uint n))
      (read_numeric NumericType.uint) (read_zig_zag_var_numeric NumericType.int)
      (read_numeric NumericType.uint) n fixed
      (let c = zig_zag-Codes {e = e} NumericType.int kept refl (omega arith) in
        record { bytes = c.bytes; writes = c.writes; reads = Reads-result same c.reads })
      fixed
  where
    kept : ℕ
    kept = n % 2 ^ 32

    same : kept ≡ n
    same = omega arith

    fixed :
        Codes e
          (λ n. write_numeric NumericType.uint (truncate_to NumericType.uint n))
          (read_numeric NumericType.uint)
          n
    fixed =
        let c = numeric-Codes {e = e} NumericType.uint kept (omega arith) in
        record { bytes = c.bytes; writes = c.writes; reads = Reads-result same c.reads }

pub short_string-Codes :
    {e : Bool} (s : List ℕ) → length s < 2 ^ 16 → Codes e write_short_string read_short_string s
unfolding write_short_string read_short_string
short_string-Codes {e = e} s h =
    let n = truncate_to NumericType.ushort (length s) in
    let c = numeric-Codes {e = e} NumericType.ushort n (omega arith) in
    record {
      bytes = c.bytes ++ s;
      writes = Writes-bind c.writes (write_bytes-Writes s);
      reads = Reads-bind read_bytes c.reads (read_bytes-Reads s n (omega arith));
    }

pub text-Codes :
    {e : Bool} (network : Bool) (s : List ℕ)
    → length s < 2 ^ 16
    → Codes e (write_text network) (read_text network) s
unfolding write_text read_text
text-Codes {e = e} network s h =
    by_order-Codes e network write_short_string write_string write_short_string read_short_string
      read_string read_short_string s (short_string-Codes s h) (string-Codes s (omega arith))
      (short_string-Codes s h)

never : (q : Bool) → (q && false) ≡ false
never true = refl
never false = refl

-- A big-endian tag is left out where it is empty and the setting is for the network.
big_tag :
    (network : Bool) (tag : List ℕ)
    → length tag < 2 ^ 16
    → (network ≡ true → tag ≡ [])
    → Codes true
        (λ tag. when (not ((length tag == 0) && network)) (write_short_string tag))
        (if not network then read_short_string else pure [])
        tag
big_tag true tag h none_sent =
    subst
      (λ t.
        Codes true (λ tag. when (not ((length tag == 0) && true)) (write_short_string tag))
          (pure []) t)
      (sym (none_sent refl)) (record { bytes = []; writes = Writes-pure; reads = Reads-pure [] })
big_tag false tag h none_sent =
    let c = short_string-Codes {e = true} tag h in
    record { bytes = c.bytes; writes = rw (never (length tag == 0)) c.writes; reads = c.reads }

-- A tag comes back; in a big-endian network buffer only the empty one.
pub tag-Codes :
    (e network : Bool) (tag : List ℕ)
    → length tag < 2 ^ 16
    → ((e && network) ≡ true → tag ≡ [])
    → Codes e (write_tag network) (read_tag network) tag
unfolding write_tag read_tag
tag-Codes true network tag h none_sent =
    let c = big_tag network tag h none_sent in
    record {
      bytes = c.bytes;
      writes = by_order-Writes true network _ (write_string tag) (write_short_string tag) c.writes;
      reads = by_order-Reads true network _ read_string read_short_string c.reads;
    }
tag-Codes false network tag h none_sent = little network
  where
    little : (network : Bool) → Codes false (write_tag network) (read_tag network) tag
    little true =
        let c = string-Codes {e = false} tag (omega arith) in
        record {
          bytes = c.bytes;
          writes =
              by_order-Writes false true _ (write_string tag) (write_short_string tag) c.writes;
          reads = by_order-Reads false true _ read_string read_short_string c.reads;
        }
    little false =
        let c = short_string-Codes {e = false} tag h in
        record {
          bytes = c.bytes;
          writes =
              by_order-Writes false false _ (write_string tag) (write_short_string tag) c.writes;
          reads = by_order-Reads false false _ read_string read_short_string c.reads;
        }

-- What is next is looked at and not taken.
get_elem?-drop :
    (xs : List ℕ) (k c : ℕ) (rest : List ℕ)
    → drop k xs ≡ c ∷ rest
    → (get_elem? xs k ≡ some c) × (k < length xs)
get_elem?-drop [] zero c rest h = absurd (omega (arith, ap length h))
get_elem?-drop [] (suc k) c rest h = absurd (omega (arith, ap length h))
get_elem?-drop (x ∷ xs) zero c rest h = (ap some (ap (λ l. get_or l 0 0) h), omega arith)
get_elem?-drop (x ∷ xs) (suc k) c rest h =
    let found = get_elem?-drop xs k c rest h in (found.0, omega (arith, found.1))

next_byte_lem :
    (b : ByteBuffer) (c : ℕ) (rest : List ℕ)
    → IsReady b
    → unread b ≡ c ∷ rest
    → next_byte b ≡ some (some c, b)
unfolding next_byte get_bytes get_reader_pointer size Buffer.get_reader Buffer.get_writer
next_byte_lem b c rest v u =
    let s = b.internal_buffer in
    let found = get_elem?-drop (contents s) (Buffer.read_position s) c rest u in
    rw
      (
        get_bytes-contents s v,
        found.0,
        lt→ltb (Buffer.read_position s) (Buffer.write_position s)
            (omega (arith, found.1, length-contents s v)),
        next_byte,
      )
      refl

pub Reads-next {ℓ} :
    {A : Type ℓ} {e : Bool} (f : Option ℕ → Action A) (c : ℕ) (xs : List ℕ) {a : A}
    → Reads e (f (some c)) (c ∷ xs) a
    → Reads e (next_byte >>= f) (c ∷ xs) a
Reads-next f c xs {a} r = record {
  run = λ b rest v o u. rw (next_byte_lem b c (xs ++ rest) v u, ◌>>=◌) (r.run b rest v o u);
}
