-- ===== src/Nbt/Headers.antt =====
-- The type byte and the tag in front of a value: in a compound or at the top both are written, in a
-- list neither.
use zinc.Common.{
  ℕ, suc, ◌≡◌, refl, ap, sym, ◌∙◌, subst, Bool, true, false, not, ◌&&◌, if-both, ==_ne, arith, List,
  [], ◌∷◌, ◌++◌,
}
use zinc.ByteBuffer.{Action, when, ◌>>=◌, ◌>>◌, write_byte}
use zinc.ByteBuffer.Rules.{
  Writes, Reads, Codes, Writes-bind, Reads-bind, Reads-map, Reads-pure, Reads-result,
}
use zinc.ByteBuffer.Raw.{write_byte-Writes, read_byte-Reads}
use zinc.Nbt.{NbtElementType, end, to_char, of_char, NbtSettings, plain, NbtElement, element}
use zinc.Nbt.Coding.{
  is_end, override, type_of, tag_of, item_settings, first_type, write_body, write_list, write_tag,
  read_tag, encode_as, encode_all,
}
use zinc.Nbt.Decoding.{read_type, read_tag_of, decode_body, decode}

-- What `encode` writes after type and tag, without an overriding type.
abbrev pub body_of : Bool → NbtElement → Action (Unit {0})
body_of network (element _ tag t v children) =
    write_body network t v
      (write_list network children (encode_all (item_settings (first_type children)) children))
      (do encode_all plain children; write_byte 0)

-- The settings of an element that has its own type byte and tag.
abbrev pub named : Bool → NbtSettings
named network = record { is_in_array = false; is_network = network; type_ = end }

-- The codes of what stands after type and tag, where `el` decodes with settings `s` and fuel `n`.
pub record BodyCodes (e : Bool) (n : ℕ) (s : NbtSettings) (k : NbtElementType) (el : NbtElement)
    : Type 0 where
  pub bytes : List ℕ
  pub writes : Writes e (body_of s.is_network el) bytes
  pub reads : Reads e (decode_body n (decode n) s (tag_of el) k) bytes el

pub not_end : (k : NbtElementType) (c : ℕ) → to_char k ≡ suc c → is_end k ≡ false
not_end k c p = ==_ne (to_char k) 0 (λ e. absurd (omega (arith, e, p)))

named-Writes :
    {e : Bool} (network : Bool) (el : NbtElement) (ys zs : List ℕ) (c : ℕ)
    → to_char (type_of el) ≡ suc c
    → Writes e (write_tag network (tag_of el)) ys
    → Writes e (body_of network el) zs
    → Writes e (encode_as (named network) el) ((to_char (type_of el) ∷ []) ++ (ys ++ zs))
unfolding encode_as override to_char
named-Writes network (element s tag t v children) ys zs c p wt wb =
    Writes-bind (write_byte-Writes (to_char t)) (Writes-bind (rw (not_end t c p) wt) wb)

-- With its type byte, the first byte, and its tag, an element comes back.
pub named-Codes :
    {e : Bool} (n : ℕ) (network : Bool) (k : NbtElementType) (c : ℕ) (el : NbtElement)
    → type_of el ≡ k
    → of_char (to_char k) ≡ k
    → to_char k ≡ suc c
    → Codes e (write_tag network) (read_tag network) (tag_of el)
    → (body : BodyCodes e n (named network) k el)
    → (found : Codes e (encode_as (named network)) (decode (suc n) (named network)) el)
      × (tail : List ℕ) × (found.bytes ≡ to_char k ∷ tail)
unfolding decode read_type read_tag_of
named-Codes {e = e} n network k c el same back p tag body = (
  record {
    bytes = (to_char k ∷ []) ++ (tag.bytes ++ body.bytes);
    writes =
        subst
          (λ j.
            Writes e (encode_as (named network) el) ((to_char j ∷ []) ++ (tag.bytes ++ body.bytes)))
          same
          (named-Writes network el tag.bytes body.bytes c (ap to_char same ∙ p) tag.writes
            body.writes);
    reads =
        Reads-bind
          (λ t.
            read_tag_of (named network) t >>= λ tag. decode_body n (decode n) (named network) tag t)
          (Reads-result back (Reads-map of_char (read_byte-Reads (to_char k))))
          (Reads-bind (λ tag. decode_body n (decode n) (named network) tag k)
            (rw (not_end k c p, read_tag_of) tag.reads) body.reads);
  },
  tag.bytes ++ body.bytes,
  refl,
)

when_never :
    {e : Bool} (q : Bool) (w m : Action (Unit {0})) (xs : List ℕ)
    → Writes e m xs
    → Writes e (when (q && false) w >> m) xs
when_never true w m xs h = h
when_never false w m xs h = h

item-Writes :
    {e : Bool} (k : NbtElementType) (el : NbtElement) (zs : List ℕ)
    → type_of el ≡ k
    → Writes e (body_of false el) zs
    → Writes e (encode_as (item_settings k) el) zs
unfolding encode_as override
item-Writes {e = e} k (element s tag t v children) zs p wb =
    when_never (not (is_end (override (item_settings k) t))) (write_tag false tag) _ zs (
      subst
        (λ o.
          Writes e
            (write_body false o v
              (write_list false children
                (encode_all (item_settings (first_type children)) children))
              (do encode_all plain children; write_byte 0))
            zs)
        (sym (if-both (λ o. o ≡ t) (is_end k) refl (sym p))) wb)

-- In a list, without them, an element comes back too.
pub item-Codes :
    {e : Bool} (n : ℕ) (k : NbtElementType) (c : ℕ) (el : NbtElement)
    → type_of el ≡ k
    → tag_of el ≡ []
    → to_char k ≡ suc c
    → BodyCodes e n (item_settings k) k el
    → Codes e (encode_as (item_settings k)) (decode (suc n) (item_settings k)) el
unfolding decode read_type read_tag_of
item-Codes {e = e} n k c el same untagged p body = record {
  bytes = body.bytes;
  writes = item-Writes k el body.bytes same body.writes;
  reads =
      Reads-bind (λ tag. decode_body n (decode n) (item_settings k) tag k) no_tag
        (subst (λ tag. Reads e (decode_body n (decode n) (item_settings k) tag k) body.bytes el)
          untagged body.reads);
}
  where
    no_tag : Reads e (read_tag_of (item_settings k) k) [] []
    no_tag = rw (not_end k c p, read_tag_of) (Reads-pure [])
