-- ===== src/Predicates/Matchers.antt =====
-- A matcher whose predicate is built from a tree comes back.
use zinc.Common.{ℕ, suc, ◌^◌, ◌<◌, ◌≤◌, ◌≡◌, refl, sym, subst, inr, arith, true, [], ◌++◌}
use zinc.ByteBuffer.{ByteBuffer}
use zinc.ByteBuffer.Rules.{
  Codes, Writes-bind, Reads-bind, Reads-map, IsReady, unread, RoundTrips, round_trip,
}
use zinc.Numeric.{int}
use zinc.VarNumeric.RoundTrip.{var_numeric-Codes}
use zinc.GameTypes.Properties.{value-Writes}
use zinc.Nbt.Trees.{Tree, build, IsTree, weight}
use zinc.Nbt.RoundTrip.{element-Codes}
use zinc.Predicates.{
  network_settings, write_nbt_element, read_nbt_element, PartialDataComponentMatcher, put_matcher,
  write_matcher, read_matcher,
}

-- The matcher of a type and a tree.
abbrev pub matcher : ℕ → Tree → PartialDataComponentMatcher
matcher type_ t = record { type_ = type_; predicate = build network_settings [] t }

matcher-Codes :
    (type_ : ℕ) (t : Tree) (n : ℕ)
    → type_ < 2 ^ 32
    → IsTree t
    → weight t ≤ suc n
    → Codes true write_matcher (read_matcher (suc n)) (matcher type_ t)
unfolding write_matcher read_matcher put_matcher write_nbt_element read_nbt_element
matcher-Codes type_ t n h valid fuel =
    let v = var_numeric-Codes {e = true} int type_ h in
    let c = element-Codes true t [] true n valid (omega arith) (inr (refl, refl)) fuel in
    record {
      bytes = v.bytes ++ c.bytes;
      writes =
          value-Writes (put_matcher (matcher type_ t)) (v.bytes ++ c.bytes)
            (Writes-bind v.writes c.writes);
      reads =
          Reads-bind _ v.reads (Reads-map (λ el. record { type_ = type_; predicate = el }) c.reads);
    }

-- Into a valid big-endian buffer with nothing unread, `writePartialDataComponentMatcher` and then
-- `readPartialDataComponentMatcher` give back every matcher whose predicate is built from a tree of
-- tagged values, and leave nothing unread. The type fits 32 bits, the numbers and texts of the tree fit
-- their types, a list has fewer than 2 ^ 32 values, all of one type, every tag has fewer than 2 ^ 16
-- bytes, and the fuel is at least the weight of the tree.
pub read_matcher-write_matcher :
    (type_ : ℕ) (t : Tree) (n : ℕ) (b : ByteBuffer)
    → type_ < 2 ^ 32
    → IsTree t
    → weight t ≤ suc n
    → IsReady b
    → unread b ≡ []
    → b.is_big_endian ≡ true
    → RoundTrips write_matcher (read_matcher (suc n)) (matcher type_ t) b
read_matcher-write_matcher type_ t n b h valid fuel ready all_read big =
    round_trip b ready all_read (
      subst (λ e. Codes e write_matcher (read_matcher (suc n)) (matcher type_ t)) (sym big)
        (matcher-Codes type_ t n h valid fuel))
