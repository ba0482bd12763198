-- ===== src/Arrays/Choices.antt =====
-- A choice between an identifier and a value, and between two values, comes back.
use zinc.Common.{ℕ, ◌^◌, ◌<◌, ◌≢◌, arith, Bool}
use zinc.Common.{[], ◌∷◌, ◌++◌, not, ◌==◌, ==_ne}
use zinc.ByteBuffer.{Action}
use zinc.ByteBuffer.Rules.{Codes, Writes-pure, Writes-bind, Reads-pure, Reads-bind}
use zinc.ByteBuffer.Rules.{Reads-map}
use zinc.ByteBuffer.Raw.{write_byte-Writes, read_byte-Reads}
use zinc.Numeric.{int}
use zinc.VarNumeric.RoundTrip.{var_numeric-Codes}
use zinc.Arrays.{no_id, of_id, of_value, set_id, set_value, get_value, write_id_or_x}
use zinc.Arrays.{read_value_of, read_id_or_x, of_x, of_y, write_side, same_presence, has_value}
use zinc.Arrays.{write_x_or_y, read_side, read_x_or_y}

module _ {ℓ} {T : Type ℓ} (default : T) (w : T → Action (Unit {0})) (r : Action T) where
  pub of_value-Codes :
      {e : Bool} (value : T)
      → Codes e w r value
      → Codes e (write_id_or_x default w) (read_id_or_x r) (of_value value)
  unfolding write_id_or_x read_id_or_x of_value get_value read_value_of set_id set_value no_id
  of_value-Codes {e = e} value c =
      let n = var_numeric-Codes {e = e} int 0 (omega arith) in
      record {
        bytes = n.bytes ++ c.bytes;
        writes = Writes-bind n.writes c.writes;
        reads =
            Reads-bind (read_value_of r) n.reads
              (Reads-map (λ v. set_value v (set_id 0 no_id)) c.reads);
      }

  pub of_id-Codes :
      {e : Bool} (id : ℕ)
      → id ≢ 0
      → id < 2 ^ 32
      → Codes e (write_id_or_x default w) (read_id_or_x r) (of_id id)
  unfolding write_id_or_x read_id_or_x of_id read_value_of set_id no_id
  of_id-Codes {e = e} id h small =
      let n = var_numeric-Codes {e = e} int id small in
      record {
        bytes = n.bytes ++ [];
        writes = Writes-bind n.writes (rw (==_ne id 0 h) Writes-pure);
        reads = Reads-bind (read_value_of r) n.reads (rw (==_ne id 0 h) (Reads-pure (of_id id)));
      }

module _ {ℓ} {X Y : Type ℓ} (wx : X → Action (Unit {0})) (wy : Y → Action (Unit {0}))
    (rx : Action X) (ry : Action Y) where
  pub of_x-Codes :
      {e : Bool} (x : X)
      → Codes e wx rx x
      → Codes e (write_x_or_y wx wy) (read_x_or_y rx ry) (of_x x)
  unfolding write_x_or_y read_x_or_y of_x write_side same_presence has_value read_side
  of_x-Codes x c = record {
    bytes = (1 ∷ []) ++ c.bytes;
    writes = Writes-bind (write_byte-Writes 1) c.writes;
    reads =
        Reads-bind (λ c. read_side rx ry (not (c == 0))) (read_byte-Reads 1)
          (Reads-map of_x c.reads);
  }

  pub of_y-Codes :
      {e : Bool} (y : Y)
      → Codes e wy ry y
      → Codes e (write_x_or_y wx wy) (read_x_or_y rx ry) (of_y y)
  unfolding write_x_or_y read_x_or_y of_y write_side same_presence has_value read_side
  of_y-Codes y c = record {
    bytes = (0 ∷ []) ++ c.bytes;
    writes = Writes-bind (write_byte-Writes 0) c.writes;
    reads =
        Reads-bind (λ c. read_side rx ry (not (c == 0))) (read_byte-Reads 0)
          (Reads-map of_y c.reads);
  }
