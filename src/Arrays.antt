-- ===== src/Arrays.antt =====
-- Sequences, optional values and choices: the function templates of `ByteBuffer` in
-- inc/type/ByteBuffer.h (`writeArray` to `readPrefixedArray`, `writeOptional` to
-- `readPrefixedOptional`, `writeIDorX`, `writeXorY`), the byte arrays of src/type/ByteBuffer.cpp, and
-- the types of inc/type/IDorX.h and inc/type/XorY.h. A member pointer and a `std::function` are both
-- an action here.
pub mod Sequences
pub mod Choices
use zinc.Common.{ℕ, zero, suc, ◌+◌, ◌-◌, ◌*◌, ◌^◌, Bool, true, false, not, ◌&&◌, Option, none, some}
use zinc.Common.{List, [], ◌∷◌, length, ◌==◌, if◌then◌else◌}
use zinc.ByteBuffer.{ByteBuffer, Action, pure, ◌>>=◌, ◌>>◌, when, write_byte, read_byte}
use zinc.ByteBuffer.{write_bytes, read_bytes}
use zinc.Numeric.{int}
use zinc.VarNumeric.{write_var_numeric, read_var_numeric}
use zinc.Text.{write_length, read_length, or_throw}

module _ {ℓ} {A : Type ℓ} where
  unfoldable pub write_array : (A → Action (Unit {0})) → List A → Action (Unit {0})
  write_array w [] = pure tt
  write_array w (x ∷ xs) = do w x; write_array w xs

  unfoldable pub write_prefixed_array : (A → Action (Unit {0})) → List A → Action (Unit {0})
  write_prefixed_array w xs = do write_length (length xs); write_array w xs

  unfoldable pub read_array : Action A → ℕ → Action (List A)
  read_array r zero = pure []
  read_array r (suc n) = do x ← r; xs ← read_array r n; pure (x ∷ xs)

  unfoldable pub read_prefixed_array : Action A → Action (List A)
  read_prefixed_array r = do n ← read_length; read_array r n

  unfoldable pub has_value : Option A → Bool
  has_value none = false
  has_value (some x) = true

  unfoldable pub write_optional : (A → Action (Unit {0})) → Option A → Action (Unit {0})
  write_optional w none = pure tt
  write_optional w (some x) = w x

  unfoldable pub write_prefixed_optional : (A → Action (Unit {0})) → Option A → Action (Unit {0})
  write_prefixed_optional w value = do
    write_byte (if has_value value then 1 else 0)
    write_optional w value

  unfoldable pub read_optional : Action A → Bool → Action (Option A)
  read_optional r true = do x ← r; pure (some x)
  read_optional r false = pure none

  unfoldable pub read_prefixed_optional : Action A → Action (Option A)
  read_prefixed_optional r = do c ← read_byte; read_optional r (not (c == 0))

unfoldable pub write_prefixed_byte_array : List ℕ → Action (Unit {0})
write_prefixed_byte_array bytes = do write_length (length bytes); write_bytes bytes

unfoldable pub read_prefixed_byte_array : Action (List ℕ)
read_prefixed_byte_array = do n ← read_length; read_bytes n

-- `IDorX<T>`: a registry entry's number, or 0 and the value itself.
pub record IDorX {ℓ} (T : Type ℓ) : Type ℓ where
  pub id : ℕ
  pub value : Option T

module _ {ℓ} {T : Type ℓ} where
  -- `IDorX()`; the number is -1.
  unfoldable pub no_id : IDorX T
  no_id = record { id = 2 ^ 32 - 1; value = none }

  unfoldable pub of_id : ℕ → IDorX T
  of_id id = record { id = id; value = none }

  unfoldable pub of_value : T → IDorX T
  of_value value = record { id = 0; value = some value }

  unfoldable pub set_id : ℕ → IDorX T → IDorX T
  set_id id x = record { id = id; value = if not (id == 0) then none else x.value }

  unfoldable pub set_value : T → IDorX T → IDorX T
  set_value value x = record { id = 0; value = some value }

  -- `m_value.value_or(T{})`
  unfoldable pub get_value : T → IDorX T → T
  get_value default x = elim x.value [ none ↦ default | some value ↦ value ]

  unfoldable pub write_id_or_x : T → (T → Action (Unit {0})) → IDorX T → Action (Unit {0})
  write_id_or_x default w x = do
    write_var_numeric int x.id
    when (x.id == 0) (w (get_value default x))

  -- What `readIDorX` does with the number it read.
  unfoldable pub read_value_of : Action T → ℕ → Action (IDorX T)
  read_value_of r id =
      let result = set_id id no_id in
      if result.id == 0 then (do value ← r; pure (set_value value result)) else pure result

  unfoldable pub read_id_or_x : Action T → Action (IDorX T)
  read_id_or_x r = do id ← read_var_numeric int; read_value_of r id

pub record XorY {ℓ} (X Y : Type ℓ) : Type ℓ where
  pub x : Option X
  pub y : Option Y

module _ {ℓ} {X Y : Type ℓ} where
  unfoldable pub of_x : X → XorY X Y
  of_x x = record { x = some x; y = none }

  unfoldable pub of_y : Y → XorY X Y
  of_y y = record { x = none; y = some y }

  -- `if (x.has_value()) funcX(x.value()) else funcY(y.value())` after the two were found to differ.
  unfoldable pub write_side :
      (X → Action (Unit {0})) → (Y → Action (Unit {0})) → Option X → Option Y → Action (Unit {0})
  write_side wx wy (some x) y = wx x
  write_side wx wy none (some y) = wy y
  write_side wx wy none none = or_throw none

  unfoldable pub same_presence : XorY X Y → Bool
  same_presence v = if has_value v.x then has_value v.y else not (has_value v.y)

  -- The overload for `std::function`.
  unfoldable pub write_x_or_y :
      (X → Action (Unit {0})) → (Y → Action (Unit {0})) → XorY X Y → Action (Unit {0})
  write_x_or_y wx wy v =
      if same_presence v
      then pure tt
      else (do write_byte (if has_value v.x then 1 else 0); write_side wx wy v.x v.y)

  -- The overload for member functions, which writes no marker.
  unfoldable pub write_x_or_y_by_member :
      (X → Action (Unit {0})) → (Y → Action (Unit {0})) → XorY X Y → Action (Unit {0})
  write_x_or_y_by_member wx wy v = if same_presence v then pure tt else write_side wx wy v.x v.y

  unfoldable pub read_side : Action X → Action Y → Bool → Action (XorY X Y)
  read_side rx ry true = do x ← rx; pure (of_x x)
  read_side rx ry false = do y ← ry; pure (of_y y)

  unfoldable pub read_x_or_y : Action X → Action Y → Action (XorY X Y)
  read_x_or_y rx ry = do c ← read_byte; read_side rx ry (not (c == 0))
