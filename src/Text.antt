-- ===== src/Text.antt =====
-- Strings and identifiers: `writeString`, `readString`, `writeIdentifier`, `readIdentifier` of
-- src/type/ByteBuffer.cpp, and `Identifier` of inc/type/Identifier.h and src/type/Identifier.cpp.
-- A `std::string` is the list of its bytes.
pub mod Strings
pub mod Identifiers
use zinc.Common.{
  ℕ, ◌+◌, ◌-◌, ◌*◌, ◌^◌, Bool, Option, none, some, List, [], ◌∷◌, ◌++◌, length, take, drop,
}
use zinc.Common.{true, false, ◌==◌, if◌then◌else◌, ◌&&◌}
use zinc.ByteBuffer.{ByteBuffer, Action, pure, ◌>>=◌, ◌>>◌, write_bytes, read_bytes}
use zinc.Numeric.{int, ulong, truncate_to, sign_extend}
use zinc.VarNumeric.{write_var_numeric, read_var_numeric}

-- `zinc_safe_cast<size_t, int>(n)` in front of a sequence of `n` elements.
unfoldable pub write_length : ℕ → Action (Unit {0})
write_length n = write_var_numeric int (truncate_to int n)

-- `zinc_safe_cast<int, size_t>(readVarNumeric<int>())`
unfoldable pub read_length : Action ℕ
read_length = do n ← read_var_numeric int; pure (sign_extend int ulong n)

unfoldable pub write_string : List ℕ → Action (Unit {0})
write_string value = do write_length (length value); write_bytes value

unfoldable pub read_string : Action (List ℕ)
read_string = do n ← read_length; read_bytes n

pub record Identifier : Type 0 where
  pub name_space : List ℕ
  pub object : List ℕ

-- `Identifier()`
unfoldable pub placeholder : Identifier
placeholder = record {
  name_space = b'm' ∷ b'i' ∷ b'n' ∷ b'e' ∷ b'c' ∷ b'r' ∷ b'a' ∷ b'f' ∷ b't' ∷ [];
  object = b'p' ∷ b'l' ∷ b'a' ∷ b'c' ∷ b'e' ∷ b'h' ∷ b'o' ∷ b'l' ∷ b'd' ∷ b'e' ∷ b'r' ∷ [];
}

-- `std::string::find`; `none` is `npos`.
unfoldable pub find : ℕ → List ℕ → Option ℕ
find c [] = none
find c (d ∷ rest) =
    let later = find c rest in
    if d == c then some 0 else elim later [ none ↦ none | some pos ↦ some (pos + 1) ]

-- `Identifier(value)`. Without a colon `m_namespace.resize(npos)` throws: `none`.
unfoldable pub parse_identifier : List ℕ → Option Identifier
parse_identifier value = elim (find b':' value) [
  | none ↦ none
  | some pos ↦ some (record { name_space = take pos value; object = drop (pos + 1) value })
]

unfoldable pub to_string : Identifier → List ℕ
to_string i = i.name_space ++ (b':' ∷ i.object)

-- `std::string::operator==`
unfoldable pub string_eq : List ℕ → List ℕ → Bool
string_eq [] [] = true
string_eq (c ∷ cs) (d ∷ ds) = (c == d) && string_eq cs ds
string_eq _ _ = false

unfoldable pub identifier_eq : Identifier → Identifier → Bool
identifier_eq i j = string_eq (to_string i) (to_string j)

unfoldable pub identifier_eq_string : Identifier → List ℕ → Bool
identifier_eq_string i value = string_eq (to_string i) value

unfoldable pub write_identifier : Identifier → Action (Unit {0})
write_identifier value = write_string (to_string value)

-- An exception leaves no state to go on from.
abbrev pub or_throw {ℓ} : {A : Type ℓ} → Option A → Action A
or_throw none b = none
or_throw (some a) b = some (a, b)

unfoldable pub read_identifier : Action Identifier
read_identifier = do value ← read_string; or_throw (parse_identifier value)
