-- ===== src/IdSets.antt =====
-- `IDSet` of inc/type/IDSet.h and src/type/IDSet.cpp, and its functions in src/type/ByteBuffer.cpp:
-- a set of registry entries, named by a tag (type 0) or listed by number (type: count + 1).
pub mod Coding
use zinc.Common.{
  ℕ, ◌+◌, ◌-◌, ◌%◌, ◌^◌, List, [], length, ◌==◌, if◌then◌else◌, Bool, true, false, ◌&&◌,
}
use zinc.ByteBuffer.{ByteBuffer, Action, pure, ◌>>=◌, ◌>>◌}
use zinc.Numeric.{int, ulong, truncate_to, sign_extend}
use zinc.VarNumeric.{write_var_numeric, read_var_numeric}
use zinc.Text.{Identifier, placeholder, write_identifier, read_identifier, identifier_eq, string_eq}
use zinc.Arrays.{write_array, read_array}

pub record IdSet : Type 0 where
  pub type_ : ℕ
  pub identifier : Identifier
  pub ids : List ℕ

-- `IDSet()`; the type is -1.
unfoldable pub no_set : IdSet
no_set = record { type_ = 2 ^ 32 - 1; identifier = placeholder; ids = [] }

unfoldable pub of_identifier : Identifier → IdSet
of_identifier identifier = record { type_ = 0; identifier = identifier; ids = [] }

unfoldable pub of_ids : List ℕ → IdSet
of_ids ids = record {
  type_ = truncate_to int (length ids + 1);
  identifier = placeholder;
  ids = ids;
}

unfoldable pub set_identifier : Identifier → IdSet → IdSet
set_identifier identifier s = record s { type_ = 0; identifier = identifier }

unfoldable pub set_ids : List ℕ → IdSet → IdSet
set_ids ids s = record s { type_ = truncate_to int (length ids + 1); ids = ids }

unfoldable pub set_type : ℕ → IdSet → IdSet
set_type type_ s = record s { type_ = type_; ids = if type_ == 0 then [] else s.ids }

-- `operator==`; `==` on `std::vector<int>` compares the elements.
unfoldable pub id_set_eq : IdSet → IdSet → Bool
id_set_eq s t =
    (s.type_ == t.type_) && identifier_eq s.identifier t.identifier && string_eq s.ids t.ids

unfoldable pub write_id_set : IdSet → Action (Unit {0})
write_id_set s = do
  write_var_numeric int s.type_
  if s.type_ == 0 then write_identifier s.identifier else write_array (write_var_numeric int) s.ids

-- `zinc_safe_cast<int, size_t>(type - 1)`
abbrev pub count_of : ℕ → ℕ
count_of type_ = sign_extend int ulong ((type_ + 2 ^ 32 - 1) % 2 ^ 32)

-- What `readIDSet` does with the type it read.
unfoldable pub read_members : ℕ → Action IdSet
read_members type_ =
    let result = set_type type_ no_set in
    if result.type_ == 0
    then (do identifier ← read_identifier; pure (set_identifier identifier result))
    else (do
      ids ← read_array (read_var_numeric int) (count_of result.type_)
      pure (set_ids ids result))

unfoldable pub read_id_set : Action IdSet
read_id_set = do type_ ← read_var_numeric int; read_members type_
