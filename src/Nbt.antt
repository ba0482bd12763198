-- ===== src/Nbt.antt =====
-- Named binary tags: `NBTElement`, `NBTSettings` and `NBTElementType` of inc/type/nbt and
-- src/type/nbt, the tree of tagged values in which the game keeps structured data.
-- The text form (`toJSON`) is not modelled.
pub mod Coding
pub mod Access
pub mod Decoding
pub mod Trees
pub mod Built
pub mod Leaves
pub mod Headers
pub mod Lists
pub mod Parts
pub mod RoundTrip
use zinc.Common.{
  ℕ, zero, suc, ◌+◌, Bool, true, false, not, ◌&&◌, ◌==◌, if◌then◌else◌, List, [], ◌∷◌,
}

-- An `enum class` on `char`: a cast from a byte can also give a value without a name.
pub data NbtElementType : Type 0 where
  end : NbtElementType
  byte : NbtElementType
  short : NbtElementType
  int : NbtElementType
  long : NbtElementType
  float : NbtElementType
  double : NbtElementType
  byte_array : NbtElementType
  string : NbtElementType
  list : NbtElementType
  compound : NbtElementType
  int_array : NbtElementType
  long_array : NbtElementType
  other : ℕ → NbtElementType

unfoldable pub to_char : NbtElementType → ℕ
to_char end = 0
to_char byte = 1
to_char short = 2
to_char int = 3
to_char long = 4
to_char float = 5
to_char double = 6
to_char byte_array = 7
to_char string = 8
to_char list = 9
to_char compound = 10
to_char int_array = 11
to_char long_array = 12
to_char (other c) = c

unfoldable pub of_char : ℕ → NbtElementType
of_char c =
    if c == 0
    then end
    else if c == 1
    then byte
    else if c == 2
    then short
    else if c == 3
    then int
    else if c == 4
    then long
    else if c == 5
    then float
    else if c == 6
    then double
    else if c == 7
    then byte_array
    else if c == 8
    then string
    else if c == 9
    then list
    else if c == 10
    then compound
    else if c == 11
    then int_array
    else if c == 12
    then long_array
    else other c

pub record NbtSettings : Type 0 where
  pub is_in_array : Bool
  pub is_network : Bool
  pub type_ : NbtElementType

-- `NBTSettings()`
abbrev pub plain : NbtSettings
plain = record { is_in_array = false; is_network = false; type_ = end }

-- The value fields of an element, all of which it has, whatever its type.
pub record NbtValues : Type 0 where
  pub byte_value : ℕ
  pub short_value : ℕ
  pub int_value : ℕ
  pub long_value : ℕ
  pub float_value : ℕ
  pub double_value : ℕ
  pub byte_array_value : List ℕ
  pub string_value : List ℕ
  pub int_array_value : List ℕ
  pub long_array_value : List ℕ

abbrev pub no_values : NbtValues
no_values = record {
  byte_value = 0;
  short_value = 0;
  int_value = 0;
  long_value = 0;
  float_value = 0;
  double_value = 0;
  byte_array_value = [];
  string_value = [];
  int_array_value = [];
  long_array_value = [];
}

-- An element: settings, tag, type, values and children.
mutual
  pub data NbtElement : Type 0 where
    element : NbtSettings → List ℕ → NbtElementType → NbtValues → NbtElements → NbtElement

  pub data NbtElements : Type 0 where
    nil : NbtElements
    cons : NbtElement → NbtElements → NbtElements

-- `NBTElement::Byte` to `NBTElement::Compound`: without a tag, and with one.
abbrev pub with_tag : List ℕ → NbtElement → NbtElement
with_tag tag (element settings t type_ values children) = element settings tag type_ values children

abbrev pub byte_element : ℕ → NbtSettings → NbtElement
byte_element v settings = element settings [] byte (record no_values { byte_value = v }) nil

abbrev pub short_element : ℕ → NbtSettings → NbtElement
short_element v settings = element settings [] short (record no_values { short_value = v }) nil

abbrev pub int_element : ℕ → NbtSettings → NbtElement
int_element v settings = element settings [] int (record no_values { int_value = v }) nil

abbrev pub long_element : ℕ → NbtSettings → NbtElement
long_element v settings = element settings [] long (record no_values { long_value = v }) nil

abbrev pub float_element : ℕ → NbtSettings → NbtElement
float_element v settings = element settings [] float (record no_values { float_value = v }) nil

abbrev pub double_element : ℕ → NbtSettings → NbtElement
double_element v settings = element settings [] double (record no_values { double_value = v }) nil

abbrev pub byte_array_element : List ℕ → NbtSettings → NbtElement
byte_array_element v settings =
    element settings [] byte_array (record no_values { byte_array_value = v }) nil

abbrev pub string_element : List ℕ → NbtSettings → NbtElement
string_element v settings = element settings [] string (record no_values { string_value = v }) nil

abbrev pub int_array_element : List ℕ → NbtSettings → NbtElement
int_array_element v settings =
    element settings [] int_array (record no_values { int_array_value = v }) nil

abbrev pub long_array_element : List ℕ → NbtSettings → NbtElement
long_array_element v settings =
    element settings [] long_array (record no_values { long_array_value = v }) nil

abbrev pub list_element : NbtElements → NbtSettings → NbtElement
list_element children settings = element settings [] list no_values children

abbrev pub compound_element : NbtElements → NbtSettings → NbtElement
compound_element children settings = element settings [] compound no_values children

unfoldable pub of_byte : List ℕ → ℕ → NbtSettings → NbtElement
of_byte tag v settings = with_tag tag (byte_element v settings)

unfoldable pub of_short : List ℕ → ℕ → NbtSettings → NbtElement
of_short tag v settings = with_tag tag (short_element v settings)

unfoldable pub of_int : List ℕ → ℕ → NbtSettings → NbtElement
of_int tag v settings = with_tag tag (int_element v settings)

unfoldable pub of_long : List ℕ → ℕ → NbtSettings → NbtElement
of_long tag v settings = with_tag tag (long_element v settings)

unfoldable pub of_float : List ℕ → ℕ → NbtSettings → NbtElement
of_float tag v settings = with_tag tag (float_element v settings)

unfoldable pub of_double : List ℕ → ℕ → NbtSettings → NbtElement
of_double tag v settings = with_tag tag (double_element v settings)

unfoldable pub of_byte_array : List ℕ → List ℕ → NbtSettings → NbtElement
of_byte_array tag v settings = with_tag tag (byte_array_element v settings)

unfoldable pub of_string : List ℕ → List ℕ → NbtSettings → NbtElement
of_string tag v settings = with_tag tag (string_element v settings)

unfoldable pub of_int_array : List ℕ → List ℕ → NbtSettings → NbtElement
of_int_array tag v settings = with_tag tag (int_array_element v settings)

unfoldable pub of_long_array : List ℕ → List ℕ → NbtSettings → NbtElement
of_long_array tag v settings = with_tag tag (long_array_element v settings)

unfoldable pub of_list : List ℕ → NbtElements → NbtSettings → NbtElement
of_list tag children settings = with_tag tag (list_element children settings)

unfoldable pub of_compound : List ℕ → NbtElements → NbtSettings → NbtElement
of_compound tag children settings = with_tag tag (compound_element children settings)
