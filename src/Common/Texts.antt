-- ===== src/Common/Texts.antt =====
-- Text constants of the source as the bytes that they are.
use Prim.Native.Char.{code}
use Prim.Native.String.{String}
use zinc.Common.{ℕ, List, [], ◌∷◌}

abbrev pub codes : String → List ℕ
codes String.[] = []
codes (String.◌∷◌ c s) = code c ∷ codes s
