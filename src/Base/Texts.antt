-- ===== src/Base/Texts.antt =====
-- Text as a list of code points.
use Prim.Native.Char.{code}
use Prim.Native.String.{String}
use marketview.Base.{ℕ, List, [], ◌∷◌}

abbrev pub Text : Type 0
Text = List ℕ

-- A literal of the source.
abbrev pub codes : String → Text
codes String.[] = []
codes (String.◌∷◌ c s) = code c ∷ codes s
