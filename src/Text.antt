-- ===== src/Text.antt =====
-- The bytes of the source's string constants, which are all ASCII.
use Prim.Native.Char.{code}
use Prim.Native.String.{String}
use eacrpool.Prelude.{[], ◌∷◌}
use eacrpool.Bytes.{Bytes}

abbrev pub codes : String → Bytes
codes String.[] = []
codes (String.◌∷◌ c s) = code c ∷ codes s
