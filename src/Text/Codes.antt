-- ===== src/Text/Codes.antt =====
-- String literals of the source as bytes.
use Prim.Native.Char.{code}
use Prim.Native.String.{String}
use network_tftp_tftp_hpa.Prelude.{ℕ, List, [], ◌∷◌}

-- The bytes of a text in ASCII.
abbrev pub codes : String → List ℕ
codes String.[] = []
codes (String.◌∷◌ c s) = code c ∷ codes s
