-- ===== src/Prelude/Text.antt =====
-- Texts of the code as lists of bytes.
use Prim.Native.Nat.{ℕ}
use Prim.Native.Char.{code}
use Prim.Native.String.{String}
use mathlib.Core.List.{List}

abbrev pub codes : String → List ℕ
codes String.[] = List.[]
codes (String.◌∷◌ c s) = List.◌∷◌ (code c) (codes s)
