-- ===== src/Common/Ascii.antt =====
-- Literals of ASCII text, as bytes.
use Prim.Native.Nat.{ℕ}
use Prim.Native.Char.{code}
use Prim.Native.String.{String}
use mathlib.Core.List.{List, [], ◌∷◌}

abbrev pub ascii : String → List ℕ
ascii Prim.Native.String.[] = []
ascii (Prim.Native.String.◌∷◌ c cs) = code c ∷ ascii cs
