-- ===== src/Prelude/Literals.antt =====
-- The code points of a text literal.
use Prim.Native.Nat.{ℕ}
use Prim.Native.Char.{code}
use Prim.Native.String.{String, [], ◌∷◌}
use mathlib.Core.List.{List, [] as nil, ◌∷◌ as cons}

abbrev pub Text : Type 0
Text = List ℕ

abbrev pub lit : String → Text
lit [] = nil
lit (c ∷ s) = cons (code c) (lit s)
