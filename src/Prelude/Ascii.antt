-- ===== src/Prelude/Ascii.antt =====
-- The bytes of an ASCII literal.
use Prim.Native.Char.{code}
use Prim.Native.Nat.{ℕ}
use Prim.Native.String.{String, [], ◌∷◌}
use mathlib.Core.List.{List, [] as nil, ◌∷◌ as cons}

abbrev pub ascii : String → List ℕ
ascii [] = nil
ascii (c ∷ s) = cons (code c) (ascii s)
