-- ===== src/Prelude/Format.antt =====
-- Numbers as text.
use Prim.Native.Nat.{ℕ, zero, suc, ◌/◌, ◌%◌}
use Prim.Native.String.{String, ◌++◌}
use mathlib.Core.List.{[], ◌∷◌}
use verdant_backend.Prelude.Tests.{ltb, if◌then◌else◌}
use verdant_backend.Prelude.Lists.{get_elem?}
use verdant_backend.Prelude.OptionMonad.{unwrap_or}

-- `to_string` of a `u64`, whose digits are 20 at most.
digit : ℕ → String
digit n = unwrap_or "9" (get_elem? ("0" ∷ "1" ∷ "2" ∷ "3" ∷ "4" ∷ "5" ∷ "6" ∷ "7" ∷ "8" ∷ []) n)

digits : ℕ → ℕ → String
digits zero n = ""
digits (suc fuel) n =
    let front = digits fuel (n / 10) in if ltb n 10 then digit n else front ++ digit (n % 10)

pub decimal : ℕ → String
decimal n = digits 20 n
