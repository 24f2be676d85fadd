-- ===== src/Prelude/Utf8.antt =====
-- `std::str::from_utf8`: well-formed UTF-8 by the table of its byte ranges.
use mathlib.Core.Bool.{Bool, true, false, ◌&&◌}
use mathlib.Core.Path.{◌≡◌, refl}
use mathlib.Core.List.{List, [], ◌∷◌, ◌++◌}
use mathlib.Core.Option.{Option, none, some}
use Prim.Native.Nat.{ℕ, zero, suc}
use native.Mathlib.Omega.{arith}
use verdant_backend.Prelude.Tests.{ltb, leb, if◌then◌else◌}
use verdant_backend.Prelude.Lists.{all}

-- How many continuation bytes are awaited, and the range of the next one.
pub record Utf8State : Type 0 where
  pub awaited : ℕ
  pub low : ℕ
  pub high : ℕ

abbrev pub within : ℕ → ℕ → ℕ → Bool
within low high b = leb low b && leb b high

abbrev pub awaits : ℕ → ℕ → ℕ → Option Utf8State
awaits n low high = some (record { awaited = n; low = low; high = high })

abbrev pub first_byte : ℕ → Option Utf8State
first_byte b =
    if ltb b 128
    then awaits 0 128 191
    else if within 194 223 b
    then awaits 1 128 191
    else if within 224 224 b
    then awaits 2 160 191
    else if within 237 237 b
    then awaits 2 128 159
    else if within 225 239 b
    then awaits 2 128 191
    else if within 240 240 b
    then awaits 3 144 191
    else if within 241 243 b
    then awaits 3 128 191
    else if within 244 244 b
    then awaits 3 128 143
    else none

abbrev pub next_byte : ℕ → ℕ → ℕ → ℕ → Option Utf8State
next_byte zero low high b = first_byte b
next_byte (suc n) low high b = if within low high b then awaits n 128 191 else none

unfoldable pub valid_from : Utf8State → List ℕ → Bool
valid_from s [] = leb s.awaited 0
valid_from s (b ∷ bytes) = elim (next_byte s.awaited s.low s.high b) [
  | none ↦ false
  | some t ↦ valid_from t bytes
]

abbrev pub start : Utf8State
start = record { awaited = 0; low = 128; high = 191 }

unfoldable pub from_utf8 : List ℕ → Option (List ℕ)
unfolding valid_from
from_utf8 bytes = if valid_from start bytes then some bytes else none

valid_from-ascii :
    (bytes : List ℕ) → all (λ b. ltb b 128) bytes ≡ true → valid_from start bytes ≡ true
unfolding valid_from
valid_from-ascii [] h = refl
valid_from-ascii (b ∷ bytes) h = ground (arith, valid_from-ascii bytes)

-- ASCII is its own UTF-8.
pub from_utf8-ascii :
    (bytes : List ℕ) → all (λ b. ltb b 128) bytes ≡ true → from_utf8 bytes ≡ some bytes
unfolding from_utf8
from_utf8-ascii bytes h = ground (arith, valid_from-ascii bytes h)

valid_from-append :
    (bytes rest : List ℕ)
    → all (λ b. ltb b 128) bytes ≡ true
    → valid_from start (bytes ++ rest) ≡ valid_from start rest
unfolding valid_from
valid_from-append [] rest h = refl
valid_from-append (b ∷ bytes) rest h = ground (arith, valid_from-append bytes rest)

-- ASCII in front changes nothing.
pub from_utf8-append :
    (bytes rest : List ℕ)
    → all (λ b. ltb b 128) bytes ≡ true
    → from_utf8 (bytes ++ rest)
      ≡ (elim (from_utf8 rest) [ none ↦ none | some _ ↦ some (bytes ++ rest) ])
unfolding from_utf8
from_utf8-append bytes rest h = ground (arith, valid_from-append bytes rest h)

pub from_utf8_same : (bytes out : List ℕ) → from_utf8 bytes ≡ some out → bytes ≡ out
unfolding from_utf8
from_utf8_same bytes out h = ground arith
