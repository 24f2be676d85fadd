-- ===== src/Prelude/Result.antt =====
-- `Result<A, E>` with the `?` operator.
use mathlib.Core.Path.{◌≡◌, refl, sym, ap, ◌∙◌}
use mathlib.Core.Logic.{◌⊎◌, inl, inr}
use mathlib.Core.Bool.{Bool, true, false}
use mathlib.Core.Option.{Option, none, some}
use native.Mathlib.Omega.{arith}

pub data Result (A E : Type 0) : Type 0 where
  ok : A → Result A E
  err : E → Result A E

infixl 5 ◌>>=◌ ◌>>◌
abbrev pub ◌>>=◌ : {A B E : Type 0} → Result A E → (A → Result B E) → Result B E
ok a >>= f = f a
err e >>= f = err e

abbrev pub ◌>>◌ : {B E : Type 0} → Result (Unit {0}) E → Result B E → Result B E
m >> k = m >>= λ _. k

-- `o.ok_or(e)`.
abbrev pub ok_or : {A E : Type 0} → E → Option A → Result A E
ok_or e none = err e
ok_or e (some a) = ok a

-- `if !b { return Err(e); }`.
abbrev pub ensure : {E : Type 0} → E → Bool → Result (Unit {0}) E
ensure e true = ok tt
ensure e false = err e

-- What a chain of `?` that succeeds went through.
module _ {B E : Type 0} where
  pub bind_ok :
      {A : Type 0} (m : Result A E) {f : A → Result B E} {b : B}
      → (m >>= f) ≡ ok b
      → (a : A) × (m ≡ ok a) × (f a ≡ ok b)
  bind_ok (ok a) h = (a, refl, h)
  bind_ok (err e) h = cc

  pub ensure_ok :
      (e : E) (t : Bool) {k : Result B E} {b : B}
      → (ensure e t >> k) ≡ ok b
      → (t ≡ true) × (k ≡ ok b)
  ensure_ok e true h = (refl, h)
  ensure_ok e false h = cc

  pub ok_or_ok :
      {A : Type 0} (e : E) (o : Option A) {f : A → Result B E} {b : B}
      → (ok_or e o >>= f) ≡ ok b
      → (a : A) × (o ≡ some a) × (f a ≡ ok b)
  ok_or_ok e none h = cc
  ok_or_ok e (some a) h = (a, refl, h)

  -- A chain of successes succeeds.
  pub ok_bind :
      {A : Type 0} (m : Result A E) (f : A → Result B E) {a : A} {b : B}
      → m ≡ ok a
      → f a ≡ ok b
      → (m >>= f) ≡ ok b
  ok_bind m f h k = ap (λ r. r >>= f) h ∙ k

  pub ok_ensure :
      (e : E) (t : Bool) (k : Result B E) {b : B} → t ≡ true → k ≡ ok b → (ensure e t >> k) ≡ ok b
  ok_ensure e t k h g = ap (λ t. ensure e t >> k) h ∙ g

  pub ok_some :
      {A : Type 0} (e : E) (o : Option A) (f : A → Result B E) {a : A} {b : B}
      → o ≡ some a
      → f a ≡ ok b
      → (ok_or e o >>= f) ≡ ok b
  ok_some e o f h g = ap (λ o. ok_or e o >>= f) h ∙ g

-- Chains that begin alike agree if their rests do.
module _ {B E : Type 0} where
  pub ensure_same :
      (e : E) (t : Bool) {k l : Result B E} → k ≡ l → (ensure e t >> k) ≡ (ensure e t >> l)
  ensure_same e t h = ap (λ k. ensure e t >> k) h

  pub bind_same :
      {A : Type 0} (m : Result A E) (f g : A → Result B E) {a : A}
      → m ≡ ok a
      → f a ≡ g a
      → (m >>= f) ≡ (m >>= g)
  bind_same m f g h k = ap (λ r. r >>= f) h ∙ k ∙ sym (ap (λ r. r >>= g) h)

pub ok_or-some : {A E : Type 0} (e : E) {o : Option A} {a : A} → o ≡ some a → ok_or e o ≡ ok a
ok_or-some e h = ap (λ o. ok_or e o) h

pub ok_same : {A E : Type 0} {r : Result A E} {a b : A} → r ≡ ok a → r ≡ ok b → a ≡ b
ok_same h k = ground (arith, h, k)

pub some_of_ok_or : {A E : Type 0} (e : E) (o : Option A) {a : A} → ok_or e o ≡ ok a → o ≡ some a
some_of_ok_or e none h = cc
some_of_ok_or e (some b) h = ap some (ok_same refl h)

pub Result-cases :
    {A E : Type 0} (r : Result A E) → ((a : A) × (r ≡ ok a)) ⊎ ((e : E) × (r ≡ err e))
Result-cases (ok a) = inl (a, refl)
Result-cases (err e) = inr (e, refl)
