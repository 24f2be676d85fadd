-- ===== src/Prelude/Dict.antt =====
-- `HashMap` and `DashMap` as association lists: what the source uses of them. An insertion
-- replaces the value of a key, a removal takes every entry of the key away.
use mathlib.Core.Path.{◌≡◌, refl, ap}
use mathlib.Core.Bool.{Bool, true, false}
use mathlib.Core.List.{List, [], ◌∷◌}
use mathlib.Core.Option.{Option, none, some}
use native.Mathlib.Omega.{arith}
use verdant_backend.Prelude.Tests.{if◌then◌else◌}
use verdant_backend.Prelude.Equality.{Eq, ◌=?◌}

abbrev pub Dict {ℓ κ} : Type ℓ → Type κ → Type (ℓ ⊔ κ)
Dict K V = List (K × V)

module _ {ℓ κ} {K : Type ℓ} {V : Type κ} ⦃e : Eq K⦄ where
  abbrev pub lookup : K → Dict K V → Option V
  lookup k [] = none
  lookup k ((j, v) ∷ d) = if j =? k then some v else lookup k d

  abbrev pub contains_key : K → Dict K V → Bool
  contains_key k d = elim (lookup k d) [ none ↦ false | some _ ↦ true ]

  unfoldable pub insert : K → V → Dict K V → Dict K V
  insert k v [] = (k, v) ∷ []
  insert k v ((j, w) ∷ d) = if j =? k then (j, v) ∷ d else (j, w) ∷ insert k v d

  unfoldable pub remove : K → Dict K V → Dict K V
  remove k [] = []
  remove k ((j, w) ∷ d) = if j =? k then remove k d else (j, w) ∷ remove k d

  -- `if let Some(mut entry) = d.get_mut(&k) { f(entry) }`.
  unfoldable pub modify : K → (V → V) → Dict K V → Dict K V
  modify k f [] = []
  modify k f ((j, w) ∷ d) = if j =? k then (j, f w) ∷ modify k f d else (j, w) ∷ modify k f d

  -- `entry(k).or_insert(v)`.
  unfoldable pub or_insert : K → V → Dict K V → Dict K V
  unfolding insert
  or_insert k v d = if contains_key k d then d else insert k v d

  abbrev pub keys : Dict K V → List K
  keys [] = []
  keys ((k, v) ∷ d) = k ∷ keys d

  pub lookup-insert :
      (k j : K) (v : V) (d : Dict K V)
      → lookup j (insert k v d) ≡ (if k =? j then some v else lookup j d)
  unfolding insert
  lookup-insert k j v [] = refl
  lookup-insert k j v ((i, w) ∷ d) =
      ground (arith, e.beq_iff k j, e.beq_iff i k, e.beq_iff i j, lookup-insert k j v d)

  pub lookup-remove :
      (k j : K) (d : Dict K V) → lookup j (remove k d) ≡ (if k =? j then none else lookup j d)
  unfolding remove
  lookup-remove k j [] = ground arith
  lookup-remove k j ((i, w) ∷ d) =
      ground (arith, e.beq_iff k j, e.beq_iff i k, e.beq_iff i j, lookup-remove k j d)

  pub lookup-modify :
      (k j : K) (f : V → V) (d : Dict K V)
      → lookup j (modify k f d)
        ≡ (if k =? j then elim (lookup j d) [ none ↦ none | some v ↦ some (f v) ] else lookup j d)
  unfolding modify
  lookup-modify k j f [] = ground arith
  lookup-modify k j f ((i, w) ∷ d) =
      ground (arith, e.beq_iff k j, e.beq_iff i k, e.beq_iff i j, lookup-modify k j f d)

  pub lookup-or_insert :
      (k j : K) (v : V) (d : Dict K V)
      → lookup j (or_insert k v d)
        ≡ (if k =? j then elim (lookup j d) [ none ↦ some v | some w ↦ some w ] else lookup j d)
  unfolding or_insert
  lookup-or_insert k j v d =
      ground (arith, e.beq_iff k j, lookup-insert k j v d, λ (p : k ≡ j). ap (λ t. lookup t d) p)
