-- ===== src/Prelude/HashSet.antt =====
-- `HashSet<T>` as a list of its elements: what the source uses of it.
use mathlib.Core.Path.{◌≡◌, refl, ap, sym, ◌∙◌}
use mathlib.Core.Logic.{inl, inr}
use mathlib.Core.Bool.{Bool, true, false, not, ◌&&◌, ◌||◌}
use mathlib.Core.List.{List, [], ◌∷◌}
use native.Mathlib.Omega.{arith}
use verdant_backend.Prelude.Tests.{if◌then◌else◌, Bool-cases}
use verdant_backend.Prelude.Lists.{any}
use verdant_backend.Prelude.Equality.{Eq, ◌=?◌, eq_refl}

module _ {ℓ} {A : Type ℓ} ⦃e : Eq A⦄ where
  abbrev pub contains : A → List A → Bool
  contains a [] = false
  contains a (x ∷ xs) = (x =? a) || contains a xs

  unfoldable pub insert : A → List A → List A
  insert a xs = if contains a xs then xs else a ∷ xs

  unfoldable pub remove : A → List A → List A
  remove a [] = []
  remove a (x ∷ xs) = if x =? a then remove a xs else x ∷ remove a xs

  -- `iter().collect()`.
  unfoldable pub from_list : List A → List A
  unfolding insert
  from_list [] = []
  from_list (x ∷ xs) = insert x (from_list xs)

  -- `is_empty()`.
  abbrev pub is_empty : List A → Bool
  is_empty [] = true
  is_empty (x ∷ xs) = false

  pub contains-insert :
      (a b : A) (xs : List A) → contains b (insert a xs) ≡ ((a =? b) || contains b xs)
  unfolding insert
  contains-insert a b xs = ground (arith, e.beq_iff a b, λ (p : a ≡ b). ap (λ t. contains t xs) p)

  pub contains-remove :
      (a b : A) (xs : List A) → contains b (remove a xs) ≡ (not (a =? b) && contains b xs)
  unfolding remove
  contains-remove a b [] = ground arith
  contains-remove a b (x ∷ xs) =
      ground (arith, contains-remove a b xs, e.beq_iff a b, e.beq_iff x a, e.beq_iff x b)

  pub contains-from_list : (b : A) (xs : List A) → contains b (from_list xs) ≡ contains b xs
  unfolding from_list
  contains-from_list b [] = refl
  contains-from_list b (x ∷ xs) =
      rw (contains-insert x b (from_list xs), contains-from_list b xs) refl

  pub contains-of_empty : (b : A) (xs : List A) → is_empty xs ≡ true → contains b xs ≡ false
  contains-of_empty b [] h = refl
  contains-of_empty b (x ∷ xs) h = cc

  module _ (p : A → Bool) where
    pub any_of_contains :
        (a : A) (xs : List A) → contains a xs ≡ true → p a ≡ true → any p xs ≡ true
    any_of_contains a [] h k = cc
    any_of_contains a (x ∷ xs) h k =
        ground (arith, any_of_contains a xs, e.beq_iff x a, λ (q : x ≡ a). ap p q)

    pub any_witness :
        (xs : List A) → any p xs ≡ true → (a : A) × (contains a xs ≡ true) × (p a ≡ true)
    any_witness [] h = cc
    any_witness (x ∷ xs) h = elim (Bool-cases (p x)) [
      | inl now ↦ (x, ground (arith, eq_refl x), now)
      | inr later ↦
          let (a, there, holds) = any_witness xs (ground arith) in (a, ground arith, holds)
    ]

    any_le :
        (xs ys : List A)
        → ((a : A) → contains a xs ≡ contains a ys)
        → any p xs ≡ true
        → any p ys ≡ true
    any_le xs ys same h =
        let (a, there, holds) = any_witness xs h in
        any_of_contains a ys (sym (same a) ∙ there) holds

    -- Sets with the same elements answer `any` alike, in whatever order they are walked.
    pub any_same :
        (xs ys : List A) → ((a : A) → contains a xs ≡ contains a ys) → any p xs ≡ any p ys
    any_same xs ys same = ground (arith, any_le xs ys same, any_le ys xs (λ a. sym (same a)))
