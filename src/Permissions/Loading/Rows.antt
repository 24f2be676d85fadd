-- ===== src/Permissions/Loading/Rows.antt =====
-- Rows of the database with distinct ids, seen through the sorted copy in the cache.
use verdant_backend.Prelude.{
  ℕ, nat_eq, ◌≡◌, refl, ap, Bool, true, List, [], ◌∷◌, map, none, some, any, ◌==◌, arith, inl, inr,
  Bool-cases,
}
use verdant_backend.Permissions.Search.Laws.{first_with}
use verdant_backend.Permissions.Search.Edits.{HasDistinctKeys}

module _ {A : Type 0} (key : A → ℕ) where
  pub first_with_key : (k : ℕ) {a : A} (xs : List A) → first_with key k xs ≡ some a → key a ≡ k
  first_with_key k [] h = cc
  first_with_key k {a} (x ∷ xs) h =
      ground (arith, first_with_key k {a = a} xs, λ (p : x ≡ a). ap key p)

  -- An element that passes a test, and is what its key finds.
  pub any-first_with :
      (p : A → Bool) (xs : List A)
      → HasDistinctKeys key xs
      → any p xs ≡ true
      → (a : A) × (first_with key (key a) xs ≡ some a) × (p a ≡ true)
  any-first_with p [] d h = cc
  any-first_with p (x ∷ xs) d h = elim (Bool-cases (p x)) [
    | inl now ↦ (x, ground arith, now)
    | inr later ↦
        let (a, there, holds) = any-first_with p xs d.1 (ground arith) in
        (
          a,
          elim (Bool-cases (key x == key a)) [
            | inl e ↦
                let q : key x ≡ key a = ground arith in
                cc (d.0, there, ap (λ t. first_with key t xs) q)
            | inr e ↦ rw e there
          ],
          holds,
        )
  ]

  pub any_of_first_with :
      (p : A → Bool) (k : ℕ) (a : A) (xs : List A)
      → first_with key k xs ≡ some a
      → p a ≡ true
      → any p xs ≡ true
  any_of_first_with p k a [] f h = cc
  any_of_first_with p k a (x ∷ xs) f h =
      ground (arith, any_of_first_with p k a xs, λ (q : x ≡ a). ap p q)

module _ {A B : Type 0} (key : A → ℕ) (key' : B → ℕ) (f : A → B)
    (same : (a : A) → key' (f a) ≡ key a) where
  pub first_with-map :
      (k : ℕ) (xs : List A)
      → first_with key' k (map f xs)
        ≡ elim (first_with key k xs) [ none ↦ none | some a ↦ some (f a) ]
  first_with-map k [] = refl
  first_with-map k (x ∷ xs) = ground (arith, same x, first_with-map k xs)

  pub HasDistinctKeys-map : (xs : List A) → HasDistinctKeys key xs → HasDistinctKeys key' (map f xs)
  HasDistinctKeys-map [] d = tt
  HasDistinctKeys-map (x ∷ xs) d =
      (rw (same x, first_with-map (key x) xs, d.0) refl, HasDistinctKeys-map xs d.1)
