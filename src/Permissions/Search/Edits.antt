-- ===== src/Permissions/Search/Edits.antt =====
-- Insertion, removal, update and sorting keep the keys rising, and change the view by key as
-- meant.
use verdant_backend.Prelude.{
  ℕ, zero, suc, ◌<◌, ◌≡◌, refl, List, [], ◌∷◌, none, some, ltb, ◌==◌, if◌then◌else◌, length, arith,
  inl, inr, Bool-cases, ◌∙◌,
}
use verdant_backend.Permissions.Search.{
  key_at, find_by_key, insert_at, remove_at, update_at, insert_sorted, sort_by_key,
}
use verdant_backend.Permissions.Search.Laws.{
  first_with, AllAbove, IsRising, IsPlace, find_by_key-eq-first_with,
}

module _ {A : Type 0} (key : A → ℕ) where
  AllAbove-insert_at :
      (k i : ℕ) (x : A) (xs : List A)
      → AllAbove key k xs
      → k < key x
      → AllAbove key k (insert_at i x xs)
  unfolding insert_at
  AllAbove-insert_at k zero x xs h l = (l, h)
  AllAbove-insert_at k (suc i) x [] h l = (l, tt)
  AllAbove-insert_at k (suc i) x (y ∷ ys) h l = (h.0, AllAbove-insert_at k i x ys h.1 l)

  AllAbove-past :
      (k : ℕ) (xs : List A) → ((j : ℕ) → j < length xs → k < key_at key xs j) → AllAbove key k xs
  AllAbove-past k [] h = tt
  AllAbove-past k (x ∷ xs) h =
      (h 0 (omega arith), AllAbove-past k xs (λ j l. h (suc j) (omega arith)))

  IsPlace-tail :
      (k i : ℕ) (y : A) (ys : List A) → IsPlace key k (y ∷ ys) (suc i) → IsPlace key k ys i
  IsPlace-tail k i y ys p = (
    omega (arith, p.0),
    (λ j q r. p.1 (suc j) (omega arith) (omega arith)),
    λ j q r. p.2 (suc j) (omega arith) (omega arith),
  )

  pub insert_at-IsRising :
      (i : ℕ) (x : A) (xs : List A)
      → IsRising key xs
      → IsPlace key (key x) xs i
      → IsRising key (insert_at i x xs)
  unfolding insert_at
  insert_at-IsRising zero x xs s p = (AllAbove-past (key x) xs (λ j l. p.2 j (omega arith) l), s)
  insert_at-IsRising (suc i) x [] s p = (tt, tt)
  insert_at-IsRising (suc i) x (y ∷ ys) s p = (
    AllAbove-insert_at (key y) i x ys s.0 (p.1 0 (omega arith) (omega arith)),
    insert_at-IsRising i x ys s.1 (IsPlace-tail (key x) i y ys p),
  )

  pub first_with-insert_at :
      (i : ℕ) (x : A) (xs : List A)
      → IsPlace key (key x) xs i
      → (k : ℕ)
      → first_with key k (insert_at i x xs) ≡ (if key x == k then some x else first_with key k xs)
  unfolding insert_at
  first_with-insert_at zero x xs p k = refl
  first_with-insert_at (suc i) x [] p k = refl
  first_with-insert_at (suc i) x (y ∷ ys) p k = ground (
    arith,
    first_with-insert_at i x ys (IsPlace-tail (key x) i y ys p) k,
    p.1 0 (omega arith) (omega arith),
  )

  AllAbove-remove_at : (k i : ℕ) (xs : List A) → AllAbove key k xs → AllAbove key k (remove_at i xs)
  unfolding remove_at
  AllAbove-remove_at k zero [] h = tt
  AllAbove-remove_at k (suc i) [] h = tt
  AllAbove-remove_at k zero (x ∷ xs) h = h.1
  AllAbove-remove_at k (suc i) (x ∷ xs) h = (h.0, AllAbove-remove_at k i xs h.1)

  pub remove_at-IsRising : (i : ℕ) (xs : List A) → IsRising key xs → IsRising key (remove_at i xs)
  unfolding remove_at
  remove_at-IsRising zero [] s = tt
  remove_at-IsRising (suc i) [] s = tt
  remove_at-IsRising zero (x ∷ xs) s = s.1
  remove_at-IsRising (suc i) (x ∷ xs) s =
      (AllAbove-remove_at (key x) i xs s.0, remove_at-IsRising i xs s.1)

  module _ (f : A → A) (same : (x : A) → key (f x) ≡ key x) where
    AllAbove-update_at :
        (k i : ℕ) (xs : List A) → AllAbove key k xs → AllAbove key k (update_at i f xs)
    unfolding update_at
    AllAbove-update_at k zero [] h = tt
    AllAbove-update_at k (suc i) [] h = tt
    AllAbove-update_at k zero (x ∷ xs) h = (omega (arith, same x, h.0), h.1)
    AllAbove-update_at k (suc i) (x ∷ xs) h = (h.0, AllAbove-update_at k i xs h.1)

    pub update_at-IsRising :
        (i : ℕ) (xs : List A) → IsRising key xs → IsRising key (update_at i f xs)
    unfolding update_at
    update_at-IsRising zero [] s = tt
    update_at-IsRising (suc i) [] s = tt
    update_at-IsRising zero (x ∷ xs) s = (rw (same x) s.0, s.1)
    update_at-IsRising (suc i) (x ∷ xs) s =
        (AllAbove-update_at (key x) i xs s.0, update_at-IsRising i xs s.1)

  -- No key twice, in any order: what a primary key of the database gives.
  abbrev pub HasDistinctKeys : List A → Type 0
  HasDistinctKeys [] = Unit
  HasDistinctKeys (x ∷ xs) = (first_with key (key x) xs ≡ none) × HasDistinctKeys xs

  AllAbove-insert_sorted :
      (k : ℕ) (x : A) (xs : List A)
      → AllAbove key k xs
      → k < key x
      → AllAbove key k (insert_sorted key x xs)
  unfolding insert_sorted
  AllAbove-insert_sorted k x [] h l = (l, tt)
  AllAbove-insert_sorted k x (y ∷ ys) h l = elim (Bool-cases (ltb (key y) (key x))) [
    | inl e ↦ rw e (h.0, AllAbove-insert_sorted k x ys h.1 l)
    | inr e ↦ rw e (l, h)
  ]

  AllAbove-mono : (k j : ℕ) (xs : List A) → AllAbove key k xs → j < k → AllAbove key j xs
  AllAbove-mono k j [] h l = tt
  AllAbove-mono k j (x ∷ xs) h l = (omega (arith, h.0), AllAbove-mono k j xs h.1 l)

  insert_sorted-IsRising :
      (x : A) (xs : List A)
      → IsRising key xs
      → first_with key (key x) xs ≡ none
      → IsRising key (insert_sorted key x xs)
  unfolding insert_sorted
  insert_sorted-IsRising x [] s n = (tt, tt)
  insert_sorted-IsRising x (y ∷ ys) s n = elim (Bool-cases (ltb (key y) (key x))) [
    | inl e ↦ rw e (
      AllAbove-insert_sorted (key y) x ys s.0 (ground arith),
      insert_sorted-IsRising x ys s.1 (ground arith),
    )
    | inr e ↦
        let less : key x < key y = ground arith in
        rw e ((less, AllAbove-mono (key y) (key x) ys s.0 less), s)
  ]

  first_with-insert_sorted :
      (k : ℕ) (x : A) (xs : List A)
      → first_with key (key x) xs ≡ none
      → first_with key k (insert_sorted key x xs) ≡ first_with key k (x ∷ xs)
  unfolding insert_sorted
  first_with-insert_sorted k x [] n = refl
  first_with-insert_sorted k x (y ∷ ys) n = ground (arith, first_with-insert_sorted k x ys)

  pub first_with-sort_by_key :
      (k : ℕ) (xs : List A)
      → HasDistinctKeys xs
      → first_with key k (sort_by_key key xs) ≡ first_with key k xs
  unfolding sort_by_key
  first_with-sort_by_key k [] d = refl
  first_with-sort_by_key k (x ∷ xs) d =
      first_with-insert_sorted k x (sort_by_key key xs)
        (first_with-sort_by_key (key x) xs d.1 ∙ d.0)
      ∙ ground (arith, first_with-sort_by_key k xs d.1)

  pub sort_by_key-IsRising : (xs : List A) → HasDistinctKeys xs → IsRising key (sort_by_key key xs)
  unfolding sort_by_key
  sort_by_key-IsRising [] d = tt
  sort_by_key-IsRising (x ∷ xs) d =
      insert_sorted-IsRising x (sort_by_key key xs) (sort_by_key-IsRising xs d.1)
        (first_with-sort_by_key (key x) xs d.1 ∙ d.0)

  -- For rows with distinct keys, binary search in the sorted copy finds what a search of the rows
  -- from the front finds.
  pub find_by_key-sort_by_key :
      (k : ℕ) (xs : List A)
      → HasDistinctKeys xs
      → find_by_key key k (sort_by_key key xs) ≡ first_with key k xs
  find_by_key-sort_by_key k xs d =
      find_by_key-eq-first_with key k (sort_by_key key xs) (sort_by_key-IsRising xs d)
      ∙ first_with-sort_by_key k xs d
