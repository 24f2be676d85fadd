-- ===== src/Permissions/Search/Laws.antt =====
-- On a list whose keys rise, the search finds the element of a key, and the place of a new one.
use verdant_backend.Prelude.{
  ℕ, zero, suc, ◌+◌, ◌-◌, ◌/◌, ◌≤◌, ◌<◌, ◌≡◌, ◌≢◌, refl, List, [], ◌∷◌, Option, none, some, ltb,
  leb, ◌==◌, if◌then◌else◌, length, get_elem?, arith, ◌⊎◌, inl, inr, Bool-cases, sym,
}
use verdant_backend.Permissions.Search.{
  SearchResult, found, missing, key_at, narrow, binary_search_by_key, find_by_key,
}

module _ {A : Type 0} (key : A → ℕ) where
  -- The first element of a key, looked for from the front.
  abbrev pub first_with : ℕ → List A → Option A
  first_with k [] = none
  first_with k (x ∷ xs) = if key x == k then some x else first_with k xs

  abbrev pub AllAbove : ℕ → List A → Type 0
  AllAbove k [] = Unit
  AllAbove k (x ∷ xs) = (k < key x) × AllAbove k xs

  -- Keys rise strictly: sorted, with no key twice.
  abbrev pub IsRising : List A → Type 0
  IsRising [] = Unit
  IsRising (x ∷ xs) = AllAbove (key x) xs × IsRising xs

  key_at_above : (k : ℕ) (xs : List A) (i : ℕ) → AllAbove k xs → i < length xs → k < key_at key xs i
  key_at_above k [] i h l = elim l [ ]
  key_at_above k (x ∷ xs) zero h l = h.0
  key_at_above k (x ∷ xs) (suc i) h l = key_at_above k xs i h.1 (omega arith)

  key_at_lt :
      (xs : List A) (i j : ℕ)
      → IsRising xs
      → i < j
      → j < length xs
      → key_at key xs i < key_at key xs j
  key_at_lt [] i j s h l = elim l [ ]
  key_at_lt (x ∷ xs) i zero s h l = absurd (omega arith)
  key_at_lt (x ∷ xs) zero (suc j) s h l = key_at_above (key x) xs j s.0 (omega arith)
  key_at_lt (x ∷ xs) (suc i) (suc j) s h l = key_at_lt xs i j s.1 (omega arith) (omega arith)

  -- All keys at or past `i` are above `k`.
  abbrev PastAbove : ℕ → List A → ℕ → Type 0
  PastAbove k xs i = (j : ℕ) → i ≤ j → j < length xs → k < key_at key xs j

  past_from : (k : ℕ) (xs : List A) (i : ℕ) → IsRising xs → k < key_at key xs i → PastAbove k xs i
  past_from k xs i s h j q r = elim (Bool-cases (i == j)) [
    | inl e ↦ let p : i ≡ j = ground arith in rw (← p) h
    | inr e ↦ omega (arith, key_at_lt xs i j s (ground arith) r)
  ]

  -- After the loop the last candidate is below the length, no later key is `k` or less, and it is
  -- itself at most `k` unless it is the first.
  narrow_lem :
      (fuel k : ℕ) (xs : List A) (base size : ℕ)
      → IsRising xs
      → 0 < size
      → size ≤ fuel + 1
      → base + size ≤ length xs
      → (base ≡ 0) ⊎ (key_at key xs base ≤ k)
      → PastAbove k xs (base + size)
      → let b = narrow key fuel k xs base size in
        (b < length xs) × ((b ≡ 0) ⊎ (key_at key xs b ≤ k)) × PastAbove k xs (b + 1)
  unfolding narrow
  narrow_lem zero k xs base size s p f l lo hi = (omega arith, lo, λ j q r. hi j (omega arith) r)
  narrow_lem (suc fuel) k xs base size s p f l lo hi = elim (Bool-cases (leb size 1)) [
    | inl e ↦ rw e (omega arith, lo, λ j q r. hi j (ground arith) r)
    | inr e ↦ rw e (elim (Bool-cases (ltb k (key_at key xs (base + size / 2)))) [
      | inl above ↦ rw above (
          narrow_lem fuel k xs base (size - size / 2) s (ground arith) (ground arith) (ground arith)
            lo (λ j q r. past_from k xs (base + size / 2) s (ground arith) j (ground arith) r))
      | inr below ↦ rw below (
          narrow_lem fuel k xs (base + size / 2) (size - size / 2) s (ground arith) (ground arith)
            (ground arith) (inr (ground arith)) (λ j q r. hi j (ground arith) r))
    ])
  ]

  first_with_at :
      (k : ℕ) (xs : List A) (i : ℕ)
      → IsRising xs
      → i < length xs
      → key_at key xs i ≡ k
      → get_elem? xs i ≡ first_with k xs
  first_with_at k [] i s l e = elim l [ ]
  first_with_at k (x ∷ xs) zero s l e = ground arith
  first_with_at k (x ∷ xs) (suc i) s l e =
      ground (
        arith,
        first_with_at k xs i s.1 (omega arith) e,
        key_at_above (key x) xs i s.0 (omega arith),
      )

  first_with-none :
      (k : ℕ) (xs : List A)
      → ((i : ℕ) → i < length xs → key_at key xs i ≢ k)
      → first_with k xs ≡ none
  first_with-none k [] h = refl
  first_with-none k (x ∷ xs) h =
      ground (arith, h 0 (omega arith), first_with-none k xs (λ i l. h (suc i) (omega arith)))

  -- The place that the search reports for a key that is not there.
  abbrev pub IsPlace : ℕ → List A → ℕ → Type 0
  IsPlace k xs i =
      (i ≤ length xs) × ((j : ℕ) → j < i → j < length xs → key_at key xs j < k) × PastAbove k xs i

  -- The search returns an element of the key, or the place where an element of the key belongs.
  abbrev pub Answers : ℕ → List A → SearchResult → Type 0
  Answers k xs (found i) = (i < length xs) × (key_at key xs i ≡ k)
  Answers k xs (missing i) = IsPlace k xs i

  below_of :
      (k : ℕ) (xs : List A) (b : ℕ)
      → IsRising xs
      → b < length xs
      → key_at key xs b < k
      → (j : ℕ) → j < b + 1
      → j < length xs
      → key_at key xs j < k
  below_of k xs b s l h j q r = elim (Bool-cases (j == b)) [
    | inl e ↦ let p : j ≡ b = ground arith in rw p h
    | inr e ↦ omega (arith, key_at_lt xs j b s (ground arith) l)
  ]

  judge :
      (k : ℕ) (xs : List A) (b : ℕ)
      → IsRising xs
      → b < length xs
      → (b ≡ 0) ⊎ (key_at key xs b ≤ k)
      → PastAbove k xs (b + 1)
      → Answers k xs (
          if key_at key xs b == k
          then found b
          else missing (if ltb (key_at key xs b) k then b + 1 else b))
  judge k xs b s l lo hi = elim (Bool-cases (key_at key xs b == k)) [
    | inl e ↦ rw e (l, ground arith)
    | inr e ↦ rw e (elim (Bool-cases (ltb (key_at key xs b) k)) [
      | inl less ↦ rw less (omega arith, below_of k xs b s l (ground arith), hi)
      | inr more ↦ rw more (omega arith, (λ j q r. ground arith), past_from k xs b s (ground arith))
    ])
  ]

  pub binary_search-Answers :
      (k : ℕ) (xs : List A) → IsRising xs → Answers k xs (binary_search_by_key key k xs)
  unfolding binary_search_by_key
  binary_search-Answers k [] s = (omega arith, (λ j q r. elim r [ ]), (λ j q r. elim r [ ]))
  binary_search-Answers k (x ∷ xs) s =
      let r =
        narrow_lem (length (x ∷ xs)) k (x ∷ xs) 0 (length (x ∷ xs)) s (omega arith) (omega arith)
          (omega arith) (inl refl) (λ j q l. absurd (omega arith)) in
      judge k (x ∷ xs) _ s r.0 r.1 r.2

  not_there :
      (k : ℕ) (xs : List A) (i : ℕ) → IsPlace k xs i → (j : ℕ) → j < length xs → key_at key xs j ≢ k
  not_there k xs i p j l e = elim (Bool-cases (ltb j i)) [
    | inl h ↦ omega (arith, p.1 j (ground arith) l)
    | inr h ↦ omega (arith, p.2 j (ground arith) l)
  ]

  -- Looking a key up by binary search is looking it up from the front.
  pub find_by_key-eq-first_with :
      (k : ℕ) (xs : List A) → IsRising xs → find_by_key key k xs ≡ first_with k xs
  unfolding find_by_key
  find_by_key-eq-first_with k xs s =
      go (binary_search_by_key key k xs) (binary_search-Answers k xs s)
    where
      go :
          (r : SearchResult)
          → Answers k xs r
          → (elim r [ found i ↦ get_elem? xs i | missing _ ↦ none ]) ≡ first_with k xs
      go (found i) h = first_with_at k xs i s h.0 h.1
      go (missing i) h = sym (first_with-none k xs (not_there k xs i h))
