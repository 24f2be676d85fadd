-- ===== src/Permissions/Search.antt =====
-- `slice::binary_search_by_key` as the cache uses it (std library): the interval is halved while it
-- holds two elements or more, and the last candidate is compared with the key.
pub mod Contents
pub mod Laws
pub mod Edits
use verdant_backend.Prelude.{
  ℕ, zero, suc, ◌+◌, ◌-◌, ◌/◌, List, [], ◌∷◌, Option, none, some, ltb, leb, ◌==◌, if◌then◌else◌,
  length, get_elem?, take, drop, ◌++◌,
}

-- `Ok` with the index of a match, or `Err` with the place where the key belongs.
pub data SearchResult : Type 0 where
  found : ℕ → SearchResult
  missing : ℕ → SearchResult

module _ {A : Type 0} (key : A → ℕ) where
  -- The key at an index below the length.
  abbrev pub key_at : List A → ℕ → ℕ
  key_at [] i = 0
  key_at (x ∷ xs) zero = key x
  key_at (x ∷ xs) (suc i) = key_at xs i

  pub narrow : ℕ → ℕ → List A → ℕ → ℕ → ℕ
  narrow zero k xs base size = base
  narrow (suc fuel) k xs base size =
      let mid = base + size / 2 in
      let next = narrow fuel k xs (if ltb k (key_at xs mid) then base else mid) (size - size / 2) in
      if leb size 1 then base else next

  -- The length is fuel enough, since the interval shrinks in every round.
  unfoldable pub binary_search_by_key : ℕ → List A → SearchResult
  unfolding narrow
  binary_search_by_key k [] = missing 0
  binary_search_by_key k (x ∷ xs) =
      let base = narrow (length (x ∷ xs)) k (x ∷ xs) 0 (length (x ∷ xs)) in
      let at = key_at (x ∷ xs) base in
      if at == k then found base else missing (if ltb at k then base + 1 else base)

  -- `binary_search_by_key(..).ok().map(|idx| &xs[idx])`.
  unfoldable pub find_by_key : ℕ → List A → Option A
  unfolding binary_search_by_key
  find_by_key k xs = elim (binary_search_by_key k xs) [
    | found i ↦ get_elem? xs i
    | missing _ ↦ none
  ]

-- `Vec::insert(idx, x)`, `Vec::remove(idx)` and a write at an index.
unfoldable pub insert_at : {A : Type 0} → ℕ → A → List A → List A
insert_at zero x xs = x ∷ xs
insert_at (suc i) x [] = x ∷ []
insert_at (suc i) x (y ∷ ys) = y ∷ insert_at i x ys

unfoldable pub remove_at : {A : Type 0} → ℕ → List A → List A
remove_at i [] = []
remove_at zero (x ∷ xs) = xs
remove_at (suc i) (x ∷ xs) = x ∷ remove_at i xs

unfoldable pub update_at : {A : Type 0} → ℕ → (A → A) → List A → List A
update_at i f [] = []
update_at zero f (x ∷ xs) = f x ∷ xs
update_at (suc i) f (x ∷ xs) = x ∷ update_at i f xs

-- `sort_unstable_by_key`, by insertion.
unfoldable pub insert_sorted : {A : Type 0} → (A → ℕ) → A → List A → List A
insert_sorted key x [] = x ∷ []
insert_sorted key x (y ∷ ys) =
    if ltb (key y) (key x) then y ∷ insert_sorted key x ys else x ∷ y ∷ ys

unfoldable pub sort_by_key : {A : Type 0} → (A → ℕ) → List A → List A
unfolding insert_sorted
sort_by_key key [] = []
sort_by_key key (x ∷ xs) = insert_sorted key x (sort_by_key key xs)
