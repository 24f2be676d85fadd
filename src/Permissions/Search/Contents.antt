-- ===== src/Permissions/Search/Contents.antt =====
-- Sorting (server-rs/src/services/permissions.rs) keeps what a list holds.
use verdant_backend.Prelude.{ℕ, nat_eq, ◌≡◌, refl, ap, ◌∙◌, ◌||◌, List, [], ◌∷◌, ◌=?◌, arith}
use verdant_backend.Prelude.HashSet.{contains}
use verdant_backend.Permissions.Search.{insert_sorted, sort_by_key}

contains-insert_sorted :
    (key : ℕ → ℕ) (x y : ℕ) (xs : List ℕ)
    → contains y (insert_sorted key x xs) ≡ ((x =? y) || contains y xs)
unfolding insert_sorted
contains-insert_sorted key x y [] = refl
contains-insert_sorted key x y (z ∷ xs) = ground (arith, contains-insert_sorted key x y xs)

pub contains-sort :
    (key : ℕ → ℕ) (y : ℕ) (xs : List ℕ) → contains y (sort_by_key key xs) ≡ contains y xs
unfolding sort_by_key
contains-sort key y [] = refl
contains-sort key y (x ∷ xs) =
    contains-insert_sorted key x y (sort_by_key key xs)
    ∙ ap (λ b. (x =? y) || b) (contains-sort key y xs)
