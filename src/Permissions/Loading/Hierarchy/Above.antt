-- ===== src/Permissions/Loading/Hierarchy/Above.antt =====
-- Who stands above whom (server-rs/src/services/permissions.rs), said of the roles one by one.
use verdant_backend.Prelude.{
  ℕ, nat_eq, ◌≡◌, refl, ◌∙◌, max, Bool, true, false, ◌&&◌, not, List, [], ◌∷◌, Option, none, some,
  ltb, if◌then◌else◌, any, all, Option-cases, Bool-cases, inl, inr, arith,
}
use verdant_backend.Prelude.HashSet.{contains}
use verdant_backend.Permissions.Storage.{RoleRow}
use verdant_backend.Permissions.Types.{ServerCacheEntry, find_role}
use verdant_backend.Permissions.Loading.Hierarchy.{highest_position, stored_position}

-- The position of a role that counts: the server has it and it is not for colour alone.
abbrev pub counted : ServerCacheEntry → ℕ → Option ℕ
counted s role_id = elim (find_role s role_id) [
  | none ↦ none
  | some r ↦ if r.color_only then none else some r.position
]

-- The same of a stored row, for a user with the role ids.
abbrev pub counted_row : List ℕ → RoleRow → Option ℕ
counted_row role_ids r =
    if contains r.id role_ids && not r.color_only then some r.position else none

-- What counts of `ys` is below `n`.
abbrev pub all_below : {B : Type 0} → (B → Option ℕ) → List B → ℕ → Bool
all_below g ys n = all (λ y. elim (g y) [ none ↦ true | some m ↦ ltb m n ]) ys

-- One of `xs` counts, above 0 and above all that counts of `ys`.
abbrev pub one_above : {A B : Type 0} → (A → Option ℕ) → List A → (B → Option ℕ) → List B → Bool
one_above f xs g ys =
    any (λ x. elim (f x) [ none ↦ false | some n ↦ ltb 0 n && all_below g ys n ]) xs

module _ {A : Type 0} (f : A → Option ℕ) where
  greatest : ℕ → List A → ℕ
  greatest h [] = h
  greatest h (x ∷ xs) = greatest (elim (f x) [ none ↦ h | some n ↦ max h n ]) xs

  greatest-all_below :
      (h n : ℕ) (xs : List A) → ltb (greatest h xs) n ≡ (ltb h n && all_below f xs n)
  unfolding greatest
  greatest-all_below h n [] = ground arith
  greatest-all_below h n (x ∷ xs) = elim (Option-cases (f x)) [
    | inl e ↦ rw e (ground (arith, greatest-all_below h n xs))
    | inr (m, e) ↦ rw e (ground (arith, greatest-all_below (max h m) n xs))
  ]

  -- The greatest is above `m` exactly if the start is, or one of those that count.
  greatest-above :
      (h m : ℕ) (xs : List A)
      → ltb m (greatest h xs)
        ≡ (if ltb m h then true else any (λ x. elim (f x) [ none ↦ false | some n ↦ ltb m n ]) xs)
  unfolding greatest
  greatest-above h m [] = ground arith
  greatest-above h m (x ∷ xs) = elim (Option-cases (f x)) [
    | inl e ↦ rw e (ground (arith, greatest-above h m xs))
    | inr (n, e) ↦ rw e (ground (arith, greatest-above (max h n) m xs))
  ]

any-same : {A : Type 0} (p q : A → Bool) (xs : List A) → ((x : A) → p x ≡ q x) → any p xs ≡ any q xs
any-same p q [] h = refl
any-same p q (x ∷ xs) h = rw (h x, any-same p q xs h) refl

greatest-one_above :
    {A B : Type 0} (f : A → Option ℕ) (xs : List A) (g : B → Option ℕ) (ys : List B)
    → ltb (greatest g 0 ys) (greatest f 0 xs) ≡ one_above f xs g ys
greatest-one_above f xs g ys =
    greatest-above f 0 (greatest g 0 ys) xs
    ∙ no_less
    ∙ any-same _ _ xs (λ x. elim (Option-cases (f x)) [
      | inl e ↦ rw e refl
      | inr (n, e) ↦ rw e (greatest-all_below g 0 n ys)
    ])
  where
    no_less :
        (if ltb (greatest g 0 ys) 0
          then true
          else any (λ x. elim (f x) [ none ↦ false | some n ↦ ltb (greatest g 0 ys) n ]) xs)
        ≡ any (λ x. elim (f x) [ none ↦ false | some n ↦ ltb (greatest g 0 ys) n ]) xs
    no_less = ground arith

highest_position-greatest :
    (s : ServerCacheEntry) (h : ℕ) (ids : List ℕ)
    → highest_position s h ids ≡ greatest (counted s) h ids
unfolding highest_position greatest
highest_position-greatest s h [] = refl
highest_position-greatest s h (id ∷ ids) = elim (Option-cases (find_role s id)) [
  | inl e ↦ rw (highest_position, e) (highest_position-greatest s h ids)
  | inr (r, e) ↦ elim (Bool-cases r.color_only) [
    | inl k ↦ rw (highest_position, e, k) (highest_position-greatest s h ids)
    | inr k ↦ rw (highest_position, e, k) (highest_position-greatest s (max h r.position) ids)
  ]
]

stored_position-greatest :
    (role_ids : List ℕ) (h : ℕ) (rows : List RoleRow)
    → stored_position role_ids h rows ≡ greatest (counted_row role_ids) h rows
unfolding stored_position greatest
stored_position-greatest role_ids h [] = refl
stored_position-greatest role_ids h (r ∷ rows) =
    elim (Bool-cases (contains r.id role_ids && not r.color_only)) [
      | inl e ↦ rw (stored_position, e) (stored_position-greatest role_ids (max h r.position) rows)
      | inr e ↦ rw (stored_position, e) (stored_position-greatest role_ids h rows)
    ]

-- Who is above whom, by the code's positions and by the roles.
pub highest_position-one_above :
    (s : ServerCacheEntry) (lower upper : List ℕ)
    → ltb (highest_position s 0 lower) (highest_position s 0 upper)
      ≡ one_above (counted s) upper (counted s) lower
highest_position-one_above s lower upper =
    rw (highest_position-greatest s 0 lower, highest_position-greatest s 0 upper)
      (greatest-one_above (counted s) upper (counted s) lower)

pub highest_position-all_below :
    (s : ServerCacheEntry) (n : ℕ) (ids : List ℕ)
    → ltb (highest_position s 0 ids) n ≡ (ltb 0 n && all_below (counted s) ids n)
highest_position-all_below s n ids =
    rw (highest_position-greatest s 0 ids) (greatest-all_below (counted s) 0 n ids)

pub stored_position-one_above :
    (lower upper : List ℕ) (rows : List RoleRow)
    → ltb (stored_position lower 0 rows) (stored_position upper 0 rows)
      ≡ one_above (counted_row upper) rows (counted_row lower) rows
stored_position-one_above lower upper rows =
    rw (stored_position-greatest lower 0 rows, stored_position-greatest upper 0 rows)
      (greatest-one_above (counted_row upper) rows (counted_row lower) rows)
