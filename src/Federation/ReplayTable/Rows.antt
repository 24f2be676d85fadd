-- ===== src/Federation/ReplayTable/Rows.antt =====
-- Which rows of the table of nonces (server-rs/src/federation/storage.rs) the statements keep.
use verdant_backend.Prelude.{
  ℕ, zero, suc, ◌≡◌, ◌≤◌, refl, sym, ap, ◌∙◌, Bool, true, false, List, [], ◌∷◌, some, nat_eq,
  list_eq, take, Bool-cases, inl, inr, arith,
}
use verdant_backend.Prelude.Dict.{Dict, lookup, remove, keys, lookup-remove}
use verdant_backend.Prelude.HashSet.{contains, any_of_contains}
use verdant_backend.Permissions.Search.{sort_by_key}
use verdant_backend.Permissions.Search.Contents.{contains-sort}
use verdant_backend.Federation.ReplayTable.{
  NonceRow, NonceTable, conflicts, row_is, has_nonce, has_expired, filter_keys, expired_ids, expiry,
  delete_all, prune_expired_replay_nonces, batch_limit,
}

contains-keys :
    {V : Type 0} (k : ℕ) (v : V) (d : Dict ℕ V) → lookup k d ≡ some v → contains k (keys d) ≡ true
contains-keys k v [] h = cc
contains-keys k v ((j, w) ∷ d) h = ground (arith, contains-keys k v d)

-- A row with the nonce makes the insertion a conflict.
pub conflicts-of_row :
    (table : NonceTable) (id : ℕ) (row : NonceRow) (source nonce : List ℕ)
    → lookup id table ≡ some row
    → has_nonce source nonce row ≡ true
    → conflicts table source nonce ≡ true
unfolding conflicts
conflicts-of_row table id row source nonce h k =
    any_of_contains (row_is table (has_nonce source nonce)) id (keys table)
      (contains-keys id row table h) (rw (row_is, h) k)

-- What is taken of a list, sorted or filtered, was in it.
contains-take : (n y : ℕ) (xs : List ℕ) → contains y (take n xs) ≡ true → contains y xs ≡ true
contains-take zero y xs h = cc
contains-take (suc n) y [] h = cc
contains-take (suc n) y (x ∷ xs) h = ground (arith, contains-take n y xs)

contains-filter_keys :
    (p : ℕ → Bool) (y : ℕ) (xs : List ℕ) → contains y (filter_keys p xs) ≡ true → p y ≡ true
contains-filter_keys p y [] h = cc
contains-filter_keys p y (x ∷ xs) h =
    ground (arith, contains-filter_keys p y xs, λ (e : x ≡ y). ap p e)

-- What a statement picks, the first ones of those that pass a test, passes it.
pub contains-oldest :
    (p : ℕ → Bool) (rank : ℕ → ℕ) (limit id : ℕ) (xs : List ℕ)
    → contains id (take limit (sort_by_key rank (sort_by_key (λ i. i) (filter_keys p xs)))) ≡ true
    → p id ≡ true
contains-oldest p rank limit id xs h =
    let found : List ℕ = filter_keys p xs in
    contains-filter_keys p id xs (
      sym (contains-sort (λ i. i) id found)
      ∙ sym (contains-sort rank id (sort_by_key (λ i. i) found))
      ∙ contains-take limit id _ h)

expired_ids-expired :
    (table : NonceTable) (now limit id : ℕ)
    → contains id (expired_ids table now limit) ≡ true
    → row_is table (has_expired now) id ≡ true
unfolding expired_ids
expired_ids-expired table now limit id h =
    contains-oldest (row_is table (has_expired now)) (expiry table) limit id (keys table) h

lookup-delete_all :
    (ids : List ℕ) (table : NonceTable) (id : ℕ)
    → contains id ids ≡ false
    → lookup id (delete_all ids table) ≡ lookup id table
lookup-delete_all [] table id h = refl
lookup-delete_all (x ∷ ids) table id h =
    lookup-delete_all ids (remove x table) id (ground (arith, h))
    ∙ lookup-remove x id table
    ∙ ground (arith, h)

-- A row that has not expired is kept.
pub prune-keeps :
    (answers : Bool) (table : NonceTable) (now limit id : ℕ) (row : NonceRow)
    → lookup id table ≡ some row
    → now ≤ row.expires_at_ms
    → lookup id (prune_expired_replay_nonces answers table now limit) ≡ some row
unfolding prune_expired_replay_nonces
prune-keeps false table now limit id row h k = h
prune-keeps true table now limit id row h k =
    let ids : List ℕ = expired_ids table now (batch_limit limit) in
    elim (Bool-cases (contains id ids)) [
      | inl e ↦
          let gone = expired_ids-expired table now (batch_limit limit) id e in
          absurd (ground (arith, h, gone))
      | inr e ↦ lookup-delete_all ids table id e ∙ h
    ]
