-- ===== src/Permissions/Loading/Fallback.antt =====
-- The fallback on the database computes what the cache computes.
use verdant_backend.Prelude.{
  ℕ, nat_eq, bit_or, ◌≡◌, refl, sym, ap, ◌∙◌, Bool, true, false, ◌||◌, not, List, [], ◌∷◌, map,
  none, some, any, ◌==◌, if◌then◌else◌, ◌&&◌, arith, inl, inr, Bool-cases, Option-cases,
}
use verdant_backend.Prelude.Bits.{bit_at, bit_at-bit_or, eq_of_bits, zero_bits}
use verdant_backend.Prelude.HashSet.{contains, any_witness, any_of_contains}
use verdant_backend.Permissions.Search.Laws.{first_with}
use verdant_backend.Permissions.Search.Edits.{HasDistinctKeys, find_by_key-sort_by_key}
use verdant_backend.Permissions.Storage.{RoleRow}
use verdant_backend.Permissions.Types.{ServerCacheEntry, role_key, find_role}
use verdant_backend.Permissions.Compute.{base_permissions}
use verdant_backend.Permissions.Compute.BitRules.{grants, base_rule, bit_at-base_permissions}
use verdant_backend.Permissions.Loading.{
  cached_role, everyone_role, sorted_roles, stored_permissions,
}
use verdant_backend.Permissions.Loading.Rows.{
  first_with_key, any-first_with, any_of_first_with, first_with-map, HasDistinctKeys-map,
}

abbrev pub row_key : RoleRow → ℕ
row_key r = r.id

-- The one row that is not for colour alone and stands at position 0.
abbrev pub IsEveryone : RoleRow → List RoleRow → Type 0
IsEveryone e [] = Unit
IsEveryone e (r ∷ rs) = (r.color_only ≡ false → r.position ≡ 0 → r.id ≡ e.id) × IsEveryone e rs

-- Role rows as the database keeps them: distinct ids, and one @everyone row.
pub record RolesAreValid (everyone : RoleRow) (rows : List RoleRow) : Type 0 where
  pub distinct : HasDistinctKeys row_key rows
  pub present : first_with row_key everyone.id rows ≡ some everyone
  pub plain : everyone.color_only ≡ false
  pub lowest : everyone.position ≡ 0
  pub only : IsEveryone everyone rows

everyone_role_stays :
    (e : RoleRow) (rows : List RoleRow) → IsEveryone e rows → everyone_role e.id rows ≡ e.id
unfolding everyone_role
everyone_role_stays e [] o = refl
everyone_role_stays e (r ∷ rs) o = elim (Bool-cases (not r.color_only && (r.position == 0))) [
  | inl h ↦ let same : r.id ≡ e.id = ground arith in rw (h, same) (everyone_role_stays e rs o.1)
  | inr h ↦ rw h (everyone_role_stays e rs o.1)
]

everyone_role-present :
    (e : RoleRow) (acc : ℕ) (rows : List RoleRow)
    → e.color_only ≡ false
    → e.position ≡ 0
    → IsEveryone e rows
    → first_with row_key e.id rows ≡ some e
    → everyone_role acc rows ≡ e.id
unfolding everyone_role
everyone_role-present e acc [] pl lo o f = cc
everyone_role-present e acc (r ∷ rs) pl lo o f = elim (Bool-cases (r.id == e.id)) [
  | inl h ↦
      let same : r ≡ e = ground arith in rw same (ground (arith, everyone_role_stays e rs o.1))
  | inr h ↦
      everyone_role-present e (if not r.color_only && (r.position == 0) then r.id else acc) rs pl lo
        o.1 (ground arith)
]

abbrev counts : List ℕ → ℕ → RoleRow → Bool
counts role_ids k r =
    not r.color_only && (((r.position == 0) || contains r.id role_ids) && bit_at k r.permissions)

bit_at-stored_permissions :
    (role_ids : List ℕ) (k perms : ℕ) (rows : List RoleRow)
    → bit_at k (stored_permissions role_ids perms rows)
      ≡ (bit_at k perms || any (counts role_ids k) rows)
unfolding stored_permissions
bit_at-stored_permissions role_ids k perms [] = ground arith
bit_at-stored_permissions role_ids k perms (r ∷ rs) = elim (Bool-cases r.color_only) [
  | inl c ↦ ground (arith, bit_at-stored_permissions role_ids k perms rs)
  | inr c ↦ elim (Bool-cases ((r.position == 0) || contains r.id role_ids)) [
    | inl h ↦ ground (
      arith,
      bit_at-stored_permissions role_ids k (bit_or perms r.permissions) rs,
      bit_at-bit_or k perms r.permissions,
    )
    | inr h ↦ ground (arith, bit_at-stored_permissions role_ids k perms rs)
  ]
]

everyone_of :
    (e : RoleRow) (k : ℕ) (r : RoleRow) (rows : List RoleRow)
    → IsEveryone e rows
    → first_with row_key k rows ≡ some r
    → r.color_only ≡ false
    → r.position ≡ 0
    → r.id ≡ e.id
everyone_of e k r [] o f c p = cc
everyone_of e k r (x ∷ xs) o f c p = ground (
  arith,
  everyone_of e k r xs o.1,
  λ (q : x ≡ r). ap (λ t. t.color_only) q,
  λ (q : x ≡ r). ap (λ t. t.position) q,
  λ (q : x ≡ r). ap (λ t. t.id) q,
)

module _ (s : ServerCacheEntry) (everyone : RoleRow) (rows : List RoleRow)
    (valid : RolesAreValid everyone rows) (roles_loaded : s.roles ≡ sorted_roles rows)
    (everyone_loaded : s.everyone_role_id ≡ everyone_role 0 rows) where
  -- A role in the cache is the row of that id.
  pub find_role-loaded :
      (k : ℕ)
      → find_role s k
        ≡ elim (first_with row_key k rows) [ none ↦ none | some r ↦ some (cached_role r) ]
  unfolding find_role sorted_roles
  find_role-loaded k = rw roles_loaded (
      find_by_key-sort_by_key role_key k (map cached_role rows) (
        HasDistinctKeys-map row_key role_key cached_role (λ r. unfold cached_role in refl) rows
          valid.distinct)
      ∙ first_with-map row_key role_key cached_role (λ r. unfold cached_role in refl) k rows)

  pub everyone_id : s.everyone_role_id ≡ everyone.id
  everyone_id =
      everyone_loaded
      ∙ everyone_role-present everyone 0 rows valid.plain valid.lowest valid.only valid.present

  module _ (role_ids : List ℕ) (k : ℕ) where
    everyone_bit : Bool
    everyone_bit = elim (find_role s s.everyone_role_id) [
      | none ↦ false
      | some r ↦ bit_at k r.permissions
    ]

    everyone_bit_lem : everyone_bit ≡ bit_at k everyone.permissions
    unfolding everyone_bit cached_role find_role
    everyone_bit_lem =
        ground (arith, ap (find_role s) everyone_id, find_role-loaded everyone.id, valid.present)

    -- A row that counts is @everyone's or an assigned role's.
    stored_rule : any (counts role_ids k) rows ≡ true → base_rule s role_ids k ≡ true
    unfolding everyone_bit cached_role
    stored_rule h =
        let (r, there, holds) = any-first_with row_key (counts role_ids k) rows valid.distinct h in
        elim (Bool-cases (contains r.id role_ids)) [
          | inl mine ↦
              ground (arith, any_of_contains (grants s k) r.id role_ids mine, find_role-loaded r.id)
          | inr other ↦
              let is_everyone : r.id ≡ everyone.id =
                everyone_of everyone r.id r rows valid.only there (ground arith) (ground arith) in
              let same : some r ≡ some everyone =
                sym there ∙ (ap (λ t. first_with row_key t rows) is_everyone ∙ valid.present) in
              ground (arith, everyone_bit_lem, same)
        ]

    rule_stored : base_rule s role_ids k ≡ true → any (counts role_ids k) rows ≡ true
    unfolding everyone_bit
    rule_stored h = elim (Bool-cases (bit_at k everyone.permissions)) [
      | inl e ↦
          any_of_first_with row_key (counts role_ids k) everyone.id everyone rows valid.present
            (ground (arith, valid.plain, valid.lowest))
      | inr e ↦
          let (rid, mine, given) =
            any_witness (grants s k) role_ids (ground (arith, everyone_bit_lem)) in
          granted_row rid mine given
    ]
      where
        granted_row :
            (rid : ℕ)
            → contains rid role_ids ≡ true
            → grants s k rid ≡ true
            → any (counts role_ids k) rows ≡ true
        granted_row rid mine given = elim (Option-cases (first_with row_key rid rows)) [
          | inl none_there ↦ ground (arith, find_role-loaded rid)
          | inr (r, there) ↦ any_of_first_with row_key (counts role_ids k) rid r rows there (
              unfold cached_role in
              ground (
                arith,
                find_role-loaded rid,
                ap (λ t. contains t role_ids) (first_with_key row_key rid rows there),
              ))
        ]

  -- The fold over the database rows gives the word that the cache computes from its sorted copy.
  pub stored_permissions-eq-base :
      (role_ids : List ℕ) → stored_permissions role_ids 0 rows ≡ base_permissions s role_ids
  stored_permissions-eq-base role_ids = eq_of_bits _ _ λ k. ground (
    arith,
    bit_at-stored_permissions role_ids k 0 rows,
    bit_at-base_permissions s role_ids k,
    zero_bits k,
    stored_rule role_ids k,
    rule_stored role_ids k,
  )
