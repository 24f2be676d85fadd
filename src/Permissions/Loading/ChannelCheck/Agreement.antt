-- ===== src/Permissions/Loading/ChannelCheck/Agreement.antt =====
-- The channel check on the database agrees with the computation on the cache.
use verdant_backend.Prelude.{
  ℕ, nat_eq, bit_and, bit_or, ◌≡◌, ◌≢◌, refl, sym, ap, ◌∙◌, Bool, true, false, ◌||◌, ◌&&◌, not,
  List, [], ◌∷◌, map, Option, none, some, any, ◌==◌, arith, inl, inr, Bool-cases, Option-cases,
  eq_refl,
}
use verdant_backend.Prelude.Bits.{bit_at, bit_at-bit_or, eq_of_bits}
use verdant_backend.Prelude.Dict.{lookup, lookup-modify, modify}
use verdant_backend.Prelude.HashSet.{
  contains, any_witness, any_of_contains, from_list, contains-from_list,
}
use verdant_backend.AppError.{ok}
use verdant_backend.Permissions.Bits.{administrator, has, apply_override}
use verdant_backend.Permissions.Search.{sort_by_key}
use verdant_backend.Permissions.Search.Laws.{first_with}
use verdant_backend.Permissions.Search.Edits.{HasDistinctKeys, find_by_key-sort_by_key}
use verdant_backend.Permissions.Storage.{Storage, OverrideRow}
use verdant_backend.Permissions.Types.{
  CachedOverride, CachedChannel, CachedRole, ServerCacheEntry, UserCacheEntry, PermissionCache,
  override_key, find_role, find_override, find_channel,
}
use verdant_backend.Permissions.Compute.{
  base_permissions, everyone_permissions, apply_everyone_override, accumulate_all,
  apply_channel_overrides, get_server_everyone_perms, member_channel_permissions,
  has_channel_permission, compute_permissions, assigned_roles,
}
use verdant_backend.Permissions.Compute.BitRules.{bit_at-accumulate_all}
use verdant_backend.Permissions.Compute.Effective.{
  has-all_bits, member_channel_permissions-same_roles,
}
use verdant_backend.Permissions.Loading.{
  cached_override, granted, user_role_ids, ensure_server_loaded, touch,
}
use verdant_backend.Permissions.Loading.Rows.{first_with_key, any-first_with, any_of_first_with}
use verdant_backend.Permissions.Loading.ChannelCheck.{
  first_everyone_override, is_permission_role, accumulate_overrides, fallback_base,
  fallback_overrides, channel_fallback, check_channel_permission,
}

first_everyone_override_lem :
    (e : ℕ) (ovs : List CachedOverride) (perms : ℕ)
    → first_everyone_override e ovs perms ≡ elim (first_with override_key e ovs) [
      | none ↦ perms
      | some ov ↦ apply_override perms ov.allow ov.deny
    ]
unfolding first_everyone_override
first_everyone_override_lem e [] perms = refl
first_everyone_override_lem e (ov ∷ ovs) perms =
    ground (arith, first_everyone_override_lem e ovs perms)

abbrev allowed_by : Option ServerCacheEntry → List ℕ → ℕ → CachedOverride → Bool
allowed_by s role_ids k ov =
    (is_permission_role s ov.role_id && contains ov.role_id role_ids) && bit_at k ov.allow

abbrev denied_by : Option ServerCacheEntry → List ℕ → ℕ → CachedOverride → Bool
denied_by s role_ids k ov =
    (is_permission_role s ov.role_id && contains ov.role_id role_ids) && bit_at k ov.deny

bit_at-accumulate_overrides :
    (s : Option ServerCacheEntry) (role_ids : List ℕ) (k : ℕ) (acc : ℕ × ℕ)
    (ovs : List CachedOverride)
    → (bit_at k (accumulate_overrides s role_ids acc ovs).0
        ≡ (bit_at k acc.0 || any (allowed_by s role_ids k) ovs))
      × (bit_at k (accumulate_overrides s role_ids acc ovs).1
          ≡ (bit_at k acc.1 || any (denied_by s role_ids k) ovs))
unfolding accumulate_overrides
bit_at-accumulate_overrides s role_ids k (a, d) [] = ground arith
bit_at-accumulate_overrides s role_ids k (a, d) (ov ∷ ovs) =
    elim (Bool-cases (is_permission_role s ov.role_id && contains ov.role_id role_ids)) [
      | inl h ↦ ground (
        arith,
        bit_at-accumulate_overrides s role_ids k (bit_or a ov.allow, bit_or d ov.deny) ovs,
        bit_at-bit_or k a ov.allow,
        bit_at-bit_or k d ov.deny,
      )
      | inr h ↦ ground (arith, bit_at-accumulate_overrides s role_ids k (a, d) ovs)
    ]

-- The channel's overrides in the cache are the sorted rows, one to a role, and the roles of the
-- user are roles of the server.
module _ (s : ServerCacheEntry) (channel : CachedChannel) (ovs : List CachedOverride)
    (role_ids : List ℕ) (sorted : channel.overrides ≡ sort_by_key override_key ovs)
    (distinct : HasDistinctKeys override_key ovs)
    (known : (r : ℕ)
      → contains r role_ids ≡ true
      → (role : CachedRole) × (find_role s r ≡ some role)) where
  find_override-rows : (k : ℕ) → find_override channel k ≡ first_with override_key k ovs
  unfolding find_override
  find_override-rows k = rw sorted (find_by_key-sort_by_key override_key k ovs distinct)

  module _ (part : CachedOverride → ℕ) (k : ℕ) where
    abbrev from_rows : CachedOverride → Bool
    from_rows ov =
        (is_permission_role (some s) ov.role_id && contains ov.role_id role_ids)
        && bit_at k (part ov)

    abbrev from_cache : ℕ → Bool
    from_cache role_id = elim (find_role s role_id) [
      | none ↦ false
      | some r ↦
          not r.color_only
          && elim (find_override channel role_id) [ none ↦ false | some ov ↦ bit_at k (part ov) ]
    ]

    rows_cache : any from_rows ovs ≡ true → any from_cache role_ids ≡ true
    unfolding is_permission_role
    rows_cache h =
        let (ov, there, holds) = any-first_with override_key from_rows ovs distinct h in
        let mine : contains ov.role_id role_ids ≡ true = ground arith in
        let (role, e) = known ov.role_id mine in
        any_of_contains from_cache ov.role_id role_ids mine
          (ground (arith, find_override-rows ov.role_id))

    cache_rows : any from_cache role_ids ≡ true → any from_rows ovs ≡ true
    cache_rows h = let (rid, mine, holds) = any_witness from_cache role_ids h in row rid mine holds
      where
        row :
            (rid : ℕ)
            → contains rid role_ids ≡ true
            → from_cache rid ≡ true
            → any from_rows ovs ≡ true
        row rid mine holds = elim (Option-cases (first_with override_key rid ovs)) [
          | inl e ↦ ground (arith, find_override-rows rid)
          | inr (ov, there) ↦ any_of_first_with override_key from_rows rid ov ovs there (
              let same = first_with_key override_key rid ovs there in
              unfold is_permission_role in
              ground (
                arith,
                find_override-rows rid,
                ap (is_permission_role (some s)) same,
                ap (λ t. contains t role_ids) same,
              ))
        ]

    rows-eq-cache : any from_rows ovs ≡ any from_cache role_ids
    rows-eq-cache = ground (arith, rows_cache, cache_rows)

  accumulate_overrides-eq :
      accumulate_overrides (some s) role_ids (0, 0) ovs ≡ accumulate_all s channel (0, 0) role_ids
  accumulate_overrides-eq =
      let p =
        eq_of_bits (accumulate_overrides (some s) role_ids (0, 0) ovs).0
          (accumulate_all s channel (0, 0) role_ids).0
          (λ k. ground (
            arith,
            bit_at-accumulate_overrides (some s) role_ids k (0, 0) ovs,
            bit_at-accumulate_all s channel k (0, 0) role_ids,
            rows-eq-cache (λ ov. ov.allow) k,
          )) in
      let q =
        eq_of_bits (accumulate_overrides (some s) role_ids (0, 0) ovs).1
          (accumulate_all s channel (0, 0) role_ids).1
          (λ k. ground (
            arith,
            bit_at-accumulate_overrides (some s) role_ids k (0, 0) ovs,
            bit_at-accumulate_all s channel k (0, 0) role_ids,
            rows-eq-cache (λ ov. ov.deny) k,
          )) in
      λ i. (p i, q i)

  module _ (c : PermissionCache) (server_id channel_id : ℕ)
      (cached : lookup server_id c.servers ≡ some s)
      (in_server : find_channel s channel_id ≡ some channel) where
    fallback_base-eq : fallback_base c server_id role_ids ≡ base_permissions s role_ids
    unfolding fallback_base base_permissions get_server_everyone_perms everyone_permissions
    fallback_base-eq = ground arith

    fallback_overrides-eq :
        (perms : ℕ)
        → fallback_overrides c server_id role_ids ovs perms
          ≡ apply_channel_overrides s channel_id role_ids perms
    unfolding fallback_overrides apply_channel_overrides apply_everyone_override
    fallback_overrides-eq perms = ground (
      arith,
      accumulate_overrides-eq,
      first_everyone_override_lem s.everyone_role_id ovs perms,
      find_override-rows s.everyone_role_id,
    )

    fallback-granted :
        (st : Storage) (user_id permission : ℕ) (rows : List OverrideRow) (ids : List ℕ)
        → st.role_ids_of user_id server_id ≡ ok ids
        → from_list ids ≡ role_ids
        → st.overrides_for_channel channel_id ≡ ok rows
        → map cached_override rows ≡ ovs
        → channel_fallback st c user_id channel_id server_id permission
          ≡ granted (has (member_channel_permissions s channel_id role_ids) permission)
    unfolding channel_fallback user_role_ids member_channel_permissions
    fallback-granted st user_id permission rows ids reads_ids same_ids reads_rows same_rows =
        rw (reads_ids, same_ids, fallback_base-eq)
          (elim (Bool-cases (bit_and (base_permissions s role_ids) administrator == 0)) [
            | inl plain ↦
                rw (plain, reads_rows)
                  (ground (arith, same_rows, fallback_overrides-eq (base_permissions s role_ids)))
            | inr admin ↦ rw (admin, has-all_bits permission) refl
          ])

module _ (st : Storage) (now user_id channel_id server_id : ℕ) (s : ServerCacheEntry)
    (channel : CachedChannel) (rows : List OverrideRow) (ids : List ℕ)
    (reads_rows : st.overrides_for_channel channel_id ≡ ok rows)
    (reads_ids : st.role_ids_of user_id server_id ≡ ok ids)
    (in_server : find_channel s channel_id ≡ some channel)
    (sorted : channel.overrides ≡ sort_by_key override_key (map cached_override rows))
    (distinct : HasDistinctKeys override_key (map cached_override rows))
    (known : (r : ℕ)
      → contains r ids ≡ true
      → (role : CachedRole) × (find_role s r ≡ some role)) where
  abbrev touched : PermissionCache → PermissionCache
  touched c = record c { servers = modify server_id (touch now) c.servers }

  ensure_touches :
      (c : PermissionCache)
      → lookup server_id c.servers ≡ some s
      → ensure_server_loaded st now c server_id ≡ ok (touched c)
  unfolding ensure_server_loaded
  ensure_touches c h = ground arith

  lookup-touched :
      (c : PermissionCache)
      → lookup server_id c.servers ≡ some s
      → lookup server_id (touched c).servers ≡ some (touch now s)
  lookup-touched c h =
      rw (lookup-modify server_id server_id (touch now) c.servers, eq_refl server_id, h) refl

  from_known :
      (r : ℕ)
      → contains r (from_list ids) ≡ true
      → (role : CachedRole) × (find_role (touch now s) r ≡ some role)
  unfolding find_role
  from_known r h = known r (sym (contains-from_list r ids) ∙ h)

  check_uncached :
      (c : PermissionCache) (permission : ℕ)
      → lookup server_id c.servers ≡ some s
      → s.owner_id ≢ user_id
      → lookup user_id c.users ≡ none
      → lookup channel_id c.channel_index ≡ some server_id
      → (check_channel_permission st now c user_id channel_id server_id permission).0
        ≡ granted
            (has (member_channel_permissions (touch now s) channel_id (from_list ids)) permission)
  unfolding check_channel_permission has_channel_permission compute_permissions find_channel
  check_uncached c permission cached ne absent indexed = ground (
    arith,
    ensure_touches c cached,
    lookup-touched c cached,
    fallback-granted (touch now s) channel (map cached_override rows) (from_list ids) sorted
        distinct from_known (touched c) server_id channel_id (lookup-touched c cached) in_server st
        user_id permission rows ids reads_ids refl reads_rows refl,
  )

  check_cached :
      (d : PermissionCache) (user : UserCacheEntry) (permission : ℕ)
      → lookup server_id d.servers ≡ some s
      → s.owner_id ≢ user_id
      → lookup user_id d.users ≡ some user
      → lookup channel_id d.channel_index ≡ some server_id
      → server_id ≢ 0
      → ((r : ℕ) → contains r (assigned_roles user server_id) ≡ contains r ids)
      → (check_channel_permission st now d user_id channel_id server_id permission).0
        ≡ granted
            (has (member_channel_permissions (touch now s) channel_id (from_list ids)) permission)
  unfolding check_channel_permission has_channel_permission compute_permissions
  check_cached d user permission cached ne present indexed not_dm same = ground (
    arith,
    ensure_touches d cached,
    lookup-touched d cached,
    member_channel_permissions-same_roles (touch now s) channel_id (assigned_roles user server_id)
        (from_list ids) (λ r. same r ∙ sym (contains-from_list r ids)),
  )

  -- With the server and the channel cached as the database has them, roles that the server knows,
  -- and role ids and override rows that are read without error, a member other than the owner who
  -- is not in the cache passes `check_channel_permission` exactly when a cached member with the
  -- same roles does, with the same error otherwise.
  pub check_same_answer :
      (c d : PermissionCache) (user : UserCacheEntry) (permission : ℕ)
      → s.owner_id ≢ user_id
      → server_id ≢ 0
      → lookup server_id c.servers ≡ some s
      → lookup user_id c.users ≡ none
      → lookup channel_id c.channel_index ≡ some server_id
      → lookup server_id d.servers ≡ some s
      → lookup user_id d.users ≡ some user
      → lookup channel_id d.channel_index ≡ some server_id
      → ((r : ℕ) → contains r (assigned_roles user server_id) ≡ contains r ids)
      → (check_channel_permission st now c user_id channel_id server_id permission).0
        ≡ (check_channel_permission st now d user_id channel_id server_id permission).0
  check_same_answer c d user permission ne not_dm cc cu ci dc du di same =
      check_uncached c permission cc ne cu ci
      ∙ sym (check_cached d user permission dc ne du di not_dm same)
