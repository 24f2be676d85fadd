-- ===== src/Permissions/Loading/Agreement.antt =====
-- A user that the cache does not hold gets the answer that a cached user with the same roles gets.
use verdant_backend.Prelude.{
  ℕ, nat_eq, eq_refl, ◌%◌, ◌^◌, max, bit_and, ◌≡◌, refl, sym, ◌∙◌, List, none, some, ◌==◌,
  if◌then◌else◌, arith,
}
use verdant_backend.Prelude.Dict.{lookup, lookup-insert}
use verdant_backend.Prelude.HashSet.{contains, from_list, contains-from_list}
use verdant_backend.AppError.{ok}
use verdant_backend.Permissions.Bits.{administrator, all_bits}
use verdant_backend.Permissions.Storage.{Storage, ServerRow, RoleRow, ChannelRow, OverrideRow}
use verdant_backend.Permissions.Types.{ServerCacheEntry, UserCacheEntry, PermissionCache}
use verdant_backend.Permissions.Compute.{
  everyone_permissions, base_permissions, assigned_roles, member_server_permissions,
  compute_server_permissions,
}
use verdant_backend.Permissions.Compute.Effective.{merge_roles-same}
use verdant_backend.Permissions.Loading.{
  everyone_role, sorted_roles, sorted_channels, count_members, load_entry, ensure_server_loaded,
  stored_permissions, resolve_perms_from_vdb, resolve_server_permissions,
}
use verdant_backend.Permissions.Loading.Fallback.{RolesAreValid, stored_permissions-eq-base}

module _ (st : Storage) (now server_id : ℕ) (server : ServerRow) (roles : List RoleRow)
    (channels : List ChannelRow) (overrides : List OverrideRow)
    (reads_server : st.server_by_id server_id ≡ ok (some server))
    (reads_roles : st.roles_for_server server_id ≡ ok roles)
    (reads_channels : st.channels_for_server server_id ≡ ok channels)
    (reads_overrides : st.overrides_for_server server_id ≡ ok overrides) where
  -- The entry that a load puts into the cache.
  abbrev pub loaded_entry : PermissionCache → ServerCacheEntry
  loaded_entry c = record {
    owner_id = server.owner_id;
    everyone_role_id = everyone_role 0 roles;
    roles = sorted_roles roles;
    channels = sorted_channels overrides channels;
    ref_count = max (count_members server_id c.users % 2 ^ 32) 1;
    last_accessed = now;
  }

  abbrev loaded : PermissionCache → PermissionCache
  loaded c = load_entry now server_id c server roles channels overrides

  ensure_loads :
      (c : PermissionCache)
      → lookup server_id c.servers ≡ none
      → ensure_server_loaded st now c server_id ≡ ok (loaded c)
  unfolding ensure_server_loaded
  ensure_loads c h = ground (arith, reads_server, reads_roles, reads_channels, reads_overrides)

  pub lookup-loaded :
      (c : PermissionCache) → lookup server_id (loaded c).servers ≡ some (loaded_entry c)
  unfolding load_entry
  lookup-loaded c =
      rw (lookup-insert server_id server_id (loaded_entry c) c.servers, eq_refl server_id) refl

  users-loaded : (c : PermissionCache) → (loaded c).users ≡ c.users
  unfolding load_entry
  users-loaded c = refl

  module _ (everyone : RoleRow) (valid : RolesAreValid everyone roles) (user_id : ℕ)
      (role_ids : List ℕ) (reads_role_ids : st.role_ids_of user_id server_id ≡ ok role_ids) where
    -- What both ways compute for a member.
    abbrev effective : ℕ
    effective =
        let perms = stored_permissions (from_list role_ids) 0 roles in
        if server.owner_id == user_id
        then all_bits
        else if bit_and perms administrator == 0
        then perms
        else all_bits

    resolve_uncached :
        (c : PermissionCache)
        → lookup server_id c.servers ≡ none
        → lookup user_id c.users ≡ none
        → (resolve_server_permissions st now c user_id server_id).0 ≡ ok effective
    unfolding resolve_server_permissions compute_server_permissions resolve_perms_from_vdb
    resolve_uncached c h u = ground (
      arith,
      ensure_loads c h,
      lookup-loaded c,
      users-loaded c,
      reads_server,
      reads_roles,
      reads_role_ids,
    )

    base-same :
        (c : PermissionCache) (mine : List ℕ)
        → ((r : ℕ) → contains r mine ≡ contains r role_ids)
        → base_permissions (loaded_entry c) mine ≡ stored_permissions (from_list role_ids) 0 roles
    unfolding base_permissions
    base-same c mine same =
        merge_roles-same (loaded_entry c) mine (from_list role_ids)
          (λ r. same r ∙ sym (contains-from_list r role_ids))
          (everyone_permissions (loaded_entry c))
        ∙ sym (
            stored_permissions-eq-base (loaded_entry c) everyone roles valid refl refl
              (from_list role_ids))

    resolve_cached :
        (c : PermissionCache) (user : UserCacheEntry)
        → lookup server_id c.servers ≡ none
        → lookup user_id c.users ≡ some user
        → ((r : ℕ) → contains r (assigned_roles user server_id) ≡ contains r role_ids)
        → (resolve_server_permissions st now c user_id server_id).0 ≡ ok effective
    unfolding resolve_server_permissions compute_server_permissions member_server_permissions
    resolve_cached c user h u same = ground (
      arith,
      ensure_loads c h,
      lookup-loaded c,
      users-loaded c,
      base-same c (assigned_roles user server_id) same,
    )

    -- When the call loads the server from a database with distinct role ids and one @everyone
    -- row, `resolve_server_permissions` gives a user that is not in the cache, whose permissions
    -- come from the fallback on the database, what it gives a cached user with the same roles.
    pub resolve_same_answer :
        (c d : PermissionCache) (user : UserCacheEntry)
        → lookup server_id c.servers ≡ none
        → lookup user_id c.users ≡ none
        → lookup server_id d.servers ≡ none
        → lookup user_id d.users ≡ some user
        → ((r : ℕ) → contains r (assigned_roles user server_id) ≡ contains r role_ids)
        → (resolve_server_permissions st now c user_id server_id).0
          ≡ (resolve_server_permissions st now d user_id server_id).0
    resolve_same_answer c d user hc uc hd ud same =
        resolve_uncached c hc uc ∙ sym (resolve_cached d user hd ud same)
