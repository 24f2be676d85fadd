-- ===== src/Permissions/Loading.antt =====
-- Lazy loading and the checks that fall back on the database: `lazy_load_server` to
-- `check_channel_permission` (server-rs/src/services/permissions.rs).
mod Rows
pub mod Fallback
pub mod Agreement
pub mod ChannelCheck
pub mod Hierarchy
use verdant_backend.Prelude.{
  ℕ, nat_eq, suc, ◌+◌, ◌%◌, ◌^◌, max, bit_and, bit_or, Bool, true, false, ◌||◌, not, List, [], ◌∷◌,
  map, Option, none, some, any, ◌==◌, if◌then◌else◌, ◌&&◌,
}
use verdant_backend.Prelude.Dict.{Dict, lookup, contains_key, insert, modify, or_insert, remove}
use verdant_backend.Prelude.HashSet
use verdant_backend.Prelude.HashSet.{contains, from_list}
use verdant_backend.Prelude.OptionMonad.{unwrap_or}
use verdant_backend.AppError.{AppError, AppResult, ok, err, ◌>>=◌, ◌>>◌, ok_or, map_err}
use verdant_backend.Permissions.Bits.{administrator, all_bits, has, apply_override}
use verdant_backend.Permissions.Search.{sort_by_key}
use verdant_backend.Permissions.Storage.{Storage, ServerRow, RoleRow, ChannelRow, OverrideRow}
use verdant_backend.Permissions.Types.{
  CachedRole, CachedOverride, CachedChannel, ServerCacheEntry, UserCacheEntry, PermissionCache,
  role_key, channel_key, override_key, find_role,
}
use verdant_backend.Permissions.Compute.{
  compute_server_permissions, has_channel_permission, has_server_permission,
  get_server_everyone_perms, merge_roles,
}

unfoldable pub cached_role : RoleRow → CachedRole
cached_role r = record {
  id = r.id;
  permissions = r.permissions;
  position = r.position;
  color_only = r.color_only;
}

unfoldable pub cached_override : OverrideRow → CachedOverride
cached_override o = record { role_id = o.role_id; allow = o.allow_bits; deny = o.deny_bits }

-- The id that the loop over the roles leaves in `everyone_role_id`: the last role that is not for
-- colour alone and stands at position 0, or the value before the loop.
pub everyone_role : ℕ → List RoleRow → ℕ
everyone_role acc [] = acc
everyone_role acc (r ∷ rs) =
    everyone_role (if not r.color_only && (r.position == 0) then r.id else acc) rs

unfoldable pub sorted_roles : List RoleRow → List CachedRole
unfolding cached_role
sorted_roles rows = sort_by_key role_key (map cached_role rows)

-- The bucket of a channel: its overrides, in the order of the rows.
unfoldable pub overrides_of : ℕ → List OverrideRow → List CachedOverride
unfolding cached_override
overrides_of channel_id [] = []
overrides_of channel_id (o ∷ os) =
    let rest = overrides_of channel_id os in
    if o.channel_id == channel_id then cached_override o ∷ rest else rest

unfoldable pub cached_channel : List OverrideRow → ChannelRow → CachedChannel
unfolding overrides_of
cached_channel overrides c = record {
  id = c.id;
  channel_type = c.channel_type;
  overrides = sort_by_key override_key (overrides_of c.id overrides);
}

unfoldable pub sorted_channels : List OverrideRow → List ChannelRow → List CachedChannel
unfolding cached_channel
sorted_channels overrides rows = sort_by_key channel_key (map (cached_channel overrides) rows)

-- "Also populate channel_index for any channels we didn't know about".
pub index_channels : ℕ → List CachedChannel → Dict ℕ ℕ → Dict ℕ ℕ
index_channels server_id [] index = index
index_channels server_id (ch ∷ chs) index =
    index_channels server_id chs (or_insert ch.id server_id index)

-- The users in the cache that are members of the server.
pub count_members : ℕ → Dict ℕ UserCacheEntry → ℕ
count_members server_id [] = 0
count_members server_id ((_, u) ∷ us) =
    (if contains server_id u.server_ids then 1 else 0) + count_members server_id us

abbrev pub touch : ℕ → ServerCacheEntry → ServerCacheEntry
touch now s = record s { last_accessed = now }

unfoldable pub load_entry :
    ℕ
    → ℕ
    → PermissionCache
    → ServerRow
    → List RoleRow
    → List ChannelRow
    → List OverrideRow
    → PermissionCache
unfolding everyone_role sorted_roles sorted_channels index_channels count_members
load_entry now server_id c server roles channels overrides =
    let chs = sorted_channels overrides channels in
    record c {
      channel_index = index_channels server_id chs c.channel_index;
      servers =
          insert server_id
            (record {
              owner_id = server.owner_id;
              everyone_role_id = everyone_role 0 roles;
              roles = sorted_roles roles;
              channels = chs;
              ref_count = max (count_members server_id c.users % 2 ^ 32) 1;
              last_accessed = now;
            })
            c.servers;
    }

-- Returns the cache, and whether the server was loaded now.
unfoldable pub lazy_load_server :
    Storage → ℕ → PermissionCache → ℕ → AppResult (PermissionCache × Bool)
unfolding load_entry
lazy_load_server st now c server_id =
    if contains_key server_id c.servers
    then ok (record c { servers = modify server_id (touch now) c.servers }, false)
    else do
      found ← map_err AppError.internal (st.server_by_id server_id)
      server ← ok_or (AppError.not_found "server") found
      roles ← map_err AppError.internal (st.roles_for_server server_id)
      channels ← map_err AppError.internal (st.channels_for_server server_id)
      overrides ← map_err AppError.internal (st.overrides_for_server server_id)
      ok (load_entry now server_id c server roles channels overrides, true)

unfoldable pub ensure_server_loaded : Storage → ℕ → PermissionCache → ℕ → AppResult PermissionCache
unfolding lazy_load_server
ensure_server_loaded st now c server_id =
    if contains_key server_id c.servers
    then ok (record c { servers = modify server_id (touch now) c.servers })
    else do (c', _) ← lazy_load_server st now c server_id; ok c'

-- "Start with @everyone (position 0), then OR in each assigned role".
pub stored_permissions : List ℕ → ℕ → List RoleRow → ℕ
stored_permissions role_ids perms [] = perms
stored_permissions role_ids perms (r ∷ rs) =
    stored_permissions role_ids
      (if r.color_only
        then perms
        else if (r.position == 0) || contains r.id role_ids
        then bit_or perms r.permissions
        else perms)
      rs

-- `vdb_user_role_ids_for_server`.
unfoldable pub user_role_ids : Storage → ℕ → ℕ → AppResult (List ℕ)
user_role_ids st user_id server_id = do
  ids ← map_err AppError.internal (st.role_ids_of user_id server_id)
  ok (from_list ids)

unfoldable pub resolve_perms_from_vdb : Storage → ℕ → ℕ → AppResult ℕ
unfolding stored_permissions user_role_ids
resolve_perms_from_vdb st user_id server_id = do
  found ← map_err AppError.internal (st.server_by_id server_id)
  server ← ok_or (AppError.not_found "server") found
  if server.owner_id == user_id then ok all_bits else do
    roles ← map_err AppError.internal (st.roles_for_server server_id)
    role_ids ← user_role_ids st user_id server_id
    ok (stored_permissions role_ids 0 roles)

abbrev pub granted : Bool → AppResult (Unit {0})
granted true = ok tt
granted false = err AppError.missing_permission

-- The cache comes back in every case, since a load stays when the check fails afterwards.
unfoldable pub check_server_permission :
    Storage → ℕ → PermissionCache → ℕ → ℕ → ℕ → AppResult (Unit {0}) × PermissionCache
unfolding ensure_server_loaded
check_server_permission st now c user_id server_id permission =
    elim (ensure_server_loaded st now c server_id) [
      | err e ↦ (err e, c)
      | ok c' ↦ elim (has_server_permission c' user_id server_id permission) [
        | some answer ↦ (granted answer, c')
        | none ↦ (
          resolve_perms_from_vdb st user_id server_id >>= (λ perms. granted (has perms permission)),
          c',
        )
      ]
    ]

unfoldable pub resolve_server_permissions :
    Storage → ℕ → PermissionCache → ℕ → ℕ → AppResult ℕ × PermissionCache
unfolding ensure_server_loaded
resolve_server_permissions st now c user_id server_id =
    elim (ensure_server_loaded st now c server_id) [
      | err e ↦ (err e, c)
      | ok c' ↦ elim (compute_server_permissions c' user_id server_id) [
        | some perms ↦ (ok perms, c')
        | none ↦ (
          resolve_perms_from_vdb st user_id server_id
              >>= (λ perms. if bit_and perms administrator == 0 then ok perms else ok all_bits),
          c',
        )
      ]
    ]
