-- ===== src/Permissions/Loading/ChannelCheck.antt =====
-- `check_channel_permission` (server-rs/src/services/permissions.rs): the cache first, then the
-- database with the channel's overrides.
pub mod Agreement
use verdant_backend.Prelude.{
  ℕ, nat_eq, bit_and, bit_or, Bool, true, false, ◌&&◌, List, [], ◌∷◌, map, Option, none, some, ◌==◌,
  if◌then◌else◌,
}
use verdant_backend.Prelude.Dict.{lookup}
use verdant_backend.Prelude.HashSet.{contains}
use verdant_backend.Prelude.OptionMonad.{unwrap_or}
use verdant_backend.AppError.{AppError, AppResult, ok, err, ◌>>=◌, map_err}
use verdant_backend.Permissions.Bits.{administrator, has, apply_override}
use verdant_backend.Permissions.Storage.{Storage, OverrideRow}
use verdant_backend.Permissions.Types.{CachedOverride, PermissionCache, find_role, ServerCacheEntry}
use verdant_backend.Permissions.Compute.{
  merge_roles, get_server_everyone_perms, has_channel_permission,
}
use verdant_backend.Permissions.Loading.{
  cached_override, granted, ensure_server_loaded, user_role_ids,
}

-- "Merge assigned role permissions", where the server is cached.
pub merge_cached_roles : Option ServerCacheEntry → List ℕ → ℕ → ℕ
merge_cached_roles none role_ids perms = perms
merge_cached_roles (some s) role_ids perms = merge_roles s perms role_ids

-- The first override of the @everyone role is applied, and the loop ends.
pub first_everyone_override : ℕ → List CachedOverride → ℕ → ℕ
first_everyone_override everyone_role_id [] perms = perms
first_everyone_override everyone_role_id (ov ∷ ovs) perms =
    let rest = first_everyone_override everyone_role_id ovs perms in
    if ov.role_id == everyone_role_id then apply_override perms ov.allow ov.deny else rest

-- A role that the cache does not know counts for permissions.
pub is_permission_role : Option ServerCacheEntry → ℕ → Bool
is_permission_role none role_id = true
is_permission_role (some s) role_id = elim (find_role s role_id) [
  | none ↦ true
  | some r ↦ if r.color_only then false else true
]

pub accumulate_overrides : Option ServerCacheEntry → List ℕ → ℕ × ℕ → List CachedOverride → ℕ × ℕ
unfolding is_permission_role
accumulate_overrides s role_ids acc [] = acc
accumulate_overrides s role_ids (role_allow, role_deny) (ov ∷ ovs) =
    accumulate_overrides s role_ids
      (if is_permission_role s ov.role_id && contains ov.role_id role_ids
        then (bit_or role_allow ov.allow, bit_or role_deny ov.deny)
        else (role_allow, role_deny))
      ovs

-- Steps 2 to 5: the permissions from the server's entry, the user's roles and the overrides.
pub fallback_base : PermissionCache → ℕ → List ℕ → ℕ
unfolding merge_cached_roles
fallback_base c server_id role_ids =
    merge_cached_roles (lookup server_id c.servers) role_ids
      (unwrap_or 0 (get_server_everyone_perms c server_id))

pub fallback_overrides : PermissionCache → ℕ → List ℕ → List CachedOverride → ℕ → ℕ
unfolding first_everyone_override accumulate_overrides
fallback_overrides c server_id role_ids overrides perms =
    let server = lookup server_id c.servers in
    let everyone_role_id : ℕ = elim server [ none ↦ 0 | some s ↦ s.everyone_role_id ] in
    let (role_allow, role_deny) = accumulate_overrides server role_ids (0, 0) overrides in
    apply_override (first_everyone_override everyone_role_id overrides perms) role_allow role_deny

pub channel_fallback : Storage → PermissionCache → ℕ → ℕ → ℕ → ℕ → AppResult (Unit {0})
unfolding user_role_ids fallback_base fallback_overrides cached_override
channel_fallback st c user_id channel_id server_id permission = do
  role_ids ← user_role_ids st user_id server_id
  let perms = fallback_base c server_id role_ids
  if bit_and perms administrator == 0
      then (do
        rows ← map_err AppError.internal (st.overrides_for_channel channel_id)
        granted (
            has (fallback_overrides c server_id role_ids (map cached_override rows) perms)
              permission))
      else ok tt

unfoldable pub check_channel_permission :
    Storage → ℕ → PermissionCache → ℕ → ℕ → ℕ → ℕ → AppResult (Unit {0}) × PermissionCache
unfolding ensure_server_loaded channel_fallback
check_channel_permission st now c user_id channel_id server_id permission =
    elim (ensure_server_loaded st now c server_id) [
      | err e ↦ (err e, c)
      | ok c' ↦ elim (has_channel_permission c' user_id channel_id permission) [
        | some answer ↦ (granted answer, c')
        | none ↦ (channel_fallback st c' user_id channel_id server_id permission, c')
      ]
    ]
