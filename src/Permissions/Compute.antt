-- ===== src/Permissions/Compute.antt =====
-- The permission computation on the cache: `compute_permissions`, `compute_server_permissions`,
-- `verify_access` and the tests built on them (server-rs/src/services/permissions.rs).
use verdant_backend.Prelude.{
  ℕ, nat_eq, bit_and, bit_or, Bool, true, false, ◌||◌, not, List, [], ◌∷◌, Option, none, some, any,
  ◌==◌, if◌then◌else◌, ◌&&◌,
}
use verdant_backend.Prelude.Dict.{lookup, Dict}
use verdant_backend.Prelude.HashSet.{contains, insert}
use verdant_backend.Prelude.OptionMonad.{◌>>=◌, unwrap_or}
use verdant_backend.AppError.{AppError}
pub mod BitRules
pub mod Effective
pub mod Access
use verdant_backend.Permissions.Bits.{administrator, all_bits, view_channel, has, apply_override}
use verdant_backend.Permissions.Types.{
  CacheResult, hit, miss, denied, CachedRole, CachedOverride, CachedChannel, ServerCacheEntry,
  UserCacheEntry, PermissionCache, find_role, find_channel, find_override,
}

-- The permissions of the @everyone role, 0 if it is not cached.
unfoldable pub everyone_permissions : ServerCacheEntry → ℕ
everyone_permissions s = elim (find_role s s.everyone_role_id) [ none ↦ 0 | some r ↦ r.permissions ]

-- One round of "merge assigned role permissions".
pub merge_role : ServerCacheEntry → ℕ → ℕ → ℕ
merge_role s perms role_id = elim (find_role s role_id) [
  | none ↦ perms
  | some r ↦ if r.color_only then perms else bit_or perms r.permissions
]

pub merge_roles : ServerCacheEntry → ℕ → List ℕ → ℕ
unfolding merge_role
merge_roles s perms [] = perms
merge_roles s perms (role_id ∷ rest) = merge_roles s (merge_role s perms role_id) rest

-- One round of "accumulate role overrides": the allow and the deny bits so far.
pub accumulate : ServerCacheEntry → CachedChannel → ℕ × ℕ → ℕ → ℕ × ℕ
accumulate s channel (role_allow, role_deny) role_id = elim (find_role s role_id) [
  | none ↦ (role_allow, role_deny)
  | some r ↦
      if r.color_only then (role_allow, role_deny) else elim (find_override channel role_id) [
        | none ↦ (role_allow, role_deny)
        | some ov ↦ (bit_or role_allow ov.allow, bit_or role_deny ov.deny)
      ]
]

pub accumulate_all : ServerCacheEntry → CachedChannel → ℕ × ℕ → List ℕ → ℕ × ℕ
unfolding accumulate
accumulate_all s channel acc [] = acc
accumulate_all s channel acc (role_id ∷ rest) =
    accumulate_all s channel (accumulate s channel acc role_id) rest

-- The @everyone override of a channel, if it has one.
unfoldable pub apply_everyone_override : ServerCacheEntry → CachedChannel → ℕ → ℕ
apply_everyone_override s channel perms = elim (find_override channel s.everyone_role_id) [
  | none ↦ perms
  | some ov ↦ apply_override perms ov.allow ov.deny
]

-- "Apply channel overrides": @everyone first, then the merged role overrides.
unfoldable pub apply_channel_overrides : ServerCacheEntry → ℕ → List ℕ → ℕ → ℕ
unfolding apply_everyone_override accumulate_all
apply_channel_overrides s channel_id role_ids perms = elim (find_channel s channel_id) [
  | none ↦ perms
  | some channel ↦
      let (role_allow, role_deny) = accumulate_all s channel (0, 0) role_ids in
      apply_override (apply_everyone_override s channel perms) role_allow role_deny
]

-- `user.member_roles.get(&server_id)`, with no role where there is no entry.
abbrev pub assigned_roles : UserCacheEntry → ℕ → List ℕ
assigned_roles u server_id = unwrap_or [] (lookup server_id u.member_roles)

unfoldable pub base_permissions : ServerCacheEntry → List ℕ → ℕ
unfolding everyone_permissions merge_roles
base_permissions s role_ids = merge_roles s (everyone_permissions s) role_ids

unfoldable pub member_channel_permissions : ServerCacheEntry → ℕ → List ℕ → ℕ
unfolding base_permissions apply_channel_overrides
member_channel_permissions s channel_id role_ids =
    let perms = base_permissions s role_ids in
    if bit_and perms administrator == 0
    then apply_channel_overrides s channel_id role_ids perms
    else all_bits

unfoldable pub compute_permissions : PermissionCache → ℕ → ℕ → Option ℕ
unfolding member_channel_permissions
compute_permissions c user_id channel_id = do
  server_id ← lookup channel_id c.channel_index
  if server_id == 0 then none else do
    server ← lookup server_id c.servers
    if server.owner_id == user_id then some all_bits else do
      user ← lookup user_id c.users
      some (member_channel_permissions server channel_id (assigned_roles user server_id))

unfoldable pub member_server_permissions : ServerCacheEntry → List ℕ → ℕ
unfolding base_permissions
member_server_permissions s role_ids =
    let perms = base_permissions s role_ids in
    if bit_and perms administrator == 0 then perms else all_bits

unfoldable pub compute_server_permissions : PermissionCache → ℕ → ℕ → Option ℕ
unfolding member_server_permissions
compute_server_permissions c user_id server_id = do
  server ← lookup server_id c.servers
  if server.owner_id == user_id then some all_bits else do
    user ← lookup user_id c.users
    some (member_server_permissions server (assigned_roles user server_id))

-- The VIEW_CHANNEL test of `verify_access`, skipped where the permissions are not cached.
pub may_view : Option ℕ → Bool
may_view none = true
may_view (some perms) = has perms view_channel

unfoldable pub verify_access : PermissionCache → ℕ → ℕ → CacheResult ℕ
unfolding may_view
verify_access c user_id channel_id = elim (lookup channel_id c.channel_index) [
  | none ↦ miss
  | some server_id ↦ elim (lookup user_id c.users) [
    | none ↦ miss
    | some user ↦
        if server_id == 0
        then (if contains channel_id user.dm_channel_ids then hit 0 else denied AppError.not_member)
        else if not (contains server_id user.server_ids)
        then denied AppError.not_member
        else if may_view (compute_permissions c user_id channel_id)
        then hit server_id
        else denied AppError.missing_permission
  ]
]

unfoldable pub has_channel_permission : PermissionCache → ℕ → ℕ → ℕ → Option Bool
has_channel_permission c user_id channel_id permission = do
  perms ← compute_permissions c user_id channel_id
  some (has perms permission)

unfoldable pub has_server_permission : PermissionCache → ℕ → ℕ → ℕ → Option Bool
has_server_permission c user_id server_id permission = do
  perms ← compute_server_permissions c user_id server_id
  some (has perms permission)

unfoldable pub get_server_everyone_perms : PermissionCache → ℕ → Option ℕ
get_server_everyone_perms c server_id = do
  server ← lookup server_id c.servers
  role ← find_role server server.everyone_role_id
  some role.permissions
