-- ===== src/Permissions/Loading/Hierarchy.antt =====
-- `get_highest_role_position` and `check_hierarchy` (server-rs/src/services/permissions.rs).
-- Positions are not negative.
pub mod Above
pub mod Outranks
use verdant_backend.Prelude.{
  ℕ, nat_eq, ◌-◌, ◌^◌, max, Bool, true, false, ◌&&◌, not, List, [], ◌∷◌, Option, none, some, leb,
  ◌==◌, if◌then◌else◌,
}
use verdant_backend.Prelude.Dict.{lookup}
use verdant_backend.Prelude.HashSet.{contains}
use verdant_backend.AppError.{AppError, AppResult, ok, err, ◌>>=◌, ok_or, map_err}
use verdant_backend.Permissions.Storage.{Storage, RoleRow}
use verdant_backend.Permissions.Types.{PermissionCache, find_role, ServerCacheEntry}
use verdant_backend.Permissions.Loading.{ensure_server_loaded, user_role_ids}

-- `i32::MAX`.
abbrev pub i32_max : ℕ
i32_max = 2 ^ 31 - 1

unfoldable pub highest_position : ServerCacheEntry → ℕ → List ℕ → ℕ
highest_position s highest [] = highest
highest_position s highest (role_id ∷ rest) =
    highest_position s
      (elim (find_role s role_id) [
        | none ↦ highest
        | some r ↦ if r.color_only then highest else max highest r.position
      ])
      rest

unfoldable pub get_highest_role_position : PermissionCache → ℕ → ℕ → Option ℕ
unfolding highest_position
get_highest_role_position c user_id server_id = elim (lookup server_id c.servers) [
  | none ↦ none
  | some server ↦
      if server.owner_id == user_id then some i32_max else elim (lookup user_id c.users) [
        | none ↦ none
        | some user ↦ elim (lookup server_id user.member_roles) [
          | none ↦ none
          | some role_ids ↦ some (highest_position server 0 role_ids)
        ]
      ]
]

-- The greatest position of the rows held, or 0.
unfoldable pub stored_position : List ℕ → ℕ → List RoleRow → ℕ
stored_position role_ids highest [] = highest
stored_position role_ids highest (r ∷ rs) =
    stored_position role_ids
      (if contains r.id role_ids && not r.color_only then max highest r.position else highest) rs

abbrev pub role_hierarchy : AppError
role_hierarchy =
    AppError.with_code 403 "ROLE_HIERARCHY"
      "You cannot perform this action on a user with equal or higher role"

abbrev pub outranks : ℕ → ℕ → AppResult (Unit {0})
outranks actor_pos target_pos = if leb actor_pos target_pos then err role_hierarchy else ok tt

pub hierarchy_fallback : Storage → ℕ → ℕ → ℕ → AppResult (Unit {0})
unfolding user_role_ids stored_position
hierarchy_fallback st actor_id target_id server_id = do
  found ← map_err AppError.internal (st.server_by_id server_id)
  server ← ok_or (AppError.not_found "server") found
  if server.owner_id == actor_id then ok tt else do
    rows ← map_err AppError.internal (st.roles_for_server server_id)
    actor_role_ids ← user_role_ids st actor_id server_id
    target_role_ids ← user_role_ids st target_id server_id
    outranks (stored_position actor_role_ids 0 rows) (stored_position target_role_ids 0 rows)

unfoldable pub check_hierarchy :
    Storage → ℕ → PermissionCache → ℕ → ℕ → ℕ → AppResult (Unit {0}) × PermissionCache
unfolding ensure_server_loaded hierarchy_fallback
check_hierarchy st now c actor_id target_id server_id =
    elim (ensure_server_loaded st now c server_id) [
      | err e ↦ (err e, c)
      | ok c' ↦ elim (get_highest_role_position c' actor_id server_id) [
        | none ↦ (hierarchy_fallback st actor_id target_id server_id, c')
        | some actor_pos ↦ elim (get_highest_role_position c' target_id server_id) [
          | none ↦ (hierarchy_fallback st actor_id target_id server_id, c')
          | some target_pos ↦ (outranks actor_pos target_pos, c')
        ]
      ]
    ]
