-- ===== src/Permissions/Loading/Hierarchy/Outranks.antt =====
-- Who passes the hierarchy check.
use verdant_backend.Prelude.{
  ℕ, nat_eq, eq_refl, ◌≤◌, ◌≡◌, ◌≢◌, ◌↔◌, refl, Bool, true, false, List, none, some, arith, ◌==◌,
  if◌then◌else◌,
}
use verdant_backend.Prelude.Dict.{lookup, lookup-modify, modify}
use verdant_backend.Prelude.HashSet.{from_list}
use verdant_backend.AppError.{ok, err}
use verdant_backend.Permissions.Storage.{Storage, RoleRow, ServerRow}
use verdant_backend.Permissions.Types.{PermissionCache, UserCacheEntry, find_role, ServerCacheEntry}
use verdant_backend.Permissions.Loading.{ensure_server_loaded, user_role_ids, touch}
use verdant_backend.Permissions.Loading.Hierarchy.Above.{
  counted, counted_row, one_above, stored_position-one_above,
}
use verdant_backend.Permissions.Loading.Hierarchy.{
  i32_max, highest_position, get_highest_role_position, role_hierarchy, hierarchy_fallback,
  check_hierarchy,
}

module _ (st : Storage) (now server_id actor_id target_id : ℕ) (c : PermissionCache)
    (s : ServerCacheEntry) (cached : lookup server_id c.servers ≡ some s) where
  abbrev touched : PermissionCache
  touched = record c { servers = modify server_id (touch now) c.servers }

  ensure_touches : ensure_server_loaded st now c server_id ≡ ok touched
  unfolding ensure_server_loaded
  ensure_touches = ground arith

  lookup-touched : lookup server_id touched.servers ≡ some (touch now s)
  lookup-touched =
      rw (lookup-modify server_id server_id (touch now) c.servers, eq_refl server_id, cached) refl

  -- The role ids that the cache holds for a user in the server.
  abbrev Holds : ℕ → List ℕ → Type 0
  Holds user_id role_ids =
      (user : UserCacheEntry) × (lookup user_id c.users ≡ some user)
      × (lookup server_id user.member_roles ≡ some role_ids)

  position_of :
      (user_id : ℕ) (role_ids : List ℕ)
      → s.owner_id ≢ user_id
      → Holds user_id role_ids
      → get_highest_role_position touched user_id server_id ≡ some (highest_position s 0 role_ids)
  unfolding get_highest_role_position highest_position find_role
  position_of user_id role_ids ne (user, u, r) = ground (arith, lookup-touched)

  -- Nobody acts on the owner and the owner on everybody else; of two others, one who has a role
  -- above 0 and above every role of the target. Roles for colour alone do not count.
  abbrev pub may_act_on : List ℕ → List ℕ → Bool
  may_act_on actor_roles target_roles =
      if s.owner_id == target_id
      then false
      else if s.owner_id == actor_id
      then true
      else one_above (counted s) actor_roles (counted s) target_roles

  abbrev ListsOwner : ServerRow → Type 0
  ListsOwner row = (st.server_by_id server_id ≡ ok (some row)) × (row.owner_id ≡ s.owner_id)

  -- In a cached server, a cached actor other than the owner never passes `check_hierarchy`
  -- against the owner, if no position of the actor exceeds `i32::MAX`.
  pub owner_protected_cached :
      (actor_roles : List ℕ)
      → s.owner_id ≢ actor_id
      → s.owner_id ≡ target_id
      → Holds actor_id actor_roles
      → highest_position s 0 actor_roles ≤ i32_max
      → (check_hierarchy st now c actor_id target_id server_id).0 ≡ err role_hierarchy
  unfolding check_hierarchy
  owner_protected_cached actor_roles na own ha bound =
      ground (arith, ensure_touches, position_of actor_id actor_roles na ha, owner_position)
    where
      owner_position : get_highest_role_position touched target_id server_id ≡ some i32_max
      owner_position = unfold get_highest_role_position in ground (arith, lookup-touched)

  -- In a cached server, let the actor not be the owner and not be cached, and let the database
  -- answer. Then the actor passes `check_hierarchy` exactly when a stored role of the actor, not
  -- for colour alone, is above 0 and above every such role of the target, whether or not the
  -- target is the owner.
  pub hierarchy_uncached_iff :
      (row : ServerRow) (roles : List RoleRow) (actor_ids target_ids : List ℕ)
      → ListsOwner row
      → s.owner_id ≢ actor_id
      → lookup actor_id c.users ≡ none
      → st.roles_for_server server_id ≡ ok roles
      → st.role_ids_of actor_id server_id ≡ ok actor_ids
      → st.role_ids_of target_id server_id ≡ ok target_ids
      → ((check_hierarchy st now c actor_id target_id server_id).0 ≡ ok tt) ↔ (
          one_above
            (counted_row (from_list actor_ids))
            roles
            (counted_row (from_list target_ids))
            roles
          ≡ true)
  unfolding check_hierarchy hierarchy_fallback user_role_ids
  hierarchy_uncached_iff row roles actor_ids target_ids (reads_server, owner) na absent reads_roles
        reads_actor reads_target =
      let above = stored_position-one_above (from_list target_ids) (from_list actor_ids) roles in
      (
        λ h. ground (
          arith, ensure_touches, no_position, reads_server, reads_roles, reads_actor, reads_target,
          above,
        ),
        λ h. ground (
          arith, ensure_touches, no_position, reads_server, reads_roles, reads_actor, reads_target,
          above,
        ),
      )
    where
      no_position : get_highest_role_position touched actor_id server_id ≡ none
      no_position = unfold get_highest_role_position in ground (arith, lookup-touched)
