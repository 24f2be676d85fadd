-- ===== src/Permissions/Members/References.antt =====
-- The reference counts over IDENTIFY and eviction (server-rs/src/services/permissions.rs).
use verdant_backend.Prelude.{
  ℕ, nat_eq, ◌+◌, ◌^◌, ◌<◌, eq_refl, ◌≡◌, ap, ◌∙◌, [], ◌∷◌, Option, some, inl, inr, Option-cases,
  arith,
}
use mathlib.Core.Option
use verdant_backend.Prelude.Dict
use verdant_backend.Prelude.Dict.{Dict, lookup, lookup-modify, lookup-insert}
use verdant_backend.Prelude.HashSet.{from_list}
use verdant_backend.Permissions.Types.{
  ServerCacheEntry, UserCacheEntry, PermissionCache, IdentifyServer, IdentifyCacheData,
}
use verdant_backend.Permissions.Members.{
  group_roles, cancel_cleanup, add_ref, add_refs, populate_from_identify, drop_ref,
  decrement_server_ref, decrement_all, evict_user,
}

-- The count of references that the cache keeps for a server.
abbrev pub ref_count_of : PermissionCache → ℕ → Option ℕ
ref_count_of c server_id =
    Option.map (λ (s : ServerCacheEntry). s.ref_count) (lookup server_id c.servers)

module _ (now user_id server_id : ℕ) (srv : IdentifyServer) (same : srv.id ≡ server_id)
    (d : IdentifyCacheData) (one : d.servers ≡ srv ∷ [])
    (mine : from_list d.server_ids ≡ server_id ∷ []) where
  identify-adds :
      (c : PermissionCache) (n : ℕ)
      → n + 1 < 2 ^ 32
      → ref_count_of c server_id ≡ some n
      → ref_count_of (populate_from_identify now c user_id d).0 server_id ≡ some (n + 1)
  unfolding populate_from_identify add_refs
  identify-adds c n l h =
      rw (one, same)
        (ground (
          arith,
          h,
          lookup-modify server_id server_id (add_ref srv.owner_id) c.servers,
          eq_refl server_id,
        ))

  decrement-drops :
      (c : PermissionCache) (n : ℕ)
      → ref_count_of c server_id ≡ some (n + 2)
      → ref_count_of (decrement_server_ref c server_id) server_id ≡ some (n + 1)
  unfolding decrement_server_ref
  decrement-drops c n h = elim (Option-cases (lookup server_id c.servers)) [
    | inl e ↦ absurd (ground (arith, e))
    | inr (s, e) ↦
        let counted : s.ref_count ≡ n + 2 = ground (arith, e) in
        ground (
          arith,
          e,
          counted,
          lookup-modify server_id server_id drop_ref c.servers,
          eq_refl server_id,
        )
  ]

  evict-drops :
      (c : PermissionCache) (u : UserCacheEntry) (n : ℕ)
      → lookup user_id c.users ≡ some u
      → u.server_ids ≡ server_id ∷ []
      → ref_count_of c server_id ≡ some (n + 2)
      → ref_count_of (evict_user c user_id) server_id ≡ some (n + 1)
  unfolding evict_user decrement_all
  evict-drops c u n here ids h =
      rw (evict_user, here, ids)
        (decrement-drops (record c { users = Dict.remove user_id c.users }) n h)

  -- The user of an IDENTIFY is cached with the servers of its data.
  identified :
      (c : PermissionCache)
      → (u : UserCacheEntry) × (lookup user_id (populate_from_identify now c user_id d).0.users
          ≡ some u)
        × (u.server_ids ≡ server_id ∷ [])
  unfolding populate_from_identify cancel_cleanup
  identified c =
      let u : UserCacheEntry = record {
        server_ids = from_list d.server_ids;
        member_roles = group_roles d.member_roles [];
        dm_channel_ids = from_list d.dm_channel_ids;
        last_active = now;
      } in
      (u, ground (arith, lookup-insert user_id user_id u c.users, eq_refl user_id), mine)

  -- A user of one server, to which others refer and whose references stay below 2^32, identifies
  -- and is evicted. If the user identified once, the count is what it was before; if the user
  -- identified twice before the eviction, it stays one too high.
  pub ref_count-evict :
      (c : PermissionCache) (n : ℕ)
      → n + 3 < 2 ^ 32
      → ref_count_of c server_id ≡ some (n + 1)
      → (ref_count_of (evict_user (populate_from_identify now c user_id d).0 user_id) server_id
          ≡ some (n + 1))
        × (ref_count_of
              (evict_user
                (populate_from_identify now (populate_from_identify now c user_id d).0 user_id d).0
                user_id)
              server_id
            ≡ some (n + 2))
  ref_count-evict c n l h =
      let once = (populate_from_identify now c user_id d).0 in
      let (u, there, ids) = identified c in
      let (v, there', ids') = identified once in
      let two : (n + 1) + 1 ≡ n + 2 = omega arith in
      let three : (n + 2) + 1 ≡ (n + 1) + 2 = omega arith in
      let one_more : (n + 1) + 1 ≡ n + 2 = omega arith in
      let first : ref_count_of once server_id ≡ some (n + 2) =
        identify-adds c (n + 1) (omega arith) h ∙ ap some two in
      let second : ref_count_of (populate_from_identify now once user_id d).0 server_id
          ≡ some ((n + 1) + 2) =
        identify-adds once (n + 2) (omega arith) first ∙ ap some three in
      (
        evict-drops once u n there ids first,
        evict-drops (populate_from_identify now once user_id d).0 v (n + 1) there' ids' second
            ∙ ap some one_more,
      )
