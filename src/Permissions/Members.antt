-- ===== src/Permissions/Members.antt =====
-- What joins, leaves and evicts users (server-rs/src/services/permissions.rs): the operations from
-- `populate_from_identify` to `remove_user_server` that keep `users` and the reference counts.
pub mod Eviction
pub mod References
use verdant_backend.Prelude.{
  ℕ, nat_eq, ◌+◌, ◌-◌, ◌%◌, ◌^◌, Bool, true, false, not, ◌&&◌, ◌||◌, List, [], ◌∷◌, Option, none,
  some, any, ltb, ◌==◌, if◌then◌else◌,
}
use verdant_backend.Prelude.Dict
use verdant_backend.Prelude.Dict.{Dict, lookup, contains_key}
use verdant_backend.Prelude.HashSet
use verdant_backend.Prelude.HashSet.{contains, from_list}
use verdant_backend.Prelude.OptionMonad.{unwrap_or}
use verdant_backend.AppError.{AppError, AppResult, ok, err}
use verdant_backend.Permissions.Bits.{administrator}
use verdant_backend.Permissions.Storage.{Storage}
use verdant_backend.Permissions.Types.{
  CachedChannel, ServerCacheEntry, UserCacheEntry, PermissionCache, IdentifyServer,
  IdentifyCacheData,
}
use verdant_backend.Permissions.Compute.{has_server_permission, has_channel_permission}

-- The cache after the call, and the timer whose task is aborted.
unfoldable pub cancel_cleanup : PermissionCache → ℕ → PermissionCache × Option ℕ
cancel_cleanup c user_id = (
  record c { cleanup_timers = Dict.remove user_id c.cleanup_timers },
  lookup user_id c.cleanup_timers,
)

-- `handle` is the task that was just spawned to evict the user after the grace period.
unfoldable pub schedule_cleanup : PermissionCache → ℕ → ℕ → PermissionCache × Option ℕ
schedule_cleanup c user_id handle = (
  record c { cleanup_timers = Dict.insert user_id handle (Dict.remove user_id c.cleanup_timers) },
  lookup user_id c.cleanup_timers,
)

pub index_all : List (ℕ × ℕ) → Dict ℕ ℕ → Dict ℕ ℕ
index_all [] index = index
index_all ((channel_id, server_id) ∷ rest) index =
    index_all rest (Dict.insert channel_id server_id index)

pub index_dms : List ℕ → Dict ℕ ℕ → Dict ℕ ℕ
index_dms [] index = index
index_dms (dm_id ∷ rest) index = index_dms rest (Dict.insert dm_id 0 index)

-- One more user refers to a cached server; the owner is kept up to date.
abbrev pub add_ref : ℕ → ServerCacheEntry → ServerCacheEntry
add_ref owner_id s = record s { ref_count = (s.ref_count + 1) % 2 ^ 32; owner_id = owner_id }

unfoldable pub add_refs : List IdentifyServer → Dict ℕ ServerCacheEntry → Dict ℕ ServerCacheEntry
add_refs [] servers = servers
add_refs (srv ∷ rest) servers = add_refs rest (Dict.modify srv.id (add_ref srv.owner_id) servers)

pub group_roles : List (ℕ × ℕ) → Dict ℕ (List ℕ) → Dict ℕ (List ℕ)
group_roles [] grouped = grouped
group_roles ((server_id, role_id) ∷ rest) grouped = group_roles rest (
    Dict.insert server_id (HashSet.insert role_id (unwrap_or [] (lookup server_id grouped)))
      grouped)

unfoldable pub populate_from_identify :
    ℕ → PermissionCache → ℕ → IdentifyCacheData → PermissionCache × Option ℕ
unfolding cancel_cleanup index_all index_dms add_refs group_roles
populate_from_identify now c user_id d =
    let (c', aborted) = cancel_cleanup c user_id in
    (
      record c' {
        channel_index =
            index_dms d.dm_channel_ids (index_all d.channel_index_entries c'.channel_index);
        servers = add_refs d.servers c'.servers;
        users =
            Dict.insert user_id
              (record {
                server_ids = from_list d.server_ids;
                member_roles = group_roles d.member_roles [];
                dm_channel_ids = from_list d.dm_channel_ids;
                last_active = now;
              })
              c'.users;
      },
      aborted,
    )

pub unindex : List CachedChannel → Dict ℕ ℕ → Dict ℕ ℕ
unindex [] index = index
unindex (ch ∷ rest) index = unindex rest (Dict.remove ch.id index)

unfoldable pub evict_server_data : PermissionCache → ℕ → PermissionCache
unfolding unindex
evict_server_data c server_id = elim (lookup server_id c.servers) [
  | none ↦ c
  | some entry ↦ record c {
    servers = Dict.remove server_id c.servers;
    channel_index = unindex entry.channels c.channel_index;
  }
]

-- `saturating_sub(1)` is `-` on numbers that stop at 0.
abbrev pub drop_ref : ServerCacheEntry → ServerCacheEntry
drop_ref s = record s { ref_count = s.ref_count - 1 }

unfoldable pub decrement_server_ref : PermissionCache → ℕ → PermissionCache
unfolding evict_server_data
decrement_server_ref c server_id = elim (lookup server_id c.servers) [
  | none ↦ c
  | some entry ↦
      let c' = record c { servers = Dict.modify server_id drop_ref c.servers } in
      if entry.ref_count - 1 == 0 then evict_server_data c' server_id else c'
]

unfoldable pub decrement_all : List ℕ → PermissionCache → PermissionCache
unfolding decrement_server_ref
decrement_all [] c = c
decrement_all (server_id ∷ rest) c = decrement_all rest (decrement_server_ref c server_id)

-- Some user of the map takes part in the direct message.
pub other_has_dm : ℕ → Dict ℕ UserCacheEntry → Bool
other_has_dm dm_id users = any (λ entry. contains dm_id (entry.1).dm_channel_ids) users

pub drop_dms : Dict ℕ UserCacheEntry → List ℕ → Dict ℕ ℕ → Dict ℕ ℕ
unfolding other_has_dm
drop_dms users [] index = index
drop_dms users (dm_id ∷ rest) index =
    drop_dms users rest (if other_has_dm dm_id users then index else Dict.remove dm_id index)

unfoldable pub evict_user : PermissionCache → ℕ → PermissionCache
unfolding decrement_all drop_dms
evict_user c user_id = elim (lookup user_id c.users) [
  | none ↦ c
  | some user ↦
      let c' = decrement_all user.server_ids (record c { users = Dict.remove user_id c.users }) in
      record c' {
        channel_index = drop_dms c'.users user.dm_channel_ids c'.channel_index;
        cleanup_timers = Dict.remove user_id c'.cleanup_timers;
      }
]

-- The users that a round of the idle sweep takes out, and their eviction.
pub stale_users : ℕ → Dict ℕ UserCacheEntry → List ℕ
stale_users cutoff [] = []
stale_users cutoff ((user_id, u) ∷ rest) =
    let others = stale_users cutoff rest in
    if ltb u.last_active cutoff then user_id ∷ others else others

pub stale_servers : ℕ → Dict ℕ ServerCacheEntry → List ℕ
stale_servers cutoff [] = []
stale_servers cutoff ((server_id, s) ∷ rest) =
    let others = stale_servers cutoff rest in
    if (s.ref_count == 0) && ltb s.last_accessed cutoff then server_id ∷ others else others

unfoldable pub sweep_users : List ℕ → PermissionCache → PermissionCache
unfolding cancel_cleanup evict_user
sweep_users [] c = c
sweep_users (user_id ∷ rest) c = sweep_users rest (evict_user (cancel_cleanup c user_id).0 user_id)

unfoldable pub sweep_servers : List ℕ → PermissionCache → PermissionCache
unfolding evict_server_data
sweep_servers [] c = c
sweep_servers (server_id ∷ rest) c = sweep_servers rest (evict_server_data c server_id)

-- One tick of `start_idle_sweep`, where both cutoffs are the same instant.
unfoldable pub idle_sweep : ℕ → PermissionCache → PermissionCache
unfolding stale_users stale_servers sweep_users sweep_servers
idle_sweep cutoff c =
    let c' = sweep_users (stale_users cutoff c.users) c in
    sweep_servers (stale_servers cutoff c'.servers) c'

abbrev pub join_server : ℕ → UserCacheEntry → UserCacheEntry
join_server server_id u = record u {
  server_ids = HashSet.insert server_id u.server_ids;
  member_roles = Dict.or_insert server_id [] u.member_roles;
}

abbrev pub leave_server : ℕ → UserCacheEntry → UserCacheEntry
leave_server server_id u = record u {
  server_ids = HashSet.remove server_id u.server_ids;
  member_roles = Dict.remove server_id u.member_roles;
}

unfoldable pub add_user_server : PermissionCache → ℕ → ℕ → PermissionCache
add_user_server c user_id server_id = record c {
  users = Dict.modify user_id (join_server server_id) c.users;
  servers =
      Dict.modify server_id (λ s. record s { ref_count = (s.ref_count + 1) % 2 ^ 32 }) c.servers;
}

unfoldable pub remove_user_server : PermissionCache → ℕ → ℕ → PermissionCache
unfolding decrement_server_ref
remove_user_server c user_id server_id =
    decrement_server_ref (record c { users = Dict.modify user_id (leave_server server_id) c.users })
      server_id

unfoldable pub is_member_cached : PermissionCache → ℕ → ℕ → Option Bool
is_member_cached c user_id server_id = elim (lookup user_id c.users) [
  | none ↦ none
  | some u ↦ some (contains server_id u.server_ids)
]

unfoldable pub check_membership :
    Storage → PermissionCache → ℕ → ℕ → AppResult (Unit {0}) × PermissionCache
unfolding is_member_cached add_user_server
check_membership st c user_id server_id =
    if unwrap_or false (is_member_cached c user_id server_id)
    then (ok tt, c)
    else elim (st.is_member server_id user_id) [
      | err e ↦ (err AppError.internal, c)
      | ok member ↦
          if member
          then (ok tt, add_user_server c user_id server_id)
          else (err AppError.not_member, c)
    ]

unfoldable pub add_dm_channel : PermissionCache → ℕ → ℕ → PermissionCache
add_dm_channel c user_id channel_id = record c {
  channel_index = Dict.or_insert channel_id 0 c.channel_index;
  users =
      Dict.modify user_id
        (λ u. record u { dm_channel_ids = HashSet.insert channel_id u.dm_channel_ids }) c.users;
}

unfoldable pub touch_user : ℕ → PermissionCache → ℕ → PermissionCache
touch_user now c user_id = record c {
  users = Dict.modify user_id (λ u. record u { last_active = now }) c.users;
}

-- The users of the cache that may see a role-gated resource; the owner always may.
pub entitled_from : PermissionCache → ℕ → List ℕ → Dict ℕ UserCacheEntry → List ℕ → List ℕ
entitled_from c server_id allowed [] out = out
entitled_from c server_id allowed ((user_id, u) ∷ rest) out =
    entitled_from c server_id allowed rest (elim (lookup server_id u.member_roles) [
      | none ↦ out
      | some roles ↦
          if unwrap_or false (has_server_permission c user_id server_id administrator)
            || any (λ r. contains r allowed) roles
          then HashSet.insert user_id out
          else out
    ])

unfoldable pub collect_entitled_online_members : PermissionCache → ℕ → List ℕ → List ℕ
unfolding entitled_from
collect_entitled_online_members c server_id allowed =
    entitled_from c server_id allowed c.users
      (elim (lookup server_id c.servers) [ none ↦ [] | some s ↦ s.owner_id ∷ [] ])
