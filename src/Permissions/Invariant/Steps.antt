-- ===== src/Permissions/Invariant/Steps.antt =====
-- The runs of the permission cache: whatever operations follow each other, the vectors stay sorted.
use verdant_backend.Prelude.{
  ℕ, nat_eq, ◌-◌, ◌≡◌, Bool, List, [], ◌∷◌, some, ◌==◌, inl, inr, Option-cases, Bool-cases,
}
use verdant_backend.Prelude.Dict
use verdant_backend.Prelude.Dict.{Dict, lookup}
use verdant_backend.AppError.{AppResult, ok, err, AppResult-cases}
use verdant_backend.Permissions.Storage.{Storage}
use verdant_backend.Permissions.Types.{
  ServerCacheEntry, PermissionCache, IdentifyServer, IdentifyCacheData, role_key, channel_key,
  find_role, find_channel,
}
use verdant_backend.Permissions.Search.Laws.{first_with, find_by_key-eq-first_with}
use verdant_backend.Permissions.Loading.{lazy_load_server}
use verdant_backend.Permissions.Members.{
  cancel_cleanup, schedule_cleanup, add_ref, add_refs, populate_from_identify, evict_server_data,
  drop_ref, decrement_server_ref, decrement_all, evict_user, stale_users, stale_servers,
  sweep_users, sweep_servers, idle_sweep, add_user_server, remove_user_server, add_dm_channel,
  touch_user,
}
use verdant_backend.Permissions.Invalidation.{
  invalidate_user_roles, invalidate_server_roles, invalidate_channel_overrides, add_channel_meta,
  remove_channel_meta,
}
use verdant_backend.Permissions.Invariant.{
  ServersAreSound, sound-modify, sound-remove, StorageIsKeyed, SoundAfter,
  lazy_load_server-SoundAfter,
}
use verdant_backend.Permissions.Invariant.Updates.{
  sound-add_channel_meta, sound-remove_channel_meta, sound-invalidate_server_roles,
  sound-invalidate_channel_overrides,
}

-- One operation of the cache, with the arguments it is called with.
pub data Operation : Type 0 where
  load : (now server_id : ℕ) → Operation
  identify : (now user_id : ℕ) → IdentifyCacheData → Operation
  cancel : (user_id : ℕ) → Operation
  schedule : (user_id handle : ℕ) → Operation
  evict : (user_id : ℕ) → Operation
  evict_server : (server_id : ℕ) → Operation
  sweep : (cutoff : ℕ) → Operation
  join : (user_id server_id : ℕ) → Operation
  leave : (user_id server_id : ℕ) → Operation
  user_roles : (user_id server_id : ℕ) → Operation
  server_roles : (server_id : ℕ) → Operation
  channel_overrides : (channel_id : ℕ) → Operation
  create_channel : (channel_id server_id channel_type : ℕ) → Operation
  delete_channel : (channel_id : ℕ) → Operation
  dm : (user_id channel_id : ℕ) → Operation
  touch : (now user_id : ℕ) → Operation

-- The cache that a call of `lazy_load_server` leaves: a failed load leaves it as it was.
abbrev loaded : AppResult (PermissionCache × Bool) → PermissionCache → PermissionCache
loaded (ok (c', _)) c = c'
loaded (err _) c = c

unfoldable pub run : Storage → Operation → PermissionCache → PermissionCache
run st (load now sid) c = loaded (lazy_load_server st now c sid) c
run st (identify now uid d) c = (populate_from_identify now c uid d).0
run st (cancel uid) c = (cancel_cleanup c uid).0
run st (schedule uid handle) c = (schedule_cleanup c uid handle).0
run st (evict uid) c = evict_user c uid
run st (evict_server sid) c = evict_server_data c sid
run st (sweep cutoff) c = idle_sweep cutoff c
run st (join uid sid) c = add_user_server c uid sid
run st (leave uid sid) c = remove_user_server c uid sid
run st (user_roles uid sid) c = invalidate_user_roles st c uid sid
run st (server_roles sid) c = invalidate_server_roles st c sid
run st (channel_overrides cid) c = invalidate_channel_overrides st c cid
run st (create_channel cid sid ct) c = add_channel_meta c cid sid ct
run st (delete_channel cid) c = remove_channel_meta c cid
run st (dm uid cid) c = add_dm_channel c uid cid
run st (touch now uid) c = touch_user now c uid

-- `PermissionCache::new`.
abbrev pub new : PermissionCache
new = record { channel_index = []; servers = []; users = []; cleanup_timers = [] }

-- The caches that operations make of an empty cache. The database may change between two of them.
pub data Reachable : PermissionCache → Type 0 where
  start : Reachable new
  step :
      (st : Storage)
      → StorageIsKeyed st
      → (op : Operation) (c : PermissionCache) → Reachable c
      → Reachable (run st op c)

sound-refs :
    (srvs : List IdentifyServer) (d : Dict ℕ ServerCacheEntry)
    → ServersAreSound d
    → ServersAreSound (add_refs srvs d)
unfolding add_refs
sound-refs [] d h = h
sound-refs (srv ∷ rest) d h = sound-refs rest (Dict.modify srv.id (add_ref srv.owner_id) d) (
    sound-modify srv.id (add_ref srv.owner_id) d
      (λ s hs. record {
        roles_rise = hs.roles_rise;
        channels_rise = hs.channels_rise;
        overrides_rise = hs.overrides_rise;
      })
      h)

sound-evict_server_data :
    (c : PermissionCache) (server_id : ℕ)
    → ServersAreSound c.servers
    → ServersAreSound (evict_server_data c server_id).servers
unfolding evict_server_data
sound-evict_server_data c sid h = elim (Option-cases (lookup sid c.servers)) [
  | inl e ↦ rw (evict_server_data, e) h
  | inr (entry, e) ↦ rw (evict_server_data, e) (sound-remove sid c.servers h)
]

sound-decrement_server_ref :
    (c : PermissionCache) (server_id : ℕ)
    → ServersAreSound c.servers
    → ServersAreSound (decrement_server_ref c server_id).servers
unfolding decrement_server_ref
sound-decrement_server_ref c sid h = elim (Option-cases (lookup sid c.servers)) [
  | inl e ↦ rw (decrement_server_ref, e) h
  | inr (entry, e) ↦
      let dropped : ServersAreSound (Dict.modify sid drop_ref c.servers) =
        sound-modify sid drop_ref c.servers
          (λ s hs. record {
            roles_rise = hs.roles_rise;
            channels_rise = hs.channels_rise;
            overrides_rise = hs.overrides_rise;
          })
          h in
      rw (decrement_server_ref, e)
        (elim (Bool-cases (entry.ref_count - 1 == 0)) [
          | inl z ↦ rw z (
              sound-evict_server_data (record c { servers = Dict.modify sid drop_ref c.servers })
                sid dropped)
          | inr z ↦ rw z dropped
        ])
]

sound-decrement_all :
    (ids : List ℕ) (c : PermissionCache)
    → ServersAreSound c.servers
    → ServersAreSound (decrement_all ids c).servers
unfolding decrement_all
sound-decrement_all [] c h = h
sound-decrement_all (sid ∷ rest) c h =
    sound-decrement_all rest (decrement_server_ref c sid) (sound-decrement_server_ref c sid h)

sound-evict_user :
    (c : PermissionCache) (user_id : ℕ)
    → ServersAreSound c.servers
    → ServersAreSound (evict_user c user_id).servers
unfolding evict_user
sound-evict_user c uid h = elim (Option-cases (lookup uid c.users)) [
  | inl e ↦ rw (evict_user, e) h
  | inr (u, e) ↦
      rw (evict_user, e)
        (sound-decrement_all u.server_ids (record c { users = Dict.remove uid c.users }) h)
]

sound-sweep_users :
    (ids : List ℕ) (c : PermissionCache)
    → ServersAreSound c.servers
    → ServersAreSound (sweep_users ids c).servers
unfolding sweep_users cancel_cleanup
sound-sweep_users [] c h = h
sound-sweep_users (uid ∷ rest) c h =
    sound-sweep_users rest _ (sound-evict_user (cancel_cleanup c uid).0 uid h)

sound-sweep_servers :
    (ids : List ℕ) (c : PermissionCache)
    → ServersAreSound c.servers
    → ServersAreSound (sweep_servers ids c).servers
unfolding sweep_servers
sound-sweep_servers [] c h = h
sound-sweep_servers (sid ∷ rest) c h = sound-sweep_servers rest _ (sound-evict_server_data c sid h)

sound-idle_sweep :
    (cutoff : ℕ) (c : PermissionCache)
    → ServersAreSound c.servers
    → ServersAreSound (idle_sweep cutoff c).servers
unfolding idle_sweep
sound-idle_sweep cutoff c h =
    let c' = sweep_users (stale_users cutoff c.users) c in
    sound-sweep_servers (stale_servers cutoff c'.servers) c'
      (sound-sweep_users (stale_users cutoff c.users) c h)

sound-loaded :
    (r : AppResult (PermissionCache × Bool)) (c : PermissionCache)
    → SoundAfter r
    → ServersAreSound c.servers
    → ServersAreSound (loaded r c).servers
sound-loaded (ok (c', _)) c a h = a
sound-loaded (err _) c a h = h

sound-invalidate_user_roles :
    (st : Storage) (c : PermissionCache) (user_id server_id : ℕ)
    → ServersAreSound c.servers
    → ServersAreSound (invalidate_user_roles st c user_id server_id).servers
unfolding invalidate_user_roles
sound-invalidate_user_roles st c uid sid h = elim (AppResult-cases (st.role_ids_of uid sid)) [
  | inl (ids, e) ↦ rw (invalidate_user_roles, e) h
  | inr (x, e) ↦ rw (invalidate_user_roles, e) h
]

-- Every operation keeps the vectors of the cached servers sorted.
pub run-ServersAreSound :
    (st : Storage)
    → StorageIsKeyed st
    → (op : Operation) (c : PermissionCache) → ServersAreSound c.servers
    → ServersAreSound (run st op c).servers
unfolding run populate_from_identify cancel_cleanup schedule_cleanup add_user_server
    remove_user_server add_dm_channel touch_user
run-ServersAreSound st k (load now sid) c h =
    sound-loaded (lazy_load_server st now c sid) c (lazy_load_server-SoundAfter st now c sid k h) h
run-ServersAreSound st k (identify now uid d) c h = sound-refs d.servers c.servers h
run-ServersAreSound st k (cancel uid) c h = h
run-ServersAreSound st k (schedule uid handle) c h = h
run-ServersAreSound st k (evict uid) c h = sound-evict_user c uid h
run-ServersAreSound st k (evict_server sid) c h = sound-evict_server_data c sid h
run-ServersAreSound st k (sweep cutoff) c h = sound-idle_sweep cutoff c h
run-ServersAreSound st k (join uid sid) c h =
    sound-modify sid _ c.servers
      (λ s hs. record {
        roles_rise = hs.roles_rise;
        channels_rise = hs.channels_rise;
        overrides_rise = hs.overrides_rise;
      })
      h
run-ServersAreSound st k (leave uid sid) c h = sound-decrement_server_ref _ sid h
run-ServersAreSound st k (user_roles uid sid) c h = sound-invalidate_user_roles st c uid sid h
run-ServersAreSound st k (server_roles sid) c h = sound-invalidate_server_roles st c sid k h
run-ServersAreSound st k (channel_overrides cid) c h =
    sound-invalidate_channel_overrides st c cid k h
run-ServersAreSound st k (create_channel cid sid ct) c h = sound-add_channel_meta c cid sid ct h
run-ServersAreSound st k (delete_channel cid) c h = sound-remove_channel_meta c cid h
run-ServersAreSound st k (dm uid cid) c h = h
run-ServersAreSound st k (touch now uid) c h = h

-- In every cache that operations make of an empty one, over databases with distinct ids, each
-- cached server has its roles, its channels and each channel's overrides sorted, with no id twice.
pub Reachable-ServersAreSound : (c : PermissionCache) → Reachable c → ServersAreSound c.servers
Reachable-ServersAreSound _ start = λ sid s p. cc
Reachable-ServersAreSound _ (step st k op c r) =
    run-ServersAreSound st k op c (Reachable-ServersAreSound c r)

-- In a cache that operations make of an empty one, over databases with distinct ids, the binary
-- searches for a role and for a channel of a cached server find what a search from the front
-- finds.
pub find_role-Reachable :
    (c : PermissionCache) (server_id : ℕ) (s : ServerCacheEntry)
    → Reachable c
    → lookup server_id c.servers ≡ some s
    → (id : ℕ)
    → (find_role s id ≡ first_with role_key id s.roles)
      × (find_channel s id ≡ first_with channel_key id s.channels)
unfolding find_role find_channel
find_role-Reachable c sid s r e id =
    let sound = Reachable-ServersAreSound c r sid s e in
    (
      find_by_key-eq-first_with role_key id s.roles sound.roles_rise,
      find_by_key-eq-first_with channel_key id s.channels sound.channels_rise,
    )
