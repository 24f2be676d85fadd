-- ===== src/Permissions/Types.antt =====
-- The data of the permission cache, server-rs/src/services/permissions.rs. An `i64` id is a number;
-- a `role_type` or position is only tested for 0. An `Instant` is a number that grows.
use verdant_backend.Prelude.{ℕ, Bool, List, Option}
use verdant_backend.Prelude.Dict.{Dict}
use verdant_backend.Permissions.Search.{find_by_key}
use verdant_backend.AppError.{AppError}

pub data CacheResult (A : Type 0) : Type 0 where
  hit : A → CacheResult A
  miss : CacheResult A
  denied : AppError → CacheResult A

pub record CachedRole : Type 0 where
  pub id : ℕ
  pub permissions : ℕ
  pub position : ℕ
  pub color_only : Bool

pub record CachedOverride : Type 0 where
  pub role_id : ℕ
  pub allow : ℕ
  pub deny : ℕ

pub record CachedChannel : Type 0 where
  pub id : ℕ
  pub channel_type : ℕ
  pub overrides : List CachedOverride

pub record ServerCacheEntry : Type 0 where
  pub owner_id : ℕ
  pub everyone_role_id : ℕ
  pub roles : List CachedRole
  pub channels : List CachedChannel
  pub ref_count : ℕ
  pub last_accessed : ℕ

pub record UserCacheEntry : Type 0 where
  pub server_ids : List ℕ
  pub member_roles : Dict ℕ (List ℕ)
  pub dm_channel_ids : List ℕ
  pub last_active : ℕ

-- The maps of `PermissionCache`; the value of `cleanup_timers` is the task's handle.
pub record PermissionCache : Type 0 where
  pub channel_index : Dict ℕ ℕ
  pub servers : Dict ℕ ServerCacheEntry
  pub users : Dict ℕ UserCacheEntry
  pub cleanup_timers : Dict ℕ ℕ

pub record IdentifyServer : Type 0 where
  pub id : ℕ
  pub owner_id : ℕ

pub record IdentifyCacheData : Type 0 where
  pub server_ids : List ℕ
  pub servers : List IdentifyServer
  pub member_roles : List (ℕ × ℕ)
  pub dm_channel_ids : List ℕ
  pub channel_index_entries : List (ℕ × ℕ)

abbrev pub role_key : CachedRole → ℕ
role_key r = r.id

abbrev pub channel_key : CachedChannel → ℕ
channel_key c = c.id

abbrev pub override_key : CachedOverride → ℕ
override_key o = o.role_id

-- `ServerCacheEntry::find_role`, `find_channel` and `CachedChannel::find_override`.
unfoldable pub find_role : ServerCacheEntry → ℕ → Option CachedRole
find_role s role_id = find_by_key role_key role_id s.roles

unfoldable pub find_channel : ServerCacheEntry → ℕ → Option CachedChannel
find_channel s channel_id = find_by_key channel_key channel_id s.channels

unfoldable pub find_override : CachedChannel → ℕ → Option CachedOverride
find_override c role_id = find_by_key override_key role_id c.overrides
