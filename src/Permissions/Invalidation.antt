-- ===== src/Permissions/Invalidation.antt =====
-- What brings a cached server up to date (server-rs/src/services/permissions.rs): the invalidation
-- operations, and the channels that are created and deleted.
use verdant_backend.Prelude.{
  ℕ, nat_eq, List, [], map, none, some, ◌==◌, leb, not, ◌||◌, if◌then◌else◌, length,
}
use verdant_backend.Prelude.Dict
use verdant_backend.Prelude.Dict.{lookup, contains_key}
use verdant_backend.Prelude.HashSet.{from_list}
use verdant_backend.AppError.{ok, err}
use verdant_backend.Permissions.Search.{
  SearchResult, found, missing, key_at, binary_search_by_key, insert_at, remove_at, update_at,
  sort_by_key,
}
use verdant_backend.Permissions.Storage.{Storage, RoleRow, OverrideRow}
use verdant_backend.Permissions.Types.{
  CachedChannel, CachedOverride, ServerCacheEntry, PermissionCache, channel_key, override_key,
}
use verdant_backend.Permissions.Loading.{cached_override, everyone_role, sorted_roles}

unfoldable pub invalidate_user_roles : Storage → PermissionCache → ℕ → ℕ → PermissionCache
invalidate_user_roles st c user_id server_id = elim (st.role_ids_of user_id server_id) [
  | err _ ↦ c
  | ok ids ↦ record c {
    users =
        Dict.modify user_id
          (λ u. record u { member_roles = Dict.insert server_id (from_list ids) u.member_roles })
          c.users;
  }
]

abbrev pub refresh_roles : List RoleRow → ServerCacheEntry → ServerCacheEntry
refresh_roles rows s = record s {
  everyone_role_id = everyone_role s.everyone_role_id rows;
  roles = sorted_roles rows;
}

unfoldable pub invalidate_server_roles : Storage → PermissionCache → ℕ → PermissionCache
invalidate_server_roles st c server_id =
    if contains_key server_id c.servers
    then elim (st.roles_for_server server_id) [
      | err _ ↦ c
      | ok rows ↦ record c { servers = Dict.modify server_id (refresh_roles rows) c.servers }
    ]
    else c

-- Put new overrides into the channel, or the channel into its place.
abbrev pub set_overrides : List CachedOverride → CachedChannel → CachedChannel
set_overrides overrides ch = record ch { overrides = overrides }

unfoldable pub place_overrides :
    ℕ → ℕ → List CachedOverride → List CachedChannel → List CachedChannel
place_overrides channel_id channel_type overrides channels =
    elim (binary_search_by_key channel_key channel_id channels) [
      | found i ↦ update_at i (set_overrides overrides) channels
      | missing i ↦
          insert_at i
            (record { id = channel_id; channel_type = channel_type; overrides = overrides })
            channels
    ]

unfoldable pub sorted_overrides : List OverrideRow → List CachedOverride
unfolding cached_override
sorted_overrides rows = sort_by_key override_key (map cached_override rows)

unfoldable pub invalidate_channel_overrides : Storage → PermissionCache → ℕ → PermissionCache
unfolding place_overrides sorted_overrides
invalidate_channel_overrides st c channel_id = elim (lookup channel_id c.channel_index) [
  | none ↦ c
  | some server_id ↦
      if server_id == 0
      then c
      else if contains_key server_id c.servers
      then elim (st.overrides_for_channel channel_id) [
        | err _ ↦ c
        | ok rows ↦ elim (st.channel_by_id channel_id) [
          | err _ ↦ c
          | ok found_row ↦ elim found_row [
            | none ↦ c
            | some row ↦ record c {
              servers =
                  Dict.modify server_id
                    (λ s. record s {
                      channels =
                          place_overrides channel_id row.channel_type (sorted_overrides rows)
                            s.channels;
                    })
                    c.servers;
            }
          ]
        ]
      ]
      else c
]

-- `unwrap_or_else(|pos| pos)`.
abbrev pub position_or_place : SearchResult → ℕ
position_or_place (found i) = i
position_or_place (missing i) = i

unfoldable pub place_channel : ℕ → ℕ → List CachedChannel → List CachedChannel
place_channel channel_id channel_type channels =
    let pos = position_or_place (binary_search_by_key channel_key channel_id channels) in
    if leb (length channels) pos || not (key_at channel_key channels pos == channel_id)
    then insert_at pos (record { id = channel_id; channel_type = channel_type; overrides = [] })
        channels
    else channels

unfoldable pub add_channel_meta : PermissionCache → ℕ → ℕ → ℕ → PermissionCache
unfolding place_channel
add_channel_meta c channel_id server_id channel_type = record c {
  channel_index = Dict.insert channel_id server_id c.channel_index;
  servers =
      Dict.modify server_id
        (λ s. record s { channels = place_channel channel_id channel_type s.channels }) c.servers;
}

unfoldable pub take_channel : ℕ → List CachedChannel → List CachedChannel
take_channel channel_id channels = elim (binary_search_by_key channel_key channel_id channels) [
  | found i ↦ remove_at i channels
  | missing i ↦ channels
]

unfoldable pub remove_channel_meta : PermissionCache → ℕ → PermissionCache
unfolding take_channel
remove_channel_meta c channel_id = elim (lookup channel_id c.channel_index) [
  | none ↦ c
  | some server_id ↦ record c {
    channel_index = Dict.remove channel_id c.channel_index;
    servers =
        Dict.modify server_id (λ s. record s { channels = take_channel channel_id s.channels })
          c.servers;
  }
]
