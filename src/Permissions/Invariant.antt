-- ===== src/Permissions/Invariant.antt =====
-- Every operation of the permission cache keeps the vectors that binary search relies on sorted.
pub mod Updates
pub mod Steps
use verdant_backend.Prelude.{
  ℕ, zero, suc, ltb, nat_eq, ◌+◌, ◌-◌, ◌%◌, ◌^◌, ◌≡◌, refl, Bool, true, false, List, [], ◌∷◌, map,
  Option, none, some, ◌==◌, if◌then◌else◌, arith, inl, inr, Option-cases, Bool-cases,
}
use mathlib.Core.Path.{subst}
use verdant_backend.Prelude.Dict
use verdant_backend.Prelude.Dict.{
  Dict, lookup, contains_key, lookup-remove, lookup-modify, lookup-insert,
}
use verdant_backend.AppError.{AppResult, ok, err, AppResult-cases}
use verdant_backend.Permissions.Search.{
  SearchResult, found, missing, binary_search_by_key, insert_at, remove_at, update_at, sort_by_key,
  insert_sorted,
}
use verdant_backend.Permissions.Search.Laws.{
  AllAbove, IsRising, IsPlace, Answers, binary_search-Answers,
}
use verdant_backend.Permissions.Search.Edits.{
  HasDistinctKeys, insert_at-IsRising, remove_at-IsRising, update_at-IsRising, sort_by_key-IsRising,
}
use verdant_backend.Permissions.Storage.{Storage, ServerRow, RoleRow, ChannelRow, OverrideRow}
use verdant_backend.Permissions.Types.{
  CachedRole, CachedChannel, CachedOverride, ServerCacheEntry, UserCacheEntry, PermissionCache,
  IdentifyServer, IdentifyCacheData, role_key, channel_key, override_key,
}
use verdant_backend.Permissions.Loading.{
  cached_role, cached_override, cached_channel, overrides_of, sorted_roles, sorted_channels,
  load_entry, lazy_load_server, touch,
}

-- Each channel's overrides are sorted.
abbrev pub OverridesRise : List CachedChannel → Type 0
OverridesRise [] = Unit
OverridesRise (ch ∷ chs) = IsRising override_key ch.overrides × OverridesRise chs

pub record EntryIsSound (s : ServerCacheEntry) : Type 0 where
  pub roles_rise : IsRising role_key s.roles
  pub channels_rise : IsRising channel_key s.channels
  pub overrides_rise : OverridesRise s.channels

abbrev pub ServersAreSound : Dict ℕ ServerCacheEntry → Type 0
ServersAreSound servers =
    (server_id : ℕ) (s : ServerCacheEntry) → lookup server_id servers ≡ some s → EntryIsSound s

pub sound-modify :
    (k : ℕ) (f : ServerCacheEntry → ServerCacheEntry) (d : Dict ℕ ServerCacheEntry)
    → ((s : ServerCacheEntry) → EntryIsSound s → EntryIsSound (f s))
    → ServersAreSound d
    → ServersAreSound (Dict.modify k f d)
sound-modify k f d keep h sid s e = elim (Option-cases (lookup sid d)) [
  | inl n ↦ ground (arith, lookup-modify k sid f d)
  | inr (before, b) ↦ elim (Bool-cases (k == sid)) [
    | inl same ↦
        let p : f before ≡ s = ground (arith, lookup-modify k sid f d) in
        subst EntryIsSound p (keep before (h sid before b))
    | inr other ↦ h sid s (ground (arith, lookup-modify k sid f d))
  ]
]

pub sound-remove :
    (k : ℕ) (d : Dict ℕ ServerCacheEntry) → ServersAreSound d → ServersAreSound (Dict.remove k d)
sound-remove k d h sid s e = h sid s (ground (arith, lookup-remove k sid d))

pub sound-insert :
    (k : ℕ) (v : ServerCacheEntry) (d : Dict ℕ ServerCacheEntry)
    → EntryIsSound v
    → ServersAreSound d
    → ServersAreSound (Dict.insert k v d)
sound-insert k v d hv h sid s e = elim (Bool-cases (k == sid)) [
  | inl same ↦ let p : v ≡ s = ground (arith, lookup-insert k sid v d) in subst EntryIsSound p hv
  | inr other ↦ h sid s (ground (arith, lookup-insert k sid v d))
]

pub OverridesRise-insert_at :
    (i : ℕ) (ch : CachedChannel) (chs : List CachedChannel)
    → IsRising override_key ch.overrides
    → OverridesRise chs
    → OverridesRise (insert_at i ch chs)
unfolding insert_at
OverridesRise-insert_at zero ch chs r h = (r, h)
OverridesRise-insert_at (suc i) ch [] r h = (r, tt)
OverridesRise-insert_at (suc i) ch (x ∷ xs) r h = (h.0, OverridesRise-insert_at i ch xs r h.1)

pub OverridesRise-remove_at :
    (i : ℕ) (chs : List CachedChannel) → OverridesRise chs → OverridesRise (remove_at i chs)
unfolding remove_at
OverridesRise-remove_at zero [] h = tt
OverridesRise-remove_at (suc i) [] h = tt
OverridesRise-remove_at zero (x ∷ xs) h = h.1
OverridesRise-remove_at (suc i) (x ∷ xs) h = (h.0, OverridesRise-remove_at i xs h.1)

pub OverridesRise-update_at :
    (i : ℕ) (f : CachedChannel → CachedChannel) (chs : List CachedChannel)
    → ((ch : CachedChannel) → IsRising override_key (f ch).overrides)
    → OverridesRise chs
    → OverridesRise (update_at i f chs)
unfolding update_at
OverridesRise-update_at zero f [] r h = tt
OverridesRise-update_at (suc i) f [] r h = tt
OverridesRise-update_at zero f (x ∷ xs) r h = (r x, h.1)
OverridesRise-update_at (suc i) f (x ∷ xs) r h = (h.0, OverridesRise-update_at i f xs r h.1)

OverridesRise-insert_sorted :
    (ch : CachedChannel) (chs : List CachedChannel)
    → IsRising override_key ch.overrides
    → OverridesRise chs
    → OverridesRise (insert_sorted channel_key ch chs)
unfolding insert_sorted
OverridesRise-insert_sorted ch [] r h = (r, tt)
OverridesRise-insert_sorted ch (x ∷ xs) r h = elim (Bool-cases (ltb x.id ch.id)) [
  | inl e ↦ rw e (h.0, OverridesRise-insert_sorted ch xs r h.1)
  | inr e ↦ rw e (r, h)
]

OverridesRise-sort :
    (chs : List CachedChannel) → OverridesRise chs → OverridesRise (sort_by_key channel_key chs)
unfolding sort_by_key
OverridesRise-sort [] h = tt
OverridesRise-sort (x ∷ xs) h =
    OverridesRise-insert_sorted x (sort_by_key channel_key xs) h.0 (OverridesRise-sort xs h.1)

-- The rows of the database have distinct ids, and one override for a channel and a role.
pub record StorageIsKeyed (st : Storage) : Type 0 where
  pub roles_keyed :
      (server_id : ℕ) (rows : List RoleRow)
      → st.roles_for_server server_id ≡ ok rows
      → HasDistinctKeys role_key (map cached_role rows)
  pub channels_keyed :
      (server_id : ℕ) (overrides : List OverrideRow) (rows : List ChannelRow)
      → st.channels_for_server server_id ≡ ok rows
      → HasDistinctKeys channel_key (map (cached_channel overrides) rows)
  pub overrides_keyed :
      (server_id channel_id : ℕ) (rows : List OverrideRow)
      → st.overrides_for_server server_id ≡ ok rows
      → HasDistinctKeys override_key (overrides_of channel_id rows)
  pub channel_overrides_keyed :
      (channel_id : ℕ) (rows : List OverrideRow)
      → st.overrides_for_channel channel_id ≡ ok rows
      → HasDistinctKeys override_key (map cached_override rows)

overrides_of_rows :
    (st : Storage) (server_id : ℕ) (overrides : List OverrideRow)
    → StorageIsKeyed st
    → st.overrides_for_server server_id ≡ ok overrides
    → (rows : List ChannelRow) → OverridesRise (map (cached_channel overrides) rows)
unfolding cached_channel
overrides_of_rows st sid overrides k e [] = tt
overrides_of_rows st sid overrides k e (r ∷ rs) = (
  sort_by_key-IsRising override_key (overrides_of r.id overrides)
      (k.overrides_keyed sid r.id overrides e),
  overrides_of_rows st sid overrides k e rs,
)

load_entry-sound :
    (st : Storage) (now server_id : ℕ) (c : PermissionCache) (server : ServerRow)
    (roles : List RoleRow) (channels : List ChannelRow) (overrides : List OverrideRow)
    → StorageIsKeyed st
    → st.roles_for_server server_id ≡ ok roles
    → st.channels_for_server server_id ≡ ok channels
    → st.overrides_for_server server_id ≡ ok overrides
    → ServersAreSound c.servers
    → ServersAreSound (load_entry now server_id c server roles channels overrides).servers
unfolding load_entry
load_entry-sound st now sid c server roles channels overrides k er ec eo h =
    sound-insert sid _ c.servers
      (record {
        roles_rise =
            unfold sorted_roles in
            sort_by_key-IsRising role_key (map cached_role roles) (k.roles_keyed sid roles er);
        channels_rise =
            unfold sorted_channels in
            sort_by_key-IsRising channel_key (map (cached_channel overrides) channels)
              (k.channels_keyed sid overrides channels ec);
        overrides_rise =
            unfold sorted_channels in
            OverridesRise-sort (map (cached_channel overrides) channels)
              (overrides_of_rows st sid overrides k eo channels);
      })
      h

-- What a load must establish, by how it ended.
abbrev pub SoundAfter : AppResult (PermissionCache × Bool) → Type 0
SoundAfter (ok (c, _)) = ServersAreSound c.servers
SoundAfter (err _) = Unit

abbrev pub touched_sound :
    (now server_id : ℕ) (c : PermissionCache)
    → ServersAreSound c.servers
    → ServersAreSound (Dict.modify server_id (touch now) c.servers)
touched_sound now sid c h =
    sound-modify sid (touch now) c.servers
      (λ s hs. record {
        roles_rise = hs.roles_rise;
        channels_rise = hs.channels_rise;
        overrides_rise = hs.overrides_rise;
      })
      h

pub lazy_load_server-SoundAfter :
    (st : Storage) (now : ℕ) (c : PermissionCache) (server_id : ℕ)
    → StorageIsKeyed st
    → ServersAreSound c.servers
    → SoundAfter (lazy_load_server st now c server_id)
unfolding lazy_load_server
lazy_load_server-SoundAfter st now c sid k h = elim (Bool-cases (contains_key sid c.servers)) [
  | inl e ↦ rw e (touched_sound now sid c h)
  | inr e ↦ rw e (elim (AppResult-cases (st.server_by_id sid)) [
    | inr (x, q) ↦ rw q tt
    | inl (none, q) ↦ rw q tt
    | inl (some server, q) ↦ rw q (elim (AppResult-cases (st.roles_for_server sid)) [
      | inr (x, r) ↦ rw r tt
      | inl (roles, r) ↦ rw r (elim (AppResult-cases (st.channels_for_server sid)) [
        | inr (x, ch) ↦ rw ch tt
        | inl (channels, ch) ↦ rw ch (elim (AppResult-cases (st.overrides_for_server sid)) [
          | inr (x, o) ↦ rw o tt
          | inl (overrides, o) ↦
              rw o (load_entry-sound st now sid c server roles channels overrides k r ch o h)
        ])
      ])
    ])
  ])
]
