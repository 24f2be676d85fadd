-- ===== src/Permissions/Invariant/Updates.antt =====
-- The invalidation operations and the channels that come and go keep the vectors sorted.
use verdant_backend.Prelude.{
  ℕ, nat_eq, ◌≡◌, refl, List, [], map, none, some, ◌==◌, leb, length, not, ◌||◌, arith, inl, inr,
  Option-cases, Bool-cases,
}
use verdant_backend.Prelude.Dict.{lookup, contains_key}
use verdant_backend.AppError.{AppResult-cases}
use verdant_backend.Permissions.Search.{
  SearchResult, found, missing, key_at, binary_search_by_key, insert_at,
}
use verdant_backend.Permissions.Search.Laws.{IsRising, Answers, binary_search-Answers}
use verdant_backend.Permissions.Search.Edits.{
  insert_at-IsRising, remove_at-IsRising, update_at-IsRising, sort_by_key-IsRising,
}
use verdant_backend.Permissions.Storage.{Storage}
use verdant_backend.Permissions.Types.{
  CachedChannel, CachedOverride, ServerCacheEntry, PermissionCache, role_key, channel_key,
  override_key,
}
use verdant_backend.Permissions.Loading.{cached_role, cached_override, sorted_roles}
use verdant_backend.Permissions.Invalidation.{
  refresh_roles, invalidate_server_roles, set_overrides, place_overrides, sorted_overrides,
  invalidate_channel_overrides, place_channel, add_channel_meta, take_channel, remove_channel_meta,
}
use verdant_backend.Permissions.Invariant.{
  OverridesRise, EntryIsSound, ServersAreSound, sound-modify, StorageIsKeyed,
  OverridesRise-insert_at, OverridesRise-remove_at, OverridesRise-update_at,
}

-- The channels of a sound server, and a server with other channels that are sound.
abbrev pub ChannelsAreSound : List CachedChannel → Type 0
ChannelsAreSound chs = IsRising channel_key chs × OverridesRise chs

abbrev with_channels :
    (s : ServerCacheEntry) (f : List CachedChannel → List CachedChannel)
    → ((chs : List CachedChannel) → ChannelsAreSound chs → ChannelsAreSound (f chs))
    → EntryIsSound s
    → EntryIsSound (record s { channels = f s.channels })
with_channels s f keep h =
    let r = keep s.channels (h.channels_rise, h.overrides_rise) in
    record { roles_rise = h.roles_rise; channels_rise = r.0; overrides_rise = r.1 }

place_overrides_at :
    (r : SearchResult) (channel_id channel_type : ℕ) (overrides : List CachedOverride)
    (chs : List CachedChannel)
    → binary_search_by_key channel_key channel_id chs ≡ r
    → Answers channel_key channel_id chs r
    → IsRising override_key overrides
    → ChannelsAreSound chs
    → ChannelsAreSound (place_overrides channel_id channel_type overrides chs)
unfolding place_overrides
place_overrides_at (found i) cid ct os chs e a r h =
    rw (place_overrides, e)
      (
        update_at-IsRising channel_key (set_overrides os) (λ ch. refl) i chs h.0,
        OverridesRise-update_at i (set_overrides os) chs (λ ch. r) h.1,
      )
place_overrides_at (missing i) cid ct os chs e a r h =
    rw (place_overrides, e)
      (insert_at-IsRising channel_key i _ chs h.0 a, OverridesRise-insert_at i _ chs r h.1)

place_channel_at :
    (r : SearchResult) (channel_id channel_type : ℕ) (chs : List CachedChannel)
    → binary_search_by_key channel_key channel_id chs ≡ r
    → Answers channel_key channel_id chs r
    → ChannelsAreSound chs
    → ChannelsAreSound (place_channel channel_id channel_type chs)
unfolding place_channel
place_channel_at (found i) cid ct chs e a h =
    let stays : place_channel cid ct chs ≡ chs = ground (arith, e, a.0, a.1) in rw stays h
place_channel_at (missing i) cid ct chs e a h =
    elim (Bool-cases (leb (length chs) i || not (key_at channel_key chs i == cid))) [
      | inl new ↦
          let grows : place_channel cid ct chs
              ≡ insert_at i (record { id = cid; channel_type = ct; overrides = [] }) chs =
            ground (arith, e, new) in
          rw grows
            (insert_at-IsRising channel_key i _ chs h.0 a, OverridesRise-insert_at i _ chs tt h.1)
      | inr old ↦ let stays : place_channel cid ct chs ≡ chs = ground (arith, e, old) in rw stays h
    ]

take_channel_at :
    (r : SearchResult) (channel_id : ℕ) (chs : List CachedChannel)
    → binary_search_by_key channel_key channel_id chs ≡ r
    → ChannelsAreSound chs
    → ChannelsAreSound (take_channel channel_id chs)
unfolding take_channel
take_channel_at (found i) cid chs e h =
    rw (take_channel, e)
      (remove_at-IsRising channel_key i chs h.0, OverridesRise-remove_at i chs h.1)
take_channel_at (missing i) cid chs e h = rw (take_channel, e) h

pub sound-add_channel_meta :
    (c : PermissionCache) (channel_id server_id channel_type : ℕ)
    → ServersAreSound c.servers
    → ServersAreSound (add_channel_meta c channel_id server_id channel_type).servers
unfolding add_channel_meta
sound-add_channel_meta c cid sid ct h =
    sound-modify sid _ c.servers
      (λ s hs.
        with_channels s (place_channel cid ct)
          (λ chs hc.
            place_channel_at (binary_search_by_key channel_key cid chs) cid ct chs refl
              (binary_search-Answers channel_key cid chs hc.0) hc)
          hs)
      h

pub sound-remove_channel_meta :
    (c : PermissionCache) (channel_id : ℕ)
    → ServersAreSound c.servers
    → ServersAreSound (remove_channel_meta c channel_id).servers
unfolding remove_channel_meta
sound-remove_channel_meta c cid h = elim (Option-cases (lookup cid c.channel_index)) [
  | inl e ↦ rw (remove_channel_meta, e) h
  | inr (sid, e) ↦
      rw (remove_channel_meta, e)
        (sound-modify sid _ c.servers
          (λ s hs.
            with_channels s (take_channel cid)
              (λ chs hc. take_channel_at (binary_search_by_key channel_key cid chs) cid chs refl hc)
              hs)
          h)
]

pub sound-invalidate_server_roles :
    (st : Storage) (c : PermissionCache) (server_id : ℕ)
    → StorageIsKeyed st
    → ServersAreSound c.servers
    → ServersAreSound (invalidate_server_roles st c server_id).servers
unfolding invalidate_server_roles
sound-invalidate_server_roles st c sid k h = elim (Bool-cases (contains_key sid c.servers)) [
  | inr e ↦ rw e h
  | inl e ↦ rw e (elim (AppResult-cases (st.roles_for_server sid)) [
    | inr (x, r) ↦ rw r h
    | inl (rows, r) ↦ rw r (
        sound-modify sid (refresh_roles rows) c.servers
          (λ s hs. record {
            roles_rise =
                unfold sorted_roles in
                sort_by_key-IsRising role_key (map cached_role rows) (k.roles_keyed sid rows r);
            channels_rise = hs.channels_rise;
            overrides_rise = hs.overrides_rise;
          })
          h)
  ])
]

pub sound-invalidate_channel_overrides :
    (st : Storage) (c : PermissionCache) (channel_id : ℕ)
    → StorageIsKeyed st
    → ServersAreSound c.servers
    → ServersAreSound (invalidate_channel_overrides st c channel_id).servers
unfolding invalidate_channel_overrides
sound-invalidate_channel_overrides st c cid k h = elim (Option-cases (lookup cid c.channel_index)) [
  | inl e ↦ rw (invalidate_channel_overrides, e) h
  | inr (sid, e) ↦
      rw (invalidate_channel_overrides, e)
        (elim (Bool-cases (sid == 0)) [
          | inl z ↦ rw z h
          | inr z ↦ rw z (elim (Bool-cases (contains_key sid c.servers)) [
            | inr g ↦ rw g h
            | inl g ↦ rw g (elim (AppResult-cases (st.overrides_for_channel cid)) [
              | inr (x, r) ↦ rw r h
              | inl (rows, r) ↦ rw r (elim (AppResult-cases (st.channel_by_id cid)) [
                | inr (x, q) ↦ rw q h
                | inl (none, q) ↦ rw q h
                | inl (some row, q) ↦ rw q (
                    sound-modify sid _ c.servers
                      (λ s hs.
                        with_channels s
                          (place_overrides cid row.channel_type (sorted_overrides rows))
                          (λ chs hc.
                            place_overrides_at (binary_search_by_key channel_key cid chs) cid
                              row.channel_type (sorted_overrides rows) chs refl
                              (binary_search-Answers channel_key cid chs hc.0)
                              (unfold sorted_overrides in
                                sort_by_key-IsRising override_key (map cached_override rows)
                                  (k.channel_overrides_keyed cid rows r))
                              hc)
                          hs)
                      h)
              ])
            ])
          ])
        ])
]
