-- ===== src/Permissions/OperationExamples.antt =====
-- The theorems on the operations of the permission cache at the small server.
use verdant_backend.Prelude.{
  ℕ, ◌+◌, nat_eq, string_eq, ◌≡◌, ◌≢◌, ◌↔◌, refl, ap, true, false, ◌==◌, List, [], ◌∷◌, some, arith,
  map,
}
use verdant_backend.Prelude.Dict
use verdant_backend.Prelude.Dict.{lookup}
use verdant_backend.Prelude.HashSet.{contains, from_list}
use verdant_backend.AppError.{ok}
use verdant_backend.Permissions.Storage.{Storage, OverrideRow}
use verdant_backend.Permissions.Search.{find_by_key}
use verdant_backend.Permissions.Search.Laws.{first_with}
use verdant_backend.Permissions.Types.{
  hit, CachedRole, ServerCacheEntry, UserCacheEntry, PermissionCache, IdentifyCacheData, role_key,
  channel_key, override_key, find_role, find_channel,
}
use verdant_backend.Permissions.Compute.{verify_access}
use verdant_backend.Permissions.Loading.ChannelCheck.{check_channel_permission}
use verdant_backend.Permissions.Loading.ChannelCheck.Agreement.{check_same_answer}
use verdant_backend.Permissions.Loading.Hierarchy.{check_hierarchy}
use verdant_backend.Permissions.Loading.Hierarchy.Above.{counted, counted_row, one_above}
use verdant_backend.Permissions.Loading.Hierarchy.Outranks.{hierarchy_uncached_iff}
use verdant_backend.Permissions.Members.{evict_user, remove_user_server}
use verdant_backend.Permissions.Members.{populate_from_identify}
use verdant_backend.Permissions.Members.References.{ref_count_of, ref_count-evict}
use verdant_backend.Permissions.Members.Eviction.{verify_access-after_remove}
use verdant_backend.Permissions.Invariant.{StorageIsKeyed}
use verdant_backend.Permissions.Invariant.Steps
use verdant_backend.Permissions.Invariant.Steps.{
  Operation, load, create_channel, Reachable, start, step, find_role-Reachable, run,
}
use verdant_backend.Permissions.Search.Edits.{HasDistinctKeys}
use verdant_backend.Permissions.Search.{binary_search_by_key, insert_at, sort_by_key}
use verdant_backend.Permissions.Loading.{
  cached_role, cached_channel, cached_override, overrides_of, lazy_load_server, load_entry,
}
use verdant_backend.Permissions.Invalidation.{add_channel_meta, place_channel}
use verdant_backend.Permissions.Examples.{
  moderator, channel, server, member, server_row, storage, role_rows, cache,
}

-- A second member without roles, beside the moderator.
abbrev guest : UserCacheEntry
guest = record {
  server_ids = 5 ∷ [];
  member_roles = (5, []) ∷ [];
  dm_channel_ids = [];
  last_active = 0;
}

abbrev both : PermissionCache
both = record {
  channel_index = (10, 5) ∷ [];
  servers = (5, server) ∷ [];
  users = (1, member) ∷ (2, guest) ∷ [];
  cleanup_timers = [];
}

verify_access-after_remove_example : verify_access (remove_user_server both 1 5) 1 10 ≢ hit 5
verify_access-after_remove_example = verify_access-after_remove both 1 5 10 (omega arith)

moderator_above : one_above (counted server) (51 ∷ []) (counted server) [] ≡ true
unfolding find_role find_by_key
moderator_above = refl

-- The owner holds no role, user 3 is a moderator who is not cached.
abbrev plain_owner : Storage
plain_owner = record storage {
  role_ids_of = λ user_id _. elim (user_id == 3) [ true ↦ ok (51 ∷ []) | false ↦ ok [] ];
}

moderator_above_owner :
    one_above (counted_row (from_list (51 ∷ []))) role_rows (counted_row (from_list [])) role_rows
    ≡ true
unfolding from_list
moderator_above_owner = refl

hierarchy_uncached_iff_example : ((check_hierarchy plain_owner 0 both 3 9 5).0 ≡ ok tt) ↔ (
    one_above (counted_row (from_list (51 ∷ []))) role_rows (counted_row (from_list [])) role_rows
    ≡ true)
hierarchy_uncached_iff_example =
    hierarchy_uncached_iff plain_owner 0 5 3 9 both server refl server_row role_rows (51 ∷ []) []
      (refl, refl) (omega arith) refl refl refl refl

-- A database with a server that has no roles and no channels yet.
abbrev young : Storage
young = record storage { roles_for_server = λ _. ok [] }

none_distinct :
    {A R : Type 0} (key : A → ℕ) (f : R → A) (rows : List R)
    → ok [] ≡ ok rows
    → HasDistinctKeys key (map f rows)
none_distinct key f [] e = tt
none_distinct key f (r ∷ rs) e = cc

none_of :
    (channel_id : ℕ) (rows : List OverrideRow)
    → ok [] ≡ ok rows
    → HasDistinctKeys override_key (overrides_of channel_id rows)
unfolding overrides_of
none_of cid [] e = tt
none_of cid (r ∷ rs) e = cc

young_keyed : StorageIsKeyed young
young_keyed = record {
  roles_keyed = λ sid rows e. none_distinct role_key cached_role rows e;
  channels_keyed = λ sid os rows e. none_distinct channel_key (cached_channel os) rows e;
  overrides_keyed = λ sid cid rows e. none_of cid rows e;
  channel_overrides_keyed = λ cid rows e. none_distinct override_key cached_override rows e;
}

abbrev loaded_cache : PermissionCache
loaded_cache = run young (load 0 5) Steps.new

abbrev grown : PermissionCache
grown = run young (create_channel 10 5 0) (run young (create_channel 12 5 0) loaded_cache)

grown-Reachable : Reachable grown
grown-Reachable = step young young_keyed (create_channel 10 5 0) _ (
    step young young_keyed (create_channel 12 5 0) _
      (step young young_keyed (load 0 5) Steps.new start))

abbrev grown_entry : ServerCacheEntry
grown_entry = record {
  owner_id = 9;
  everyone_role_id = 0;
  roles = [];
  channels =
      record { id = 10; channel_type = 0; overrides = [] }
      ∷ record { id = 12; channel_type = 0; overrides = [] }
      ∷ [];
  ref_count = 1;
  last_accessed = 0;
}

grown_server : lookup 5 grown.servers ≡ some grown_entry
unfolding run lazy_load_server load_entry add_channel_meta place_channel binary_search_by_key
    insert_at Dict.modify Dict.insert sort_by_key
grown_server = refl

find_role-Reachable_example :
    (find_role grown_entry 10 ≡ first_with role_key 10 grown_entry.roles)
    × (find_channel grown_entry 10 ≡ first_with channel_key 10 grown_entry.channels)
find_role-Reachable_example =
    find_role-Reachable grown 5 grown_entry grown-Reachable grown_server 10

-- The small server's channel, with the rows of its overrides.
abbrev override_rows : List OverrideRow
override_rows =
    record { channel_id = 10; role_id = 51; allow_bits = 2; deny_bits = 0 }
    ∷ record { channel_id = 10; role_id = 50; allow_bits = 0; deny_bits = 2 }
    ∷ []

abbrev stored_channel : Storage
stored_channel = record storage { overrides_for_channel = λ _. ok override_rows }

moderator_known :
    (r : ℕ) → contains r (51 ∷ []) ≡ true → (role : CachedRole) × (find_role server r ≡ some role)
moderator_known r h = (moderator, ground (arith, at_51, λ (p : 51 ≡ r). ap (find_role server) p))
  where
    at_51 : find_role server 51 ≡ some moderator
    at_51 = unfold find_role find_by_key binary_search_by_key in refl

channel_found : find_channel server 10 ≡ some channel
unfolding find_channel find_by_key binary_search_by_key
channel_found = refl

channel_sorted : channel.overrides ≡ sort_by_key override_key (map cached_override override_rows)
unfolding sort_by_key cached_override
channel_sorted = refl

rows_distinct : HasDistinctKeys override_key (map cached_override override_rows)
unfolding cached_override
rows_distinct = (refl, (refl, tt))

abbrev unlisted : PermissionCache
unlisted = record both { users = (2, guest) ∷ [] }

check_same_answer_example :
    (check_channel_permission stored_channel 0 unlisted 1 10 5 2).0
    ≡ (check_channel_permission stored_channel 0 both 1 10 5 2).0
check_same_answer_example =
    check_same_answer stored_channel 0 1 10 5 server channel override_rows (51 ∷ []) refl refl
      channel_found channel_sorted rows_distinct moderator_known unlisted both member 2
      (omega arith) (omega arith) refl refl refl refl refl refl (λ r. refl)

-- User 1 identifies as a member of server 5, to which one user refers already.
abbrev identify_data : IdentifyCacheData
identify_data = record {
  server_ids = 5 ∷ [];
  servers = record { id = 5; owner_id = 9 } ∷ [];
  member_roles = [];
  dm_channel_ids = [];
  channel_index_entries = [];
}

one_server : from_list identify_data.server_ids ≡ 5 ∷ []
unfolding from_list
one_server = refl

ref_count-evict_example :
    (ref_count_of (evict_user (populate_from_identify 0 cache 1 identify_data).0 1) 5
      ≡ some (0 + 1))
    × (ref_count_of
          (evict_user
            (populate_from_identify 0
              (populate_from_identify 0 cache 1 identify_data).0
              1
              identify_data).0
            1)
          5
        ≡ some (0 + 2))
ref_count-evict_example =
    ref_count-evict 0 1 5 (record { id = 5; owner_id = 9 }) refl identify_data refl one_server cache
      0 (omega arith) refl
