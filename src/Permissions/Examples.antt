-- ===== src/Permissions/Examples.antt =====
-- The theorems on the permission cache at a small server: owner 9, @everyone role 50, a moderator
-- role 51, and channel 10, which denies SEND_MESSAGES to all but moderators.
use verdant_backend.Prelude.{
  nat_eq, ◌^◌, ◌≡◌, ◌↔◌, refl, true, false, ◌||◌, List, [], ◌∷◌, none, some, arith,
}
use verdant_backend.Prelude.Dict.{lookup}
use verdant_backend.AppError.{ok}
use verdant_backend.Permissions.Bits.{apply_override}
use verdant_backend.Permissions.Search.{find_by_key}
use verdant_backend.Permissions.Search.Laws.{find_by_key-eq-first_with}
use verdant_backend.Permissions.Storage.{Storage, ServerRow, RoleRow}
use verdant_backend.Permissions.Types.{
  hit, CachedRole, CachedChannel, ServerCacheEntry, UserCacheEntry, PermissionCache, role_key,
  find_role, find_channel, find_override,
}
use verdant_backend.Permissions.Compute.{compute_permissions, verify_access, has_channel_permission}
use verdant_backend.Permissions.Compute.BitRules.{base_rule, channel_rule}
use verdant_backend.Permissions.Compute.Effective.{has_channel_permission-eq-rule}
use verdant_backend.Permissions.Compute.Access.{MayEnter, verify_access-hit_iff}
use verdant_backend.Permissions.Loading.{resolve_server_permissions}
use verdant_backend.Permissions.Loading.Agreement.{resolve_same_answer}

abbrev pub everyone : CachedRole
everyone = record { id = 50; permissions = 3; position = 0; color_only = false }

abbrev pub moderator : CachedRole
moderator = record { id = 51; permissions = 4; position = 1; color_only = false }

abbrev pub channel : CachedChannel
channel = record {
  id = 10;
  channel_type = 0;
  overrides =
      record { role_id = 50; allow = 0; deny = 2 }
      ∷ record { role_id = 51; allow = 2; deny = 0 }
      ∷ [];
}

abbrev pub server : ServerCacheEntry
server = record {
  owner_id = 9;
  everyone_role_id = 50;
  roles = everyone ∷ moderator ∷ [];
  channels = channel ∷ [];
  ref_count = 1;
  last_accessed = 0;
}

abbrev pub member : UserCacheEntry
member = record {
  server_ids = 5 ∷ [];
  member_roles = (5, 51 ∷ []) ∷ [];
  dm_channel_ids = [];
  last_active = 0;
}

abbrev pub cache : PermissionCache
cache = record {
  channel_index = (10, 5) ∷ [];
  servers = (5, server) ∷ [];
  users = (1, member) ∷ [];
  cleanup_timers = [];
}

-- A moderator may send, and the word is VIEW, SEND and MANAGE_MESSAGES.
moderator_word : compute_permissions cache 1 10 ≡ some 7
unfolding compute_permissions find_role find_channel find_override find_by_key apply_override
moderator_word = refl

has_channel_permission-eq-rule_example :
    has_channel_permission cache 1 10 (2 ^ 1)
    ≡ some (
        base_rule server (51 ∷ []) 10
        || (channel_rule server 10 (51 ∷ []) 10 || channel_rule server 10 (51 ∷ []) 1))
has_channel_permission-eq-rule_example =
    has_channel_permission-eq-rule cache 1 5 {server = server} refl 10 refl (omega arith) 1
      {user = member} (omega arith) (omega arith) refl

verify_access-hit_iff_example : (verify_access cache 1 10 ≡ hit 5) ↔ (
    (user : UserCacheEntry) × (lookup 10 cache.channel_index ≡ some 5)
    × (lookup 1 cache.users ≡ some user)
    × MayEnter cache 1 10 5 user)
verify_access-hit_iff_example = verify_access-hit_iff cache 1 10 5

find_by_key-eq-first_with_example : find_by_key role_key 51 server.roles ≡ some moderator
find_by_key-eq-first_with_example = find_by_key-eq-first_with role_key 51 server.roles (omega arith)

abbrev pub everyone_row : RoleRow
everyone_row = record { id = 50; permissions = 3; position = 0; color_only = false }

abbrev pub role_rows : List RoleRow
role_rows =
    record { id = 51; permissions = 4; position = 1; color_only = false } ∷ everyone_row ∷ []

abbrev pub server_row : ServerRow
server_row = record { id = 5; owner_id = 9 }

abbrev pub storage : Storage
storage = record {
  server_by_id = λ _. ok (some server_row);
  roles_for_server = λ _. ok role_rows;
  channels_for_server = λ _. ok [];
  overrides_for_server = λ _. ok [];
  overrides_for_channel = λ _. ok [];
  channel_by_id = λ _. ok none;
  role_ids_of = λ _ _. ok (51 ∷ []);
  is_member = λ _ _. ok true;
}

abbrev pub cold : PermissionCache
cold = record { channel_index = []; servers = []; users = []; cleanup_timers = [] }

abbrev pub warm : PermissionCache
warm = record { channel_index = []; servers = []; users = (1, member) ∷ []; cleanup_timers = [] }

resolve_same_answer_example :
    (resolve_server_permissions storage 0 cold 1 5).0
    ≡ (resolve_server_permissions storage 0 warm 1 5).0
resolve_same_answer_example =
    resolve_same_answer storage 0 5 server_row role_rows [] [] refl refl refl refl everyone_row
      (record {
        distinct = (refl, (refl, tt));
        present = refl;
        plain = refl;
        lowest = refl;
        only = ((λ c p. absurd (omega arith)), ((λ c p. refl), tt));
      })
      1 (51 ∷ []) refl cold warm member refl refl refl refl (λ r. refl)
