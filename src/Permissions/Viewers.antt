-- ===== src/Permissions/Viewers.antt =====
-- The cached users that are members of a server, and those that see a channel
-- (server-rs/src/services/permissions.rs).
use verdant_backend.Prelude.{
  ℕ, nat_eq, ◌≡◌, Bool, false, ◌&&◌, ◌||◌, List, [], ◌∷◌, any, ◌==◌, if◌then◌else◌, inl, inr,
  Bool-cases, arith,
}
use verdant_backend.Prelude.Dict.{Dict}
use verdant_backend.Prelude.HashSet
use verdant_backend.Prelude.HashSet.{contains, contains-insert}
use verdant_backend.Prelude.OptionMonad.{unwrap_or}
use verdant_backend.Permissions.Bits.{view_channel}
use verdant_backend.Permissions.Types.{UserCacheEntry, PermissionCache}
use verdant_backend.Permissions.Compute.{has_channel_permission}

-- The loop of both functions: the users of the cache that pass the test.
unfoldable pub collect_users : (ℕ × UserCacheEntry → Bool) → Dict ℕ UserCacheEntry → List ℕ → List ℕ
collect_users test [] out = out
collect_users test (entry ∷ rest) out =
    collect_users test rest (if test entry then HashSet.insert entry.0 out else out)

unfoldable pub collect_online_channel_viewers : PermissionCache → ℕ → ℕ → List ℕ
unfolding collect_users
collect_online_channel_viewers c server_id channel_id =
    collect_users
      (λ entry.
        contains server_id entry.1.server_ids
        && unwrap_or false (has_channel_permission c entry.0 channel_id view_channel))
      c.users []

unfoldable pub collect_online_server_members : PermissionCache → ℕ → List ℕ
unfolding collect_users
collect_online_server_members c server_id =
    collect_users (λ entry. contains server_id entry.1.server_ids) c.users []

contains-collect_users :
    (test : ℕ × UserCacheEntry → Bool) (us : Dict ℕ UserCacheEntry) (out : List ℕ) (x : ℕ)
    → contains x (collect_users test us out)
      ≡ (contains x out || any (λ entry. (entry.0 == x) && test entry) us)
unfolding collect_users
contains-collect_users test [] out x = ground arith
contains-collect_users test (entry ∷ us) out x = elim (Bool-cases (test entry)) [
  | inl e ↦ ground (
    arith,
    e,
    contains-collect_users test us (HashSet.insert entry.0 out) x,
    contains-insert entry.0 x out,
  )
  | inr e ↦ ground (arith, e, contains-collect_users test us out x)
]

-- A user is collected exactly when a cached entry of theirs has the server, and, for a channel's
-- viewers, when the cache grants them VIEW_CHANNEL in the channel.
pub contains-collect_online :
    (c : PermissionCache) (server_id channel_id x : ℕ)
    → (contains x (collect_online_channel_viewers c server_id channel_id)
        ≡ any
            (λ entry.
              (entry.0 == x)
              && (contains server_id entry.1.server_ids
                  && unwrap_or false (has_channel_permission c entry.0 channel_id view_channel)))
            c.users)
      × (contains x (collect_online_server_members c server_id)
          ≡ any (λ entry. (entry.0 == x) && contains server_id entry.1.server_ids) c.users)
unfolding collect_online_channel_viewers collect_online_server_members
contains-collect_online c server_id channel_id x = (
  contains-collect_users
      (λ entry.
        contains server_id entry.1.server_ids
        && unwrap_or false (has_channel_permission c entry.0 channel_id view_channel))
      c.users [] x,
  contains-collect_users (λ entry. contains server_id entry.1.server_ids) c.users [] x,
)
