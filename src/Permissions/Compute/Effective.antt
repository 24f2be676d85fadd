-- ===== src/Permissions/Compute/Effective.antt =====
-- What `compute_permissions` and `compute_server_permissions` return, case by case.
use verdant_backend.Prelude.{
  ℕ, nat_eq, ◌^◌, ◌<◌, ◌≡◌, ◌≢◌, ◌↔◌, refl, true, ◌||◌, List, none, some, arith, inl, inr,
  Option-cases,
}
use verdant_backend.Prelude.Dict.{lookup}
use verdant_backend.Prelude.HashSet.{contains, any_same}
use verdant_backend.Prelude.Bits.{bit_at, bit_at-ones, eq_of_bits}
use verdant_backend.Permissions.Bits.{all_bits, has}
use verdant_backend.Permissions.Bits.Laws.{and_pow_zero_iff, has-pow, has_iff}
use verdant_backend.Permissions.Types.{
  CachedChannel, ServerCacheEntry, UserCacheEntry, PermissionCache, find_channel,
}
use verdant_backend.Permissions.Compute.{
  merge_roles, everyone_permissions, accumulate_all, apply_channel_overrides, assigned_roles,
  base_permissions, member_channel_permissions, compute_permissions, member_server_permissions,
  compute_server_permissions, has_channel_permission, has_server_permission,
}
use verdant_backend.Permissions.Compute.BitRules.{
  grants, allows, denies, base_rule, channel_rule, bit_at-base_permissions,
  bit_at-apply_channel_overrides, bit_at-merge_roles, bit_at-accumulate_all,
}

bit_at-member_channel_permissions :
    (s : ServerCacheEntry) (channel_id : ℕ) (roles : List ℕ) (k : ℕ)
    → k < 64
    → bit_at k (member_channel_permissions s channel_id roles)
      ≡ (base_rule s roles 10 || channel_rule s channel_id roles k)
unfolding member_channel_permissions
bit_at-member_channel_permissions s channel_id roles k l = ground (
  arith,
  and_pow_zero_iff 10 (base_permissions s roles),
  bit_at-base_permissions s roles 10,
  bit_at-apply_channel_overrides s channel_id roles k l,
  bit_at-ones 64 k,
)

bit_at-member_server_permissions :
    (s : ServerCacheEntry) (roles : List ℕ) (k : ℕ)
    → k < 64
    → bit_at k (member_server_permissions s roles) ≡ (base_rule s roles 10 || base_rule s roles k)
unfolding member_server_permissions
bit_at-member_server_permissions s roles k l = ground (
  arith,
  and_pow_zero_iff 10 (base_permissions s roles),
  bit_at-base_permissions s roles 10,
  bit_at-base_permissions s roles k,
  bit_at-ones 64 k,
)

pub has-all_bits : (perm : ℕ) → has all_bits perm ≡ true
has-all_bits perm = (has_iff all_bits perm).1 (inl (bit_at-ones 64 10))

module _ (c : PermissionCache) (user_id server_id : ℕ) {server : ServerCacheEntry}
    (cached : lookup server_id c.servers ≡ some server) where
  -- The owner has every permission on the server.
  pub owner_server_permission :
      (permission : ℕ)
      → server.owner_id ≡ user_id
      → has_server_permission c user_id server_id permission ≡ some true
  unfolding has_server_permission compute_server_permissions
  owner_server_permission permission own = ground (arith, has-all_bits permission)

  -- For a cached member who is not the owner of a cached server, `has_server_permission` of the
  -- permission with bit k (below 64) is true exactly when @everyone or an assigned role that is
  -- not for colour alone gives ADMINISTRATOR or k.
  pub has_server_permission-eq-rule :
      (k : ℕ) {user : UserCacheEntry}
      → k < 64
      → server.owner_id ≢ user_id
      → lookup user_id c.users ≡ some user
      → has_server_permission c user_id server_id (2 ^ k)
        ≡ some (
            base_rule server (assigned_roles user server_id) 10
            || base_rule server (assigned_roles user server_id) k)
  unfolding has_server_permission compute_server_permissions
  has_server_permission-eq-rule k {user} l ne e = ground (
    arith,
    has-pow k (member_server_permissions server (assigned_roles user server_id)),
    bit_at-member_server_permissions server (assigned_roles user server_id) k l,
    bit_at-member_server_permissions server (assigned_roles user server_id) 10 (omega arith),
  )

  module _ (channel_id : ℕ) (indexed : lookup channel_id c.channel_index ≡ some server_id)
      (not_dm : server_id ≢ 0) where
    -- The owner of a cached server has every permission in each of its indexed channels.
    pub owner_channel_permission :
        (permission : ℕ)
        → server.owner_id ≡ user_id
        → has_channel_permission c user_id channel_id permission ≡ some true
    unfolding has_channel_permission compute_permissions
    owner_channel_permission permission own = ground (arith, has-all_bits permission)

    -- For a cached member who is not the owner, in an indexed channel of a cached server,
    -- `has_channel_permission` of the permission with bit k (below 64) is true exactly when
    -- ADMINISTRATOR is given by @everyone or an assigned role, or the channel's rule (a role
    -- override that allows, over one that denies, over the @everyone override, over the role
    -- bits) gives ADMINISTRATOR or k.
    pub has_channel_permission-eq-rule :
        (k : ℕ) {user : UserCacheEntry}
        → k < 64
        → server.owner_id ≢ user_id
        → lookup user_id c.users ≡ some user
        → let roles = assigned_roles user server_id in
          has_channel_permission c user_id channel_id (2 ^ k)
          ≡ some (
              base_rule server roles 10
              || (channel_rule server channel_id roles 10
                  || channel_rule server channel_id roles k))
    unfolding has_channel_permission compute_permissions
    has_channel_permission-eq-rule k {user} l ne e =
        let roles : List ℕ = assigned_roles user server_id in
        ground (
          arith,
          has-pow k (member_channel_permissions server channel_id roles),
          bit_at-member_channel_permissions server channel_id roles k l,
          bit_at-member_channel_permissions server channel_id roles 10 (omega arith),
        )

-- `compute_permissions` answers nothing exactly when, wherever the channel is indexed under a
-- server other than 0 that is cached, the user is not its owner and is not cached.
pub compute_permissions-none_iff :
    (c : PermissionCache) (user_id channel_id : ℕ)
    → (compute_permissions c user_id channel_id ≡ none) ↔ (
        (server_id : ℕ) (server : ServerCacheEntry)
        → lookup channel_id c.channel_index ≡ some server_id
        → server_id ≢ 0
        → lookup server_id c.servers ≡ some server
        → (server.owner_id ≢ user_id) × (lookup user_id c.users ≡ none))
unfolding compute_permissions
compute_permissions-none_iff c user_id channel_id = ((λ h sid s i n e. ground arith), back)
  where
    back :
        ((server_id : ℕ) (server : ServerCacheEntry)
          → lookup channel_id c.channel_index ≡ some server_id
          → server_id ≢ 0
          → lookup server_id c.servers ≡ some server
          → (server.owner_id ≢ user_id) × (lookup user_id c.users ≡ none))
        → compute_permissions c user_id channel_id ≡ none
    back h = elim (Option-cases (lookup channel_id c.channel_index)) [
      | inl i ↦ ground arith
      | inr (sid, i) ↦ elim (Option-cases (lookup sid c.servers)) [
        | inl e ↦ ground arith
        | inr (s, e) ↦ ground (arith, h sid s i)
      ]
    ]

module _ (s : ServerCacheEntry) (xs ys : List ℕ)
    (same : (r : ℕ) → contains r xs ≡ contains r ys) where
  pub merge_roles-same : (perms : ℕ) → merge_roles s perms xs ≡ merge_roles s perms ys
  merge_roles-same perms = eq_of_bits _ _ λ k.
      rw
        (
          bit_at-merge_roles s k perms xs,
          bit_at-merge_roles s k perms ys,
          any_same (grants s k) xs ys same,
        )
        refl

  pub accumulate_all-same :
      (channel : CachedChannel) (acc : ℕ × ℕ)
      → accumulate_all s channel acc xs ≡ accumulate_all s channel acc ys
  accumulate_all-same channel acc =
      let p =
        eq_of_bits (accumulate_all s channel acc xs).0 (accumulate_all s channel acc ys).0 (λ k.
          ground (
            arith,
            bit_at-accumulate_all s channel k acc xs,
            bit_at-accumulate_all s channel k acc ys,
            any_same (allows s channel k) xs ys same,
          )) in
      let q =
        eq_of_bits (accumulate_all s channel acc xs).1 (accumulate_all s channel acc ys).1 (λ k.
          ground (
            arith,
            bit_at-accumulate_all s channel k acc xs,
            bit_at-accumulate_all s channel k acc ys,
            any_same (denies s channel k) xs ys same,
          )) in
      λ i. (p i, q i)

-- Role lists with the same members, in any order and with repetitions, give the same channel
-- permissions, so the order in which the hash set of roles is walked does not matter.
pub member_channel_permissions-same_roles :
    (s : ServerCacheEntry) (channel_id : ℕ) (xs ys : List ℕ)
    → ((r : ℕ) → contains r xs ≡ contains r ys)
    → member_channel_permissions s channel_id xs ≡ member_channel_permissions s channel_id ys
unfolding member_channel_permissions base_permissions apply_channel_overrides
member_channel_permissions-same_roles s channel_id xs ys same =
    elim (Option-cases (find_channel s channel_id)) [
      | inl e ↦ ground (arith, merge_roles-same s xs ys same (everyone_permissions s))
      | inr (channel, e) ↦ ground (
        arith,
        merge_roles-same s xs ys same (everyone_permissions s),
        accumulate_all-same s xs ys same channel (0, 0),
      )
    ]
