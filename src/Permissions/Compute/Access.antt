-- ===== src/Permissions/Compute/Access.antt =====
-- When `verify_access` lets a user into a channel.
use verdant_backend.Prelude.{
  ℕ, nat_eq, ◌≡◌, refl, ap, ◌∙◌, ◌≢◌, ◌↔◌, ◌⊎◌, true, Option, none, some, arith, inl, inr,
  Option-cases,
}
use mathlib.Core.Path.{subst}
use verdant_backend.Prelude.Dict.{lookup}
use verdant_backend.Prelude.HashSet.{contains}
use verdant_backend.Permissions.Bits.{view_channel, has}
use verdant_backend.Permissions.Types.{hit, miss, UserCacheEntry, PermissionCache}
use verdant_backend.Permissions.Compute.{may_view, compute_permissions, verify_access}

-- The user is a participant of the direct message, or a member of the channel's server whose cached
-- permissions, if there are any, have VIEW_CHANNEL.
abbrev pub MayEnter : PermissionCache → ℕ → ℕ → ℕ → UserCacheEntry → Type 0
MayEnter c user_id channel_id server_id user =
    ((server_id ≡ 0) × (contains channel_id user.dm_channel_ids ≡ true))
    ⊎ ((server_id ≢ 0)
        × (contains server_id user.server_ids ≡ true)
        × ((perms : ℕ)
            → compute_permissions c user_id channel_id ≡ some perms
            → has perms view_channel ≡ true))

may_view_iff :
    (o : Option ℕ)
    → (may_view o ≡ true) ↔ ((perms : ℕ) → o ≡ some perms → has perms view_channel ≡ true)
unfolding may_view
may_view_iff none = ((λ h perms e. cc), λ h. refl)
may_view_iff (some p) = ((λ h perms e. ground arith), λ h. h p refl)

module _ (c : PermissionCache) (user_id channel_id : ℕ) where
  hit_known :
      (server_id sid : ℕ) (user : UserCacheEntry)
      → lookup channel_id c.channel_index ≡ some server_id
      → lookup user_id c.users ≡ some user
      → (verify_access c user_id channel_id ≡ hit sid)
        ↔ ((server_id ≡ sid) × MayEnter c user_id channel_id server_id user)
  unfolding verify_access
  hit_known server_id sid user i u = (
    (λ h. ground (arith, may_view_iff (compute_permissions c user_id channel_id))),
    λ h. ground (arith, may_view_iff (compute_permissions c user_id channel_id)),
  )

  -- `verify_access` answers with a server id exactly when the channel is indexed under it, the
  -- user is cached, and the user takes part in the direct message (id 0) or is a member of the
  -- server whose permissions, where the cache can compute them, have VIEW_CHANNEL.
  pub verify_access-hit_iff :
      (server_id : ℕ)
      → (verify_access c user_id channel_id ≡ hit server_id) ↔ (
          (user : UserCacheEntry) × (lookup channel_id c.channel_index ≡ some server_id)
          × (lookup user_id c.users ≡ some user)
          × MayEnter c user_id channel_id server_id user)
  unfolding verify_access
  verify_access-hit_iff server_id =
      (forth, λ h. (hit_known server_id server_id h.0 h.1 h.2).1 (refl, h.3))
    where
      forth :
          verify_access c user_id channel_id ≡ hit server_id
          → (user : UserCacheEntry) × (lookup channel_id c.channel_index ≡ some server_id)
            × (lookup user_id c.users ≡ some user)
            × MayEnter c user_id channel_id server_id user
      forth h = elim (Option-cases (lookup channel_id c.channel_index)) [
        | inl e ↦ ground arith
        | inr (sid, i) ↦ elim (Option-cases (lookup user_id c.users)) [
          | inl e ↦ ground arith
          | inr (user, u) ↦
              let (same, enter) = (hit_known sid server_id user i u).0 h in
              (
                user,
                i ∙ ap some same,
                u,
                subst (λ t. MayEnter c user_id channel_id t user) same enter,
              )
        ]
      ]

  pub verify_access-miss_iff :
      (verify_access c user_id channel_id ≡ miss)
      ↔ ((lookup channel_id c.channel_index ≡ none) ⊎ (lookup user_id c.users ≡ none))
  unfolding verify_access
  verify_access-miss_iff = ((λ h. ground arith), λ h. ground arith)
