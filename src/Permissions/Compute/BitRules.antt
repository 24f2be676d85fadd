-- ===== src/Permissions/Compute/BitRules.antt =====
-- The computed permissions, read bit by bit as a rule over roles and overrides.
use verdant_backend.Prelude.{
  ℕ, nat_eq, ◌<◌, ◌≡◌, Bool, false, ◌||◌, not, List, [], ◌∷◌, none, some, any, ◌&&◌, arith, inl,
  inr, Option-cases,
}
use verdant_backend.Prelude.Bits.{bit_at, bit_at-bit_or, zero_bits}
use verdant_backend.Permissions.Bits.Laws.{bit_at-apply_override}
use verdant_backend.Permissions.Types.{
  CachedChannel, ServerCacheEntry, find_role, find_channel, find_override,
}
use verdant_backend.Permissions.Compute.{
  everyone_permissions, merge_role, merge_roles, accumulate, accumulate_all,
  apply_everyone_override, apply_channel_overrides, base_permissions,
}

-- A role that counts for permissions gives the bit `k`.
abbrev pub grants : ServerCacheEntry → ℕ → ℕ → Bool
grants s k role_id = elim (find_role s role_id) [
  | none ↦ false
  | some r ↦ not r.color_only && bit_at k r.permissions
]

-- The override of such a role in the channel allows, or denies, the bit `k`.
abbrev pub allows : ServerCacheEntry → CachedChannel → ℕ → ℕ → Bool
allows s channel k role_id = elim (find_role s role_id) [
  | none ↦ false
  | some r ↦
      not r.color_only
      && elim (find_override channel role_id) [ none ↦ false | some ov ↦ bit_at k ov.allow ]
]

abbrev pub denies : ServerCacheEntry → CachedChannel → ℕ → ℕ → Bool
denies s channel k role_id = elim (find_role s role_id) [
  | none ↦ false
  | some r ↦
      not r.color_only
      && elim (find_override channel role_id) [ none ↦ false | some ov ↦ bit_at k ov.deny ]
]

-- @everyone or an assigned role gives the bit.
abbrev pub base_rule : ServerCacheEntry → List ℕ → ℕ → Bool
base_rule s roles k =
    elim (find_role s s.everyone_role_id) [ none ↦ false | some r ↦ bit_at k r.permissions ]
    || any (grants s k) roles

-- What the channel's @everyone override makes of that.
abbrev pub everyone_rule : ServerCacheEntry → CachedChannel → List ℕ → ℕ → Bool
everyone_rule s channel roles k = elim (find_override channel s.everyone_role_id) [
  | none ↦ base_rule s roles k
  | some ov ↦ bit_at k ov.allow || (base_rule s roles k && not (bit_at k ov.deny))
]

-- A role override that allows wins over one that denies, and both win over @everyone.
abbrev pub channel_rule : ServerCacheEntry → ℕ → List ℕ → ℕ → Bool
channel_rule s channel_id roles k = elim (find_channel s channel_id) [
  | none ↦ base_rule s roles k
  | some channel ↦
      any (allows s channel k) roles
      || (everyone_rule s channel roles k && not (any (denies s channel k) roles))
]

bit_at-merge_role :
    (s : ServerCacheEntry) (k perms r : ℕ)
    → bit_at k (merge_role s perms r) ≡ (bit_at k perms || grants s k r)
unfolding merge_role
bit_at-merge_role s k perms r = elim (Option-cases (find_role s r)) [
  | inl e ↦ ground arith
  | inr (role, e) ↦ ground (arith, bit_at-bit_or k perms role.permissions)
]

pub bit_at-merge_roles :
    (s : ServerCacheEntry) (k perms : ℕ) (roles : List ℕ)
    → bit_at k (merge_roles s perms roles) ≡ (bit_at k perms || any (grants s k) roles)
unfolding merge_roles
bit_at-merge_roles s k perms [] = ground arith
bit_at-merge_roles s k perms (r ∷ rest) =
    ground
      (arith, bit_at-merge_roles s k (merge_role s perms r) rest, bit_at-merge_role s k perms r)

bit_at-accumulate :
    (s : ServerCacheEntry) (channel : CachedChannel) (k : ℕ) (acc : ℕ × ℕ) (r : ℕ)
    → (bit_at k (accumulate s channel acc r).0 ≡ (bit_at k acc.0 || allows s channel k r))
      × (bit_at k (accumulate s channel acc r).1 ≡ (bit_at k acc.1 || denies s channel k r))
unfolding accumulate
bit_at-accumulate s channel k acc r = elim (Option-cases (find_override channel r)) [
  | inl e ↦ ground arith
  | inr (ov, e) ↦ ground (arith, bit_at-bit_or k acc.0 ov.allow, bit_at-bit_or k acc.1 ov.deny)
]

pub bit_at-accumulate_all :
    (s : ServerCacheEntry) (channel : CachedChannel) (k : ℕ) (acc : ℕ × ℕ) (roles : List ℕ)
    → (bit_at k (accumulate_all s channel acc roles).0
        ≡ (bit_at k acc.0 || any (allows s channel k) roles))
      × (bit_at k (accumulate_all s channel acc roles).1
          ≡ (bit_at k acc.1 || any (denies s channel k) roles))
unfolding accumulate_all
bit_at-accumulate_all s channel k acc [] = ground arith
bit_at-accumulate_all s channel k acc (r ∷ rest) = ground (
  arith,
  bit_at-accumulate_all s channel k (accumulate s channel acc r) rest,
  bit_at-accumulate s channel k acc r,
)

-- The bits before any channel override.
pub bit_at-base_permissions :
    (s : ServerCacheEntry) (roles : List ℕ) (k : ℕ)
    → bit_at k (base_permissions s roles) ≡ base_rule s roles k
unfolding base_permissions
bit_at-base_permissions s roles k =
    ground (arith, bit_at-merge_roles s k (everyone_permissions s) roles, zero_bits k)

bit_at-apply_everyone_override :
    (s : ServerCacheEntry) (channel : CachedChannel) (perms k : ℕ)
    → k < 64
    → bit_at k (apply_everyone_override s channel perms)
      ≡ elim (find_override channel s.everyone_role_id) [
        | none ↦ bit_at k perms
        | some ov ↦ bit_at k ov.allow || (bit_at k perms && not (bit_at k ov.deny))
      ]
unfolding apply_everyone_override
bit_at-apply_everyone_override s channel perms k l =
    elim (Option-cases (find_override channel s.everyone_role_id)) [
      | inl e ↦ ground arith
      | inr (ov, e) ↦ ground (arith, bit_at-apply_override k perms ov.allow ov.deny l)
    ]

pub bit_at-apply_channel_overrides :
    (s : ServerCacheEntry) (channel_id : ℕ) (roles : List ℕ) (k : ℕ)
    → k < 64
    → bit_at k (apply_channel_overrides s channel_id roles (base_permissions s roles))
      ≡ channel_rule s channel_id roles k
unfolding apply_channel_overrides
bit_at-apply_channel_overrides s channel_id roles k l =
    elim (Option-cases (find_channel s channel_id)) [
      | inl e ↦ ground (arith, bit_at-base_permissions s roles k)
      | inr (channel, e) ↦
          let acc : ℕ × ℕ = accumulate_all s channel (0, 0) roles in
          let middle : ℕ = apply_everyone_override s channel (base_permissions s roles) in
          ground (
            arith,
            bit_at-base_permissions s roles k,
            bit_at-accumulate_all s channel k (0, 0) roles,
            zero_bits k,
            bit_at-apply_everyone_override s channel (base_permissions s roles) k l,
            bit_at-apply_override k middle acc.0 acc.1 l,
          )
    ]
