-- ===== src/Permissions/Members/Eviction.antt =====
-- Evicting and leaving: what goes, and what stays.
use verdant_backend.Prelude.{
  ℕ, nat_eq, eq_refl, ◌≡◌, ◌≢◌, refl, sym, ap, ◌∙◌, Bool, false, ◌&&◌, ◌||◌, List, [], ◌∷◌, none,
  some, any, ◌==◌, if◌then◌else◌, arith, inl, inr, Bool-cases, Option-cases,
}
use verdant_backend.Prelude.Dict
use verdant_backend.Prelude.Dict.{Dict, lookup, lookup-remove, lookup-modify, lookup-insert}
use verdant_backend.Prelude.HashSet
use verdant_backend.Prelude.HashSet.{contains, contains-remove, contains-insert, from_list}
use verdant_backend.Permissions.Bits.{administrator}
use verdant_backend.Permissions.Types.{hit, UserCacheEntry, PermissionCache}
use verdant_backend.Permissions.Compute.{verify_access, has_server_permission}
use verdant_backend.Permissions.Compute.Access.{verify_access-hit_iff}
use verdant_backend.Permissions.Members.{
  decrement_server_ref, decrement_all, evict_user, remove_user_server, leave_server, entitled_from,
  collect_entitled_online_members,
}
use verdant_backend.Prelude.OptionMonad.{unwrap_or}

users-decrement :
    (c : PermissionCache) (server_id : ℕ) → (decrement_server_ref c server_id).users ≡ c.users
unfolding decrement_server_ref
users-decrement c server_id = ground arith

users-decrement_all : (ids : List ℕ) (c : PermissionCache) → (decrement_all ids c).users ≡ c.users
unfolding decrement_all
users-decrement_all [] c = refl
users-decrement_all (i ∷ ids) c =
    users-decrement_all ids (decrement_server_ref c i) ∙ users-decrement c i

-- Evicting a user takes that user out of the cache and leaves every other user as it was.
pub users-evict_user :
    (c : PermissionCache) (user_id other : ℕ)
    → lookup other (evict_user c user_id).users
      ≡ (if user_id == other then none else lookup other c.users)
unfolding evict_user
users-evict_user c user_id other = elim (Option-cases (lookup user_id c.users)) [
  | inl e ↦ ground (arith, λ (p : user_id ≡ other). ap (λ t. lookup t c.users) p)
  | inr (u, e) ↦ ground (
    arith,
    users-decrement_all u.server_ids (record c { users = Dict.remove user_id c.users }),
    lookup-remove user_id other c.users,
  )
]

users-remove_user_server :
    (c : PermissionCache) (user_id server_id : ℕ)
    → (remove_user_server c user_id server_id).users
      ≡ Dict.modify user_id (leave_server server_id) c.users
unfolding remove_user_server
users-remove_user_server c user_id server_id =
    users-decrement (record c { users = Dict.modify user_id (leave_server server_id) c.users })
      server_id

lookup-leaves :
    (c : PermissionCache) (user_id server_id : ℕ) (u : UserCacheEntry)
    → lookup user_id (remove_user_server c user_id server_id).users ≡ some u
    → contains server_id u.server_ids ≡ false
lookup-leaves c user_id server_id u h = elim (Option-cases (lookup user_id c.users)) [
  | inl e ↦ ground (arith, found, lookup-modify user_id user_id (leave_server server_id) c.users)
  | inr (before, e) ↦ ground (
    arith,
    found,
    lookup-modify user_id user_id (leave_server server_id) c.users,
    contains-remove server_id server_id before.server_ids,
    eq_refl server_id,
  )
]
  where
    found : lookup user_id (Dict.modify user_id (leave_server server_id) c.users) ≡ some u
    found = ap (lookup user_id) (sym (users-remove_user_server c user_id server_id)) ∙ h

-- Once a user has left a server, or was removed from it, the cache lets that user into no channel
-- of the server; the server's id is not 0.
pub verify_access-after_remove :
    (c : PermissionCache) (user_id server_id channel_id : ℕ)
    → server_id ≢ 0
    → verify_access (remove_user_server c user_id server_id) user_id channel_id ≢ hit server_id
verify_access-after_remove c user_id server_id channel_id not_dm h =
    let (u, _, there, enter) =
      (verify_access-hit_iff (remove_user_server c user_id server_id) user_id channel_id
          server_id).0
        h in
    ground (arith, lookup-leaves c user_id server_id u there)

-- An entry of the cache names someone who may see the resource: by ADMINISTRATOR, or by a role.
abbrev pub is_entitled : PermissionCache → ℕ → List ℕ → ℕ × UserCacheEntry → Bool
is_entitled c server_id allowed (user_id, u) = elim (lookup server_id u.member_roles) [
  | none ↦ false
  | some roles ↦
      unwrap_or false (has_server_permission c user_id server_id administrator)
      || any (λ r. contains r allowed) roles
]

contains-entitled_from :
    (c : PermissionCache) (server_id : ℕ) (allowed : List ℕ) (us : Dict ℕ UserCacheEntry)
    (out : List ℕ) (x : ℕ)
    → contains x (entitled_from c server_id allowed us out) ≡ (
        contains x out || any (λ entry. (entry.0 == x) && is_entitled c server_id allowed entry) us)
unfolding entitled_from
contains-entitled_from c server_id allowed [] out x = ground arith
contains-entitled_from c server_id allowed ((i, u) ∷ us) out x =
    elim (Bool-cases (is_entitled c server_id allowed (i, u))) [
      | inl e ↦ ground (
        arith,
        contains-entitled_from c server_id allowed us (HashSet.insert i out) x,
        contains-insert i x out,
      )
      | inr e ↦ ground (arith, contains-entitled_from c server_id allowed us out x)
    ]

-- Role-gated events go to the owner of the cached server and to the cached users that hold
-- ADMINISTRATOR or one of the allowed roles, and to nobody else.
pub contains-collect_entitled :
    (c : PermissionCache) (server_id : ℕ) (allowed : List ℕ) (x : ℕ)
    → contains x (collect_entitled_online_members c server_id allowed) ≡ (
        elim (lookup server_id c.servers) [ none ↦ false | some s ↦ s.owner_id == x ]
        || any (λ entry. (entry.0 == x) && is_entitled c server_id allowed entry) c.users)
unfolding collect_entitled_online_members
contains-collect_entitled c server_id allowed x = elim (Option-cases (lookup server_id c.servers)) [
  | inl e ↦ ground (arith, contains-entitled_from c server_id allowed c.users [] x)
  | inr (s, e) ↦
      ground (arith, contains-entitled_from c server_id allowed c.users (s.owner_id ∷ []) x)
]
