-- ===== src/Websocket/Sets.antt =====
-- The sets of the manager (server-rs/src/ws/mod.rs): none is left empty, and a connection is in the
-- set of its user alone.
use Prim.Native.String.{String}
use verdant_backend.Prelude.{
  ℕ, Eq, nat_eq, string_eq, ◌=?◌, ◌≡◌, refl, ap, Bool, false, List, [], ◌∷◌, Option, none, some,
  ◌==◌, inl, inr, Bool-cases, Option-cases, arith,
}
use verdant_backend.Prelude.Dict
use verdant_backend.Prelude.Dict.{
  Dict, lookup, contains_key, lookup-insert, lookup-remove, lookup-modify, lookup-or_insert,
}
use verdant_backend.Prelude.HashSet
use verdant_backend.Prelude.HashSet.{contains, is_empty, contains-insert, contains-of_empty}
use verdant_backend.Websocket.Manager.{
  ConnectionManager, add_connection, drop_member, leave_topics, remove_connection,
}
use verdant_backend.Websocket.Mirror.{
  members, contains-drop_member, contains-or_insert, contains-modify-insert,
}

-- No key is left with an empty set.
abbrev pub NoneEmpty : {K : Type 0} ⦃e : Eq K⦄ → Dict K (List ℕ) → Type 0
NoneEmpty {K} d = (k : K) (conns : List ℕ) → lookup k d ≡ some conns → is_empty conns ≡ false

pub nonempty-insert : (c : ℕ) (conns : List ℕ) → is_empty (HashSet.insert c conns) ≡ false
unfolding HashSet.insert
nonempty-insert c [] = refl
nonempty-insert c (x ∷ xs) = ground arith

module _ {K : Type 0} ⦃e : Eq K⦄ where
  pub NoneEmpty-drop_member :
      (c : ℕ) (k : K) (d : Dict K (List ℕ)) → NoneEmpty d → NoneEmpty (drop_member c k d)
  unfolding drop_member
  NoneEmpty-drop_member c k d h j conns p = elim (Option-cases (lookup k d)) [
    | inl absent ↦ h j conns (ground (arith, absent))
    | inr (before, there) ↦ elim (Bool-cases (is_empty (HashSet.remove c before))) [
      | inl gone ↦ h j conns (ground (arith, there, lookup-remove k j d))
      | inr left ↦ elim (Bool-cases (k =? j)) [
        | inl same ↦ ground (
          arith,
          there,
          e.beq_iff k j,
          λ (q : k ≡ j). ap (λ t. lookup t d) q,
          lookup-modify k j (HashSet.remove c) d,
          λ (q : HashSet.remove c before ≡ conns). ap is_empty q,
        )
        | inr other ↦ h j conns (ground (arith, there, lookup-modify k j (HashSet.remove c) d))
      ]
    ]
  ]

  pub NoneEmpty-insert :
      (c : ℕ) (k : K) (d : Dict K (List ℕ))
      → NoneEmpty d
      → NoneEmpty (Dict.modify k (HashSet.insert c) (Dict.or_insert k [] d))
  NoneEmpty-insert c k d h j conns p = elim (Bool-cases (k =? j)) [
    | inl same ↦
        let r : some (HashSet.insert c (members k d)) ≡ some conns = ground (
          arith,
          e.beq_iff k j,
          λ (q : k ≡ j). ap (λ t. lookup t d) q,
          lookup-modify k j (HashSet.insert c) (Dict.or_insert k [] d),
          lookup-or_insert k j [] d,
        ) in
        ground (
          arith,
          nonempty-insert c (members k d),
          λ (q : HashSet.insert c (members k d) ≡ conns). ap is_empty q,
        )
    | inr other ↦ h j conns (
        ground (
          arith,
          lookup-modify k j (HashSet.insert c) (Dict.or_insert k [] d),
          lookup-or_insert k j [] d,
        ))
  ]

  pub NoneEmpty-remove : (k : K) (d : Dict K (List ℕ)) → NoneEmpty d → NoneEmpty (Dict.remove k d)
  NoneEmpty-remove k d h j conns p = h j conns (ground (arith, lookup-remove k j d))

pub NoneEmpty-leave_topics :
    (c : ℕ) (topics : List String) (d : Dict String (List ℕ))
    → NoneEmpty d
    → NoneEmpty (leave_topics c topics d).1
unfolding leave_topics
NoneEmpty-leave_topics c [] d h = h
NoneEmpty-leave_topics c (t ∷ topics) d h =
    NoneEmpty-leave_topics c topics (drop_member c t d) (NoneEmpty-drop_member c t d h)

-- The user of the connection, if it is this one.
abbrev pub owns : ℕ → Option ℕ → Bool
owns user_id none = false
owns user_id (some u) = u == user_id

abbrev pub IsOwned : ConnectionManager → Type 0
IsOwned m =
    (conn_id user_id : ℕ)
    → contains conn_id (members user_id m.connections) ≡ owns user_id (lookup conn_id m.conn_user)

pub IsOwned-add_connection :
    (m : ConnectionManager) (u c tx : ℕ)
    → lookup c m.conn_user ≡ none
    → IsOwned m
    → IsOwned (add_connection m u c tx)
unfolding add_connection
IsOwned-add_connection m u c tx f h i v = ground (
  arith,
  f,
  h i v,
  lookup-insert c i u m.conn_user,
  contains-modify-insert u c (Dict.or_insert u [] m.connections) v i,
  contains-or_insert u m.connections v i,
  lookup-or_insert u u [] m.connections,
)

pub IsOwned-remove_connection :
    (m : ConnectionManager) (c : ℕ) → IsOwned m → IsOwned (remove_connection m c).1
unfolding remove_connection
IsOwned-remove_connection m c h i v = elim (Option-cases (lookup c m.conn_user)) [
  | inl e ↦ ground (arith, e, h i v, lookup-remove c i m.conn_user)
  | inr (u, e) ↦
      ground
        (arith, e, h i v, lookup-remove c i m.conn_user, contains-drop_member c u m.connections v i)
]
