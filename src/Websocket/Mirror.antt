-- ===== src/Websocket/Mirror.antt =====
-- The two tables of subscriptions (server-rs/src/ws/mod.rs): a topic is in a connection's set
-- exactly when the connection is in the topic's.
use Prim.Native.String.{String}
use verdant_backend.Prelude.{
  ℕ, Eq, nat_eq, string_eq, ◌=?◌, eq_refl, ◌≡◌, ap, ◌∙◌, true, not, ◌&&◌, ◌||◌, List, [], ◌∷◌, ◌==◌,
  inl, inr, Option-cases, arith,
}
use verdant_backend.Prelude.Dict
use verdant_backend.Prelude.Dict.{
  Dict, lookup, contains_key, lookup-insert, lookup-remove, lookup-modify, lookup-or_insert,
}
use verdant_backend.Prelude.HashSet
use verdant_backend.Prelude.HashSet.{
  contains, is_empty, contains-insert, contains-remove, contains-of_empty,
}
use verdant_backend.Prelude.OptionMonad.{unwrap_or}
use verdant_backend.Websocket.Manager.{
  ConnectionManager, add_connection, drop_member, leave_topics, remove_connection, subscribe,
  unsubscribe, forget_topic, cleanup_topic,
}

-- The set under a key, empty where there is none.
abbrev pub members : {K V : Type 0} ⦃e : Eq K⦄ → K → Dict K (List V) → List V
members k d = unwrap_or [] (lookup k d)

abbrev pub IsMirror : ConnectionManager → Type 0
IsMirror m =
    (conn_id : ℕ) (topic : String)
    → contains topic (members conn_id m.subscriptions)
      ≡ contains conn_id (members topic m.topic_subscribers)

module _ {K : Type 0} ⦃e : Eq K⦄ where
  pub contains-drop_member :
      (c : ℕ) (k : K) (d : Dict K (List ℕ)) (j : K) (b : ℕ)
      → contains b (members j (drop_member c k d))
        ≡ (contains b (members j d) && not ((k =? j) && (c == b)))
  unfolding drop_member
  contains-drop_member c k d j b = elim (Option-cases (lookup k d)) [
    | inl absent ↦ ground (arith, absent, e.beq_iff k j, λ (p : k ≡ j). ap (λ t. lookup t d) p)
    | inr (conns, there) ↦ ground (
      arith,
      there,
      e.beq_iff k j,
      λ (p : k ≡ j). ap (λ t. lookup t d) p,
      lookup-remove k j d,
      lookup-modify k j (HashSet.remove c) d,
      contains-remove c b conns,
      contains-of_empty b (HashSet.remove c conns),
    )
  ]

module _ {K V : Type 0} ⦃e : Eq K⦄ ⦃f : Eq V⦄ where
  contains-modify-remove :
      (k : K) (v : V) (d : Dict K (List V)) (j : K) (b : V)
      → contains b (members j (Dict.modify k (HashSet.remove v) d))
        ≡ (contains b (members j d) && not ((k =? j) && (v =? b)))
  contains-modify-remove k v d j b =
      ground (arith, lookup-modify k j (HashSet.remove v) d, contains-remove v b (members j d))

  pub contains-modify-insert :
      (k : K) (v : V) (d : Dict K (List V)) (j : K) (b : V)
      → contains b (members j (Dict.modify k (HashSet.insert v) d))
        ≡ (contains b (members j d) || (contains_key k d && ((k =? j) && (v =? b))))
  contains-modify-insert k v d j b = ground (
    arith,
    lookup-modify k j (HashSet.insert v) d,
    contains-insert v b (members j d),
    e.beq_iff k j,
    λ (p : k ≡ j). ap (λ t. lookup t d) p,
  )

  pub contains-or_insert :
      (k : K) (d : Dict K (List V)) (j : K) (b : V)
      → contains b (members j (Dict.or_insert k [] d)) ≡ contains b (members j d)
  contains-or_insert k d j b = ground (arith, lookup-or_insert k j [] d)

pub contains-leave_topics :
    (c : ℕ) (topics : List String) (d : Dict String (List ℕ)) (t : String) (b : ℕ)
    → contains b (members t (leave_topics c topics d).1)
      ≡ (contains b (members t d) && not (contains t topics && (c == b)))
unfolding leave_topics
contains-leave_topics c [] d t b = ground arith
contains-leave_topics c (topic ∷ topics) d t b = ground (
  arith,
  contains-leave_topics c topics (drop_member c topic d) t b,
  contains-drop_member c topic d t b,
)

contains-forget_topic :
    (topic : String) (ids : List ℕ) (d : Dict ℕ (List String)) (c : ℕ) (t : String)
    → contains t (members c (forget_topic topic ids d))
      ≡ (contains t (members c d) && not (contains c ids && (topic =? t)))
unfolding forget_topic
contains-forget_topic topic [] d c t = ground arith
contains-forget_topic topic (i ∷ ids) d c t = ground (
  arith,
  contains-forget_topic topic ids (Dict.modify i (HashSet.remove topic) d) c t,
  contains-modify-remove i topic d c t,
)

pub IsMirror-add_connection :
    (m : ConnectionManager) (user_id conn_id tx : ℕ)
    → IsMirror m
    → IsMirror (add_connection m user_id conn_id tx)
unfolding add_connection
IsMirror-add_connection m u c tx h i t = contains-or_insert c m.subscriptions i t ∙ h i t

pub IsMirror-subscribe :
    (m : ConnectionManager) (conn_id : ℕ) (topic : String)
    → contains_key conn_id m.subscriptions ≡ true
    → IsMirror m
    → IsMirror (subscribe m conn_id topic)
unfolding subscribe
IsMirror-subscribe m c topic k h i t = ground (
  arith,
  h i t,
  k,
  contains-modify-insert c topic m.subscriptions i t,
  contains-modify-insert topic c (Dict.or_insert topic [] m.topic_subscribers) t i,
  contains-or_insert topic m.topic_subscribers t i,
  lookup-or_insert topic topic [] m.topic_subscribers,
  eq_refl topic,
)

pub IsMirror-unsubscribe :
    (m : ConnectionManager) (conn_id : ℕ) (topic : String)
    → IsMirror m
    → IsMirror (unsubscribe m conn_id topic)
unfolding unsubscribe
IsMirror-unsubscribe m c topic h i t = ground (
  arith,
  h i t,
  contains-modify-remove c topic m.subscriptions i t,
  contains-drop_member c topic m.topic_subscribers t i,
)

pub IsMirror-remove_connection :
    (m : ConnectionManager) (conn_id : ℕ) → IsMirror m → IsMirror (remove_connection m conn_id).1
unfolding remove_connection
IsMirror-remove_connection m c h i t = ground (
  arith,
  h i t,
  lookup-remove c i m.subscriptions,
  λ (p : c ≡ i). ap (λ j. lookup j m.subscriptions) p,
  contains-leave_topics c (members c m.subscriptions) m.topic_subscribers t i,
)

pub IsMirror-cleanup_topic :
    (m : ConnectionManager) (topic : String) → IsMirror m → IsMirror (cleanup_topic m topic)
unfolding cleanup_topic
IsMirror-cleanup_topic m topic h i t = elim (Option-cases (lookup topic m.topic_subscribers)) [
  | inl e ↦ ground (arith, e, h i t)
  | inr (ids, e) ↦ ground (
    arith,
    e,
    h i t,
    string_eq.beq_iff topic t,
    λ (p : topic ≡ t). ap (λ j. lookup j m.topic_subscribers) p,
    contains-forget_topic topic ids m.subscriptions i t,
    lookup-remove topic t m.topic_subscribers,
  )
]
