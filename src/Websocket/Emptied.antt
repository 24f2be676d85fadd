-- ===== src/Websocket/Emptied.antt =====
-- The topics that `remove_connection` (server-rs/src/ws/mod.rs) reports as left without subscribers.
use Prim.Native.String.{String}
use verdant_backend.Prelude.{
  ℕ, nat_eq, string_eq, ◌=?◌, eq_refl, ◌≡◌, ◌↔◌, refl, sym, ap, ◌∙◌, true, false, ◌&&◌, List, [],
  ◌∷◌, inl, inr, Bool-cases, Option-cases, arith,
}
use verdant_backend.Prelude.Dict.{Dict, lookup, lookup-remove, lookup-modify}
use verdant_backend.Prelude.HashSet
use verdant_backend.Prelude.HashSet.{contains, is_empty, contains-remove, contains-of_empty}
use verdant_backend.Websocket.Manager.{
  ConnectionManager, drop_member, empties, leave_topics, remove_connection,
}
use verdant_backend.Websocket.Mirror.{members}
use verdant_backend.Websocket.Lifecycle.{Reachable, Reachable-IsConsistent}

remove_twice :
    (c : ℕ) (conns : List ℕ) → HashSet.remove c (HashSet.remove c conns) ≡ HashSet.remove c conns
unfolding HashSet.remove
remove_twice c [] = refl
remove_twice c (x ∷ rest) = ground (arith, remove_twice c rest)

empties-drop_member_other :
    (c : ℕ) (topic t : String) (d : Dict String (List ℕ))
    → (topic =? t) ≡ false
    → empties c t (drop_member c topic d) ≡ empties c t d
unfolding empties drop_member
empties-drop_member_other c topic t d ne =
    ground (arith, ne, lookup-remove topic t d, lookup-modify topic t (HashSet.remove c) d)

empties-drop_member_same :
    (c : ℕ) (t : String) (d : Dict String (List ℕ))
    → empties c t d ≡ false
    → empties c t (drop_member c t d) ≡ false
unfolding empties drop_member
empties-drop_member_same c t d left = elim (Option-cases (lookup t d)) [
  | inl e ↦ ground (arith, e)
  | inr (conns, e) ↦
      ground (arith, e, eq_refl t, remove_twice c conns, lookup-modify t t (HashSet.remove c) d)
]

contains-leave_topics_emptied :
    (c : ℕ) (topics : List String) (d : Dict String (List ℕ)) (t : String)
    → contains t (leave_topics c topics d).0 ≡ (contains t topics && empties c t d)
unfolding leave_topics
contains-leave_topics_emptied c [] d t = ground arith
contains-leave_topics_emptied c (topic ∷ topics) d t = elim (Bool-cases (topic =? t)) [
  | inl same ↦ elim (Bool-cases (empties c t d)) [
    | inl gone ↦
        ground (
          arith,
          same,
          gone,
          string_eq.beq_iff topic t,
          λ (p : topic ≡ t). ap (λ x. empties c x d) p,
        )
    | inr left ↦ ground (
      arith,
      same,
      left,
      string_eq.beq_iff topic t,
      λ (p : topic ≡ t). ap (λ x. empties c x d) p,
      contains-leave_topics_emptied c topics (drop_member c topic d) t,
      empties-drop_member_same c t d left,
      λ (p : topic ≡ t). ap (λ x. empties c t (drop_member c x d)) p,
    )
  ]
  | inr other ↦ ground (
    arith,
    other,
    contains-leave_topics_emptied c topics (drop_member c topic d) t,
    empties-drop_member_other c topic t d other,
  )
]

empty_of_only :
    (c : ℕ) (conns : List ℕ)
    → ((b : ℕ) → contains b conns ≡ true → b ≡ c)
    → is_empty (HashSet.remove c conns) ≡ true
unfolding HashSet.remove
empty_of_only c [] h = refl
empty_of_only c (x ∷ rest) h =
    ground (arith, h x, eq_refl x, empty_of_only c rest (λ b k. h b (ground arith)))

only_of_empty :
    (c : ℕ) (conns : List ℕ)
    → is_empty (HashSet.remove c conns) ≡ true
    → (b : ℕ) → contains b conns ≡ true
    → b ≡ c
only_of_empty c conns h b k =
    ground (arith, contains-remove c b conns, contains-of_empty b (HashSet.remove c conns) h)

empties_iff :
    (c : ℕ) (t : String) (d : Dict String (List ℕ))
    → contains c (members t d) ≡ true
    → (empties c t d ≡ true) ↔ ((b : ℕ) → contains b (members t d) ≡ true → b ≡ c)
unfolding empties
empties_iff c t d there = elim (Option-cases (lookup t d)) [
  | inl e ↦ absurd (ground (arith, e))
  | inr (conns, e) ↦ rw (empties, e) (only_of_empty c conns, empty_of_only c conns)
]

-- In a reachable manager, `remove_connection` reports exactly the topics that the connection was
-- subscribed to with no other connection.
pub remove_connection-emptied :
    (m : ConnectionManager) (conn_id : ℕ) (topic : String)
    → Reachable m
    → (contains topic (remove_connection m conn_id).0 ≡ true) ↔ (
        (contains topic (members conn_id m.subscriptions) ≡ true)
        × ((b : ℕ) → contains b (members topic m.topic_subscribers) ≡ true → b ≡ conn_id))
remove_connection-emptied m c t r = (
  λ h.
      let subscribed : contains t (members c m.subscriptions) ≡ true =
        ground (arith, reported, h) in
      (
        subscribed,
        (empties_iff c t m.topic_subscribers (there subscribed)).0 (ground (arith, reported, h)),
      ),
  λ (subscribed, only). ground (
    arith,
    reported,
    subscribed,
    (empties_iff c t m.topic_subscribers (there subscribed)).1 only,
  ),
)
  where
    reported :
        contains t (remove_connection m c).0
        ≡ (contains t (members c m.subscriptions) && empties c t m.topic_subscribers)
    reported =
        unfold remove_connection in
        contains-leave_topics_emptied c (members c m.subscriptions) m.topic_subscribers t

    there :
        contains t (members c m.subscriptions) ≡ true
        → contains c (members t m.topic_subscribers) ≡ true
    there k = sym ((Reachable-IsConsistent m r).mirror c t) ∙ k
