-- ===== src/Websocket/Publishing.antt =====
-- Publishing past the sender (server-rs/src/ws/mod.rs).
use Prim.Native.String.{String}
use verdant_backend.Prelude.{
  ℕ, nat_eq, string_eq, eq_refl, ◌≡◌, refl, ap, true, List, [], ◌∷◌, Option, inl, inr, Option-cases,
  arith,
}
use verdant_backend.Prelude.Dict.{lookup, lookup-remove, lookup-modify}
use verdant_backend.Prelude.HashSet
use verdant_backend.Prelude.HashSet.{is_empty}
use verdant_backend.Websocket.Manager.{ConnectionManager, OutboundMsg, drop_member, unsubscribe}
use verdant_backend.Websocket.Delivery.{fan_out, skip, publish_local, publish_local_except}

fan_out-eq :
    (m n : ConnectionManager) (json_msg : OutboundMsg) (proto_bytes : Option (List ℕ))
    (conns : List ℕ)
    → m.conn_info ≡ n.conn_info
    → fan_out m json_msg proto_bytes conns ≡ fan_out n json_msg proto_bytes conns
unfolding fan_out
fan_out-eq m n j p [] e = refl
fan_out-eq m n j p (c ∷ rest) e =
    ground (arith, e, fan_out-eq m n j p rest e, λ (q : m.conn_info ≡ n.conn_info). ap (lookup c) q)

skip-remove : (c : ℕ) (conns : List ℕ) → skip c conns ≡ HashSet.remove c conns
unfolding skip HashSet.remove
skip-remove c [] = refl
skip-remove c (x ∷ rest) = rw (skip-remove c rest) refl

fan_out-empty :
    (m : ConnectionManager) (j : OutboundMsg) (p : Option (List ℕ)) (conns : List ℕ)
    → is_empty conns ≡ true
    → fan_out m j p conns ≡ ([], 0)
unfolding fan_out
fan_out-empty m j p [] h = refl
fan_out-empty m j p (c ∷ rest) h = cc

-- A publish to all but one connection sends what a publish to all sends once that connection is
-- unsubscribed from the topic.
pub publish_local_except-eq :
    (m : ConnectionManager) (topic : String) (json_msg : OutboundMsg)
    (proto_bytes : Option (List ℕ)) (conn_id : ℕ)
    → publish_local_except m topic json_msg proto_bytes conn_id
      ≡ publish_local (unsubscribe m conn_id topic) topic json_msg proto_bytes
unfolding publish_local_except publish_local unsubscribe drop_member
publish_local_except-eq m topic j p c = elim (Option-cases (lookup topic m.topic_subscribers)) [
  | inl e ↦ ground (arith, e)
  | inr (conns, e) ↦
      let same : fan_out m j p (HashSet.remove c conns)
          ≡ fan_out (unsubscribe m c topic) j p (HashSet.remove c conns) =
        fan_out-eq m (unsubscribe m c topic) j p (HashSet.remove c conns) refl in
      ground (
        arith,
        e,
        eq_refl topic,
        skip-remove c conns,
        same,
        fan_out-empty m j p (HashSet.remove c conns),
        lookup-remove topic topic m.topic_subscribers,
        lookup-modify topic topic (HashSet.remove c) m.topic_subscribers,
      )
]
