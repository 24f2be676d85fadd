-- ===== src/Websocket/Topics/Bridged.antt =====
-- An instance is subscribed in Redis to the topics of its connections, and to no other
-- (server-rs/src/ws/topics.rs).
use Prim.Native.String.{String}
use verdant_backend.Prelude.{
  ℕ, nat_eq, string_eq, ◌=?◌, eq_refl, ◌≡◌, ◌≢◌, refl, ap, Bool, true, not, ◌&&◌, ◌||◌, List, [],
  ◌∷◌, none, some, inl, inr, Bool-cases, Option-cases, arith,
}
use verdant_backend.Prelude.Dict
use verdant_backend.Prelude.Dict.{Dict, lookup, lookup-remove, lookup-modify, lookup-or_insert}
use verdant_backend.Prelude.HashSet
use verdant_backend.Prelude.OptionMonad.{unwrap_or}
use verdant_backend.Prelude.HashSet.{contains, is_empty, contains-insert, contains-remove}
use verdant_backend.Websocket.Manager
use verdant_backend.Websocket.Manager.{
  ConnectionManager, drop_member, empties, leave_topics, subscribe, unsubscribe, remove_connection,
}
use verdant_backend.Websocket.Sets.{nonempty-insert}
use verdant_backend.Websocket.Topics.{
  ops_drain_topic, Hub, redis_subscribe, redis_unsubscribe, cleanup_topic, subscribe_connection,
  has_no_subscriber, redis_unsubscribe_if_empty, unsubscribe_connection, subscribe_all, leave_each,
  all_leave, redis_leave, unsubscribe_emptied, disconnect,
}

-- No connection is in the set of the topic.
abbrev pub vacant : String → Dict String (List ℕ) → Bool
vacant topic d = elim (lookup topic d) [ none ↦ true | some conns ↦ is_empty conns ]

empty-remove :
    (c : ℕ) (conns : List ℕ) → is_empty conns ≡ true → is_empty (HashSet.remove c conns) ≡ true
unfolding HashSet.remove
empty-remove c [] h = refl
empty-remove c (x ∷ rest) h = cc

vacant-drop_member :
    (c : ℕ) (topic : String) (d : Dict String (List ℕ)) (t : String)
    → vacant t (drop_member c topic d) ≡ (vacant t d || ((topic =? t) && empties c topic d))
unfolding drop_member empties
vacant-drop_member c topic d t = elim (Option-cases (lookup topic d)) [
  | inl e ↦ ground (arith, e)
  | inr (conns, e) ↦ ground (
    arith,
    e,
    string_eq.beq_iff topic t,
    λ (p : topic ≡ t). ap (λ x. lookup x d) p,
    empty-remove c conns,
    lookup-remove topic t d,
    lookup-modify topic t (HashSet.remove c) d,
  )
]

pub vacant-subscribe :
    (c : ℕ) (topic : String) (d : Dict String (List ℕ)) (t : String)
    → vacant t (Dict.modify topic (HashSet.insert c) (Dict.or_insert topic [] d))
      ≡ (vacant t d && not (topic =? t))
vacant-subscribe c topic d t = elim (Option-cases (lookup topic d)) [
  | inl e ↦ ground (
    arith,
    e,
    string_eq.beq_iff topic t,
    λ (p : topic ≡ t). ap (λ x. lookup x d) p,
    lookup-modify topic t (HashSet.insert c) (Dict.or_insert topic [] d),
    lookup-or_insert topic t [] d,
    nonempty-insert c [],
  )
  | inr (conns, e) ↦ ground (
    arith,
    e,
    string_eq.beq_iff topic t,
    λ (p : topic ≡ t). ap (λ x. lookup x d) p,
    lookup-modify topic t (HashSet.insert c) (Dict.or_insert topic [] d),
    lookup-or_insert topic t [] d,
    nonempty-insert c conns,
  )
]

vacant-leave_topics :
    (c : ℕ) (topics : List String) (d : Dict String (List ℕ)) (t : String)
    → vacant t (leave_topics c topics d).1 ≡ (vacant t d || contains t (leave_topics c topics d).0)
unfolding leave_topics
vacant-leave_topics c [] d t = ground arith
vacant-leave_topics c (topic ∷ topics) d t =
    ground (
      arith,
      vacant-leave_topics c topics (drop_member c topic d) t,
      vacant-drop_member c topic d t,
    )

-- Redis carries out every command on the topic, which is not that of the drain commands.
abbrev pub Answers : (ℕ → String → Bool) → String → Type 0
Answers answers t = (ops_drain_topic ≢ t) × ((n : ℕ) → answers n t ≡ true)

contains-redis_subscribe :
    (h : Hub) (topic t : String)
    → Answers h.redis_answers t
    → contains t (redis_subscribe h topic).redis_topics
      ≡ contains t (HashSet.insert topic h.redis_topics)
unfolding redis_subscribe
contains-redis_subscribe h topic t k = elim (Bool-cases (h.redis_answers h.redis_calls topic)) [
  | inl e ↦ rw e refl
  | inr e ↦ rw e (
      ground (
        arith,
        contains-insert topic t h.redis_topics,
        string_eq.beq_iff topic t,
        λ (p : topic ≡ t). ap (h.redis_answers h.redis_calls) p,
        k.1 h.redis_calls,
        e,
      ))
]

contains-redis_unsubscribe :
    (h : Hub) (topic t : String)
    → Answers h.redis_answers t
    → contains t (redis_unsubscribe h topic).redis_topics
      ≡ contains t (HashSet.remove topic h.redis_topics)
unfolding redis_unsubscribe
contains-redis_unsubscribe h topic t k = elim (Bool-cases (h.redis_answers h.redis_calls topic)) [
  | inl e ↦ rw e refl
  | inr e ↦ rw e (
      ground (
        arith,
        contains-remove topic t h.redis_topics,
        string_eq.beq_iff topic t,
        λ (p : topic ≡ t). ap (h.redis_answers h.redis_calls) p,
        k.1 h.redis_calls,
        e,
      ))
]

-- Such a topic is subscribed to in Redis exactly when some local connection is in its set.
abbrev pub IsBridged : Hub → Type 0
IsBridged h =
    (topic : String)
    → Answers h.redis_answers topic
    → contains topic h.redis_topics ≡ not (vacant topic h.ws.topic_subscribers)

module _ (h : Hub) (b : IsBridged h) where
  subscribed_one :
      (conn_id : ℕ) (topic : String)
      → IsBridged (redis_subscribe (record h { ws = subscribe h.ws conn_id topic }) topic)
  unfolding redis_subscribe subscribe
  subscribed_one c topic t k = ground (
    arith,
    b t k,
    contains-redis_subscribe (record h { ws = subscribe h.ws c topic }) topic t k,
    contains-insert topic t h.redis_topics,
    vacant-subscribe c topic h.ws.topic_subscribers t,
  )

  pub IsBridged-cleanup_topic : (topic : String) → IsBridged (cleanup_topic h topic)
  unfolding cleanup_topic Manager.cleanup_topic
  IsBridged-cleanup_topic topic t k = elim (Option-cases (lookup topic h.ws.topic_subscribers)) [
    | inl e ↦ ground (
      arith,
      e,
      b t k,
      contains-redis_unsubscribe (record h { ws = Manager.cleanup_topic h.ws topic }) topic t k,
      contains-remove topic t h.redis_topics,
      string_eq.beq_iff topic t,
      λ (p : topic ≡ t). ap (λ x. lookup x h.ws.topic_subscribers) p,
    )
    | inr (conns, e) ↦ ground (
      arith,
      e,
      b t k,
      contains-redis_unsubscribe (record h { ws = Manager.cleanup_topic h.ws topic }) topic t k,
      contains-remove topic t h.redis_topics,
      lookup-remove topic t h.ws.topic_subscribers,
    )
  ]

pub IsBridged-subscribe_connection :
    (h : Hub) (conn_id : ℕ) (topics : List String)
    → IsBridged h
    → IsBridged (subscribe_connection h conn_id topics)
unfolding subscribe_connection
IsBridged-subscribe_connection h c [] b = b
IsBridged-subscribe_connection h c (t ∷ ts) b =
    IsBridged-subscribe_connection (redis_subscribe (record h { ws = subscribe h.ws c t }) t) c ts
      (subscribed_one h b c t)

pub IsBridged-subscribe_all :
    (h : Hub) (ids : List ℕ) (topics : List String)
    → IsBridged h
    → IsBridged (subscribe_all h ids topics)
unfolding subscribe_all
IsBridged-subscribe_all h [] topics b = b
IsBridged-subscribe_all h (c ∷ ids) topics b =
    IsBridged-subscribe_all (subscribe_connection h c topics) ids topics
      (IsBridged-subscribe_connection h c topics b)

-- While connections leave, Redis is behind: it has the topics in use, and maybe some of those left.
abbrev IsBehind : (ℕ → String → Bool) → ConnectionManager → List String → List String → Type 0
IsBehind answers ws topics redis =
    (t : String)
    → Answers answers t
    → contains t redis
      ≡ (not (vacant t ws.topic_subscribers) || (contains t topics && contains t redis))

left_one :
    (h : Hub) (topic : String) (topics : List String)
    → IsBehind h.redis_answers h.ws (topic ∷ topics) h.redis_topics
    → IsBehind h.redis_answers
        (redis_unsubscribe_if_empty h topic).ws
        topics
        (redis_unsubscribe_if_empty h topic).redis_topics
unfolding redis_unsubscribe_if_empty redis_unsubscribe has_no_subscriber
left_one h topic topics b t k = elim (Bool-cases (vacant topic h.ws.topic_subscribers)) [
  | inl e ↦ ground (
    arith,
    e,
    b t k,
    contains-redis_unsubscribe h topic t k,
    contains-remove topic t h.redis_topics,
    string_eq.beq_iff topic t,
    λ (p : topic ≡ t). ap (λ x. vacant x h.ws.topic_subscribers) p,
  )
  | inr e ↦ ground (
    arith,
    e,
    b t k,
    string_eq.beq_iff topic t,
    λ (p : topic ≡ t). ap (λ x. vacant x h.ws.topic_subscribers) p,
  )
]

answers-redis_unsubscribe_if_empty :
    (h : Hub) (topic : String)
    → (redis_unsubscribe_if_empty h topic).redis_answers ≡ h.redis_answers
unfolding redis_unsubscribe_if_empty redis_unsubscribe
answers-redis_unsubscribe_if_empty h topic = elim (Bool-cases (has_no_subscriber h.ws topic)) [
  | inl e ↦ rw (redis_unsubscribe_if_empty, e) refl
  | inr e ↦ rw (redis_unsubscribe_if_empty, e) refl
]

answers-unsubscribe_emptied :
    (h : Hub) (topics : List String)
    → (unsubscribe_emptied h topics).redis_answers ≡ h.redis_answers
unfolding unsubscribe_emptied redis_unsubscribe
answers-unsubscribe_emptied h [] = refl
answers-unsubscribe_emptied h (topic ∷ topics) =
    answers-unsubscribe_emptied (redis_unsubscribe h topic) topics

-- What holds of the answers before a call holds after it.
Answers-subst : {a b : ℕ → String → Bool} (t : String) → a ≡ b → Answers a t → Answers b t
Answers-subst t same k = rw (← same) k

IsBridged-redis_leave :
    (h : Hub) (topics : List String)
    → IsBehind h.redis_answers h.ws topics h.redis_topics
    → IsBridged (redis_leave h topics)
unfolding redis_leave
IsBridged-redis_leave h [] b = λ t k. ground (arith, b t k)
IsBridged-redis_leave h (topic ∷ topics) b =
    IsBridged-redis_leave (redis_unsubscribe_if_empty h topic) topics (λ t k.
      left_one h topic topics b t (Answers-subst t (answers-redis_unsubscribe_if_empty h topic) k))

-- Leaving makes topics vacant, none but those left.
left_topic :
    (answers : ℕ → String → Bool) (ws : ConnectionManager) (conn_id : ℕ) (topic : String)
    (topics redis : List String)
    → IsBehind answers ws topics redis
    → contains topic topics ≡ true
    → IsBehind answers (unsubscribe ws conn_id topic) topics redis
unfolding unsubscribe
left_topic answers ws c topic topics r b m t k = ground (
  arith,
  m,
  b t k,
  vacant-drop_member c topic ws.topic_subscribers t,
  string_eq.beq_iff topic t,
  λ (p : topic ≡ t). ap (λ x. contains x topics) p,
)

left_each :
    (answers : ℕ → String → Bool) (ws : ConnectionManager) (conn_id : ℕ)
    (todo topics redis : List String)
    → IsBehind answers ws topics redis
    → ((t : String) → contains t todo ≡ true → contains t topics ≡ true)
    → IsBehind answers (leave_each ws conn_id todo) topics redis
unfolding leave_each
left_each answers ws c [] topics r b sub = b
left_each answers ws c (topic ∷ todo) topics r b sub =
    left_each answers (unsubscribe ws c topic) c todo topics r
      (left_topic answers ws c topic topics r b (sub topic (ground (arith, eq_refl topic))))
      (λ t m. sub t (ground (arith, m)))

all_left :
    (answers : ℕ → String → Bool) (ws : ConnectionManager) (ids : List ℕ)
    (topics redis : List String)
    → IsBehind answers ws topics redis
    → IsBehind answers (all_leave ws ids topics) topics redis
unfolding all_leave
all_left answers ws [] topics r b = b
all_left answers ws (c ∷ ids) topics r b =
    all_left answers (leave_each ws c topics) ids topics r
      (left_each answers ws c topics topics r b (λ t m. m))

behind :
    (h : Hub) (topics : List String)
    → IsBridged h
    → IsBehind h.redis_answers h.ws topics h.redis_topics
behind h topics b t k = ground (arith, b t k)

module _ (h : Hub) (b : IsBridged h) where
  unsubscribed_one :
      (conn_id : ℕ) (topic : String)
      → IsBridged
          (redis_unsubscribe_if_empty (record h { ws = unsubscribe h.ws conn_id topic }) topic)
  unsubscribed_one c topic t k' =
      let before : Hub = record h { ws = unsubscribe h.ws c topic } in
      let k = Answers-subst t (answers-redis_unsubscribe_if_empty before topic) k' in
      ground (
        arith,
        left_one (record h { ws = unsubscribe h.ws c topic }) topic []
            (left_topic h.redis_answers h.ws c topic (topic ∷ []) h.redis_topics
              (behind h (topic ∷ []) b) (ground (arith, eq_refl topic)))
            t k,
      )

  pub IsBridged-all_leave :
      (ids : List ℕ) (topics : List String)
      → IsBridged (redis_leave (record h { ws = all_leave h.ws ids topics }) topics)
  IsBridged-all_leave ids topics =
      IsBridged-redis_leave (record h { ws = all_leave h.ws ids topics }) topics
        (all_left h.redis_answers h.ws ids topics h.redis_topics (behind h topics b))

pub IsBridged-unsubscribe_connection :
    (h : Hub) (conn_id : ℕ) (topics : List String)
    → IsBridged h
    → IsBridged (unsubscribe_connection h conn_id topics)
unfolding unsubscribe_connection
IsBridged-unsubscribe_connection h c [] b = b
IsBridged-unsubscribe_connection h c (t ∷ ts) b =
    IsBridged-unsubscribe_connection
      (redis_unsubscribe_if_empty (record h { ws = unsubscribe h.ws c t }) t) c ts
      (unsubscribed_one h b c t)

pub redis_topics-unsubscribe_emptied :
    (h : Hub) (topics : List String) (t : String)
    → Answers h.redis_answers t
    → contains t (unsubscribe_emptied h topics).redis_topics
      ≡ (contains t h.redis_topics && not (contains t topics))
unfolding unsubscribe_emptied redis_unsubscribe
redis_topics-unsubscribe_emptied h [] t k = ground arith
redis_topics-unsubscribe_emptied h (topic ∷ topics) t k = ground (
  arith,
  redis_topics-unsubscribe_emptied (redis_unsubscribe h topic) topics t k,
  contains-redis_unsubscribe h topic t k,
  contains-remove topic t h.redis_topics,
)

pub ws-unsubscribe_emptied :
    (h : Hub) (topics : List String) → (unsubscribe_emptied h topics).ws ≡ h.ws
unfolding unsubscribe_emptied redis_unsubscribe
ws-unsubscribe_emptied h [] = refl
ws-unsubscribe_emptied h (topic ∷ topics) =
    ws-unsubscribe_emptied (redis_unsubscribe h topic) topics

pub IsBridged-disconnect : (h : Hub) (conn_id : ℕ) → IsBridged h → IsBridged (disconnect h conn_id)
unfolding disconnect remove_connection
IsBridged-disconnect h c b t k' =
    let k : Answers h.redis_answers t =
      Answers-subst t
        (answers-unsubscribe_emptied (record h { ws = (remove_connection h.ws c).1 })
          (remove_connection h.ws c).0)
        k' in
    let topics = unwrap_or [] (lookup c h.ws.subscriptions) in
    rw
      (ws-unsubscribe_emptied (record h { ws = (remove_connection h.ws c).1 })
        (remove_connection h.ws c).0)
      (ground (
        arith,
        b t k,
        redis_topics-unsubscribe_emptied (record h { ws = (remove_connection h.ws c).1 })
            (remove_connection h.ws c).0 t k,
        vacant-leave_topics c topics h.ws.topic_subscribers t,
      ))
