-- ===== src/Websocket/Topics/Races.antt =====
-- The task that a disconnect spawns to unsubscribe from Redis may run after other calls
-- (server-rs/src/ws/connection.rs, server-rs/src/ws/topics.rs).
use Prim.Native.String.{String}
use verdant_backend.Prelude.{ℕ, string_eq, eq_refl, ◌≡◌, ◌≢◌, true, false, [], ◌∷◌, arith}
use verdant_backend.Prelude.HashSet.{contains}
use verdant_backend.Websocket.Manager.{subscribe, remove_connection}
use verdant_backend.Websocket.Topics.{
  ops_drain_topic, Hub, redis_subscribe, subscribe_connection, unsubscribe_emptied,
}
use verdant_backend.Websocket.Topics.Bridged.{
  vacant, vacant-subscribe, ws-unsubscribe_emptied, redis_topics-unsubscribe_emptied,
}

-- The connection leaves, other calls are made, then the task that it spawned runs.
unfoldable pub disconnect_around : Hub → ℕ → (Hub → Hub) → Hub
unfolding unsubscribe_emptied
disconnect_around h conn_id calls =
    let (emptied, ws') = remove_connection h.ws conn_id in
    unsubscribe_emptied (calls (record h { ws = ws' })) emptied

vacant-joined :
    (h : Hub) (conn_id : ℕ) (topic : String)
    → vacant topic (subscribe_connection h conn_id (topic ∷ [])).ws.topic_subscribers ≡ false
unfolding subscribe_connection redis_subscribe subscribe
vacant-joined h c topic =
    ground (arith, vacant-subscribe c topic h.ws.topic_subscribers topic, eq_refl topic)

-- Let a topic other than `ops:drain` lose its last connection, Redis carrying out every command
-- on it, and let another connection join the topic before the task that the end of the first
-- spawned has run. Then the topic's set is not empty afterwards, while the instance is not
-- subscribed to the topic in Redis.
pub disconnect_around-join :
    (h : Hub) (conn_id other : ℕ) (topic : String)
    → ops_drain_topic ≢ topic
    → ((n : ℕ) → h.redis_answers n topic ≡ true)
    → contains topic (remove_connection h.ws conn_id).0 ≡ true
    → (contains topic
          (disconnect_around h conn_id
            (λ s. subscribe_connection s other (topic ∷ []))).redis_topics
        ≡ false)
      × (vacant topic
            (disconnect_around h conn_id
              (λ s. subscribe_connection s other (topic ∷ []))).ws.topic_subscribers
          ≡ false)
unfolding disconnect_around subscribe_connection
disconnect_around-join h c other topic plain answered emptied =
    let joined =
      subscribe_connection (record h { ws = (remove_connection h.ws c).1 }) other (topic ∷ []) in
    (
      ground (
        arith,
        redis_topics-unsubscribe_emptied joined (remove_connection h.ws c).0 topic
            (plain, answered),
        emptied,
      ),
      rw (ws-unsubscribe_emptied joined (remove_connection h.ws c).0)
          (vacant-joined (record h { ws = (remove_connection h.ws c).1 }) other topic),
    )
