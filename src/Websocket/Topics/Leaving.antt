-- ===== src/Websocket/Topics/Leaving.antt =====
-- What the functions that take a user out of a channel or a server do to the local subscriptions
-- (server-rs/src/ws/topics.rs).
use Prim.Native.String.{String}
use verdant_backend.Prelude.{
  ℕ, nat_eq, string_eq, ◌=?◌, ◌≡◌, refl, not, Bool, ◌&&◌, List, [], ◌∷◌, arith,
}
use verdant_backend.Prelude.HashSet.{contains}
use verdant_backend.Websocket.Manager.{ConnectionManager, unsubscribe}
use verdant_backend.Websocket.Mirror.{members, contains-drop_member}
use verdant_backend.Websocket.Delivery.{get_user_conn_ids}
use verdant_backend.Websocket.Topics.{
  Hub, redis_unsubscribe, redis_unsubscribe_if_empty, leave_each, all_leave, redis_leave,
  all_channel_topics, presence_topic, channels_topics, unsubscribe_user_from_server,
  unsubscribe_user_from_channel,
}

-- The connection is among the subscribers of the topic.
abbrev pub subscribes : ConnectionManager → ℕ → String → Bool
subscribes ws conn_id topic = contains conn_id (members topic ws.topic_subscribers)

module _ (c : ℕ) (t : String) where
  subscribes-unsubscribe :
      (ws : ConnectionManager) (conn_id : ℕ) (topic : String)
      → subscribes (unsubscribe ws conn_id topic) c t
        ≡ (subscribes ws c t && not ((conn_id =? c) && (topic =? t)))
  unfolding unsubscribe
  subscribes-unsubscribe ws conn_id topic =
      ground (arith, contains-drop_member conn_id topic ws.topic_subscribers t c)

  subscribes-leave_each :
      (ws : ConnectionManager) (conn_id : ℕ) (topics : List String)
      → subscribes (leave_each ws conn_id topics) c t
        ≡ (subscribes ws c t && not ((conn_id =? c) && contains t topics))
  unfolding leave_each
  subscribes-leave_each ws conn_id [] = ground arith
  subscribes-leave_each ws conn_id (topic ∷ topics) = ground (
    arith,
    subscribes-leave_each (unsubscribe ws conn_id topic) conn_id topics,
    subscribes-unsubscribe ws conn_id topic,
  )

  subscribes-all_leave :
      (ws : ConnectionManager) (ids : List ℕ) (topics : List String)
      → subscribes (all_leave ws ids topics) c t
        ≡ (subscribes ws c t && not (contains c ids && contains t topics))
  unfolding all_leave
  subscribes-all_leave ws [] topics = ground arith
  subscribes-all_leave ws (conn_id ∷ ids) topics = ground (
    arith,
    subscribes-all_leave (leave_each ws conn_id topics) ids topics,
    subscribes-leave_each ws conn_id topics,
  )

pub ws-redis_leave : (h : Hub) (topics : List String) → (redis_leave h topics).ws ≡ h.ws
unfolding redis_leave redis_unsubscribe_if_empty redis_unsubscribe
ws-redis_leave h [] = refl
ws-redis_leave h (topic ∷ topics) =
    ground (arith, ws-redis_leave (redis_unsubscribe_if_empty h topic) topics)

-- When a user is taken out of a channel or a server, the connections of the user, and no others,
-- leave the four topics of each channel concerned, and with a server its presence topic; every
-- other subscription is as it was.
pub unsubscribe_user-subscribes :
    (h : Hub) (user_id server_id channel_id : ℕ) (channel_ids : List ℕ) (conn_id : ℕ)
    (topic : String)
    → (subscribes (unsubscribe_user_from_channel h user_id channel_id).ws conn_id topic ≡ (
        subscribes h.ws conn_id topic
        && not (
            contains conn_id (get_user_conn_ids h.ws user_id)
            && contains topic (all_channel_topics channel_id))))
      × (subscribes (unsubscribe_user_from_server h user_id server_id channel_ids).ws conn_id topic
          ≡ (subscribes h.ws conn_id topic
              && not (
                  contains conn_id (get_user_conn_ids h.ws user_id)
                  && contains topic (presence_topic server_id ∷ channels_topics channel_ids))))
unfolding unsubscribe_user_from_channel unsubscribe_user_from_server
unsubscribe_user-subscribes h user_id server_id channel_id channel_ids conn_id topic =
    let ids = get_user_conn_ids h.ws user_id in
    let left : List String → Hub = λ topics. record h { ws = all_leave h.ws ids topics } in
    (
      rw (ws-redis_leave (left (all_channel_topics channel_id)) (all_channel_topics channel_id))
          (subscribes-all_leave conn_id topic h.ws ids (all_channel_topics channel_id)),
      rw
          (ws-redis_leave (left (presence_topic server_id ∷ channels_topics channel_ids))
            (presence_topic server_id ∷ channels_topics channel_ids))
          (subscribes-all_leave conn_id topic h.ws ids
            (presence_topic server_id ∷ channels_topics channel_ids)),
    )
