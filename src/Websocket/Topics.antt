-- ===== src/Websocket/Topics.antt =====
-- Topics and the subscriptions of an instance (server-rs/src/ws/topics.rs): an instance subscribes to a
-- topic in Redis while one of its connections may want it. Each call is one step; what happens where
-- two calls interleave is in Races.
pub mod Bridged
pub mod Leaving
pub mod Races
pub mod Histories
use Prim.Native.String.{String, ◌++◌ as ◌<>◌}
use verdant_backend.Prelude.{
  ℕ, ◌+◌, nat_eq, string_eq, Bool, true, false, List, [], ◌∷◌, map, ◌++◌, Option, none, some,
  if◌then◌else◌,
}
use verdant_backend.Prelude.Format.{decimal}
use verdant_backend.Prelude.Dict.{lookup}
use verdant_backend.Prelude.HashSet
use verdant_backend.Prelude.HashSet.{is_empty}
use verdant_backend.Permissions.Types.{PermissionCache}
use verdant_backend.Permissions.Members.{collect_entitled_online_members}
use verdant_backend.Websocket.Manager
use verdant_backend.Websocket.Manager.{ConnectionManager, subscribe, unsubscribe, remove_connection}
use verdant_backend.Websocket.Delivery.{get_user_conn_ids}

-- An id is a positive `i64`.
unfoldable pub channel_topic : ℕ → String
channel_topic channel_id = "channel:" <> decimal channel_id

unfoldable pub channel_live_topic : ℕ → String
channel_live_topic channel_id = "channel_live:" <> decimal channel_id

unfoldable pub channel_notify_topic : ℕ → String
channel_notify_topic channel_id = "channel_notify:" <> decimal channel_id

unfoldable pub voice_topic : ℕ → String
voice_topic channel_id = "voice:" <> decimal channel_id

unfoldable pub focused_channel_topics : ℕ → List String
focused_channel_topics channel_id =
    channel_live_topic channel_id ∷ channel_notify_topic channel_id ∷ []

unfoldable pub all_channel_topics : ℕ → List String
all_channel_topics channel_id =
    channel_topic channel_id
    ∷ channel_live_topic channel_id
    ∷ channel_notify_topic channel_id
    ∷ voice_topic channel_id
    ∷ []

unfoldable pub presence_topic : ℕ → String
presence_topic server_id = "presence:" <> decimal server_id

unfoldable pub user_topic : ℕ → String
user_topic user_id = "user:" <> decimal user_id

-- The topics on which `publish_feed_scoped` publishes: the server's, or those of the users entitled.
unfoldable pub publish_feed_scoped : PermissionCache → ℕ → List ℕ → List String
publish_feed_scoped c server_id [] = presence_topic server_id ∷ []
publish_feed_scoped c server_id (r ∷ visible_role_ids) =
    map user_topic
      (collect_entitled_online_members c server_id (HashSet.from_list (r ∷ visible_role_ids)))

abbrev pub ops_drain_topic : String
ops_drain_topic = "ops:drain"

-- The connections of an instance, and the topics that its Redis client is subscribed to. A command
-- to Redis may fail, which the source ignores: `redis_answers` says of the command of each number,
-- and its topic, whether it is carried out, and `redis_calls` counts the commands.
pub record Hub : Type 0 where
  pub ws : ConnectionManager
  pub redis_topics : List String
  pub redis_answers : ℕ → String → Bool
  pub redis_calls : ℕ

unfoldable pub redis_subscribe : Hub → String → Hub
redis_subscribe h topic = record h {
  redis_topics =
      if h.redis_answers h.redis_calls topic
      then HashSet.insert topic h.redis_topics
      else h.redis_topics;
  redis_calls = h.redis_calls + 1;
}

unfoldable pub redis_unsubscribe : Hub → String → Hub
redis_unsubscribe h topic = record h {
  redis_topics =
      if h.redis_answers h.redis_calls topic
      then HashSet.remove topic h.redis_topics
      else h.redis_topics;
  redis_calls = h.redis_calls + 1;
}

unfoldable pub cleanup_topic : Hub → String → Hub
unfolding redis_unsubscribe
cleanup_topic h topic = redis_unsubscribe (record h { ws = Manager.cleanup_topic h.ws topic }) topic

unfoldable pub subscribe_connection : Hub → ℕ → List String → Hub
unfolding redis_subscribe
subscribe_connection h conn_id [] = h
subscribe_connection h conn_id (topic ∷ topics) =
    subscribe_connection (redis_subscribe (record h { ws = subscribe h.ws conn_id topic }) topic)
      conn_id topics

-- `topic_subscribers.get(topic).map(|s| s.is_empty()).unwrap_or(true)`.
unfoldable pub has_no_subscriber : ConnectionManager → String → Bool
has_no_subscriber ws topic = elim (lookup topic ws.topic_subscribers) [
  | none ↦ true
  | some conns ↦ is_empty conns
]

unfoldable pub redis_unsubscribe_if_empty : Hub → String → Hub
unfolding has_no_subscriber redis_unsubscribe
redis_unsubscribe_if_empty h topic =
    if has_no_subscriber h.ws topic then redis_unsubscribe h topic else h

unfoldable pub unsubscribe_connection : Hub → ℕ → List String → Hub
unfolding redis_unsubscribe_if_empty
unsubscribe_connection h conn_id [] = h
unsubscribe_connection h conn_id (topic ∷ topics) =
    unsubscribe_connection
      (redis_unsubscribe_if_empty (record h { ws = unsubscribe h.ws conn_id topic }) topic) conn_id
      topics

unfoldable pub subscribe_all : Hub → List ℕ → List String → Hub
unfolding subscribe_connection
subscribe_all h [] topics = h
subscribe_all h (conn_id ∷ rest) topics =
    subscribe_all (subscribe_connection h conn_id topics) rest topics

unfoldable pub subscribe_user : Hub → ℕ → List String → Hub
unfolding subscribe_all
subscribe_user h user_id topics = subscribe_all h (get_user_conn_ids h.ws user_id) topics

-- The loops of the two functions below: every connection leaves every topic.
unfoldable pub leave_each : ConnectionManager → ℕ → List String → ConnectionManager
leave_each ws conn_id [] = ws
leave_each ws conn_id (topic ∷ topics) = leave_each (unsubscribe ws conn_id topic) conn_id topics

unfoldable pub all_leave : ConnectionManager → List ℕ → List String → ConnectionManager
unfolding leave_each
all_leave ws [] topics = ws
all_leave ws (conn_id ∷ rest) topics = all_leave (leave_each ws conn_id topics) rest topics

unfoldable pub redis_leave : Hub → List String → Hub
unfolding redis_unsubscribe_if_empty
redis_leave h [] = h
redis_leave h (topic ∷ topics) = redis_leave (redis_unsubscribe_if_empty h topic) topics

pub channels_topics : List ℕ → List String
unfolding all_channel_topics
channels_topics [] = []
channels_topics (channel_id ∷ rest) = all_channel_topics channel_id ++ channels_topics rest

unfoldable pub unsubscribe_user_from_server : Hub → ℕ → ℕ → List ℕ → Hub
unfolding all_leave redis_leave channels_topics
unsubscribe_user_from_server h user_id server_id channel_ids =
    let topics = presence_topic server_id ∷ channels_topics channel_ids in
    redis_leave (record h { ws = all_leave h.ws (get_user_conn_ids h.ws user_id) topics }) topics

unfoldable pub unsubscribe_user_from_channel : Hub → ℕ → ℕ → Hub
unfolding all_leave redis_leave all_channel_topics
unsubscribe_user_from_channel h user_id channel_id =
    let topics = all_channel_topics channel_id in
    redis_leave (record h { ws = all_leave h.ws (get_user_conn_ids h.ws user_id) topics }) topics

unfoldable pub unsubscribe_emptied : Hub → List String → Hub
unfolding redis_unsubscribe
unsubscribe_emptied h [] = h
unsubscribe_emptied h (topic ∷ topics) = unsubscribe_emptied (redis_unsubscribe h topic) topics

-- The end of a connection (server-rs/src/ws/connection.rs), with the task that it spawns.
unfoldable pub disconnect : Hub → ℕ → Hub
unfolding unsubscribe_emptied
disconnect h conn_id =
    let (emptied, ws') = remove_connection h.ws conn_id in
    unsubscribe_emptied (record h { ws = ws' }) emptied
