-- ===== src/Websocket/Topics/Histories.antt =====
-- The states that an instance reaches, one call after another (server-rs/src/ws/topics.rs and the end
-- of a connection in server-rs/src/ws/connection.rs).
use Prim.Native.String.{String}
use verdant_backend.Prelude.{ℕ, Bool, List, [], ◌∷◌}
use verdant_backend.Websocket.Manager
use verdant_backend.Websocket.Manager.{add_connection}
use verdant_backend.Websocket.Topics.{
  ops_drain_topic, Hub, cleanup_topic, subscribe_connection, unsubscribe_connection, subscribe_user,
  unsubscribe_user_from_server, unsubscribe_user_from_channel, disconnect,
}

pub data Step : Hub → Hub → Type 0 where
  connects :
      {h : Hub} (user_id conn_id tx : ℕ)
      → Step h (record h { ws = add_connection h.ws user_id conn_id tx })
  joins :
      {h : Hub} (conn_id : ℕ) (topics : List String)
      → Step h (subscribe_connection h conn_id topics)
  joins_all :
      {h : Hub} (user_id : ℕ) (topics : List String) → Step h (subscribe_user h user_id topics)
  leaves :
      {h : Hub} (conn_id : ℕ) (topics : List String)
      → Step h (unsubscribe_connection h conn_id topics)
  leaves_server :
      {h : Hub} (user_id server_id : ℕ) (channel_ids : List ℕ)
      → Step h (unsubscribe_user_from_server h user_id server_id channel_ids)
  leaves_channel :
      {h : Hub} (user_id channel_id : ℕ)
      → Step h (unsubscribe_user_from_channel h user_id channel_id)
  closes : {h : Hub} (topic : String) → Step h (cleanup_topic h topic)
  disconnects : {h : Hub} (conn_id : ℕ) → Step h (disconnect h conn_id)

-- An instance serves once `start_redis_subscriber` has subscribed to the drain commands.
pub data History : Hub → Type 0 where
  booted :
      (redis_answers : ℕ → String → Bool)
      → History (record {
        ws = Manager.new;
        redis_topics = ops_drain_topic ∷ [];
        redis_answers = redis_answers;
        redis_calls = 0;
      })
  later : {h h' : Hub} → History h → Step h h' → History h'
