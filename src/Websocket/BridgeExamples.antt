-- ===== src/Websocket/BridgeExamples.antt =====
-- The theorems on topics, envelopes, drains and frames at small instances.
use Prim.Native.String.{String}
use verdant_backend.Prelude.{
  ℕ, nat_eq, string_eq, list_eq, ◌=?◌, arith, ◌≡◌, ◌≢◌, refl, ap, true, false, List, [], ◌∷◌, none,
  some, if◌then◌else◌,
}
use verdant_backend.Prelude.Dict
use verdant_backend.Prelude.HashSet
use verdant_backend.Prelude.HashSet.{contains}
use verdant_backend.Prelude.Utf8.{from_utf8}
use verdant_backend.Websocket.Manager
use verdant_backend.Websocket.Manager.{ConnectionManager, add_connection, remove_connection}
use verdant_backend.Websocket.Envelope.{redis_proto_envelope, receive, ignored, remote_proto}
use verdant_backend.Websocket.Envelope.RoundTrip.{IsNodeId, receive-redis_proto_envelope}
use verdant_backend.Websocket.Topics.{Hub, ops_drain_topic, subscribe_connection}
use verdant_backend.Websocket.Topics.Bridged.{vacant}
use verdant_backend.Websocket.Topics.Races.{disconnect_around, disconnect_around-join}
use verdant_backend.Websocket.FrameRate.{FrameCount}
use verdant_backend.Websocket.Drain.{DrainCommand, NodeRuntimeInfo, Json, drain_targets_node}
use verdant_backend.Websocket.Drain.Once.{
  Arrival, handle_all, first_targeted, handle_all-first_targeted,
}

abbrev node_a : List ℕ
node_a = 97 ∷ 49 ∷ 97 ∷ 49 ∷ 97 ∷ 49 ∷ 97 ∷ 49 ∷ 97 ∷ 49 ∷ 97 ∷ 49 ∷ 97 ∷ 49 ∷ 97 ∷ 49 ∷ []

abbrev node_b : List ℕ
node_b = 98 ∷ 48 ∷ 98 ∷ 48 ∷ 98 ∷ 48 ∷ 98 ∷ 48 ∷ 98 ∷ 48 ∷ 98 ∷ 48 ∷ 98 ∷ 48 ∷ 98 ∷ 48 ∷ []

node_a-IsNodeId : IsNodeId node_a
node_a-IsNodeId = record { digits = refl; sixteen = refl }

node_b-IsNodeId : IsNodeId node_b
node_b-IsNodeId = record { digits = refl; sixteen = refl }

receive-redis_proto_envelope_example :
    receive node_a (redis_proto_envelope node_b (10 ∷ 2 ∷ []))
    ≡ (if node_b =? node_a then ignored else remote_proto (10 ∷ 2 ∷ []))
receive-redis_proto_envelope_example =
    receive-redis_proto_envelope node_a node_b (10 ∷ 2 ∷ []) node_b-IsNodeId refl

braces_utf8 : from_utf8 (123 ∷ 125 ∷ []) ≡ some (123 ∷ 125 ∷ [])
unfolding from_utf8
braces_utf8 = refl

abbrev idle : Hub
idle = record {
  ws = add_connection Manager.new 7 1 100;
  redis_topics = ops_drain_topic ∷ [];
  redis_answers = λ n topic. true;
  redis_calls = 0;
}

abbrev reading : Hub
reading = subscribe_connection idle 1 ("channel:5" ∷ [])

not_drain : ops_drain_topic ≢ "channel:5"
not_drain e =
    let same : (ops_drain_topic =? ops_drain_topic) ≡ (ops_drain_topic =? "channel:5") =
      ap (λ topic. ops_drain_topic =? topic) e in
    ground (arith, same)

answered : (n : ℕ) → reading.redis_answers n "channel:5" ≡ true
unfolding subscribe_connection
answered n = refl

-- The last subscriber leaves.
last_leaves : contains "channel:5" (remove_connection reading.ws 1).0 ≡ true
unfolding remove_connection subscribe_connection Manager.subscribe Dict.modify add_connection
    Dict.or_insert HashSet.insert HashSet.remove
last_leaves = refl

disconnect_around-join_example :
    (contains "channel:5"
        (disconnect_around reading 1
          (λ s. subscribe_connection s 2 ("channel:5" ∷ []))).redis_topics
      ≡ false)
    × (vacant "channel:5"
          (disconnect_around reading 1
            (λ s. subscribe_connection s 2 ("channel:5" ∷ []))).ws.topic_subscribers
        ≡ false)
disconnect_around-join_example =
    disconnect_around-join reading 1 2 "channel:5" not_drain answered last_leaves

abbrev command : DrainCommand
command = record {
  target_node_id = some "n1";
  target_droplet_id = none;
  target_public_ip = none;
  target_name = none;
  reason = some (60 ∷ 104 ∷ 105 ∷ []);
  reconnect_after_ms = some 90000;
  close_after_ms = some 5;
}

abbrev other : DrainCommand
other = record command { target_node_id = some "n2" }

abbrev droplet : NodeRuntimeInfo
droplet = record { droplet_id = none; name = some "app"; public_ip = none; region = none }

abbrev printed : Json → String
printed value = "event"

command_targets : drain_targets_node "n1" droplet command ≡ true
unfolding drain_targets_node
command_targets = refl

abbrev arrivals : List Arrival
arrivals =
    (other, (idle.ws, idle.ws)) ∷ (command, (idle.ws, idle.ws)) ∷ (command, (idle.ws, idle.ws)) ∷ []

handle_all-first_targeted_example :
    handle_all printed "n1" droplet false arrivals ≡ first_targeted printed "n1" droplet arrivals
handle_all-first_targeted_example = handle_all-first_targeted printed "n1" droplet arrivals

abbrev busy : FrameCount
busy = record { msg_count = 70; window_start = 0; bypass_rate_limits = false }
