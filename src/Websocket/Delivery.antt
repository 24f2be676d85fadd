-- ===== src/Websocket/Delivery.antt =====
-- What `ConnectionManager` (server-rs/src/ws/mod.rs) sends, and what it tells of users and topics.
-- A publish is the list of the messages that it hands to the senders.
use Prim.Native.String.{String}
use mathlib.Core.Option
use verdant_backend.Prelude.{
  ℕ, nat_eq, string_eq, ◌+◌, Bool, false, not, List, [], ◌∷◌, ◌++◌, map, Option, none, some, ◌==◌,
  if◌then◌else◌,
}
use verdant_backend.Prelude.Dict
use verdant_backend.Prelude.Dict.{Dict, lookup, contains_key, keys}
use verdant_backend.Prelude.HashSet
use verdant_backend.Prelude.HashSet.{contains, is_empty, from_list}
use verdant_backend.Prelude.OptionMonad.{unwrap_or}
use verdant_backend.Websocket.Manager.{
  Encoding, unknown, json, protobuf, OutboundMsg, text, binary, ConnectionManager,
}

unfoldable pub send_to : ConnectionManager → ℕ → OutboundMsg → List (ℕ × OutboundMsg)
send_to m conn_id msg = elim (lookup conn_id m.conn_info) [
  | none ↦ []
  | some info ↦ (info.0, msg) ∷ []
]

pub send_all : ConnectionManager → List ℕ → OutboundMsg → List (ℕ × OutboundMsg)
unfolding send_to
send_all m [] msg = []
send_all m (conn_id ∷ rest) msg = send_to m conn_id msg ++ send_all m rest msg

unfoldable pub send_to_user : ConnectionManager → ℕ → OutboundMsg → List (ℕ × OutboundMsg)
unfolding send_all
send_to_user m user_id msg = send_all m (unwrap_or [] (lookup user_id m.connections)) msg

-- The protobuf bytes where the connection reads them and there are some, the JSON text otherwise.
unfoldable pub choose : OutboundMsg → Option (List ℕ) → Encoding → OutboundMsg
choose json_msg none encoding = json_msg
choose json_msg (some bytes) protobuf = binary bytes
choose json_msg (some bytes) unknown = json_msg
choose json_msg (some bytes) json = json_msg

-- One message for each connection of the list that has a sender, and their number.
unfoldable pub fan_out :
    ConnectionManager → OutboundMsg → Option (List ℕ) → List ℕ → List (ℕ × OutboundMsg) × ℕ
unfolding choose
fan_out m json_msg proto_bytes [] = ([], 0)
fan_out m json_msg proto_bytes (conn_id ∷ rest) =
    let (sent, count) = fan_out m json_msg proto_bytes rest in
    elim (lookup conn_id m.conn_info) [
      | none ↦ (sent, count)
      | some info ↦ ((info.0, choose json_msg proto_bytes info.1) ∷ sent, count + 1)
    ]

unfoldable pub publish_local :
    ConnectionManager → String → OutboundMsg → Option (List ℕ) → List (ℕ × OutboundMsg) × ℕ
unfolding fan_out
publish_local m topic json_msg proto_bytes = elim (lookup topic m.topic_subscribers) [
  | none ↦ ([], 0)
  | some conns ↦ fan_out m json_msg proto_bytes conns
]

unfoldable pub publish_local_proto_first :
    ConnectionManager → String → List ℕ → String → List (ℕ × OutboundMsg) × ℕ
unfolding fan_out
publish_local_proto_first m topic proto_bytes json_text = elim (lookup topic m.topic_subscribers) [
  | none ↦ ([], 0)
  | some conns ↦ fan_out m (text json_text) (some proto_bytes) conns
]

-- The loop of `publish_local_except` skips the excluded connection.
unfoldable pub skip : ℕ → List ℕ → List ℕ
skip exclude_conn [] = []
skip exclude_conn (conn_id ∷ rest) =
    let others = skip exclude_conn rest in
    if conn_id == exclude_conn then others else conn_id ∷ others

unfoldable pub publish_local_except :
    ConnectionManager → String → OutboundMsg → Option (List ℕ) → ℕ → List (ℕ × OutboundMsg) × ℕ
unfolding fan_out skip
publish_local_except m topic json_msg proto_bytes exclude_conn =
    elim (lookup topic m.topic_subscribers) [
      | none ↦ ([], 0)
      | some conns ↦ fan_out m json_msg proto_bytes (skip exclude_conn conns)
    ]

unfoldable pub is_online : ConnectionManager → ℕ → Bool
is_online m user_id = elim (lookup user_id m.connections) [
  | none ↦ false
  | some conns ↦ not (is_empty conns)
]

pub online_of : Dict ℕ (List ℕ) → List ℕ
online_of [] = []
online_of ((user_id, conns) ∷ rest) =
    let others = online_of rest in if is_empty conns then others else user_id ∷ others

unfoldable pub connected_user_ids : ConnectionManager → List ℕ
unfolding online_of
connected_user_ids m = online_of m.connections

unfoldable pub get_user_conn_ids : ConnectionManager → ℕ → List ℕ
get_user_conn_ids m user_id = unwrap_or [] (lookup user_id m.connections)

unfoldable pub set_focused_channel : ConnectionManager → ℕ → Option ℕ → ConnectionManager
set_focused_channel m conn_id none = record m {
  conn_focus_channel = Dict.remove conn_id m.conn_focus_channel;
}
set_focused_channel m conn_id (some channel_id) = record m {
  conn_focus_channel = Dict.insert conn_id channel_id m.conn_focus_channel;
}

pub insert_all : List ℕ → ℕ → Dict ℕ ℕ → Dict ℕ ℕ
insert_all [] channel_id d = d
insert_all (conn_id ∷ rest) channel_id d =
    insert_all rest channel_id (Dict.insert conn_id channel_id d)

unfoldable pub set_voice_channel_for_user : ConnectionManager → ℕ → ℕ → ConnectionManager
unfolding insert_all get_user_conn_ids
set_voice_channel_for_user m user_id channel_id = record m {
  conn_voice_channel = insert_all (get_user_conn_ids m user_id) channel_id m.conn_voice_channel;
}

unfoldable pub get_voice_channel : ConnectionManager → ℕ → Option ℕ
get_voice_channel m conn_id = lookup conn_id m.conn_voice_channel

pub clear_all : List ℕ → ℕ → Dict ℕ ℕ → Dict ℕ ℕ
clear_all [] channel_id d = d
clear_all (conn_id ∷ rest) channel_id d = clear_all rest channel_id (
    if unwrap_or false (Option.map (λ v. v == channel_id) (lookup conn_id d))
    then Dict.remove conn_id d
    else d)

-- The connections of the user with the channel that each is focused on, and the manager.
unfoldable pub clear_voice_channel_for_user :
    ConnectionManager → ℕ → ℕ → List (ℕ × Option ℕ) × ConnectionManager
unfolding clear_all get_user_conn_ids
clear_voice_channel_for_user m user_id channel_id =
    let conns = get_user_conn_ids m user_id in
    (
      map (λ conn_id. (conn_id, lookup conn_id m.conn_focus_channel)) conns,
      record m { conn_voice_channel = clear_all conns channel_id m.conn_voice_channel },
    )

pub users_of : ConnectionManager → List ℕ → List ℕ
users_of m [] = []
users_of m (conn_id ∷ rest) =
    let others = users_of m rest in
    elim (lookup conn_id m.conn_user) [ none ↦ others | some uid ↦ HashSet.insert uid others ]

unfoldable pub get_topic_user_ids : ConnectionManager → String → List ℕ
unfolding users_of
get_topic_user_ids m topic = users_of m (unwrap_or [] (lookup topic m.topic_subscribers))
