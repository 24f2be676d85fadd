-- ===== src/Websocket/Manager.antt =====
-- `ConnectionManager` (server-rs/src/ws/mod.rs): the connections of the users, and the topics that
-- the connections are subscribed to.
use Prim.Native.String.{String}
use verdant_backend.Prelude.{
  ℕ, Eq, nat_eq, string_eq, ◌+◌, ◌%◌, ◌^◌, Bool, false, List, [], ◌∷◌, none, some, if◌then◌else◌,
  length,
}
use verdant_backend.Prelude.Dict
use verdant_backend.Prelude.Dict.{Dict, lookup, contains_key, keys}
use verdant_backend.Prelude.HashSet
use verdant_backend.Prelude.HashSet.{contains, is_empty}
use verdant_backend.Prelude.OptionMonad.{unwrap_or}

pub data Encoding : Type 0 where
  unknown json protobuf : Encoding

-- The payload of a message is a text or its bytes.
pub data OutboundMsg : Type 0 where
  text : String → OutboundMsg
  binary : List ℕ → OutboundMsg
  close : (code : ℕ) → String → OutboundMsg

-- The sender of a connection is the number of its channel.
pub record ConnectionManager : Type 0 where
  pub connections : Dict ℕ (List ℕ)
  pub conn_info : Dict ℕ (ℕ × Encoding)
  pub subscriptions : Dict ℕ (List String)
  pub topic_subscribers : Dict String (List ℕ)
  pub conn_user : Dict ℕ ℕ
  pub conn_focus_channel : Dict ℕ ℕ
  pub conn_voice_channel : Dict ℕ ℕ
  pub batch_conns : Dict ℕ (Unit {0})
  pub next_id : ℕ

abbrev pub new : ConnectionManager
new = record {
  connections = [];
  conn_info = [];
  subscriptions = [];
  topic_subscribers = [];
  conn_user = [];
  conn_focus_channel = [];
  conn_voice_channel = [];
  batch_conns = [];
  next_id = 1;
}

unfoldable pub mark_batch_capable : ConnectionManager → ℕ → ConnectionManager
mark_batch_capable m conn_id = record m { batch_conns = Dict.insert conn_id tt m.batch_conns }

unfoldable pub is_batch_capable : ConnectionManager → ℕ → Bool
is_batch_capable m conn_id = contains_key conn_id m.batch_conns

unfoldable pub all_conn_ids : ConnectionManager → List ℕ
all_conn_ids m = keys m.conn_info

unfoldable pub connection_count : ConnectionManager → ℕ
connection_count m = length m.conn_info

unfoldable pub next_conn_id : ConnectionManager → ℕ × ConnectionManager
next_conn_id m = (m.next_id, record m { next_id = (m.next_id + 1) % 2 ^ 64 })

unfoldable pub add_connection : ConnectionManager → ℕ → ℕ → ℕ → ConnectionManager
add_connection m user_id conn_id tx = record m {
  connections =
      Dict.modify user_id (HashSet.insert conn_id) (Dict.or_insert user_id [] m.connections);
  conn_info = Dict.insert conn_id (tx, unknown) m.conn_info;
  conn_user = Dict.insert conn_id user_id m.conn_user;
  subscriptions = Dict.or_insert conn_id [] m.subscriptions;
}

unfoldable pub set_encoding : ConnectionManager → ℕ → Encoding → ConnectionManager
set_encoding m conn_id encoding = record m {
  conn_info = Dict.modify conn_id (λ info. (info.0, encoding)) m.conn_info;
}

unfoldable pub get_encoding : ConnectionManager → ℕ → Encoding
get_encoding m conn_id = elim (lookup conn_id m.conn_info) [ none ↦ json | some info ↦ info.1 ]

-- Take an element out of the set of a key, and the set away when it is empty then.
unfoldable pub drop_member : {K : Type 0} ⦃e : Eq K⦄ → ℕ → K → Dict K (List ℕ) → Dict K (List ℕ)
drop_member conn_id k d = elim (lookup k d) [
  | none ↦ d
  | some conns ↦
      if is_empty (HashSet.remove conn_id conns)
      then Dict.remove k d
      else Dict.modify k (HashSet.remove conn_id) d
]

-- The removal of the connection leaves the set of the topic empty.
unfoldable pub empties : ℕ → String → Dict String (List ℕ) → Bool
empties conn_id topic d = elim (lookup topic d) [
  | none ↦ false
  | some conns ↦ is_empty (HashSet.remove conn_id conns)
]

unfoldable pub leave_topics :
    ℕ → List String → Dict String (List ℕ) → List String × Dict String (List ℕ)
unfolding drop_member empties
leave_topics conn_id [] d = ([], d)
leave_topics conn_id (topic ∷ topics) d =
    let (emptied, left) = leave_topics conn_id topics (drop_member conn_id topic d) in
    (if empties conn_id topic d then topic ∷ emptied else emptied, left)

-- The topics without subscribers, and the manager after the disconnect.
unfoldable pub remove_connection : ConnectionManager → ℕ → List String × ConnectionManager
unfolding drop_member leave_topics
remove_connection m conn_id =
    let connections' : Dict ℕ (List ℕ) = elim (lookup conn_id m.conn_user) [
      | none ↦ m.connections
      | some user_id ↦ drop_member conn_id user_id m.connections
    ] in
    let (emptied, left) =
      leave_topics conn_id (unwrap_or [] (lookup conn_id m.subscriptions)) m.topic_subscribers in
    (
      emptied,
      record m {
        connections = connections';
        conn_user = Dict.remove conn_id m.conn_user;
        subscriptions = Dict.remove conn_id m.subscriptions;
        topic_subscribers = left;
        conn_info = Dict.remove conn_id m.conn_info;
        conn_focus_channel = Dict.remove conn_id m.conn_focus_channel;
        conn_voice_channel = Dict.remove conn_id m.conn_voice_channel;
        batch_conns = Dict.remove conn_id m.batch_conns;
      },
    )

unfoldable pub subscribe : ConnectionManager → ℕ → String → ConnectionManager
subscribe m conn_id topic = record m {
  subscriptions = Dict.modify conn_id (HashSet.insert topic) m.subscriptions;
  topic_subscribers =
      Dict.modify topic (HashSet.insert conn_id) (Dict.or_insert topic [] m.topic_subscribers);
}

unfoldable pub unsubscribe : ConnectionManager → ℕ → String → ConnectionManager
unfolding drop_member
unsubscribe m conn_id topic = record m {
  subscriptions = Dict.modify conn_id (HashSet.remove topic) m.subscriptions;
  topic_subscribers = drop_member conn_id topic m.topic_subscribers;
}

unfoldable pub forget_topic : String → List ℕ → Dict ℕ (List String) → Dict ℕ (List String)
forget_topic topic [] d = d
forget_topic topic (conn_id ∷ rest) d =
    forget_topic topic rest (Dict.modify conn_id (HashSet.remove topic) d)

unfoldable pub cleanup_topic : ConnectionManager → String → ConnectionManager
unfolding forget_topic
cleanup_topic m topic = elim (lookup topic m.topic_subscribers) [
  | none ↦ m
  | some conn_ids ↦ record m {
    topic_subscribers = Dict.remove topic m.topic_subscribers;
    subscriptions = forget_topic topic conn_ids m.subscriptions;
  }
]
