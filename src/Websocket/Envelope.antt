-- ===== src/Websocket/Envelope.antt =====
-- The messages between instances (server-rs/src/ws/topics.rs): the envelopes that a node publishes to
-- Redis, and what the subscriber loop makes of a message. Texts are their UTF-8 bytes.
pub mod RoundTrip
use verdant_backend.Prelude.{
  ℕ, suc, ◌+◌, ◌%◌, Bool, true, false, not, ◌&&◌, List, [], ◌∷◌, ◌++◌, Option, none, some, nat_eq,
  list_eq, ◌=?◌, ltb, ◌==◌, if◌then◌else◌, length, take, drop,
}
use verdant_backend.Prelude.HashSet.{is_empty}
use verdant_backend.Prelude.OptionMonad.{◌>>=◌}
use verdant_backend.Prelude.Utf8.{from_utf8}

-- `len() as u8` keeps the low eight bits of the length.
unfoldable pub redis_proto_envelope : List ℕ → List ℕ → List ℕ
redis_proto_envelope node_id proto_bytes = length node_id % 256 ∷ (node_id ++ proto_bytes)

unfoldable pub parse_redis_proto_envelope : List ℕ → Option (List ℕ × List ℕ)
parse_redis_proto_envelope [] = none
parse_redis_proto_envelope (node_len ∷ rest) =
    if ltb (length (node_len ∷ rest)) (1 + node_len)
    then none
    else do node_id ← from_utf8 (take node_len rest); some (node_id, drop node_len rest)

-- A line feed ends the node id.
unfoldable pub redis_json_envelope : List ℕ → List ℕ → List ℕ
redis_json_envelope node_id json = node_id ++ 10 ∷ json

-- `split_once('\n')`.
unfoldable pub split_line : List ℕ → Option (List ℕ × List ℕ)
split_line [] = none
split_line (b ∷ bytes) =
    let rest = split_line bytes in
    if b == 10
    then some ([], bytes)
    else elim rest [ none ↦ none | some (line, after) ↦ some (b ∷ line, after) ]

unfoldable pub parse_json_envelope : List ℕ → List ℕ × List ℕ
unfolding split_line
parse_json_envelope payload = elim (split_line payload) [
  | none ↦ ([], payload)
  | some parts ↦ parts
]

-- What a node does with a message that is no drain command: nothing, or a payload to hand to the
-- local subscribers of the topic, as protobuf bytes or as a text.
pub data Received : Type 0 where
  ignored : Received
  remote_proto : List ℕ → Received
  remote_json : List ℕ → Received

-- The legacy envelope, tried where the binary one does not fit.
unfoldable pub receive_json : List ℕ → List ℕ → Received
unfolding parse_json_envelope
receive_json node_id raw_bytes = elim (from_utf8 raw_bytes) [
  | none ↦ ignored
  | some raw_str ↦
      let (origin_node, json_payload) = parse_json_envelope raw_str in
      if origin_node =? node_id then ignored else remote_json json_payload
]

abbrev pub looks_like_proto : List ℕ → List ℕ → Bool
looks_like_proto raw_bytes proto_bytes =
    not (is_empty proto_bytes) && elim raw_bytes [ [] ↦ false | b ∷ _ ↦ b == 16 ]

unfoldable pub receive : List ℕ → List ℕ → Received
unfolding parse_redis_proto_envelope receive_json
receive node_id raw_bytes = elim (parse_redis_proto_envelope raw_bytes) [
  | none ↦ receive_json node_id raw_bytes
  | some (origin_node, proto_bytes) ↦
      if origin_node =? node_id
      then ignored
      else if looks_like_proto raw_bytes proto_bytes
      then remote_proto proto_bytes
      else receive_json node_id raw_bytes
]
