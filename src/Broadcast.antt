-- ===== src/Broadcast.antt =====
-- The broadcast service (server-rs/src/services/broadcast.rs): publishes are gathered by topic, each
-- topic's subscribers are split among workers, and a worker hands the payloads to its connections.
pub mod Coalescing
pub mod Counting
pub mod Fanout
mod Examples
use Prim.Native.String.{String}
use verdant_backend.Prelude.{
  ℕ, zero, suc, nat_eq, string_eq, ◌+◌, ◌%◌, Bool, true, false, ◌&&◌, ◌||◌, List, [], ◌∷◌, ◌++◌,
  map, Option, none, some, ltb, leb, if◌then◌else◌, length, take,
}
use verdant_backend.Prelude.Dict
use verdant_backend.Prelude.Dict.{Dict, lookup}
use verdant_backend.Prelude.HashSet.{is_empty}
use verdant_backend.Websocket.Manager.{
  ConnectionManager, Encoding, unknown, json, protobuf, OutboundMsg, text, binary, is_batch_capable,
}

pub record Payload : Type 0 where
  pub proto : List ℕ
  pub json_text : String

pub record BroadcastWork : Type 0 where
  pub payloads : List Payload
  pub batch_proto : Option (List ℕ)
  pub indiv_conn_ids : List ℕ
  pub batch_conn_ids : List ℕ

pub record PendingPublish : Type 0 where
  pub topic : String
  pub payload : Payload

abbrev pub max_pending_before_flush : ℕ
max_pending_before_flush = 256

abbrev pub is_protobuf : Encoding → Bool
is_protobuf unknown = false
is_protobuf json = false
is_protobuf protobuf = true

-- The message of a payload for a connection.
abbrev pub message_for : Encoding → Payload → OutboundMsg
message_for encoding payload =
    if is_protobuf encoding then binary payload.proto else text payload.json_text

-- A worker, at the connections of the time. `room` is the number of messages of the work that a
-- connection's channel takes before a `try_send` fails; a result is a connection with its message.
module _ (cm : ConnectionManager) (room : ℕ → ℕ) where
  abbrev pub hand : ℕ → List OutboundMsg → List (ℕ × OutboundMsg)
  hand conn_id messages = map (λ msg. (conn_id, msg)) (take (room conn_id) messages)

  unfoldable pub deliver_individually : List Payload → List ℕ → List (ℕ × OutboundMsg)
  deliver_individually payloads [] = []
  deliver_individually payloads (conn_id ∷ rest) =
      let others = deliver_individually payloads rest in
      elim (lookup conn_id cm.conn_info) [
        | none ↦ others
        | some info ↦ hand conn_id (map (message_for info.1) payloads) ++ others
      ]

  unfoldable pub deliver_batch : List ℕ → List ℕ → List (ℕ × OutboundMsg)
  deliver_batch batch_bytes [] = []
  deliver_batch batch_bytes (conn_id ∷ rest) =
      let others = deliver_batch batch_bytes rest in
      elim (lookup conn_id cm.conn_info) [
        | none ↦ others
        | some _ ↦ hand conn_id (binary batch_bytes ∷ []) ++ others
      ]

  unfoldable pub deliver : BroadcastWork → List (ℕ × OutboundMsg)
  unfolding deliver_individually deliver_batch
  deliver work = deliver_individually work.payloads work.indiv_conn_ids ++ elim work.batch_proto [
    | none ↦ []
    | some batch_bytes ↦ deliver_batch batch_bytes work.batch_conn_ids
  ]

-- The subscribers of a topic, one vector for each worker, and whether one of them takes batches.
pub record Parts : Type 0 where
  pub indiv_parts : List (List ℕ)
  pub batch_parts : List (List ℕ)
  pub any_batch_candidate : Bool

unfoldable pub push_at : ℕ → ℕ → List (List ℕ) → List (List ℕ)
push_at idx conn_id [] = []
push_at zero conn_id (part ∷ parts) = (part ++ conn_id ∷ []) ∷ parts
push_at (suc idx) conn_id (part ∷ parts) = part ∷ push_at idx conn_id parts

unfoldable pub empty_parts : ℕ → List (List ℕ)
empty_parts zero = []
empty_parts (suc n) = [] ∷ empty_parts n

unfoldable pub use_batch : ConnectionManager → ℕ → ℕ → Bool
use_batch cm batch_size conn_id =
    ltb 1 batch_size
    && (is_batch_capable cm conn_id
        && elim (lookup conn_id cm.conn_info) [ none ↦ false | some info ↦ is_protobuf info.1 ])

unfoldable pub partition_conns : ConnectionManager → ℕ → ℕ → List ℕ → Parts → Parts
unfolding push_at
partition_conns cm batch_size num_workers [] parts = parts
partition_conns cm batch_size num_workers (conn_id ∷ rest) parts =
    partition_conns cm batch_size num_workers rest (
      if use_batch cm batch_size conn_id
      then record parts {
        batch_parts = push_at (conn_id % num_workers) conn_id parts.batch_parts;
        any_batch_candidate = true;
      }
      else record parts { indiv_parts = push_at (conn_id % num_workers) conn_id parts.indiv_parts })

-- After a failure to pack, a worker's batch connections join the others.
unfoldable pub join_parts : List (List ℕ) → List (List ℕ) → List (List ℕ)
join_parts [] batches = []
join_parts (indiv ∷ indivs) [] = indiv ∷ indivs
join_parts (indiv ∷ indivs) (batch ∷ batches) = (indiv ++ batch) ∷ join_parts indivs batches

-- One work for each worker that has a connection, from the worker of the index on.
-- The tasks of the workers are taken to run on, so `worker.send` does not fail.
unfoldable pub dispatch :
    List Payload → Option (List ℕ) → ℕ → List (List ℕ) → List (List ℕ) → List (ℕ × BroadcastWork)
dispatch payloads batch_proto worker_idx [] batches = []
dispatch payloads batch_proto worker_idx (indiv ∷ indivs) [] = []
dispatch payloads batch_proto worker_idx (indiv ∷ indivs) (batch ∷ batches) =
    let rest = dispatch payloads batch_proto (worker_idx + 1) indivs batches in
    if is_empty indiv && is_empty batch
    then rest
    else (
      worker_idx,
      record {
        payloads = payloads;
        batch_proto = batch_proto;
        indiv_conn_ids = indiv;
        batch_conn_ids = batch;
      },
    )
      ∷ rest

-- `WsMessage::decode`, and the encoding of a `Batch` of messages, are prost's.
module _ {WsMessage : Type 0} (decode : List ℕ → Option WsMessage)
    (encode_batch : List WsMessage → Option (List ℕ)) where
  unfoldable pub decode_all : List Payload → Option (List WsMessage)
  decode_all [] = some []
  decode_all (p ∷ payloads) =
      let rest = decode_all payloads in
      elim (decode p.proto) [
        | none ↦ none
        | some message ↦ elim rest [ none ↦ none | some messages ↦ some (message ∷ messages) ]
      ]

  unfoldable pub pack_batch_frame : List Payload → Option (List ℕ)
  unfolding decode_all
  pack_batch_frame payloads = elim (decode_all payloads) [
    | none ↦ none
    | some messages ↦ encode_batch messages
  ]

  -- The works for the subscribers of a topic, each with the index of its worker.
  unfoldable pub flush_to : ConnectionManager → ℕ → List Payload → List ℕ → List (ℕ × BroadcastWork)
  unfolding partition_conns empty_parts join_parts dispatch pack_batch_frame
  flush_to cm num_workers payloads conns =
      let parts = partition_conns cm (length payloads) num_workers conns (record {
        indiv_parts = empty_parts num_workers;
        batch_parts = empty_parts num_workers;
        any_batch_candidate = false;
      }) in
      let batch_proto : Option (List ℕ) =
        if parts.any_batch_candidate then pack_batch_frame payloads else none in
      if is_empty conns then [] else elim batch_proto [
        | some frame ↦ dispatch payloads (some frame) 0 parts.indiv_parts parts.batch_parts
        | none ↦
            if parts.any_batch_candidate
            then dispatch payloads none 0 (join_parts parts.indiv_parts parts.batch_parts)
                (empty_parts num_workers)
            else dispatch payloads none 0 parts.indiv_parts parts.batch_parts
      ]

  -- A topic of the buffer, with its payloads.
  unfoldable pub flush_topic :
      ConnectionManager → ℕ → String → List Payload → List (ℕ × BroadcastWork)
  unfolding flush_to
  flush_topic cm num_workers topic [] = []
  flush_topic cm num_workers topic (p ∷ payloads) = elim (lookup topic cm.topic_subscribers) [
    | none ↦ []
    | some conns ↦ flush_to cm num_workers (p ∷ payloads) conns
  ]

  unfoldable pub flush_buffer :
      ConnectionManager → ℕ → Dict String (List Payload) → List (ℕ × BroadcastWork)
  unfolding flush_topic
  flush_buffer cm num_workers [] = []
  flush_buffer cm num_workers ((topic, payloads) ∷ drained) =
      flush_topic cm num_workers topic payloads ++ flush_buffer cm num_workers drained

-- `HashMap::is_empty`.
abbrev pub is_drained : Dict String (List Payload) → Bool
is_drained [] = true
is_drained (entry ∷ buffer) = false

-- What wakes the coalescer; the end of a list of events is the end of the senders.
pub data Event : Type 0 where
  received : PendingPublish → Event
  ticked : Event

-- The buffers that are flushed, one after another, from a buffer and the count of its payloads.
unfoldable pub run_coalescer :
    Dict String (List Payload) → ℕ → List Event → List (Dict String (List Payload))
run_coalescer buffer pending_count [] = if is_drained buffer then [] else buffer ∷ []
run_coalescer buffer pending_count (received p ∷ events) =
    let buffer' =
      Dict.modify p.topic (λ payloads. payloads ++ p.payload ∷ [])
        (Dict.or_insert p.topic [] buffer) in
    let flushed = run_coalescer [] 0 events in
    let kept = run_coalescer buffer' (pending_count + 1) events in
    if leb max_pending_before_flush (pending_count + 1) then buffer' ∷ flushed else kept
run_coalescer buffer pending_count (ticked ∷ events) =
    let flushed = run_coalescer [] 0 events in
    let kept = run_coalescer buffer pending_count events in
    if is_drained buffer then kept else buffer ∷ flushed
