-- ===== src/Federation/Outbox/Queue.antt =====
-- Events that enter the outbox (server-rs/src/federation/storage.rs), and a run of it: insertions
-- between the ticks of the dispatcher (server-rs/src/federation/outbox.rs).
use verdant_backend.Prelude.{
  ℕ, Bool, false, not, ◌&&◌, List, [], ◌∷◌, none, some, nat_eq, list_eq, ◌=?◌, if◌then◌else◌, any,
}
use verdant_backend.Prelude.Dict.{lookup, contains_key, insert, keys}
use verdant_backend.Prelude.Result.{Result, ok, err}
use verdant_backend.Federation.Interfaces.{Json}
use verdant_backend.Federation.Kinds.{FederationEventKind, as_str}
use verdant_backend.Federation.ReplayTable.{StorageError}
use verdant_backend.Federation.Outbox.{OutboxTable, pending}
use verdant_backend.Federation.Outbox.Statements.{World}
use verdant_backend.Federation.Outbox.Dispatch.{dispatch_due_outbound_events}

abbrev pub dispatch_batch_limit : ℕ
dispatch_batch_limit = 25

pub data EventInsertResult : Type 0 where
  inserted duplicate : EventInsertResult

module _ (j : Json) where
  pub record InsertOutboundFederationEvent : Type 0 where
    pub id : ℕ
    pub destination_peer_id : List ℕ
    pub event_id : List ℕ
    pub event_kind : FederationEventKind
    pub payload_hash : List ℕ
    pub event_body_json : j.Value
    pub now_ms : ℕ

  -- federation_outbound_events_unique_remote: the destination and the event of a row are unique.
  unfoldable pub is_queued : OutboxTable j → List ℕ → List ℕ → Bool
  is_queued table destination_peer_id event_id =
      any
        (λ id. elim (lookup id table) [
          | none ↦ false
          | some row ↦
              (row.destination_peer_id =? destination_peer_id) && (row.event_id =? event_id)
        ])
        (keys table)

  -- A conflict on the destination and event does nothing; one on the primary key is an error.
  unfoldable pub insert_outbound_event :
      Bool
      → OutboxTable j
      → InsertOutboundFederationEvent
      → OutboxTable j × Result EventInsertResult StorageError
  unfolding is_queued insert
  insert_outbound_event answers table event =
      if not answers
      then (table, err StorageError.storage)
      else if is_queued table event.destination_peer_id event.event_id
      then (table, ok duplicate)
      else if contains_key event.id table
      then (table, err StorageError.storage)
      else (
        insert event.id
            (record {
              destination_peer_id = event.destination_peer_id;
              event_id = event.event_id;
              event_kind = as_str event.event_kind;
              payload_hash = event.payload_hash;
              event_body_json = event.event_body_json;
              status = pending;
              attempt_count = 0;
              next_attempt_at_ms = some event.now_ms;
              last_error_code = none;
            })
            table,
        ok inserted,
      )

  pub data OutboxCall : Type 0 where
    enqueue : (answers : Bool) → InsertOutboundFederationEvent → OutboxCall
    tick : World → (now_ms : ℕ) → OutboxCall

  unfoldable pub outbox_step : OutboxTable j → OutboxCall → OutboxTable j
  unfolding insert_outbound_event dispatch_due_outbound_events
  outbox_step table (enqueue answers event) = (insert_outbound_event answers table event).0
  outbox_step table (tick w now_ms) =
      (dispatch_due_outbound_events j w table now_ms dispatch_batch_limit).0

  unfoldable pub run_outbox : OutboxTable j → List OutboxCall → OutboxTable j
  unfolding outbox_step
  run_outbox table [] = table
  run_outbox table (call ∷ calls) = run_outbox (outbox_step table call) calls
