-- ===== src/Federation/Receive/Inbound.antt =====
-- The table federation_inbound_events and the statements on it (server-rs/src/federation/storage.rs).
use Prim.Native.String.{String}
use verdant_backend.Prelude.{
  ℕ, Bool, not, ◌&&◌, List, [], ◌∷◌, Option, none, some, nat_eq, list_eq, ◌=?◌, if◌then◌else◌, any,
}
use verdant_backend.Prelude.Dict.{Dict, contains_key, insert}
use verdant_backend.Prelude.Result.{Result, ok, err}
use verdant_backend.Federation.Kinds.{FederationEventKind, as_str}
use verdant_backend.Federation.ReplayTable.{StorageError}
use verdant_backend.Federation.Outbox.Queue.{EventInsertResult, inserted, duplicate}

-- A row of federation_inbound_events by its id, without the protocol's version, which is 1, and the
-- times of creation and update; `accepted_at_ms` is set with the status 'accepted'.
pub data InboundStatus : Type 0 where
  received accepted : InboundStatus

pub record InboundRow : Type 0 where
  pub source_peer_id : List ℕ
  pub remote_event_id : List ℕ
  pub event_kind : String
  pub payload_hash : List ℕ
  pub status : InboundStatus
  pub accepted_at_ms : Option ℕ

abbrev pub InboundTable : Type 0
InboundTable = Dict ℕ InboundRow

pub record InsertInboundFederationEvent : Type 0 where
  pub id : ℕ
  pub source_peer_id : List ℕ
  pub remote_event_id : List ℕ
  pub event_kind : FederationEventKind
  pub payload_hash : List ℕ

abbrev pub has_event : List ℕ → List ℕ → InboundRow → Bool
has_event source_peer_id remote_event_id row =
    (row.source_peer_id =? source_peer_id) && (row.remote_event_id =? remote_event_id)

-- federation_inbound_events_unique_remote: the source and the event of a row are unique.
abbrev pub is_recorded : InboundTable → List ℕ → List ℕ → Bool
is_recorded table source_peer_id remote_event_id =
    any (λ entry. has_event source_peer_id remote_event_id entry.1) table

-- A conflict on the source and event does nothing; one on the primary key is an error.
unfoldable pub insert_inbound_event :
    Bool
    → InboundTable
    → InsertInboundFederationEvent
    → InboundTable × Result EventInsertResult StorageError
unfolding insert
insert_inbound_event answers table event =
    if not answers
    then (table, err StorageError.storage)
    else if is_recorded table event.source_peer_id event.remote_event_id
    then (table, ok duplicate)
    else if contains_key event.id table
    then (table, err StorageError.storage)
    else (
      insert event.id
          (record {
            source_peer_id = event.source_peer_id;
            remote_event_id = event.remote_event_id;
            event_kind = as_str event.event_kind;
            payload_hash = event.payload_hash;
            status = received;
            accepted_at_ms = none;
          })
          table,
      ok inserted,
    )

abbrev pub accept_rows : List ℕ → List ℕ → ℕ → InboundTable → InboundTable
accept_rows source_peer_id remote_event_id now_ms [] = []
accept_rows source_peer_id remote_event_id now_ms ((id, row) ∷ table) =
    let rest = accept_rows source_peer_id remote_event_id now_ms table in
    if has_event source_peer_id remote_event_id row
    then (id, record row { status = accepted; accepted_at_ms = some now_ms }) ∷ rest
    else (id, row) ∷ rest

unfoldable pub mark_inbound_event_accepted :
    Bool → InboundTable → List ℕ → List ℕ → ℕ → InboundTable × Result (Unit {0}) StorageError
mark_inbound_event_accepted answers table source_peer_id remote_event_id now_ms =
    if answers
    then (accept_rows source_peer_id remote_event_id now_ms table, ok tt)
    else (table, err StorageError.storage)
