-- ===== src/Federation/Outbox/Statements.antt =====
-- The statements on the table federation_outbound_events (server-rs/src/federation/storage.rs). What the
-- database and the peers answer is a `World`.
use verdant_backend.Prelude.{
  ℕ, Bool, true, false, ◌&&◌, List, [], ◌∷◌, Option, none, some, nat_eq, leb, min, max,
  if◌then◌else◌, take,
}
use verdant_backend.Prelude.Dict.{lookup, modify, keys}
use verdant_backend.Prelude.Result.{Result, ok, err}
use verdant_backend.Permissions.Search.{sort_by_key}
use verdant_backend.Federation.Interfaces.{Json}
use verdant_backend.Federation.ReplayTable.{StorageError, filter_keys}
use verdant_backend.Federation.Outbox.{
  OutboxStatus, pending, sending, sent, failed, dead, OutboundFailurePlan, FederationClientError,
  OutboundRow, OutboxTable, ClaimedOutboundFederationEvent, next_outbound_failure_plan,
  sanitize_outbound_error_code, attempts_after,
}

pub data FederationOutboxError : Type 0 where
  storage_error serialize_body event_body_too_large : FederationOutboxError

pub record FederationPeerEndpoint : Type 0 where
  pub peer_id : List ℕ
  pub api_origin : List ℕ

-- `endpoint` is the query of a peer's endpoint, `deliver` the status of the answer to a signed
-- request for an event, and the two others say whether the statement on a row, or the claim, is
-- carried out.
pub record World : Type 0 where
  pub endpoint : List ℕ → Result (Option FederationPeerEndpoint) StorageError
  pub deliver : ℕ → FederationPeerEndpoint → List ℕ → Result ℕ FederationClientError
  pub writes : ℕ → Bool
  pub claims : Bool

-- `status IN ('pending','failed')`.
abbrev pub is_waiting : OutboxStatus → Bool
is_waiting pending = true
is_waiting failed = true
is_waiting sending = false
is_waiting sent = false
is_waiting dead = false

abbrev pub no_later : ℕ → Option ℕ → Bool
no_later now_ms none = false
no_later now_ms (some at) = leb at now_ms

module _ (j : Json) where
  -- An UPDATE of the row with an id, which may not be carried out.
  abbrev pub update :
      {A : Type 0}
      → World
      → OutboxTable j
      → ℕ
      → (OutboundRow j → OutboundRow j)
      → A
      → OutboxTable j × Result A FederationOutboxError
  update w table id f a =
      if w.writes id then (modify id f table, ok a) else (table, err storage_error)

  abbrev pub planned : OutboundFailurePlan → OutboundRow j → OutboundRow j
  planned plan row = record row {
    status = plan.status;
    attempt_count = plan.attempt_count;
    next_attempt_at_ms = plan.next_attempt_at_ms;
    last_error_code = some plan.last_error_code;
  }

  unfoldable pub mark_outbound_event_sent :
      World → OutboxTable j → ℕ → OutboxTable j × Result (Unit {0}) FederationOutboxError
  unfolding modify
  mark_outbound_event_sent w table id = update w table id (λ row. record row { status = sent }) tt

  unfoldable pub mark_outbound_event_failed :
      World
      → OutboxTable j
      → ℕ
      → ℕ
      → ℕ
      → List ℕ
      → OutboxTable j × Result OutboundFailurePlan FederationOutboxError
  unfolding modify
  mark_outbound_event_failed w table id now_ms previous_attempt_count error_code =
      let plan : OutboundFailurePlan =
        next_outbound_failure_plan now_ms previous_attempt_count error_code in
      update w table id (planned plan) plan

  unfoldable pub mark_outbound_event_dead :
      World
      → OutboxTable j
      → ℕ
      → ℕ
      → List ℕ
      → OutboxTable j × Result OutboundFailurePlan FederationOutboxError
  unfolding modify
  mark_outbound_event_dead w table id previous_attempt_count error_code =
      let plan : OutboundFailurePlan = record {
        status = dead;
        attempt_count = attempts_after previous_attempt_count;
        next_attempt_at_ms = none;
        last_error_code = sanitize_outbound_error_code error_code;
      } in
      update w table id (planned plan) plan

  abbrev pub is_due : ℕ → OutboundRow j → Bool
  is_due now_ms row = is_waiting row.status && no_later now_ms row.next_attempt_at_ms

  abbrev pub due_row : OutboxTable j → ℕ → ℕ → Bool
  due_row table now_ms id = elim (lookup id table) [ none ↦ false | some row ↦ is_due now_ms row ]

  abbrev pub due_at : OutboxTable j → ℕ → ℕ
  due_at table id = elim (lookup id table) [
    | none ↦ 0
    | some row ↦ elim row.next_attempt_at_ms [ none ↦ 0 | some at ↦ at ]
  ]

  -- The first part of the claim: the rows that are due, the oldest first.
  unfoldable pub due_ids : OutboxTable j → ℕ → ℕ → List ℕ
  unfolding sort_by_key
  due_ids table now_ms limit = take limit (
      sort_by_key (due_at table)
        (sort_by_key (λ id. id) (filter_keys (due_row table now_ms) (keys table))))

  -- Its second part. PostgreSQL promises no order of what is returned; this is the order of the first.
  abbrev pub mark_sending : List ℕ → OutboxTable j → OutboxTable j
  mark_sending [] table = table
  mark_sending (id ∷ ids) table =
      mark_sending ids (modify id (λ row. record row { status = sending }) table)

  abbrev pub claimed_events : OutboxTable j → List ℕ → List (ClaimedOutboundFederationEvent j)
  claimed_events table [] = []
  claimed_events table (id ∷ ids) =
      let rest = claimed_events table ids in
      elim (lookup id table) [
        | none ↦ rest
        | some row ↦
            record {
              id = id;
              destination_peer_id = row.destination_peer_id;
              event_id = row.event_id;
              event_kind = row.event_kind;
              payload_hash = row.payload_hash;
              event_body_json = row.event_body_json;
              attempt_count = row.attempt_count;
            }
            ∷ rest
      ]

  unfoldable pub claim_due_outbound_events :
      OutboxTable j → ℕ → ℕ → OutboxTable j × List (ClaimedOutboundFederationEvent j)
  unfolding due_ids modify
  claim_due_outbound_events table now_ms limit =
      let ids : List ℕ = due_ids table now_ms (min (max limit 1) 100) in
      (mark_sending ids table, claimed_events table ids)
