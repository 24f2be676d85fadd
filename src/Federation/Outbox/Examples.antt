-- ===== src/Federation/Outbox/Examples.antt =====
-- Tests of the outbox, and its theorems at concrete tables.
use verdant_backend.Prelude.{
  ℕ, ◌≡◌, ◌≤◌, ◌+◌, refl, true, false, List, [], ◌∷◌, none, some, nat_eq, list_eq, ◌=?◌, arith, min,
  max, if◌then◌else◌,
}
use verdant_backend.Prelude.Ascii.{ascii}
use verdant_backend.Prelude.Dict.{lookup, modify}
use verdant_backend.Prelude.Result.{ok, err}
use verdant_backend.Permissions.Search.{sort_by_key}
use verdant_backend.Federation.Interfaces.{Json}
use verdant_backend.Federation.ReplayTable.{StorageError}
use verdant_backend.Federation.Outbox.{
  OutboxStatus, pending, sending, sent, FederationDeliveryDisposition, retryable_failure,
  OutboundRow, OutboxTable, sanitize_from, sanitize_outbound_error_code,
  delivery_status_disposition,
}
use verdant_backend.Federation.Outbox.Statements.{
  World, FederationPeerEndpoint, storage_error, claim_due_outbound_events, due_ids,
  mark_outbound_event_sent,
}
use verdant_backend.Federation.Outbox.Dispatch.{
  dispatch_due_outbound_events, dispatch_each, dispatch_claimed_outbound_event, settle,
  outbound_event_body_bytes,
}
use verdant_backend.Federation.Outbox.Settled.{is_sending_at}
use verdant_backend.Federation.Outbox.Queue.{tick, run_outbox}
use verdant_backend.Federation.Outbox.Retries.{attempts, waits, attempts-waits}
use verdant_backend.Federation.Outbox.Cycles.{
  dispatch_due_outbound_events_settles, run_outbox-keeps_sending,
}

-- Values that are their bytes.
abbrev json : Json
json = record {
  Value = List ℕ;
  get = λ value key. none;
  is_null = λ value. false;
  is_boolean = λ value. false;
  as_str = λ value. none;
  as_i64 = λ value. none;
  as_array = λ value. none;
  as_object = λ value. none;
  to_vec = λ value. some value;
}

abbrev row_with : OutboxStatus → List ℕ → OutboundRow json
row_with status peer = record {
  destination_peer_id = peer;
  event_id = ascii "event";
  event_kind = "typing_start";
  payload_hash = [];
  event_body_json = 1 ∷ 2 ∷ [];
  status = status;
  attempt_count = 0;
  next_attempt_at_ms = some 1000;
  last_error_code = none;
}

abbrev table_1 : OutboxTable json
table_1 = (1, row_with pending (ascii "a")) ∷ (2, row_with pending (ascii "b")) ∷ []

abbrev endpoint_of : List ℕ → FederationPeerEndpoint
endpoint_of peer = record { peer_id = peer; api_origin = peer }

abbrev steady : World
steady = record {
  endpoint = λ peer. ok (some (endpoint_of peer));
  deliver = λ id peer body. ok 200;
  writes = λ id. true;
  claims = true;
}

-- The query of one peer's endpoint fails.
abbrev shaky : World
shaky = record {
  endpoint =
      λ peer. if peer =? ascii "a" then err StorageError.storage else ok (some (endpoint_of peer));
  deliver = λ id peer body. ok 200;
  writes = λ id. true;
  claims = true;
}

abbrev both_sent : OutboxTable json
both_sent = (1, row_with sent (ascii "a")) ∷ (2, row_with sent (ascii "b")) ∷ []

abbrev both_sending : OutboxTable json
both_sending = (1, row_with sending (ascii "a")) ∷ (2, row_with sending (ascii "b")) ∷ []

delivers :
    dispatch_due_outbound_events json steady table_1 2000 25
    ≡ (both_sent, ok (record { claimed = 2; sent = 2; failed = 0; dead = 0 }))
unfolding dispatch_due_outbound_events dispatch_each dispatch_claimed_outbound_event
    claim_due_outbound_events due_ids settle mark_outbound_event_sent outbound_event_body_bytes
    sort_by_key modify delivery_status_disposition
delivers = refl

-- The error of the first event leaves both in 'sending'.
strands :
    dispatch_due_outbound_events json shaky table_1 2000 25 ≡ (both_sending, err storage_error)
unfolding dispatch_due_outbound_events dispatch_each dispatch_claimed_outbound_event
    claim_due_outbound_events due_ids settle mark_outbound_event_sent outbound_event_body_bytes
    sort_by_key modify
strands = refl

run_outbox-keeps_sending_example :
    lookup 2 (run_outbox json both_sending (tick steady 3000 ∷ tick steady 4000 ∷ []))
    ≡ some (row_with sending (ascii "b"))
run_outbox-keeps_sending_example =
    run_outbox-keeps_sending json both_sending (tick steady 3000 ∷ tick steady 4000 ∷ []) 2
      (row_with sending (ascii "b")) refl refl

dispatch_due_outbound_events_settles_example :
    (2 ≤ min (max 25 1) 100)
    × (2 + 0 + 0 ≡ 2)
    × (is_sending_at json both_sent 1 ≡ is_sending_at json table_1 1)
dispatch_due_outbound_events_settles_example =
    dispatch_due_outbound_events_settles json steady table_1 both_sent 2000 25 1
      (record { claimed = 2; sent = 2; failed = 0; dead = 0 }) delivers

code_1 : sanitize_outbound_error_code (ascii " no route!! ") ≡ ascii "no_route"
unfolding sanitize_outbound_error_code sanitize_from
code_1 = refl

-- One delivery is not reached and the next is answered with a failure that may pass.
abbrev made : List (ℕ × FederationDeliveryDisposition)
made =
    (2000, retryable_failure (ascii "unreachable"))
    ∷ (900000, retryable_failure (ascii "HTTP_503"))
    ∷ []

attempts-waits_example : waits json steady (attempts json steady table_1 1 made) 1 ≡ true
attempts-waits_example =
    attempts-waits json steady table_1 1 made (row_with pending (ascii "a")) refl refl refl
      (omega arith)
