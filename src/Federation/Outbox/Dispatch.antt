-- ===== src/Federation/Outbox/Dispatch.antt =====
-- The dispatch of due events (server-rs/src/federation/outbox.rs).
use verdant_backend.Prelude.{
  ℕ, ◌+◌, ◌*◌, not, List, [], ◌∷◌, none, some, nat_eq, leb, if◌then◌else◌, length,
}
use verdant_backend.Prelude.Ascii.{ascii}
use verdant_backend.Prelude.Result.{Result, ok, err, ◌>>=◌, ◌>>◌, ok_or, ensure}
use verdant_backend.Federation.Interfaces.{Json}
use verdant_backend.Federation.Outbox.{
  dead, OutboundFailurePlan, FederationDeliveryDisposition, delivered, retryable_failure,
  permanent_failure, FederationClientError, OutboxTable, ClaimedOutboundFederationEvent,
  delivery_status_disposition, client_error_disposition,
}
use verdant_backend.Federation.Outbox.Statements.{
  FederationOutboxError, World, claim_due_outbound_events, mark_outbound_event_dead,
  mark_outbound_event_failed, mark_outbound_event_sent, storage_error, serialize_body,
  event_body_too_large,
}

abbrev pub max_outbound_event_body_bytes : ℕ
max_outbound_event_body_bytes = 128 * 1024

pub record FederationOutboxDispatchReport : Type 0 where
  pub claimed : ℕ
  pub sent : ℕ
  pub failed : ℕ
  pub dead : ℕ

abbrev pub disposition_of : Result ℕ FederationClientError → FederationDeliveryDisposition
disposition_of (ok status) = delivery_status_disposition status
disposition_of (err e) = client_error_disposition e

abbrev pub count :
    FederationDeliveryDisposition → FederationOutboxDispatchReport → FederationOutboxDispatchReport
count delivered report = record report { sent = report.sent + 1 }
count (retryable_failure _) report = record report { failed = report.failed + 1 }
count (permanent_failure _) report = record report { dead = report.dead + 1 }

module _ (j : Json) where
  unfoldable pub outbound_event_body_bytes :
      ClaimedOutboundFederationEvent j → Result (List ℕ) FederationOutboxError
  outbound_event_body_bytes event = do
    bytes ← ok_or serialize_body (j.to_vec event.event_body_json)
    ensure event_body_too_large (leb (length bytes) max_outbound_event_body_bytes)
    ok bytes

  -- A failure that was planned: permanent if the event is dead.
  abbrev pub failure_disposition : OutboundFailurePlan → FederationDeliveryDisposition
  failure_disposition plan = elim plan.status [
    | dead ↦ permanent_failure plan.last_error_code
    | _ ↦ retryable_failure plan.last_error_code
  ]

  abbrev pub fail_with :
      FederationDeliveryDisposition → OutboundFailurePlan → FederationDeliveryDisposition
  fail_with disposition plan = elim plan.status [
    | dead ↦ permanent_failure plan.last_error_code
    | _ ↦ disposition
  ]

  abbrev pub then_ok :
      {A B : Type 0}
      → OutboxTable j × Result A FederationOutboxError
      → (A → Result B FederationOutboxError)
      → OutboxTable j × Result B FederationOutboxError
  then_ok (table, r) f = (table, r >>= f)

  -- The match on the disposition.
  unfoldable pub settle :
      World
      → OutboxTable j
      → ClaimedOutboundFederationEvent j
      → ℕ
      → FederationDeliveryDisposition
      → OutboxTable j × Result FederationDeliveryDisposition FederationOutboxError
  unfolding mark_outbound_event_sent mark_outbound_event_failed mark_outbound_event_dead
  settle w table event now_ms delivered =
      then_ok (mark_outbound_event_sent j w table event.id) (λ _. ok delivered)
  settle w table event now_ms (retryable_failure code) =
      then_ok (mark_outbound_event_failed j w table event.id now_ms event.attempt_count code)
        (λ plan. ok (fail_with (retryable_failure code) plan))
  settle w table event now_ms (permanent_failure code) =
      then_ok (mark_outbound_event_dead j w table event.id event.attempt_count code)
        (λ _. ok (permanent_failure code))

  unfoldable pub dispatch_claimed_outbound_event :
      World
      → OutboxTable j
      → ClaimedOutboundFederationEvent j
      → ℕ
      → OutboxTable j × Result FederationDeliveryDisposition FederationOutboxError
  unfolding settle outbound_event_body_bytes
  dispatch_claimed_outbound_event w table event now_ms =
      elim (w.endpoint event.destination_peer_id) [
        | err _ ↦ (table, err storage_error)
        | ok found ↦ elim found [
          | none ↦
              then_ok
                (mark_outbound_event_failed j w table event.id now_ms event.attempt_count
                  (ascii "UNKNOWN_PEER_ENDPOINT"))
                (λ plan. ok (failure_disposition plan))
          | some peer ↦ elim (outbound_event_body_bytes event) [
            | err e ↦
                then_ok
                  (mark_outbound_event_dead j w table event.id event.attempt_count
                    (ascii "INVALID_EVENT_BODY"))
                  (λ _. err e)
            | ok body ↦ settle w table event now_ms (disposition_of (w.deliver event.id peer body))
          ]
        ]
      ]

  -- The loop over the claimed events, which the first error ends.
  unfoldable pub dispatch_each :
      World
      → ℕ
      → OutboxTable j
      → FederationOutboxDispatchReport
      → List (ClaimedOutboundFederationEvent j)
      → OutboxTable j × Result FederationOutboxDispatchReport FederationOutboxError
  unfolding dispatch_claimed_outbound_event
  dispatch_each w now_ms table report [] = (table, ok report)
  dispatch_each w now_ms table report (event ∷ events) =
      let (after, result) = dispatch_claimed_outbound_event w table event now_ms in
      elim result [
        | err e ↦ (after, err e)
        | ok disposition ↦ dispatch_each w now_ms after (count disposition report) events
      ]

  unfoldable pub dispatch_due_outbound_events :
      World
      → OutboxTable j
      → ℕ
      → ℕ
      → OutboxTable j × Result FederationOutboxDispatchReport FederationOutboxError
  unfolding dispatch_each claim_due_outbound_events
  dispatch_due_outbound_events w table now_ms limit =
      if not w.claims
      then (table, err storage_error)
      else (let (after, events) = claim_due_outbound_events j table now_ms limit in
          dispatch_each w now_ms after
            (record { claimed = length events; sent = 0; failed = 0; dead = 0 }) events)
