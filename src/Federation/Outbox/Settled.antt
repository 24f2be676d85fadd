-- ===== src/Federation/Outbox/Settled.antt =====
-- What a dispatch makes of the rows that it claims (server-rs/src/federation/outbox.rs).
use verdant_backend.Prelude.{
  ℕ, ◌+◌, ◌≡◌, ◌⊎◌, refl, sym, ap, ◌∙◌, Bool, true, false, ◌==◌, List, [], ◌∷◌, Option, none, some,
  nat_eq, any, length, Bool-cases, Option-cases, inl, inr, arith,
}
use verdant_backend.Prelude.Dict.{lookup, modify, lookup-modify}
use verdant_backend.Prelude.Result.{Result, ok, err, Result-cases, ok_same}
use verdant_backend.Federation.Interfaces.{Json}
use verdant_backend.Federation.Outbox.{
  OutboxStatus, pending, sending, sent, failed, dead, FederationDeliveryDisposition, delivered,
  retryable_failure, permanent_failure, OutboundRow, OutboxTable, ClaimedOutboundFederationEvent,
  next_outbound_failure_plan,
}
use verdant_backend.Federation.Outbox.Statements.{
  World, FederationOutboxError, storage_error, update, mark_outbound_event_sent,
  mark_outbound_event_failed, mark_outbound_event_dead,
}
use verdant_backend.Federation.Outbox.Dispatch.{
  FederationOutboxDispatchReport, then_ok, settle, count, disposition_of,
  dispatch_claimed_outbound_event, dispatch_each, outbound_event_body_bytes,
}

abbrev pub is_sending : OutboxStatus → Bool
is_sending sending = true
is_sending pending = false
is_sending sent = false
is_sending failed = false
is_sending dead = false

plan-settles :
    (now previous : ℕ) (code : List ℕ)
    → is_sending (next_outbound_failure_plan now previous code).status ≡ false
unfolding next_outbound_failure_plan
plan-settles now previous code = ground arith

module _ (j : Json) where
  abbrev pub sending_row : Option (OutboundRow j) → Bool
  sending_row none = false
  sending_row (some row) = is_sending row.status

  abbrev pub is_sending_at : OutboxTable j → ℕ → Bool
  is_sending_at table id = sending_row (lookup id table)

  -- A step on the row `id`: it fails and changes nothing, or it takes the row out of 'sending'.
  abbrev pub Settles :
      {A : Type 0} → OutboxTable j → ℕ → OutboxTable j × Result A FederationOutboxError → Type 0
  Settles table id step =
      ((step.0 ≡ table) × (e : FederationOutboxError) × (step.1 ≡ err e))
      ⊎ ((f : OutboundRow j → OutboundRow j) × ((row : OutboundRow j)
            → is_sending (f row).status ≡ false)
          × (step.0 ≡ modify id f table))

  then_ok-Settles :
      {A B : Type 0} (w : World) (table : OutboxTable j) (id : ℕ)
      (f : OutboundRow j → OutboundRow j) (a : A) (g : A → Result B FederationOutboxError)
      → ((row : OutboundRow j) → is_sending (f row).status ≡ false)
      → Settles table id (then_ok j (update j w table id f a) g)
  then_ok-Settles w table id f a g h = elim (Bool-cases (w.writes id)) [
    | inl on ↦ rw on (inr (f, h, refl))
    | inr off ↦ rw off (inl (refl, storage_error, refl))
  ]

  settle-Settles :
      (w : World) (table : OutboxTable j) (event : ClaimedOutboundFederationEvent j) (now : ℕ)
      (d : FederationDeliveryDisposition)
      → Settles table event.id (settle j w table event now d)
  unfolding settle mark_outbound_event_sent mark_outbound_event_failed mark_outbound_event_dead
  settle-Settles w table event now delivered = then_ok-Settles w table event.id _ _ _ (λ row. refl)
  settle-Settles w table event now (retryable_failure code) =
      then_ok-Settles w table event.id _ _ _ (λ row. plan-settles now event.attempt_count code)
  settle-Settles w table event now (permanent_failure code) =
      then_ok-Settles w table event.id _ _ _ (λ row. refl)

  pub dispatch-Settles :
      (w : World) (table : OutboxTable j) (event : ClaimedOutboundFederationEvent j) (now : ℕ)
      → Settles table event.id (dispatch_claimed_outbound_event j w table event now)
  unfolding dispatch_claimed_outbound_event mark_outbound_event_failed mark_outbound_event_dead
  dispatch-Settles w table event now = elim (Result-cases (w.endpoint event.destination_peer_id)) [
    | inr (e, h) ↦ rw (dispatch_claimed_outbound_event, h) (inl (refl, storage_error, refl))
    | inl (found, h) ↦ elim (Option-cases found) [
      | inl k ↦
          rw (dispatch_claimed_outbound_event, h, k)
            (then_ok-Settles w table event.id _ _ _ (λ row. plan-settles now event.attempt_count _))
      | inr (peer, k) ↦ elim (Result-cases (outbound_event_body_bytes j event)) [
        | inr (e, b) ↦
            rw (dispatch_claimed_outbound_event, h, k, b)
              (then_ok-Settles w table event.id _ _ _ (λ row. refl))
        | inl (body, b) ↦
            rw (dispatch_claimed_outbound_event, h, k, b)
              (settle-Settles w table event now (disposition_of (w.deliver event.id peer body)))
      ]
    ]
  ]

  abbrev pub is_claimed : ℕ → List (ClaimedOutboundFederationEvent j) → Bool
  is_claimed id events = any (λ event. event.id == id) events

  after_step :
      (table after : OutboxTable j) (k id : ℕ) (f : OutboundRow j → OutboundRow j)
      → ((row : OutboundRow j) → is_sending (f row).status ≡ false)
      → after ≡ modify k f table
      → is_sending_at after id ≡ true
      → ((k == id) ≡ false) × (is_sending_at table id ≡ true)
  after_step table after k id f settles e h =
      let looked = ap (lookup id) e ∙ lookup-modify k id f table in
      elim (Option-cases (lookup id table)) [
        | inl none_there ↦ ground (arith, looked, none_there, h)
        | inr (row, found) ↦ ground (arith, looked, found, h, settles row)
      ]

  pub each-failed :
      (w : World) (now : ℕ) (table : OutboxTable j) (report : FederationOutboxDispatchReport)
      (event : ClaimedOutboundFederationEvent j) (events : List (ClaimedOutboundFederationEvent j))
      (e : FederationOutboxError)
      → (dispatch_claimed_outbound_event j w table event now).1 ≡ err e
      → dispatch_each j w now table report (event ∷ events)
        ≡ ((dispatch_claimed_outbound_event j w table event now).0, err e)
  unfolding dispatch_each
  each-failed w now table report event events e h = rw (dispatch_each, h) refl

  pub each-done :
      (w : World) (now : ℕ) (table : OutboxTable j) (report : FederationOutboxDispatchReport)
      (event : ClaimedOutboundFederationEvent j) (events : List (ClaimedOutboundFederationEvent j))
      (d : FederationDeliveryDisposition)
      → (dispatch_claimed_outbound_event j w table event now).1 ≡ ok d
      → dispatch_each j w now table report (event ∷ events)
        ≡ dispatch_each j w now
            (dispatch_claimed_outbound_event j w table event now).0
            (count d report)
            events
  unfolding dispatch_each
  each-done w now table report event events d h = rw (dispatch_each, h) refl

  count-adds :
      (d : FederationDeliveryDisposition) (r : FederationOutboxDispatchReport)
      → ((count d r).claimed ≡ r.claimed)
        × ((count d r).sent + (count d r).failed + (count d r).dead
            ≡ r.sent + r.failed + r.dead + 1)
  count-adds delivered r = (refl, omega arith)
  count-adds (retryable_failure _) r = (refl, omega arith)
  count-adds (permanent_failure _) r = (refl, omega arith)

  -- What a loop without an error leaves in 'sending' was so before and is not of its events.
  abbrev pub Done :
      OutboxTable j
      → FederationOutboxDispatchReport
      → List (ClaimedOutboundFederationEvent j)
      → OutboxTable j
      → FederationOutboxDispatchReport
      → Type 0
  Done table report events after done =
      (done.claimed ≡ report.claimed)
      × (done.sent + done.failed + done.dead
          ≡ report.sent + report.failed + report.dead + length events)
      × ((id : ℕ)
          → is_sending_at after id ≡ true
          → (is_claimed id events ≡ false) × (is_sending_at table id ≡ true))

  pub each-settles :
      (w : World) (now : ℕ) (table after : OutboxTable j)
      (report done : FederationOutboxDispatchReport)
      (events : List (ClaimedOutboundFederationEvent j))
      → dispatch_each j w now table report events ≡ (after, ok done)
      → Done table report events after done
  unfolding dispatch_each
  each-settles w now table after report done [] h =
      let same = ok_same refl (ap (λ o. o.1) h) in
      (
        ap (λ r. r.claimed) (sym same),
        ap (λ r. r.sent + r.failed + r.dead) (sym same) ∙ omega arith,
        λ id s. (refl, ap (λ t. is_sending_at t id) (ap (λ o. o.0) h) ∙ s),
      )
  each-settles w now table after report done (event ∷ events) h =
      let step : OutboxTable j × Result FederationDeliveryDisposition FederationOutboxError =
        dispatch_claimed_outbound_event j w table event now in
      elim (Result-cases step.1) [
        | inr (e, k) ↦
            absurd (ground (arith, sym (each-failed w now table report event events e k) ∙ h))
        | inl (d, k) ↦
            let (claimed, total, kept) =
              each-settles w now step.0 after (count d report) done events
                (sym (each-done w now table report event events d k) ∙ h) in
            let (same, more) = count-adds d report in
            elim (dispatch-Settles w table event now) [
              | inl (_, e, failed_with) ↦ absurd (ground (arith, k, failed_with))
              | inr (f, settles, moved) ↦ (
                claimed ∙ same,
                omega arith,
                λ id s.
                    let (not_there, before) = kept id s in
                    let (other, earlier) =
                      after_step table step.0 event.id id f settles moved before in
                    (ground (arith, other, not_there), earlier),
              )
            ]
      ]
