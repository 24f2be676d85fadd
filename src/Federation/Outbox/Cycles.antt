-- ===== src/Federation/Outbox/Cycles.antt =====
-- A dispatch of due rows and runs of the outbox (server-rs/src/federation/outbox.rs).
use verdant_backend.Prelude.{
  ℕ, ◌+◌, ◌≤◌, ◌≡◌, refl, sym, ap, ◌∙◌, Bool, true, false, List, [], ◌∷◌, some, nat_eq, length,
  Bool-cases, Option-cases, inl, inr, arith, min, max,
}
use verdant_backend.Prelude.Dict.{lookup, contains_key, lookup-insert}
use verdant_backend.Prelude.HashSet.{contains}
use verdant_backend.Prelude.Result.{Result, ok, err}
use verdant_backend.Federation.Interfaces.{Json}
use verdant_backend.Federation.Outbox.{sending, OutboundRow, OutboxTable}
use verdant_backend.Federation.Outbox.Statements.{
  World, FederationOutboxError, storage_error, claim_due_outbound_events, claimed_events,
  mark_sending, due_ids,
}
use verdant_backend.Federation.Outbox.Dispatch.{
  FederationOutboxDispatchReport, dispatch_each, dispatch_due_outbound_events,
}
use verdant_backend.Federation.Outbox.Settled.{
  is_sending, sending_row, is_sending_at, is_claimed, each-settles,
}
use verdant_backend.Federation.Outbox.Claims.{
  sending_not_due, lookup-mark_sending, mark_sending-none, claimed-contains, claimed_some,
  claimed-length, take-length, each-keeps,
}
use verdant_backend.Federation.Outbox.Queue.{
  InsertOutboundFederationEvent, OutboxCall, enqueue, tick, insert_outbound_event, is_queued,
  outbox_step, run_outbox, dispatch_batch_limit,
}

module _ (j : Json) where
  -- A row that is being sent is kept by a dispatch.
  dispatch-keeps_sending :
      (w : World) (table : OutboxTable j) (now limit id : ℕ)
      → is_sending_at j table id ≡ true
      → lookup id (dispatch_due_outbound_events j w table now limit).0 ≡ lookup id table
  unfolding dispatch_due_outbound_events claim_due_outbound_events
  dispatch-keeps_sending w table now limit id h =
      let ids : List ℕ = due_ids j table now (min (max limit 1) 100) in
      let apart = sending_not_due j table now (min (max limit 1) 100) id h in
      elim (Bool-cases w.claims) [
        | inr off ↦ rw (dispatch_due_outbound_events, off) refl
        | inl on ↦
            rw (dispatch_due_outbound_events, on)
              (each-keeps j w now (mark_sending j ids table) _ (claimed_events j table ids) id
                  (claimed-contains j table ids id apart)
                ∙ lookup-mark_sending j ids table id apart)
      ]

  insert-keeps :
      (answers : Bool) (table : OutboxTable j) (event : InsertOutboundFederationEvent j) (id : ℕ)
      (row : OutboundRow j)
      → lookup id table ≡ some row
      → lookup id (insert_outbound_event j answers table event).0 ≡ some row
  unfolding insert_outbound_event
  insert-keeps false table event id row h = h
  insert-keeps true table event id row h =
      elim (Bool-cases (is_queued j table event.destination_peer_id event.event_id)) [
        | inl again ↦ rw (insert_outbound_event, again) h
        | inr free ↦ elim (Bool-cases (contains_key event.id table)) [
          | inl taken ↦ rw (insert_outbound_event, free, taken) h
          | inr absent ↦
              rw (insert_outbound_event, free, absent)
                (lookup-insert event.id id _ table
                  ∙ ground (arith, h, absent, λ (e : event.id ≡ id). ap (λ k. lookup k table) e))
        ]
      ]

  -- A row that is in 'sending' stays as it is, whatever is queued and dispatched afterwards.
  pub run_outbox-keeps_sending :
      (table : OutboxTable j) (calls : List (OutboxCall j)) (id : ℕ) (row : OutboundRow j)
      → lookup id table ≡ some row
      → row.status ≡ sending
      → lookup id (run_outbox j table calls) ≡ some row
  unfolding run_outbox outbox_step
  run_outbox-keeps_sending table [] id row h k = h
  run_outbox-keeps_sending table (enqueue answers event ∷ calls) id row h k =
      run_outbox-keeps_sending (outbox_step j table (enqueue answers event)) calls id row
        (insert-keeps answers table event id row h) k
  run_outbox-keeps_sending table (tick w now ∷ calls) id row h k =
      run_outbox-keeps_sending (outbox_step j table (tick w now)) calls id row
        (dispatch-keeps_sending w table now dispatch_batch_limit id
            (ap (sending_row j) h ∙ ap is_sending k)
          ∙ h)
        k

  -- The ids that are claimed.
  abbrev claimed_ids : OutboxTable j → ℕ → ℕ → List ℕ
  claimed_ids table now limit = due_ids j table now (min (max limit 1) 100)

  abbrev first_report : OutboxTable j → List ℕ → FederationOutboxDispatchReport
  first_report table ids = record {
    claimed = length (claimed_events j table ids);
    sent = 0;
    failed = 0;
    dead = 0;
  }

  abbrev looped :
      World
      → OutboxTable j
      → ℕ
      → ℕ
      → OutboxTable j × Result FederationOutboxDispatchReport FederationOutboxError
  looped w table now limit =
      let ids : List ℕ = claimed_ids table now limit in
      dispatch_each j w now (mark_sending j ids table) (first_report table ids)
        (claimed_events j table ids)

  dispatch-each :
      (w : World) (table after : OutboxTable j) (now limit : ℕ)
      (report : FederationOutboxDispatchReport)
      → dispatch_due_outbound_events j w table now limit ≡ (after, ok report)
      → looped w table now limit ≡ (after, ok report)
  unfolding dispatch_due_outbound_events claim_due_outbound_events
  dispatch-each w table after now limit report h = elim (Bool-cases w.claims) [
    | inr off ↦
        let unchanged : dispatch_due_outbound_events j w table now limit
            ≡ (table, err storage_error) =
          rw (dispatch_due_outbound_events, off) refl in
        absurd (ground (arith, h, unchanged))
    | inl on ↦
        let entered : dispatch_due_outbound_events j w table now limit ≡ looped w table now limit =
          rw (dispatch_due_outbound_events, on) refl in
        sym entered ∙ h
  ]

  -- A row that was not being sent is not so after the loop has settled the claimed ones.
  not_left :
      (table : OutboxTable j) (ids : List ℕ) (id : ℕ)
      → is_claimed j id (claimed_events j table ids) ≡ false
      → is_sending_at j (mark_sending j ids table) id ≡ is_sending_at j table id
  not_left table ids id h = elim (Bool-cases (contains id ids)) [
    | inr apart ↦ ap (sending_row j) (lookup-mark_sending j ids table id apart)
    | inl among ↦ elim (Option-cases (lookup id table)) [
      | inl gone ↦ ap (sending_row j) (mark_sending-none j ids table id gone ∙ sym gone)
      | inr (row, found) ↦ absurd (ground (arith, h, claimed_some j table ids id row found among))
    ]
  ]

  -- A dispatch that returns a report has claimed at most `limit` events (at least 1 and at most
  -- 100), counts each of them once as sent, failed or dead, and leaves a row in 'sending' exactly
  -- if it was so before.
  pub dispatch_due_outbound_events_settles :
      (w : World) (table after : OutboxTable j) (now limit id : ℕ)
      (report : FederationOutboxDispatchReport)
      → dispatch_due_outbound_events j w table now limit ≡ (after, ok report)
      → (report.claimed ≤ min (max limit 1) 100)
        × (report.sent + report.failed + report.dead ≡ report.claimed)
        × (is_sending_at j after id ≡ is_sending_at j table id)
  unfolding due_ids
  dispatch_due_outbound_events_settles w table after now limit id report h =
      let ids : List ℕ = claimed_ids table now limit in
      let (claimed, total, left) =
        each-settles j w now (mark_sending j ids table) after (first_report table ids) report
          (claimed_events j table ids) (dispatch-each w table after now limit report h) in
      let short = claimed-length j table ids in
      let few : length ids ≤ min (max limit 1) 100 = take-length j (min (max limit 1) 100) _ in
      (
        omega arith,
        omega arith,
        elim (Bool-cases (is_sending_at j table id)) [
          | inl s ↦
              ap (λ o. is_sending_at j o.0 id) (sym h)
              ∙ ap (sending_row j) (dispatch-keeps_sending w table now limit id s)
          | inr s ↦ elim (Bool-cases (is_sending_at j after id)) [
            | inr t ↦ t ∙ sym s
            | inl t ↦
                let (not_there, before) = left id t in
                absurd (ground (arith, s, before, not_left table ids id not_there))
          ]
        ],
      )
