-- ===== src/Federation/Outbox/Claims.antt =====
-- Which rows a claim and the loop over it touch (server-rs/src/federation/outbox.rs).
use verdant_backend.Prelude.{
  ℕ, zero, suc, ◌≤◌, ◌≡◌, refl, sym, ap, ◌∙◌, true, false, ◌&&◌, List, [], ◌∷◌, none, some, nat_eq,
  length, take, Bool-cases, Option-cases, inl, inr, arith,
}
use verdant_backend.Prelude.Dict.{lookup, lookup-modify, keys}
use verdant_backend.Prelude.HashSet.{contains}
use verdant_backend.Prelude.Result.{Result, Result-cases}
use verdant_backend.Federation.Interfaces.{Json}
use verdant_backend.Federation.ReplayTable.Rows.{contains-oldest}
use verdant_backend.Federation.Outbox.{
  OutboxStatus, pending, sending, sent, failed, dead, OutboundRow, OutboxTable,
  ClaimedOutboundFederationEvent, FederationDeliveryDisposition,
}
use verdant_backend.Federation.Outbox.Statements.{
  World, FederationOutboxError, claimed_events, mark_sending, due_ids, due_row, due_at, is_waiting,
}
use verdant_backend.Federation.Outbox.Dispatch.{
  FederationOutboxDispatchReport, count, dispatch_claimed_outbound_event, dispatch_each,
}
use verdant_backend.Federation.Outbox.Settled.{
  is_sending, is_sending_at, is_claimed, dispatch-Settles, each-done, each-failed,
}

sending_waits : (s : OutboxStatus) → (is_sending s && is_waiting s) ≡ false
sending_waits pending = refl
sending_waits sending = refl
sending_waits sent = refl
sending_waits failed = refl
sending_waits dead = refl

module _ (j : Json) where
  -- A row that is being sent is not due.
  pub sending_not_due :
      (table : OutboxTable j) (now limit id : ℕ)
      → is_sending_at j table id ≡ true
      → contains id (due_ids j table now limit) ≡ false
  unfolding due_ids
  sending_not_due table now limit id h =
      elim (Bool-cases (contains id (due_ids j table now limit))) [
        | inr e ↦ e
        | inl e ↦
            let due =
              contains-oldest (due_row j table now) (due_at j table) limit id (keys table) e in
            absurd (elim (Option-cases (lookup id table)) [
              | inl gone ↦ ground (arith, gone, h)
              | inr (row, found) ↦ ground (arith, found, h, due, sending_waits row.status)
            ])
      ]

  pub lookup-mark_sending :
      (ids : List ℕ) (table : OutboxTable j) (id : ℕ)
      → contains id ids ≡ false
      → lookup id (mark_sending j ids table) ≡ lookup id table
  lookup-mark_sending [] table id h = refl
  lookup-mark_sending (x ∷ ids) table id h =
      lookup-mark_sending ids _ id (ground (arith, h))
      ∙ lookup-modify x id _ table
      ∙ ground (arith, h)

  pub mark_sending-none :
      (ids : List ℕ) (table : OutboxTable j) (id : ℕ)
      → lookup id table ≡ none
      → lookup id (mark_sending j ids table) ≡ none
  mark_sending-none [] table id h = h
  mark_sending-none (x ∷ ids) table id h =
      mark_sending-none ids _ id (lookup-modify x id _ table ∙ ground (arith, h))

  pub claimed-contains :
      (table : OutboxTable j) (ids : List ℕ) (id : ℕ)
      → contains id ids ≡ false
      → is_claimed j id (claimed_events j table ids) ≡ false
  claimed-contains table [] id h = refl
  claimed-contains table (x ∷ ids) id h = elim (Option-cases (lookup x table)) [
    | inl gone ↦ rw (claimed_events, gone) (claimed-contains table ids id (ground (arith, h)))
    | inr (row, found) ↦
        rw (claimed_events, found) (ground (arith, claimed-contains table ids id, h))
  ]

  pub claimed_some :
      (table : OutboxTable j) (ids : List ℕ) (id : ℕ) (row : OutboundRow j)
      → lookup id table ≡ some row
      → contains id ids ≡ true
      → is_claimed j id (claimed_events j table ids) ≡ true
  claimed_some table [] id row h k = cc
  claimed_some table (x ∷ ids) id row h k = elim (Option-cases (lookup x table)) [
    | inl gone ↦
        rw (claimed_events, gone)
          (claimed_some table ids id row h
            (ground (arith, k, λ (e : x ≡ id). sym gone ∙ ap (λ y. lookup y table) e ∙ h)))
    | inr (r, found) ↦
        rw (claimed_events, found) (ground (arith, claimed_some table ids id row h, k))
  ]

  pub claimed-length :
      (table : OutboxTable j) (ids : List ℕ) → length (claimed_events j table ids) ≤ length ids
  claimed-length table [] = omega arith
  claimed-length table (x ∷ ids) = elim (Option-cases (lookup x table)) [
    | inl gone ↦ rw (claimed_events, gone) (ground (arith, claimed-length table ids))
    | inr (r, found) ↦ rw (claimed_events, found) (ground (arith, claimed-length table ids))
  ]

  pub take-length : {A : Type 0} (n : ℕ) (xs : List A) → length (take n xs) ≤ n
  take-length zero xs = omega arith
  take-length (suc n) [] = omega arith
  take-length (suc n) (x ∷ xs) = ground (arith, take-length n xs)

  -- A row that no event of the loop has is kept.
  pub each-keeps :
      (w : World) (now : ℕ) (table : OutboxTable j) (report : FederationOutboxDispatchReport)
      (events : List (ClaimedOutboundFederationEvent j)) (id : ℕ)
      → is_claimed j id events ≡ false
      → lookup id (dispatch_each j w now table report events).0 ≡ lookup id table
  unfolding dispatch_each
  each-keeps w now table report [] id h = refl
  each-keeps w now table report (event ∷ events) id h =
      let step : OutboxTable j × Result FederationDeliveryDisposition FederationOutboxError =
        dispatch_claimed_outbound_event j w table event now in
      let kept : lookup id step.0 ≡ lookup id table = elim (dispatch-Settles j w table event now) [
        | inl (same, _, _) ↦ ap (lookup id) same
        | inr (f, _, moved) ↦
            ap (lookup id) moved ∙ lookup-modify event.id id f table ∙ ground (arith, h)
      ] in
      elim (Result-cases step.1) [
        | inr (e, k) ↦
            ap (λ o. lookup id o.0) (each-failed j w now table report event events e k) ∙ kept
        | inl (d, k) ↦
            ap (λ o. lookup id o.0) (each-done j w now table report event events d k)
            ∙ each-keeps w now step.0 (count d report) events id (ground (arith, h))
            ∙ kept
      ]
