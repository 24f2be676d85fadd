-- ===== src/Federation/Outbox/Retries.antt =====
-- The attempts of one event, each with what its delivery came to (server-rs/src/federation/outbox.rs).
use verdant_backend.Prelude.{
  ℕ, ◌+◌, ◌≡◌, ◌⊎◌, ◌≤◌, refl, ap, ◌∙◌, Bool, true, false, ◌&&◌, List, [], ◌∷◌, none, some, nat_eq,
  eq_refl, leb, ltb, if◌then◌else◌, all, length, Bool-cases, inl, inr, arith,
}
use verdant_backend.Prelude.Dict.{lookup, modify, lookup-modify}
use verdant_backend.Federation.Interfaces.{Json}
use verdant_backend.Federation.Outbox.{
  sending, sent, dead, FederationDeliveryDisposition, delivered, retryable_failure,
  permanent_failure, OutboundRow, OutboxTable, ClaimedOutboundFederationEvent,
  next_outbound_failure_plan, attempts_after, sanitize_outbound_error_code,
}
use verdant_backend.Federation.Outbox.Statements.{
  World, is_waiting, mark_sending, claimed_events, mark_outbound_event_sent,
  mark_outbound_event_failed, mark_outbound_event_dead, planned,
}
use verdant_backend.Federation.Outbox.Dispatch.{settle}

abbrev pub is_retryable : FederationDeliveryDisposition → Bool
is_retryable (retryable_failure _) = true
is_retryable delivered = false
is_retryable (permanent_failure _) = false

module _ (j : Json) (w : World) where
  abbrev settle_claimed :
      OutboxTable j
      → List (ClaimedOutboundFederationEvent j)
      → ℕ
      → FederationDeliveryDisposition
      → OutboxTable j
  settle_claimed table [] now_ms disposition = table
  settle_claimed table (event ∷ _) now_ms disposition =
      (settle j w table event now_ms disposition).0

  -- An attempt at a time when the event is due, if it still waits: it is claimed and settled.
  unfoldable pub try_event : OutboxTable j → ℕ → ℕ × FederationDeliveryDisposition → OutboxTable j
  unfolding settle
  try_event table id (now_ms, disposition) = elim (lookup id table) [
    | none ↦ table
    | some row ↦
        if is_waiting row.status
        then settle_claimed (mark_sending j (id ∷ []) table) (claimed_events j table (id ∷ []))
            now_ms disposition
        else table
  ]

  unfoldable pub attempts :
      OutboxTable j → ℕ → List (ℕ × FederationDeliveryDisposition) → OutboxTable j
  unfolding try_event
  attempts table id [] = table
  attempts table id (a ∷ rest) = attempts (try_event table id a) id rest

  abbrev pub waits : OutboxTable j → ℕ → Bool
  waits table id = elim (lookup id table) [ none ↦ false | some row ↦ is_waiting row.status ]

  abbrev event_of : ℕ → OutboundRow j → ClaimedOutboundFederationEvent j
  event_of id row = record {
    id = id;
    destination_peer_id = row.destination_peer_id;
    event_id = row.event_id;
    event_kind = row.event_kind;
    payload_hash = row.payload_hash;
    event_body_json = row.event_body_json;
    attempt_count = row.attempt_count;
  }

  claimed_one :
      (table : OutboxTable j) (id : ℕ) (row : OutboundRow j)
      → lookup id table ≡ some row
      → claimed_events j table (id ∷ []) ≡ event_of id row ∷ []
  claimed_one table id row h = rw (claimed_events, h) refl

  attempted :
      (table : OutboxTable j) (id : ℕ) (a : ℕ × FederationDeliveryDisposition) (row : OutboundRow j)
      → lookup id table ≡ some row
      → is_waiting row.status ≡ true
      → try_event table id a
        ≡ (settle j w (mark_sending j (id ∷ []) table) (event_of id row) a.0 a.1).0
  unfolding try_event
  attempted table id a row h k = rw (try_event, h, k, claimed_one table id row h) refl

  abbrev claimed : OutboundRow j → OutboundRow j
  claimed row = record row { status = sending }

  lookup-twice :
      (table : OutboxTable j) (id : ℕ) (f g : OutboundRow j → OutboundRow j) (row : OutboundRow j)
      → lookup id table ≡ some row
      → lookup id (modify id f (modify id g table)) ≡ some (f (g row))
  lookup-twice table id f g row h =
      lookup-modify id id f (modify id g table)
      ∙ rw (eq_refl id, lookup-modify id id g table, eq_refl id, h) refl

  -- After an attempt with the disposition, the row waits with an attempt more, or waits no more.
  abbrev Follows : FederationDeliveryDisposition → OutboundRow j → OutboundRow j → Type 0
  Follows d row next =
      (((is_retryable d && ltb row.attempt_count 7) ≡ true)
        × (is_waiting next.status ≡ true)
        × (next.attempt_count ≡ row.attempt_count + 1))
      ⊎ (((is_retryable d && ltb row.attempt_count 7) ≡ false) × (is_waiting next.status ≡ false))

  plan-Follows :
      (now_ms : ℕ) (code : List ℕ) (row r : OutboundRow j)
      → Follows
          (retryable_failure code)
          row
          (planned j (next_outbound_failure_plan now_ms row.attempt_count code) r)
  unfolding next_outbound_failure_plan
  plan-Follows now_ms code row r = elim (Bool-cases (ltb row.attempt_count 7)) [
    | inl e ↦ inl (e, ground (arith, e), ground (arith, e))
    | inr e ↦ inr (e, ground (arith, e))
  ]

  try_event-Follows :
      (table : OutboxTable j) (id now_ms : ℕ) (d : FederationDeliveryDisposition)
      (row : OutboundRow j)
      → w.writes id ≡ true
      → lookup id table ≡ some row
      → is_waiting row.status ≡ true
      → (next : OutboundRow j) × (lookup id (try_event table id (now_ms, d)) ≡ some next)
        × Follows d row next
  unfolding settle mark_outbound_event_sent mark_outbound_event_failed mark_outbound_event_dead
  try_event-Follows table id now_ms delivered row on h k =
      let f : OutboundRow j → OutboundRow j = λ r. record r { status = sent } in
      (
        f (claimed row),
        rw (attempted table id _ row h k, on) (lookup-twice table id f claimed row h),
        inr (refl, refl),
      )
  try_event-Follows table id now_ms (retryable_failure code) row on h k =
      let f : OutboundRow j → OutboundRow j =
        planned j (next_outbound_failure_plan now_ms row.attempt_count code) in
      (
        f (claimed row),
        rw (attempted table id _ row h k, on) (lookup-twice table id f claimed row h),
        plan-Follows now_ms code row (claimed row),
      )
  try_event-Follows table id now_ms (permanent_failure code) row on h k =
      let f : OutboundRow j → OutboundRow j = planned j (record {
        status = dead;
        attempt_count = attempts_after row.attempt_count;
        next_attempt_at_ms = none;
        last_error_code = sanitize_outbound_error_code code;
      }) in
      (
        f (claimed row),
        rw (attempted table id _ row h k, on) (lookup-twice table id f claimed row h),
        inr (refl, refl),
      )

  -- A row that waits no more is left alone.
  attempts-stopped :
      (table : OutboxTable j) (id : ℕ) (rest : List (ℕ × FederationDeliveryDisposition))
      (row : OutboundRow j)
      → lookup id table ≡ some row
      → is_waiting row.status ≡ false
      → attempts table id rest ≡ table
  unfolding attempts try_event
  attempts-stopped table id [] row h k = refl
  attempts-stopped table id (a ∷ rest) row h k =
      let same : try_event table id a ≡ table = rw (try_event, h, k) refl in
      ap (λ t. attempts t id rest) same ∙ attempts-stopped table id rest row h k

  -- Let a waiting event of the outbox have failed at most seven times, and let the statements on
  -- its row be carried out. After any further attempts, each made if the event still waits, it
  -- still waits exactly when all of them failed in a way that may be tried again and it has not
  -- failed eight times in all.
  pub attempts-waits :
      (table : OutboxTable j) (id : ℕ) (made : List (ℕ × FederationDeliveryDisposition))
      (row : OutboundRow j)
      → w.writes id ≡ true
      → lookup id table ≡ some row
      → is_waiting row.status ≡ true
      → row.attempt_count ≤ 7
      → waits (attempts table id made) id
        ≡ (all (λ a. is_retryable a.1) made && leb (row.attempt_count + length made) 7)
  unfolding attempts
  attempts-waits table id [] row on h k few = ground (arith, h, k, few)
  attempts-waits table id ((now_ms, d) ∷ made) row on h k few =
      let (next, found, follows) = try_event-Follows table id now_ms d row on h k in
      elim follows [
        | inl (again, waiting, more) ↦
            attempts-waits (try_event table id (now_ms, d)) id made next on found waiting
              (ground (arith, again, more))
            ∙ ground (arith, again, more)
        | inr (over, stopped) ↦
            ap (λ t. waits t id)
              (attempts-stopped (try_event table id (now_ms, d)) id made next found stopped)
            ∙ ground (arith, found, stopped, over)
      ]
