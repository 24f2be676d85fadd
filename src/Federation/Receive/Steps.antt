-- ===== src/Federation/Receive/Steps.antt =====
-- What one request makes of the handler's records (server-rs/src/handlers/federation.rs).
use verdant_backend.Prelude.{
  ℕ, suc, ◌≡◌, ◌⊎◌, refl, sym, ap, ◌∙◌, Bool, true, false, ◌&&◌, ◌||◌, List, [], ◌∷◌, Option, none,
  nat_eq, list_eq, ◌=?◌, list_beq_iff, if◌then◌else◌, Bool-cases, inl, inr, arith,
}
use verdant_backend.Prelude.Dict.{contains_key, insert}
use verdant_backend.AppError.{AppResult, ok, err}
use verdant_backend.Federation.Crates.{Crates}
use verdant_backend.Federation.Interfaces.{Json, Urls}
use verdant_backend.Federation.Kinds.{as_str}
use verdant_backend.Federation.Auth.{VerifiedFederationRequest}
use verdant_backend.Federation.Protocol.{FederationIngressDecision, RawFederationEnvelope}
use verdant_backend.Federation.Runtime.{FederationRuntimeCommand}
use verdant_backend.Federation.ReplayTable.{NonceTable, reserve_replay_nonce}
use verdant_backend.Federation.Receive.Inbound.{
  received, InboundTable, InboundRow, is_recorded, has_event, accept_rows, insert_inbound_event,
  mark_inbound_event_accepted,
}
use verdant_backend.Federation.Receive.{
  Intake, EventRequest, guarded, apply_event, record_event, receive_verified, after_insert,
  receive_event,
}

module _ (source event : List ℕ) where
  is_recorded-insert :
      (id : ℕ) (row : InboundRow) (table : InboundTable)
      → contains_key id table ≡ false
      → is_recorded (insert id row table) source event
        ≡ is_recorded table source event || has_event source event row
  unfolding insert
  is_recorded-insert id row [] h = ground arith
  is_recorded-insert id row ((k, other) ∷ table) h =
      ground (arith, h, is_recorded-insert id row table)

  is_recorded-accept_rows :
      (source' event' : List ℕ) (now : ℕ) (table : InboundTable)
      → is_recorded (accept_rows source' event' now table) source event
        ≡ is_recorded table source event
  is_recorded-accept_rows source' event' now [] = refl
  is_recorded-accept_rows source' event' now ((k, row) ∷ table) =
      elim (Bool-cases (has_event source' event' row)) [
        | inl e ↦
            rw (accept_rows, e)
              (ap (λ b. has_event source event row || b)
                (is_recorded-accept_rows source' event' now table))
        | inr e ↦
            rw (accept_rows, e)
              (ap (λ b. has_event source event row || b)
                (is_recorded-accept_rows source' event' now table))
      ]

  -- How often commands of the event were given to be applied.
  abbrev pub times_applied : List (FederationIngressDecision × FederationRuntimeCommand) → ℕ
  times_applied [] = 0
  times_applied ((d, _) ∷ applied) =
      let rest = times_applied applied in
      if (d.source_peer_id =? source) && (d.remote_event_id =? event) then suc rest else rest

  -- A step that records no event less, and applies the event only if it was not recorded, but is now.
  unfoldable pub Steps : Intake → Intake → Type 0
  Steps s after =
      ((is_recorded after.inbound source event ≡ is_recorded s.inbound source event)
        × (times_applied after.applied ≡ times_applied s.applied))
      ⊎ ((is_recorded s.inbound source event ≡ false)
          × (is_recorded after.inbound source event ≡ true)
          × (times_applied after.applied ≡ suc (times_applied s.applied)))

  unfoldable pub Leads : {B : Type 0} → Intake → Intake × AppResult B → Type 0
  Leads s (after, _) = Steps s after

  guarded-Leads :
      {A B : Type 0} (s at : Intake) (r : AppResult A) (f : A → Intake × AppResult B)
      → Steps s at
      → ((a : A) → Leads s (f a))
      → Leads s (guarded at r f)
  unfolding guarded Leads
  guarded-Leads s at (err e) f h k = h
  guarded-Leads s at (ok a) f h k = k a

  Steps-same :
      (s at after : Intake)
      → is_recorded after.inbound source event ≡ is_recorded at.inbound source event
      → after.applied ≡ at.applied
      → Steps s at
      → Steps s after
  unfolding Steps
  Steps-same s at after h k steps =
      let times = ap times_applied k in ground (arith, h, times, steps)

module _ (c : Crates) (j : Json) (u : Urls) (from_slice : List ℕ → Option (RawFederationEnvelope j))
    (hex_digest code_hash : List ℕ → List ℕ) (instance_id : List ℕ) (source event : List ℕ) where
  mark-Steps :
      (s at : Intake) (marks : Bool) (d : FederationIngressDecision) (now : ℕ)
      → Steps source event s at
      → Steps source event s (record at {
        inbound =
            (mark_inbound_event_accepted marks at.inbound d.source_peer_id d.remote_event_id now).0;
      })
  unfolding mark_inbound_event_accepted
  mark-Steps s at false d now h = h
  mark-Steps s at true d now h =
      Steps-same source event s at
        (record at { inbound = accept_rows d.source_peer_id d.remote_event_id now at.inbound })
        (is_recorded-accept_rows source event d.source_peer_id d.remote_event_id now at.inbound)
        refl h

  apply_event-Leads :
      (s at : Intake) (q : EventRequest c) (d : FederationIngressDecision)
      (command : FederationRuntimeCommand)
      → Steps source event s (record at { applied = (d, command) ∷ at.applied })
      → Leads source event s
          (apply_event c j u from_slice hex_digest code_hash instance_id at q d command)
  unfolding apply_event Leads
  apply_event-Leads s at q d command h =
      let started : Intake = record at { applied = (d, command) ∷ at.applied } in
      guarded-Leads source event s started (q.apply_federation_runtime_command d command) _ h (λ _.
        let marked = mark-Steps s started q.marks d q.now_ms h in
        guarded-Leads source event s _ _ _ marked (λ _. marked))

  abbrev row_of : FederationIngressDecision → InboundRow
  row_of d = record {
    source_peer_id = d.source_peer_id;
    remote_event_id = d.remote_event_id;
    event_kind = as_str d.event_kind;
    payload_hash = d.payload_hash;
    status = received;
    accepted_at_ms = none;
  }

  -- The row is new and the command is applied.
  started-Steps :
      (s : Intake) (id : ℕ) (d : FederationIngressDecision) (command : FederationRuntimeCommand)
      → is_recorded s.inbound d.source_peer_id d.remote_event_id ≡ false
      → contains_key id s.inbound ≡ false
      → Steps source event s (record s {
        inbound = insert id (row_of d) s.inbound;
        applied = (d, command) ∷ s.applied;
      })
  unfolding Steps
  started-Steps s id d command free absent =
      let grows = is_recorded-insert source event id (row_of d) s.inbound absent in
      elim (Bool-cases (has_event source event (row_of d))) [
        | inr e ↦ inl (ground (arith, grows, e), ground (arith, e))
        | inl e ↦
            let same_source = (list_beq_iff d.source_peer_id source).0 (ground (arith, e)) in
            let same_event = (list_beq_iff d.remote_event_id event).0 (ground (arith, e)) in
            inr (
              ap (λ x. is_recorded s.inbound x event) (sym same_source)
                  ∙ ap (λ y. is_recorded s.inbound d.source_peer_id y) (sym same_event)
                  ∙ free,
              ground (arith, grows, e),
              ground (arith, e),
            )
      ]

  quiet : (s : Intake) → Steps source event s s
  unfolding Steps
  quiet s = inl (refl, refl)

  record_event-Leads :
      (s : Intake) (q : EventRequest c) (d : FederationIngressDecision)
      (command : FederationRuntimeCommand)
      → Leads source event s
          (record_event c j u from_slice hex_digest code_hash instance_id s q d command)
  unfolding record_event insert_inbound_event after_insert Leads
  record_event-Leads s q d command = elim (Bool-cases q.inserts) [
    | inr off ↦ rw (record_event, insert_inbound_event, off) (quiet s)
    | inl on ↦ elim (Bool-cases (is_recorded s.inbound d.source_peer_id d.remote_event_id)) [
      | inl again ↦ rw (record_event, insert_inbound_event, on, again) (quiet s)
      | inr free ↦ elim (Bool-cases (contains_key q.event_row_id s.inbound)) [
        | inl taken ↦ rw (record_event, insert_inbound_event, on, free, taken) (quiet s)
        | inr absent ↦
            rw (record_event, insert_inbound_event, on, free, absent)
              (apply_event-Leads s
                (record s { inbound = insert q.event_row_id (row_of d) s.inbound }) q d command
                (started-Steps s q.event_row_id d command free absent))
      ]
    ]
  ]

  noted_quiet :
      (s : Intake) (nonces : NonceTable) → Steps source event s (record s { nonces = nonces })
  unfolding Steps
  noted_quiet s nonces = inl (refl, refl)

  noted-Leads :
      {B : Type 0} (s : Intake) (nonces : NonceTable) (out : Intake × AppResult B)
      → Leads source event (record s { nonces = nonces }) out
      → Leads source event s out
  unfolding Leads Steps
  noted-Leads s nonces out h = h

  receive_verified-Leads :
      (s : Intake) (q : EventRequest c) (body : List ℕ) (verified : VerifiedFederationRequest)
      → Leads source event s
          (receive_verified c j u from_slice hex_digest code_hash instance_id s q body verified)
  unfolding receive_verified
  receive_verified-Leads s q body verified =
      let noted : Intake = record s {
        nonces =
            (reserve_replay_nonce q.reserves s.nonces q.nonce_id verified.source_peer_id
              verified.key_id verified.nonce verified.timestamp_ms q.now_ms).0;
      } in
      let same : Steps source event s noted = noted_quiet s _ in
      guarded-Leads source event s noted _ _ same (λ reserved.
        guarded-Leads source event s noted _ _ same (λ _.
          guarded-Leads source event s noted _ _ same (λ envelope.
            guarded-Leads source event s noted _ _ same (λ decision.
              guarded-Leads source event s noted _ _ same (λ _.
                guarded-Leads source event s noted _ _ same
                  (λ command. noted-Leads s _ _ (record_event-Leads noted q decision command)))))))

  pub receive_event-Leads :
      (s : Intake) (q : EventRequest c)
      → Leads source event s (receive_event c j u from_slice hex_digest code_hash instance_id s q)
  unfolding receive_event
  receive_event-Leads s q = guarded-Leads source event s s _ _ (quiet s) (λ _.
      guarded-Leads source event s s _ _ (quiet s) (λ body.
        guarded-Leads source event s s _ _ (quiet s) (λ identity.
          guarded-Leads source event s s _ _ (quiet s) (λ found.
            guarded-Leads source event s s _ _ (quiet s) (λ peer_key.
              guarded-Leads source event s s _ _ (quiet s)
                (λ verified. receive_verified-Leads s q body verified))))))
