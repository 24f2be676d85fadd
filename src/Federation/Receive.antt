-- ===== src/Federation/Receive.antt =====
-- The handler of events from peers, `receive_event` of server-rs/src/handlers/federation.rs. What the
-- database answers and what applying a command returns comes with the request.
pub mod Errors
pub mod Inbound
pub mod Steps
pub mod Applied
pub mod Answers
mod Examples
use verdant_backend.Prelude.{ℕ, Bool, true, false, List, [], ◌∷◌, Option, none, some}
use verdant_backend.Prelude.Result.{Result}
use verdant_backend.Prelude.Result as Result
use verdant_backend.AppError.{AppError, AppResult, ok, err, ok_or}
use verdant_backend.Federation.Crates.{Crates}
use verdant_backend.Federation.Interfaces.{Json, Urls}
use verdant_backend.Federation.Ownership.{runtime_propagation_allowed}
use verdant_backend.Federation.Auth.{FederationPeerKey, VerifyError, VerifiedFederationRequest}
use verdant_backend.Federation.Auth.Requests.{HeaderMap, identity_from_headers, verify_signature}
use verdant_backend.Federation.Auth.Stores.{insert, key_for, new}
use verdant_backend.Federation.Protocol.{
  FederationIngressDecision, RawFederationEnvelope, from_json, validate_ingress_envelope,
}
use verdant_backend.Federation.Runtime.{FederationRuntimeCommand, command_from_envelope}
use verdant_backend.Federation.ReplayTable.{NonceTable, StorageError, reserve_replay_nonce}
use verdant_backend.Federation.ReplayTable.Admission.{events_method, events_path}
use verdant_backend.Federation.Outbox.Queue.{EventInsertResult, inserted, duplicate}
use verdant_backend.Federation.Receive.Errors.{
  federation_verify_error, federation_protocol_error, federation_ingress_error,
  federation_runtime_error, federation_runtime_propagation_error, body_too_large, or_app,
}
use verdant_backend.Federation.Receive.Inbound.{
  InboundTable, insert_inbound_event, mark_inbound_event_accepted,
}

pub record FederationEventIngressResponse : Type 0 where
  pub accepted : Bool
  pub duplicate : Bool
  pub event_id : List ℕ

-- The tables, and the commands that were given to `apply_federation_runtime_command`, the last first.
pub record Intake : Type 0 where
  pub nonces : NonceTable
  pub inbound : InboundTable
  pub applied : List (FederationIngressDecision × FederationRuntimeCommand)

-- `limited` is the answer of the rate limit and `body` none where it is over the limit of 64 KiB. The
-- ids are snowflakes, and the three flags say whether the statements are carried out.
pub record EventRequest (c : Crates) : Type 0 where
  pub limited : AppResult (Unit {0})
  pub body : Option (List ℕ)
  pub headers : HeaderMap c
  pub peer_key_by_peer_and_key : List ℕ → List ℕ → Result (Option FederationPeerKey) StorageError
  pub clock : ℕ
  pub now_ms : ℕ
  pub nonce_id : ℕ
  pub event_row_id : ℕ
  pub reserves : Bool
  pub inserts : Bool
  pub marks : Bool
  pub apply_federation_runtime_command :
      FederationIngressDecision → FederationRuntimeCommand → AppResult (Unit {0})

-- `let a = r?;` and what follows.
unfoldable pub guarded :
    {A B : Type 0} → Intake → AppResult A → (A → Intake × AppResult B) → Intake × AppResult B
guarded s (err e) f = (s, err e)
guarded s (ok a) f = f a

abbrev pub not_replayed : Bool → AppResult (Unit {0})
not_replayed true = ok tt
not_replayed false = err (federation_verify_error VerifyError.replay)

abbrev pub may_propagate : Bool → AppResult (Unit {0})
may_propagate true = ok tt
may_propagate false = err federation_runtime_propagation_error

abbrev pub internal_error : {A : Type 0} → A → AppError
internal_error e = AppError.internal

-- What a server has that does not change, and the crates that it calls.
module _ (c : Crates) (j : Json) (u : Urls) (from_slice : List ℕ → Option (RawFederationEnvelope j))
    (hex_digest code_hash : List ℕ → List ℕ) (instance_id : List ℕ) where
  abbrev pub response : Bool → FederationIngressDecision → FederationEventIngressResponse
  response is_duplicate decision = record {
    accepted = true;
    duplicate = is_duplicate;
    event_id = decision.remote_event_id;
  }

  -- From `apply_federation_runtime_command` on.
  unfoldable pub apply_event :
      Intake
      → EventRequest c
      → FederationIngressDecision
      → FederationRuntimeCommand
      → Intake × AppResult FederationEventIngressResponse
  unfolding mark_inbound_event_accepted
  apply_event s q decision command =
      let started : Intake = record s { applied = (decision, command) ∷ s.applied } in
      guarded started (q.apply_federation_runtime_command decision command) (λ _.
        let (inbound, marked) =
          mark_inbound_event_accepted q.marks s.inbound decision.source_peer_id
            decision.remote_event_id q.now_ms in
        let finished : Intake = record started { inbound = inbound } in
        guarded finished (or_app internal_error marked)
          (λ _. (finished, ok (response false decision))))

  -- What follows `insert_inbound_event`.
  unfoldable pub after_insert :
      Intake
      → EventRequest c
      → FederationIngressDecision
      → FederationRuntimeCommand
      → InboundTable × Result EventInsertResult StorageError
      → Intake × AppResult FederationEventIngressResponse
  unfolding apply_event
  after_insert s q decision command (inbound, Result.err e) =
      (record s { inbound = inbound }, err AppError.internal)
  after_insert s q decision command (inbound, Result.ok duplicate) =
      (record s { inbound = inbound }, ok (response true decision))
  after_insert s q decision command (inbound, Result.ok inserted) =
      apply_event (record s { inbound = inbound }) q decision command

  unfoldable pub record_event :
      Intake
      → EventRequest c
      → FederationIngressDecision
      → FederationRuntimeCommand
      → Intake × AppResult FederationEventIngressResponse
  unfolding insert_inbound_event after_insert
  record_event s q decision command = after_insert s q decision command (
      insert_inbound_event q.inserts s.inbound (record {
        id = q.event_row_id;
        source_peer_id = decision.source_peer_id;
        remote_event_id = decision.remote_event_id;
        event_kind = decision.event_kind;
        payload_hash = decision.payload_hash;
      }))

  -- From `reserve_replay_nonce` on.
  unfoldable pub receive_verified :
      Intake
      → EventRequest c
      → List ℕ
      → VerifiedFederationRequest
      → Intake × AppResult FederationEventIngressResponse
  unfolding reserve_replay_nonce record_event
  receive_verified s q body verified =
      let (nonces, reserved) =
        reserve_replay_nonce q.reserves s.nonces q.nonce_id verified.source_peer_id verified.key_id
          verified.nonce verified.timestamp_ms q.now_ms in
      let noted : Intake = record s { nonces = nonces } in
      guarded noted (or_app internal_error reserved) (λ nonce_reserved.
        guarded noted (not_replayed nonce_reserved) (λ _.
          guarded noted (or_app federation_protocol_error (from_json j from_slice u body))
            (λ envelope.
              guarded noted
                (or_app federation_ingress_error
                  (validate_ingress_envelope j hex_digest verified envelope))
                (λ decision.
                  guarded noted (may_propagate (runtime_propagation_allowed decision.event_kind))
                    (λ _.
                      guarded noted
                        (or_app federation_runtime_error
                          (command_from_envelope j u code_hash envelope))
                        (λ command. record_event noted q decision command))))))

  unfoldable pub receive_event :
      Intake → EventRequest c → Intake × AppResult FederationEventIngressResponse
  unfolding receive_verified
  receive_event s q = guarded s q.limited (λ _. guarded s (ok_or body_too_large q.body) (λ body.
      guarded s (or_app federation_verify_error (identity_from_headers c q.headers)) (λ identity.
        guarded s
          (or_app internal_error
            (q.peer_key_by_peer_and_key identity.source_peer_id identity.key_id))
          (λ found.
            guarded s (ok_or (federation_verify_error VerifyError.unknown_peer_key) found)
              (λ peer_key.
                guarded s
                  (or_app federation_verify_error (
                    verify_signature c
                      (new instance_id (key_for (insert (record { keys = [] }) peer_key))) q.clock
                      events_method events_path q.headers body))
                  (λ verified. receive_verified s q body verified))))))

  unfoldable pub receive_all : Intake → List (EventRequest c) → Intake
  unfolding receive_event
  receive_all s [] = s
  receive_all s (q ∷ requests) = receive_all (receive_event s q).0 requests
