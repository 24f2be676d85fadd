-- ===== src/Federation/Protocol.antt =====
-- The envelopes of federation events (server-rs/src/federation/protocol.rs), and what is accepted of
-- them behind a verified signature (server-rs/src/federation/ingress.rs).
pub mod Accepts
use Prim.Native.String.{String}
use verdant_backend.Prelude.{
  ℕ, zero, Bool, true, false, not, ◌&&◌, ◌||◌, List, Option, none, some, nat_eq, list_eq, ◌=?◌, all,
  any,
}
use verdant_backend.Prelude.Ascii.{ascii}
use verdant_backend.Prelude.Result.{Result, ok, err, ◌>>=◌, ◌>>◌, ok_or, ensure}
use verdant_backend.Federation.Decimal.{ℤ, pos, negsuc}
use verdant_backend.Federation.Interfaces.{Json, Urls}
use verdant_backend.Federation.Auth.{VerifiedFederationRequest, positive}
use verdant_backend.Federation.Kinds.{
  FederationEventKind, FederationProtocolError, parse_event_kind,
}
use verdant_backend.Federation.Ownership.{runtime_propagation_allowed}
use verdant_backend.Federation.Identity.{is_some}
use verdant_backend.Federation.Payload.{valid_event_id, valid_peer_id}
use verdant_backend.Federation.Payload.Fields.{allowed_payload_fields}
use verdant_backend.Federation.Payload.Checks.{checks_pass}

abbrev pub is_one : ℤ → Bool
is_one (pos n) = n =? 1
is_one (negsuc n) = false

pub data FederationIngressError : Type 0 where
  source_mismatch destination_mismatch unsupported_event_kind : FederationIngressError
  invalid_payload : FederationIngressError

pub record FederationIngressDecision : Type 0 where
  pub source_peer_id : List ℕ
  pub destination_peer_id : List ℕ
  pub remote_event_id : List ℕ
  pub event_kind : FederationEventKind
  pub payload_hash : List ℕ

module _ (j : Json) where
  pub record RawFederationEnvelope : Type 0 where
    pub protocol_version : ℤ
    pub event_id : List ℕ
    pub kind : String
    pub source_peer_id : List ℕ
    pub destination_peer_id : List ℕ
    pub sent_at_ms : ℤ
    pub payload : j.Value

  pub record ParsedFederationEnvelope : Type 0 where
    pub protocol_version : ℤ
    pub event_id : List ℕ
    pub kind : FederationEventKind
    pub source_peer_id : List ℕ
    pub destination_peer_id : List ℕ
    pub sent_at_ms : ℤ
    pub payload : j.Value

  unfoldable pub payload_has_only_allowed_fields : FederationEventKind → j.Value → Bool
  payload_has_only_allowed_fields kind payload = elim (j.as_object payload) [
    | none ↦ false
    | some object ↦
        all (λ entry. any (λ allowed. entry.0 =? ascii allowed) (allowed_payload_fields kind))
          object
  ]

  unfoldable pub validate_payload :
      Urls → FederationEventKind → j.Value → Result (Unit {0}) FederationProtocolError
  unfolding payload_has_only_allowed_fields
  validate_payload u kind payload = do
    ensure FederationProtocolError.invalid_payload (payload_has_only_allowed_fields kind payload)
    ensure FederationProtocolError.invalid_payload (checks_pass j u kind payload)

  abbrev pub envelope_fields_ok : RawFederationEnvelope → Bool
  envelope_fields_ok raw = not (
      not (valid_event_id raw.event_id)
      || not (valid_peer_id raw.source_peer_id)
      || not (valid_peer_id raw.destination_peer_id)
      || not (is_some (positive raw.sent_at_ms))
      || not (is_some (j.as_object raw.payload)))

  -- `from_slice` is serde's reader of the raw envelope.
  unfoldable pub from_json :
      (List ℕ → Option RawFederationEnvelope)
      → Urls
      → List ℕ
      → Result ParsedFederationEnvelope FederationProtocolError
  unfolding validate_payload
  from_json from_slice u bytes = do
    raw ← ok_or FederationProtocolError.malformed_json (from_slice bytes)
    ensure FederationProtocolError.unsupported_version (is_one raw.protocol_version)
    kind ← parse_event_kind raw.kind
    ensure FederationProtocolError.invalid_envelope (envelope_fields_ok raw)
    validate_payload u kind raw.payload
    ok (record {
      protocol_version = raw.protocol_version;
      event_id = raw.event_id;
      kind = kind;
      source_peer_id = raw.source_peer_id;
      destination_peer_id = raw.destination_peer_id;
      sent_at_ms = raw.sent_at_ms;
      payload = raw.payload;
    })

  -- `hex_digest` is the hexadecimal text of SHA-256.
  unfoldable pub payload_hash : (List ℕ → List ℕ) → j.Value → Result (List ℕ) FederationIngressError
  payload_hash hex_digest payload = do
    bytes ← ok_or FederationIngressError.invalid_payload (j.to_vec payload)
    ok (hex_digest bytes)

  unfoldable pub validate_ingress_envelope :
      (List ℕ → List ℕ)
      → VerifiedFederationRequest
      → ParsedFederationEnvelope
      → Result FederationIngressDecision FederationIngressError
  unfolding payload_hash
  validate_ingress_envelope hex_digest verified envelope = do
    ensure FederationIngressError.source_mismatch
        (envelope.source_peer_id =? verified.source_peer_id)
    ensure FederationIngressError.destination_mismatch
        (envelope.destination_peer_id =? verified.destination_peer_id)
    ensure FederationIngressError.unsupported_event_kind (runtime_propagation_allowed envelope.kind)
    ensure FederationIngressError.invalid_payload (is_some (j.as_object envelope.payload))
    hash ← payload_hash hex_digest envelope.payload
    ok (record {
      source_peer_id = envelope.source_peer_id;
      destination_peer_id = envelope.destination_peer_id;
      remote_event_id = envelope.event_id;
      event_kind = envelope.kind;
      payload_hash = hash;
    })
