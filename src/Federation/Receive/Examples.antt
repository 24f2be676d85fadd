-- ===== src/Federation/Receive/Examples.antt =====
-- Tests of the handler of events, and its theorems at concrete requests.
use Prim.Native.String.{String}
use verdant_backend.Prelude.{ℕ, ◌≡◌, ◌≤◌, refl, true, List, [], ◌∷◌, none, some, nat_eq, list_eq}
use verdant_backend.Prelude.Ascii.{ascii}
use verdant_backend.Prelude.Result.{Result}
use verdant_backend.AppError.{AppError, AppResult, ok, err}
use verdant_backend.Federation.Auth.{
  canonical_request, canonical_parts, join, trim, key_outside_window, algorithm_name,
  header_algorithm, header_source, header_destination, header_key_id, header_timestamp,
  header_nonce, header_body_hash, header_signature,
}
use verdant_backend.Prelude.Dict.{insert}
use verdant_backend.Federation.Decimal.{to_string, parse_i64}
use verdant_backend.Federation.Names.{
  validate_peer_id, validate_key_id, validate_method, validate_path_and_query, validate_nonce,
}
use verdant_backend.Federation.Auth.Requests.{identity_from_headers, verify_signature}
use verdant_backend.Federation.Auth.Stores.{insert as add_key, key_for, new}
use verdant_backend.Federation.Kinds.{parse_event_kind, as_str}
use verdant_backend.Federation.Ownership.{runtime_propagation_allowed}
use verdant_backend.Federation.Payload.{
  valid_event_id, valid_peer_id, required_payload_id, valid_payload_id, optional_short_string,
}
use verdant_backend.Federation.Payload.Fields.{allowed_payload_fields}
use verdant_backend.Federation.Payload.Checks.{checks_pass}
use verdant_backend.Federation.Protocol.{from_json, validate_ingress_envelope}
use verdant_backend.Federation.Runtime.{command_from_envelope}
use verdant_backend.Federation.ReplayTable.{NonceRow, reserve_replay_nonce, conflicts}
use verdant_backend.Federation.ReplayTable.Admission.{events_method, events_path}
use verdant_backend.Federation.EventExamples.{
  json, urls, leave_payload, raw_of, leave_decision, leave_command,
}
use verdant_backend.Federation.TestCrates.{
  crates, alpha, beta, key_1, body_1, hash_1, peer_key, odd, bit_bytes, test_encode,
}
use verdant_backend.Federation.Receive.Inbound.{
  InboundRow, received, is_recorded, insert_inbound_event,
}
use verdant_backend.Federation.Receive.{
  Intake, EventRequest, receive_event, receive_all, guarded, receive_verified, record_event,
  after_insert, apply_event,
}
use verdant_backend.Federation.Receive.Steps.{times_applied}
use verdant_backend.Federation.Receive.Applied.{receive_all-applied_once, receive_all-recorded}

abbrev signature_of : List ℕ → List ℕ
signature_of nonce = test_encode (
    bit_bytes
      (odd (canonical_request events_method events_path alpha beta key_1 1000 nonce hash_1)))

abbrev headers_of : List ℕ → List (String × List ℕ)
headers_of nonce =
    (header_algorithm, algorithm_name)
    ∷ (header_source, alpha)
    ∷ (header_destination, beta)
    ∷ (header_key_id, key_1)
    ∷ (header_timestamp, ascii "1000")
    ∷ (header_nonce, nonce)
    ∷ (header_body_hash, hash_1)
    ∷ (header_signature, signature_of nonce)
    ∷ []

abbrev request_of : ℕ → List ℕ → AppResult (Unit {0}) → EventRequest crates
request_of id nonce applies = record {
  limited = ok tt;
  body = some body_1;
  headers = headers_of nonce;
  peer_key_by_peer_and_key = λ peer key. Result.ok (some peer_key);
  clock = 1500;
  now_ms = 1500;
  nonce_id = id;
  event_row_id = id;
  reserves = true;
  inserts = true;
  marks = true;
  apply_federation_runtime_command = λ decision command. applies;
}

abbrev nonce_a : List ℕ
nonce_a = ascii "nonce-0123456789"

abbrev nonce_b : List ℕ
nonce_b = ascii "nonce-9876543210"

-- The first delivery fails while its command is applied; the second is the retry.
abbrev fails : EventRequest crates
fails = request_of 1 nonce_a (err AppError.internal)

abbrev retries : EventRequest crates
retries = request_of 2 nonce_b (ok tt)

abbrev nonce_row : List ℕ → NonceRow
nonce_row nonce = record {
  source_peer_id = alpha;
  key_id = key_1;
  nonce = nonce;
  request_timestamp_ms = 1000;
  expires_at_ms = 601500;
  created_at_ms = 1500;
}

abbrev event_row : InboundRow
event_row = record {
  source_peer_id = alpha;
  remote_event_id = ascii "event-1";
  event_kind = "membership_leave";
  payload_hash = [];
  status = received;
  accepted_at_ms = none;
}

abbrev empty : Intake
empty = record { nonces = []; inbound = []; applied = [] }

abbrev after_failure : Intake
after_failure = record {
  nonces = (1, nonce_row nonce_a) ∷ [];
  inbound = (1, event_row) ∷ [];
  applied = (leave_decision, leave_command) ∷ [];
}

abbrev after_retry : Intake
after_retry = record {
  nonces = (1, nonce_row nonce_a) ∷ (2, nonce_row nonce_b) ∷ [];
  inbound = (1, event_row) ∷ [];
  applied = (leave_decision, leave_command) ∷ [];
}

fails_first :
    receive_event crates json urls
      (λ bytes. some (raw_of "membership_leave" leave_payload))
      (λ b. b)
      (λ b. b)
      beta
      empty
      fails
    ≡ (after_failure, err AppError.internal)
unfolding receive_event guarded identity_from_headers trim parse_i64 canonical_request join
    canonical_parts to_string validate_peer_id validate_key_id validate_nonce verify_signature
    validate_method validate_path_and_query new key_for add_key key_outside_window receive_verified
    reserve_replay_nonce conflicts insert from_json parse_event_kind valid_event_id valid_peer_id
    allowed_payload_fields checks_pass required_payload_id valid_payload_id optional_short_string
    validate_ingress_envelope runtime_propagation_allowed command_from_envelope record_event
    after_insert apply_event insert_inbound_event as_str
fails_first = refl

-- The retry is answered as accepted, and its command is not applied.
retry_accepted :
    receive_event crates json urls
      (λ bytes. some (raw_of "membership_leave" leave_payload))
      (λ b. b)
      (λ b. b)
      beta
      after_failure
      retries
    ≡ (after_retry, ok (record { accepted = true; duplicate = true; event_id = ascii "event-1" }))
unfolding receive_event guarded identity_from_headers trim parse_i64 canonical_request join
    canonical_parts to_string validate_peer_id validate_key_id validate_nonce verify_signature
    validate_method validate_path_and_query new key_for add_key key_outside_window receive_verified
    reserve_replay_nonce conflicts insert from_json parse_event_kind valid_event_id valid_peer_id
    allowed_payload_fields checks_pass required_payload_id valid_payload_id optional_short_string
    validate_ingress_envelope runtime_propagation_allowed command_from_envelope record_event
    after_insert apply_event insert_inbound_event as_str
retry_accepted = refl

receive_all-applied_once_example :
    times_applied alpha
      (ascii "event-1")
      (receive_all crates json urls
        (λ bytes. some (raw_of "membership_leave" leave_payload))
        (λ b. b)
        (λ b. b)
        beta
        empty
        (fails ∷ retries ∷ [])).applied
    ≤ 1
receive_all-applied_once_example =
    receive_all-applied_once crates json urls
      (λ bytes. some (raw_of "membership_leave" leave_payload)) (λ b. b) (λ b. b) beta alpha
      (ascii "event-1") [] (fails ∷ retries ∷ [])

receive_all-recorded_example :
    (times_applied alpha
        (ascii "event-1")
        (receive_all crates json urls
          (λ bytes. some (raw_of "membership_leave" leave_payload))
          (λ b. b)
          (λ b. b)
          beta
          after_failure
          (retries ∷ [])).applied
      ≡ 1)
    × (is_recorded
          (receive_all crates json urls
            (λ bytes. some (raw_of "membership_leave" leave_payload))
            (λ b. b)
            (λ b. b)
            beta
            after_failure
            (retries ∷ [])).inbound
          alpha
          (ascii "event-1")
        ≡ true)
receive_all-recorded_example =
    receive_all-recorded crates json urls (λ bytes. some (raw_of "membership_leave" leave_payload))
      (λ b. b) (λ b. b) beta alpha (ascii "event-1") after_failure (retries ∷ []) refl
