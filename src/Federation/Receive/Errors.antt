-- ===== src/Federation/Receive/Errors.antt =====
-- The errors of the handler (server-rs/src/handlers/federation.rs).
use Prim.Native.String.{String}
use verdant_backend.Prelude.Result.{Result}
use verdant_backend.AppError.{AppError, AppResult, ok, err}
use verdant_backend.Federation.Kinds.{FederationProtocolError}
use verdant_backend.Federation.Auth.{VerifyError}
use verdant_backend.Federation.Protocol.{FederationIngressError}
use verdant_backend.Federation.Runtime.{FederationRuntimeError}

unfoldable pub federation_verify_error : VerifyError → AppError
federation_verify_error VerifyError.missing_header =
    AppError.with_code 400 "FEDERATION_INVALID_SIGNATURE_HEADERS" "Federation request was rejected"
federation_verify_error VerifyError.malformed_header =
    AppError.with_code 400 "FEDERATION_INVALID_SIGNATURE_HEADERS" "Federation request was rejected"
federation_verify_error VerifyError.unsupported_algorithm =
    AppError.with_code 400 "FEDERATION_UNSUPPORTED_SIGNATURE_ALGORITHM"
      "Federation request was rejected"
federation_verify_error VerifyError.destination_mismatch =
    AppError.with_code 401 "FEDERATION_DESTINATION_MISMATCH" "Federation request was rejected"
federation_verify_error VerifyError.body_hash_mismatch =
    AppError.with_code 401 "FEDERATION_BODY_HASH_MISMATCH" "Federation request was rejected"
federation_verify_error VerifyError.timestamp_outside_window =
    AppError.with_code 401 "FEDERATION_TIMESTAMP_EXPIRED" "Federation request was rejected"
federation_verify_error VerifyError.replay =
    AppError.with_code 401 "FEDERATION_REPLAY_REJECTED" "Federation request was rejected"
federation_verify_error VerifyError.unknown_peer_key =
    AppError.with_code 401 "FEDERATION_UNKNOWN_PEER_KEY" "Federation request was rejected"
federation_verify_error VerifyError.key_outside_validity_window =
    AppError.with_code 401 "FEDERATION_KEY_NOT_VALID" "Federation request was rejected"
federation_verify_error VerifyError.invalid_signature =
    AppError.with_code 401 "FEDERATION_INVALID_SIGNATURE" "Federation request was rejected"
federation_verify_error VerifyError.replay_store_unavailable =
    AppError.with_code 503 "FEDERATION_REPLAY_STORE_UNAVAILABLE" "Federation request was rejected"

abbrev rejected_envelope : String → AppError
rejected_envelope code = AppError.with_code 400 code "Federation event envelope was rejected"

unfoldable pub federation_protocol_error : FederationProtocolError → AppError
federation_protocol_error FederationProtocolError.malformed_json =
    rejected_envelope "FEDERATION_EVENT_MALFORMED_JSON"
federation_protocol_error FederationProtocolError.unsupported_version =
    rejected_envelope "FEDERATION_UNSUPPORTED_PROTOCOL_VERSION"
federation_protocol_error FederationProtocolError.unknown_event_kind =
    rejected_envelope "FEDERATION_UNKNOWN_EVENT_KIND"
federation_protocol_error FederationProtocolError.invalid_envelope =
    rejected_envelope "FEDERATION_INVALID_EVENT_ENVELOPE"
federation_protocol_error FederationProtocolError.invalid_payload =
    rejected_envelope "FEDERATION_INVALID_EVENT_PAYLOAD"

abbrev rejected_event : String → AppError
rejected_event code = AppError.with_code 400 code "Federation event was rejected"

unfoldable pub federation_ingress_error : FederationIngressError → AppError
federation_ingress_error FederationIngressError.source_mismatch =
    rejected_event "FEDERATION_EVENT_SOURCE_MISMATCH"
federation_ingress_error FederationIngressError.destination_mismatch =
    rejected_event "FEDERATION_EVENT_DESTINATION_MISMATCH"
federation_ingress_error FederationIngressError.unsupported_event_kind =
    rejected_event "FEDERATION_EVENT_KIND_UNSUPPORTED"
federation_ingress_error FederationIngressError.invalid_payload =
    rejected_event "FEDERATION_EVENT_INVALID_PAYLOAD"

unfoldable pub federation_runtime_error : FederationRuntimeError → AppError
federation_runtime_error FederationRuntimeError.unsupported_event_kind =
    rejected_event "FEDERATION_EVENT_KIND_UNSUPPORTED"
federation_runtime_error FederationRuntimeError.invalid_payload =
    rejected_event "FEDERATION_EVENT_INVALID_PAYLOAD"

abbrev pub federation_runtime_propagation_error : AppError
federation_runtime_propagation_error =
    AppError.with_code 403 "FEDERATION_RUNTIME_PROPAGATION_DISABLED"
      "Federation runtime propagation is disabled for server-owned backends"

abbrev pub body_too_large : AppError
body_too_large =
    AppError.with_code 413 "FEDERATION_EVENT_BODY_TOO_LARGE" "Federation event body is too large"

-- `r.map_err(f)`.
abbrev pub or_app : {A E : Type 0} → (E → AppError) → Result A E → AppResult A
or_app f (Result.ok a) = ok a
or_app f (Result.err e) = err (f e)
