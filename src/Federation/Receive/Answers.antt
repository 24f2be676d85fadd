-- ===== src/Federation/Receive/Answers.antt =====
-- What the outbox of a peer (server-rs/src/federation/outbox.rs) makes of the errors of the handler
-- (server-rs/src/handlers/federation.rs).
use verdant_backend.Prelude.{◌≡◌, ◌⊎◌}
use verdant_backend.Prelude.Ascii.{ascii}
use verdant_backend.AppError.{AppError, status_and_code}
use verdant_backend.Federation.Auth.{VerifyError}
use verdant_backend.Federation.Outbox.{
  FederationDeliveryDisposition, retryable_failure, permanent_failure, delivery_status_disposition,
}
use verdant_backend.Federation.Receive.Errors.{federation_verify_error}

-- The sender sees the status of the answer.
abbrev pub disposition_after : AppError → FederationDeliveryDisposition
disposition_after e = delivery_status_disposition (status_and_code e).0

-- Tried again is only what may pass: the store of nonces does not answer.
abbrev pub Outlasts : VerifyError → Type 0
Outlasts e =
    ((e ≡ VerifyError.replay_store_unavailable)
      × (disposition_after (federation_verify_error e) ≡ retryable_failure (ascii "HTTP_503")))
    ⊎ (disposition_after (federation_verify_error e) ≡ permanent_failure (ascii "HTTP_400"))
    ⊎ (disposition_after (federation_verify_error e) ≡ permanent_failure (ascii "HTTP_401"))
