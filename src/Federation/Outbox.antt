-- ===== src/Federation/Outbox.antt =====
-- The outbox of federation events: the plan after a failure and the statements on the table
-- federation_outbound_events (server-rs/src/federation/storage.rs), and what an answer of a peer
-- means (server-rs/src/federation/outbox.rs). Attempts are counted from 0 up, and a clock does not
-- read before 1970.
pub mod Statements
pub mod Dispatch
pub mod Plans
pub mod Codes
pub mod Settled
pub mod Claims
pub mod Queue
pub mod Retries
pub mod Cycles
mod Examples
use Prim.Native.String.{String}
use verdant_backend.Prelude.{
  ℕ, suc, ◌+◌, ◌-◌, ◌*◌, ◌^◌, Bool, true, false, not, ◌&&◌, ◌||◌, List, [], ◌∷◌, ◌++◌, Option, none,
  some, nat_eq, leb, ltb, ◌==◌, min, max, if◌then◌else◌, length, take,
}
use verdant_backend.Prelude.Ascii.{ascii}
use verdant_backend.Prelude.Dict.{Dict, lookup, modify, keys}
use verdant_backend.Prelude.HashSet.{is_empty}
use verdant_backend.Prelude.Result.{Result, ok, err}
use verdant_backend.Permissions.Search.{sort_by_key}
use verdant_backend.Federation.Decimal.{to_string}
use verdant_backend.Federation.Names.{is_ascii_alphanumeric}
use verdant_backend.Federation.Identity.{trim_start_matches, trim_end_matches}
use verdant_backend.Federation.Interfaces.{Json}
use verdant_backend.Federation.Auth.{SignError}
use verdant_backend.Federation.ReplayTable.{StorageError, storage, saturating_add, filter_keys}

abbrev pub outbound_retry_base_ms : ℕ
outbound_retry_base_ms = 1000

abbrev pub outbound_retry_max_ms : ℕ
outbound_retry_max_ms = 30000

abbrev pub outbound_max_attempts : ℕ
outbound_max_attempts = 8

abbrev pub outbound_max_error_code_chars : ℕ
outbound_max_error_code_chars = 96

pub data OutboxStatus : Type 0 where
  pending sending sent failed dead : OutboxStatus

pub record OutboundFailurePlan : Type 0 where
  pub status : OutboxStatus
  pub attempt_count : ℕ
  pub next_attempt_at_ms : Option ℕ
  pub last_error_code : List ℕ

-- `saturating_mul` of an `i64`.
unfoldable pub next_retry_at_ms : ℕ → ℕ → ℕ
next_retry_at_ms now_ms attempt_count =
    let delay : ℕ =
      min (min (outbound_retry_base_ms * 2 ^ min attempt_count 5) (2 ^ 63 - 1))
        outbound_retry_max_ms in
    saturating_add now_ms delay

abbrev pub is_code_byte : ℕ → Bool
is_code_byte b = is_ascii_alphanumeric b || (b == 95) || (b == 45)

-- The loop, with what it has pushed and whether that was a separator. A character outside ASCII is
-- several bytes, of which the first alone can push.
unfoldable pub sanitize_from : ℕ → Bool → List ℕ → List ℕ
sanitize_from len last_was_sep [] = []
sanitize_from len last_was_sep (b ∷ value) =
    let kept = sanitize_from (len + 1) false value in
    let separated = sanitize_from (len + 1) true value in
    let skipped = sanitize_from len true value in
    if leb outbound_max_error_code_chars len
    then []
    else if is_code_byte b
    then b ∷ kept
    else if not last_was_sep
    then 95 ∷ separated
    else skipped

unfoldable pub sanitize_outbound_error_code : List ℕ → List ℕ
unfolding sanitize_from
sanitize_outbound_error_code value =
    let trimmed : List ℕ =
      trim_end_matches 95 (trim_start_matches 95 (sanitize_from 0 false value)) in
    if is_empty trimmed then ascii "UNSPECIFIED_DELIVERY_FAILURE" else trimmed

-- `previous_attempt_count.saturating_add(1).max(1)` of an `i32`.
abbrev pub attempts_after : ℕ → ℕ
attempts_after previous_attempt_count = max (min (previous_attempt_count + 1) (2 ^ 31 - 1)) 1

unfoldable pub next_outbound_failure_plan : ℕ → ℕ → List ℕ → OutboundFailurePlan
unfolding next_retry_at_ms sanitize_outbound_error_code
next_outbound_failure_plan now_ms previous_attempt_count error_code =
    let attempt_count : ℕ = attempts_after previous_attempt_count in
    let is_dead : Bool = leb outbound_max_attempts attempt_count in
    record {
      status = if is_dead then dead else failed;
      attempt_count = attempt_count;
      next_attempt_at_ms =
          if is_dead then none else some (next_retry_at_ms now_ms previous_attempt_count);
      last_error_code = sanitize_outbound_error_code error_code;
    }

-- `Sent` is `delivered` here.
pub data FederationDeliveryDisposition : Type 0 where
  delivered : FederationDeliveryDisposition
  retryable_failure permanent_failure : List ℕ → FederationDeliveryDisposition

pub data FederationClientError : Type 0 where
  invalid_peer_endpoint build_request delivery : FederationClientError
  sign : SignError → FederationClientError

-- `is_success` and `is_server_error` are 2xx and 5xx.
unfoldable pub delivery_status_disposition : ℕ → FederationDeliveryDisposition
delivery_status_disposition status =
    let code : List ℕ = ascii "HTTP_" ++ to_string status in
    if leb 200 status && leb status 299
    then delivered
    else if (leb 500 status && leb status 599)
        || ((status == 408) || (status == 409) || (status == 425) || (status == 429))
    then retryable_failure code
    else permanent_failure code

unfoldable pub client_error_disposition : FederationClientError → FederationDeliveryDisposition
client_error_disposition delivery = retryable_failure (ascii "TRANSPORT_ERROR")
client_error_disposition invalid_peer_endpoint =
    permanent_failure (ascii "INVALID_DELIVERY_REQUEST")
client_error_disposition (sign _) = permanent_failure (ascii "INVALID_DELIVERY_REQUEST")
client_error_disposition build_request = permanent_failure (ascii "INVALID_DELIVERY_REQUEST")

module _ (j : Json) where
  -- A row by its id, without the times of creation and update, which no statement reads.
  -- `last_error_code` is NULL before a failure.
  pub record OutboundRow : Type 0 where
    pub destination_peer_id : List ℕ
    pub event_id : List ℕ
    pub event_kind : String
    pub payload_hash : List ℕ
    pub event_body_json : j.Value
    pub status : OutboxStatus
    pub attempt_count : ℕ
    pub next_attempt_at_ms : Option ℕ
    pub last_error_code : Option (List ℕ)

  abbrev pub OutboxTable : Type 0
  OutboxTable = Dict ℕ OutboundRow

  pub record ClaimedOutboundFederationEvent : Type 0 where
    pub id : ℕ
    pub destination_peer_id : List ℕ
    pub event_id : List ℕ
    pub event_kind : String
    pub payload_hash : List ℕ
    pub event_body_json : j.Value
    pub attempt_count : ℕ
