-- ===== src/Federation/ReplayTable/Admission.antt =====
-- How a handler admits a request (server-rs/src/handlers/federation.rs): the signature, then the nonce
-- in the database; and runs of it beside the pruning of server-rs/src/federation/maintenance.rs.
use verdant_backend.Prelude.{
  ℕ, ◌+◌, ◌^◌, ◌≤◌, ◌<◌, ◌≡◌, Bool, true, false, ◌&&◌, List, [], ◌∷◌, nat_eq, list_eq, ◌=?◌, ◌==◌,
  any,
}
use verdant_backend.Prelude.Ascii.{ascii}
use verdant_backend.Prelude.Result.{Result, ok, err}
use verdant_backend.Federation.Crates.{Crates}
use verdant_backend.Federation.Auth.{
  VerifyError, VerifiedFederationRequest, FederationRequestVerifier,
}
use verdant_backend.Federation.Auth.Requests.{HeaderMap, verify_signature}
use verdant_backend.Federation.ReplayTable.{
  NonceTable, StorageError, reserve_replay_nonce, prune_expired_replay_nonces, replay_nonce_ttl_ms,
}

abbrev pub events_method : List ℕ
events_method = ascii "POST"

abbrev pub events_path : List ℕ
events_path = ascii "/api/federation/v1/events"

-- The answer of `federation_verify_error`, or `AppError::Internal`.
pub data Refusal : Type 0 where
  refused : VerifyError → Refusal
  internal : Refusal

-- The clock is read by the verifier and then again by the handler.
pub record Request (c : Crates) : Type 0 where
  pub clock : ℕ
  pub now_ms : ℕ
  pub id : ℕ
  pub answers : Bool
  pub headers : HeaderMap c
  pub body : List ℕ

-- What the handler makes of the answer of the reservation.
abbrev pub nonce_reserved :
    VerifiedFederationRequest
    → NonceTable × Result Bool StorageError
    → NonceTable × Result VerifiedFederationRequest Refusal
nonce_reserved verified (table, err _) = (table, err Refusal.internal)
nonce_reserved verified (table, ok false) = (table, err (Refusal.refused VerifyError.replay))
nonce_reserved verified (table, ok true) = (table, ok verified)

abbrev pub reserve_verified :
    NonceTable
    → ℕ
    → ℕ
    → Bool
    → Result VerifiedFederationRequest VerifyError
    → NonceTable × Result VerifiedFederationRequest Refusal
reserve_verified table id now_ms answers (err e) = (table, err (Refusal.refused e))
reserve_verified table id now_ms answers (ok verified) = nonce_reserved verified (
    reserve_replay_nonce answers table id verified.source_peer_id verified.key_id verified.nonce
      verified.timestamp_ms now_ms)

-- A table and what was accepted, the last one first.
pub record Ledger : Type 0 where
  pub table : NonceTable
  pub accepted : List VerifiedFederationRequest

abbrev pub note :
    List VerifiedFederationRequest → NonceTable × Result VerifiedFederationRequest Refusal → Ledger
note accepted (table, ok r) = record { table = table; accepted = r ∷ accepted }
note accepted (table, err _) = record { table = table; accepted = accepted }

module _ (c : Crates) where
  unfoldable pub admit :
      FederationRequestVerifier
      → NonceTable
      → Request c
      → NonceTable × Result VerifiedFederationRequest Refusal
  unfolding reserve_replay_nonce
  admit verifier table q =
      reserve_verified table q.id q.now_ms q.answers
        (verify_signature c verifier q.clock events_method events_path q.headers q.body)

  pub data Call : Type 0 where
    request : Request c → Call
    prune : (answers : Bool) (now_ms limit : ℕ) → Call

  unfoldable pub call_step : FederationRequestVerifier → Ledger → Call → Ledger
  unfolding admit prune_expired_replay_nonces
  call_step verifier ledger (request q) = note ledger.accepted (admit verifier ledger.table q)
  call_step verifier ledger (prune answers now_ms limit) = record {
    table = prune_expired_replay_nonces answers ledger.table now_ms limit;
    accepted = ledger.accepted;
  }

  unfoldable pub run_calls : FederationRequestVerifier → Ledger → List Call → Ledger
  unfolding call_step
  run_calls verifier ledger [] = ledger
  run_calls verifier ledger (call ∷ calls) =
      run_calls verifier (call_step verifier ledger call) calls

  -- The clock does not go back from call to call, and is below the end of an `i64`.
  abbrev pub Timely : ℕ → List Call → Type 0
  Timely t [] = Unit
  Timely t (request q ∷ calls) =
      (t ≤ q.clock)
      × (q.clock ≤ q.now_ms)
      × (q.now_ms + replay_nonce_ttl_ms < 2 ^ 63)
      × Timely q.now_ms calls
  Timely t (prune answers now_ms limit ∷ calls) = (t ≤ now_ms) × Timely now_ms calls

abbrev pub same_signed : VerifiedFederationRequest → VerifiedFederationRequest → Bool
same_signed r a =
    (a.source_peer_id =? r.source_peer_id)
    && (a.nonce =? r.nonce)
    && (a.timestamp_ms == r.timestamp_ms)

-- No source has two requests with one nonce and timestamp.
abbrev pub IsOnce : List VerifiedFederationRequest → Type 0
IsOnce [] = Unit
IsOnce (r ∷ accepted) = (any (same_signed r) accepted ≡ false) × IsOnce accepted
