-- ===== src/Federation/Auth/SingleKey.antt =====
-- A verifier whose store holds one key, as the handlers of server-rs/src/handlers/federation.rs and
-- invites.rs make it: the key that the database has for the identity in the headers.
use verdant_backend.Prelude.{
  ℕ, ◌≡◌, refl, sym, ap, ◌∙◌, not, List, [], some, none, nat_eq, list_eq, pair_eq, pair_beq_iff,
  ◌=?◌, leb, if◌then◌else◌,
}
use verdant_backend.Prelude.Dict.{lookup}
use verdant_backend.Prelude.Dict as Dict
use verdant_backend.Prelude.OptionMonad.{unwrap_or}
use verdant_backend.Prelude.Result.{
  ok, bind_ok, ok_same, ensure_same, bind_same, ok_or, ensure, ◌>>=◌, ◌>>◌,
}
use verdant_backend.Federation.Names.{validate_method, validate_path_and_query}
use verdant_backend.Federation.Crates.{Crates}
use verdant_backend.Federation.Auth.{
  VerifyError, FederationPeerKey, FederationRequestIdentity, FederationRequestVerifier,
  ParsedHeaders, PeerKeyStore, algorithm_name, abs_diff, key_outside_window,
}
use verdant_backend.Federation.Auth.Requests.{
  HeaderMap, from_headers, identity_from_headers, body_sha256, verify_signature, check_signature,
}
use verdant_backend.Federation.Auth.Stores.{insert, key_for}

-- The store of one key.
abbrev pub single : FederationPeerKey → PeerKeyStore
single key = key_for (insert (record { keys = [] }) key)

key_for-single : (key : FederationPeerKey) → single key key.peer_id key.key_id ≡ some key
unfolding key_for insert Dict.insert
key_for-single key =
    ap (λ t. if t then some key else none)
      ((pair_beq_iff (key.peer_id, key.key_id) (key.peer_id, key.key_id)).1 refl)

module _ (c : Crates) where
  abbrev pub with_store : FederationRequestVerifier → PeerKeyStore → FederationRequestVerifier
  with_store v store = record v { key_store = store }

  identity-parsed :
      (headers : HeaderMap c) (identity : FederationRequestIdentity)
      → identity_from_headers c headers ≡ ok identity
      → (parsed : ParsedHeaders) × (from_headers c headers ≡ ok parsed)
        × (parsed.source_peer_id ≡ identity.source_peer_id)
        × (parsed.key_id ≡ identity.key_id)
  unfolding identity_from_headers
  identity-parsed headers identity h =
      let (parsed, from, h1) = bind_ok (from_headers c headers) h in
      let same = ok_same refl h1 in
      (parsed, from, ap (λ i. i.source_peer_id) same, ap (λ i. i.key_id) same)

  -- Stores that agree at the parsed source and key id.
  verify_signature-stores :
      (v : FederationRequestVerifier) (a b : PeerKeyStore) (clock : ℕ) (method path : List ℕ)
      (headers : HeaderMap c) (body : List ℕ) (parsed : ParsedHeaders)
      → from_headers c headers ≡ ok parsed
      → a parsed.source_peer_id parsed.key_id ≡ b parsed.source_peer_id parsed.key_id
      → verify_signature c (with_store v a) clock method path headers body
        ≡ verify_signature c (with_store v b) clock method path headers body
  unfolding verify_signature
  verify_signature-stores v a b clock method path headers body parsed from same =
      ensure_same VerifyError.malformed_header (validate_method method) (
        ensure_same VerifyError.malformed_header (validate_path_and_query path) (
          bind_same (from_headers c headers) _ _ from (
            ensure_same VerifyError.unsupported_algorithm (parsed.algorithm =? algorithm_name) (
              ensure_same VerifyError.destination_mismatch
                (parsed.destination_peer_id =? v.destination_peer_id)
                (ensure_same VerifyError.body_hash_mismatch
                  (parsed.body_sha256 =? body_sha256 c body)
                  (ensure_same VerifyError.timestamp_outside_window
                    (leb (abs_diff (unwrap_or clock v.now_ms) parsed.timestamp_ms)
                      v.max_timestamp_skew_ms)
                    (ap
                      (λ o. ok_or VerifyError.unknown_peer_key o >>= (λ key.
                        ensure VerifyError.key_outside_validity_window
                          (not (key_outside_window key parsed.timestamp_ms))
                        >> check_signature c key method path parsed))
                      same)))))))

  -- A verifier whose store holds only the key that its full store has for the identity in the
  -- headers, where that key is of this peer and id, answers a request as the verifier with the
  -- full store does, accepted or refused.
  pub verify_signature-single :
      (v : FederationRequestVerifier) (clock : ℕ) (method path : List ℕ) (headers : HeaderMap c)
      (body : List ℕ) (identity : FederationRequestIdentity) (key : FederationPeerKey)
      → identity_from_headers c headers ≡ ok identity
      → v.key_store identity.source_peer_id identity.key_id ≡ some key
      → key.peer_id ≡ identity.source_peer_id
      → key.key_id ≡ identity.key_id
      → verify_signature c (with_store v (single key)) clock method path headers body
        ≡ verify_signature c v clock method path headers body
  verify_signature-single v clock method path headers body identity key h found of_peer of_id =
      let (parsed, from, peer, id) = identity-parsed headers identity h in
      let here : single key parsed.source_peer_id parsed.key_id ≡ some key =
        rw (peer, id, ← of_peer, ← of_id) (key_for-single key) in
      let there : v.key_store parsed.source_peer_id parsed.key_id ≡ some key =
        rw (peer, id) found in
      verify_signature-stores v (single key) v.key_store clock method path headers body parsed from
        (here ∙ sym there)
