-- ===== src/Federation/Auth/Requests.antt =====
-- `FederationRequestSigner`, `ParsedHeaders` and `FederationRequestVerifier` of
-- server-rs/src/federation/auth.rs.
use Prim.Native.String.{String}
use verdant_backend.Prelude.{
  ℕ, not, ◌||◌, List, [], string_eq, nat_eq, list_eq, ◌=?◌, leb, ◌==◌, length,
}
use verdant_backend.Prelude.Dict.{Dict, lookup, insert}
use verdant_backend.Prelude.HashSet.{is_empty}
use verdant_backend.Prelude.OptionMonad.{unwrap_or}
use verdant_backend.Prelude.Result.{Result, ok, err, ◌>>=◌, ◌>>◌, ok_or, ensure}
use verdant_backend.Federation.Decimal.{ℤ, to_string, parse_i64}
use verdant_backend.Federation.Names.{
  validate_method, validate_path_and_query, validate_peer_id, validate_key_id, validate_nonce,
  max_header_value_chars,
}
use verdant_backend.Federation.Crates.{Crates}
use verdant_backend.Federation.Auth.{
  SignError, VerifyError, FederationPeerKey, VerifiedFederationRequest, FederationRequestIdentity,
  ParsedHeaders, FederationRequestVerifier, NonceStore, algorithm_name, header_algorithm,
  header_source, header_destination, header_key_id, header_timestamp, header_nonce,
  header_body_hash, header_signature, positive, trim, canonical_request, key_outside_window,
  abs_diff,
}

module _ (c : Crates) where
  abbrev pub HeaderMap : Type 0
  HeaderMap = Dict String c.HeaderValue

  pub record FederationRequestSigner : Type 0 where
    pub source_peer_id : List ℕ
    pub key_id : List ℕ
    pub signing_key : c.SigningKey

  unfoldable pub from_seed : List ℕ → List ℕ → List ℕ → Result FederationRequestSigner SignError
  from_seed source_peer_id key_id seed = do
    ensure SignError.invalid_input (validate_peer_id source_peer_id)
    ensure SignError.invalid_input (validate_key_id key_id)
    ok (record {
      source_peer_id = source_peer_id;
      key_id = key_id;
      signing_key = c.signing_key_from_bytes seed;
    })

  unfoldable pub public_key_bytes : FederationRequestSigner → List ℕ
  public_key_bytes signer = c.to_bytes (c.verifying_key signer.signing_key)

  unfoldable pub body_sha256 : List ℕ → List ℕ
  body_sha256 body = c.encode (c.digest body)

  unfoldable pub insert_header : HeaderMap → String → List ℕ → Result HeaderMap SignError
  unfolding insert
  insert_header headers name value = do
    value ← ok_or SignError.invalid_header_value (c.from_str value)
    ok (insert name value headers)

  unfoldable pub sign :
      FederationRequestSigner
      → List ℕ
      → List ℕ
      → List ℕ
      → List ℕ
      → ℤ
      → List ℕ
      → Result HeaderMap SignError
  unfolding insert_header body_sha256
  sign signer method path_and_query destination_peer_id body timestamp_ms nonce = do
    ensure SignError.invalid_input (validate_method method)
    ensure SignError.invalid_input (validate_path_and_query path_and_query)
    ensure SignError.invalid_input (validate_peer_id destination_peer_id)
    ensure SignError.invalid_input (validate_nonce nonce)
    t ← ok_or SignError.invalid_input (positive timestamp_ms)
    let hash : List ℕ = body_sha256 body
    let canonical : List ℕ =
        canonical_request method path_and_query signer.source_peer_id destination_peer_id
          signer.key_id t nonce hash
    let signature : List ℕ =
        c.encode (c.signature_to_bytes (c.sign_bytes signer.signing_key canonical))
    headers ← insert_header [] header_algorithm algorithm_name
    headers ← insert_header headers header_source signer.source_peer_id
    headers ← insert_header headers header_destination destination_peer_id
    headers ← insert_header headers header_key_id signer.key_id
    headers ← insert_header headers header_timestamp (to_string t)
    headers ← insert_header headers header_nonce nonce
    headers ← insert_header headers header_body_hash hash
    insert_header headers header_signature signature

  unfoldable pub required_header : HeaderMap → String → Result (List ℕ) VerifyError
  required_header headers name = do
    value ← ok_or VerifyError.missing_header (lookup name headers)
    text ← ok_or VerifyError.malformed_header (c.to_str value)
    let trimmed : List ℕ = trim text
    ensure VerifyError.malformed_header
        (not (is_empty trimmed || not (leb (length trimmed) max_header_value_chars)))
    ok trimmed

  unfoldable pub from_headers : HeaderMap → Result ParsedHeaders VerifyError
  unfolding required_header
  from_headers headers = do
    algorithm ← required_header headers header_algorithm
    source_peer_id ← required_header headers header_source
    destination_peer_id ← required_header headers header_destination
    key_id ← required_header headers header_key_id
    timestamp ← required_header headers header_timestamp
    timestamp_ms ← ok_or VerifyError.malformed_header (parse_i64 timestamp)
    nonce ← required_header headers header_nonce
    body_sha256 ← required_header headers header_body_hash
    signature ← required_header headers header_signature
    ensure VerifyError.malformed_header (validate_peer_id source_peer_id)
    ensure VerifyError.malformed_header (validate_peer_id destination_peer_id)
    ensure VerifyError.malformed_header (validate_key_id key_id)
    ensure VerifyError.malformed_header (validate_nonce nonce)
    t ← ok_or VerifyError.malformed_header (positive timestamp_ms)
    ensure VerifyError.malformed_header (length body_sha256 == 43)
    ok (record {
      algorithm = algorithm;
      source_peer_id = source_peer_id;
      destination_peer_id = destination_peer_id;
      key_id = key_id;
      timestamp_ms = t;
      nonce = nonce;
      body_sha256 = body_sha256;
      signature = signature;
    })

  unfoldable pub identity_from_headers : HeaderMap → Result FederationRequestIdentity VerifyError
  unfolding from_headers
  identity_from_headers headers = do
    parsed ← from_headers headers
    ok (record { source_peer_id = parsed.source_peer_id; key_id = parsed.key_id })

  unfoldable pub decode_signature : List ℕ → Result c.Signature VerifyError
  decode_signature value = do
    bytes ← ok_or VerifyError.malformed_header (c.decode value)
    ok_or VerifyError.malformed_header (c.signature_try_from bytes)

  -- The signature over the canonical text of the request, under the key found.
  unfoldable pub check_signature :
      FederationPeerKey
      → List ℕ
      → List ℕ
      → ParsedHeaders
      → Result VerifiedFederationRequest VerifyError
  unfolding decode_signature
  check_signature key method path_and_query parsed = do
    let canonical : List ℕ =
        canonical_request method path_and_query parsed.source_peer_id parsed.destination_peer_id
          parsed.key_id parsed.timestamp_ms parsed.nonce parsed.body_sha256
    verifying_key ← ok_or VerifyError.unknown_peer_key (c.from_bytes key.public_key)
    signature ← decode_signature parsed.signature
    ensure VerifyError.invalid_signature (c.verify_bytes verifying_key canonical signature)
    ok (record {
      source_peer_id = parsed.source_peer_id;
      destination_peer_id = parsed.destination_peer_id;
      key_id = parsed.key_id;
      nonce = parsed.nonce;
      timestamp_ms = parsed.timestamp_ms;
      body_sha256 = parsed.body_sha256;
    })

  unfoldable pub verify_signature :
      FederationRequestVerifier
      → ℕ
      → List ℕ
      → List ℕ
      → HeaderMap
      → List ℕ
      → Result VerifiedFederationRequest VerifyError
  unfolding from_headers body_sha256 check_signature
  verify_signature v clock method path_and_query headers body = do
    ensure VerifyError.malformed_header (validate_method method)
    ensure VerifyError.malformed_header (validate_path_and_query path_and_query)
    parsed ← from_headers headers
    ensure VerifyError.unsupported_algorithm (parsed.algorithm =? algorithm_name)
    ensure VerifyError.destination_mismatch (parsed.destination_peer_id =? v.destination_peer_id)
    ensure VerifyError.body_hash_mismatch (parsed.body_sha256 =? body_sha256 body)
    let now : ℕ = unwrap_or clock v.now_ms
    ensure VerifyError.timestamp_outside_window
        (leb (abs_diff now parsed.timestamp_ms) v.max_timestamp_skew_ms)
    key ← ok_or VerifyError.unknown_peer_key (v.key_store parsed.source_peer_id parsed.key_id)
    ensure VerifyError.key_outside_validity_window
        (not (key_outside_window key parsed.timestamp_ms))
    check_signature key method path_and_query parsed

  -- The second half of `verify`.
  abbrev pub reserve_nonce :
      {S : Type 0}
      → NonceStore S
      → S
      → Result VerifiedFederationRequest VerifyError
      → S × Result VerifiedFederationRequest VerifyError
  reserve_nonce reserve seen (err e) = (seen, err e)
  reserve_nonce reserve seen (ok verified) =
      let (after, reserved) =
        reserve seen verified.source_peer_id verified.nonce verified.timestamp_ms in
      (after, reserved >> ok verified)

  unfoldable pub verify :
      {S : Type 0}
      → NonceStore S
      → FederationRequestVerifier
      → S
      → ℕ
      → List ℕ
      → List ℕ
      → HeaderMap
      → List ℕ
      → S × Result VerifiedFederationRequest VerifyError
  unfolding verify_signature
  verify reserve v seen clock method path_and_query headers body =
      reserve_nonce reserve seen (verify_signature v clock method path_and_query headers body)
