-- ===== src/Federation/Auth/Signed.antt =====
-- A request that is signed is accepted by whom it is meant for (server-rs/src/federation/auth.rs).
use verdant_backend.Prelude.{
  ℕ, suc, ◌≡◌, ◌≤◌, ◌<◌, ◌^◌, refl, sym, ap, ◌∙◌, true, false, not, List, [], some, nat_eq, list_eq,
  string_eq, eq_refl, ◌==◌, length, arith,
}
use verdant_backend.Prelude.Dict.{insert}
use verdant_backend.Prelude.OptionMonad.{unwrap_or}
use verdant_backend.Prelude.Result.{ok, ok_bind, ok_ensure, ok_some, ok_or-some}
use verdant_backend.Federation.Names.{
  validate_method, validate_path_and_query, validate_peer_id, validate_key_id, validate_nonce,
}
use verdant_backend.Federation.Crates.{Crates, Documented}
use verdant_backend.Federation.Decimal.{pos, to_string, parse_i64-to_string}
use verdant_backend.Federation.Auth.{
  SignError, VerifyError, FederationPeerKey, VerifiedFederationRequest, ParsedHeaders,
  FederationRequestVerifier, canonical_request, key_outside_window, abs_diff, algorithm_name,
  header_algorithm, header_source, header_destination, header_key_id, header_timestamp,
  header_nonce, header_body_hash, header_signature,
}
use verdant_backend.Federation.Auth.Requests.{
  HeaderMap, FederationRequestSigner, from_headers, body_sha256, verify_signature, check_signature,
  decode_signature, sign, public_key_bytes,
}
use verdant_backend.Federation.Auth.HeaderTexts.{
  IsHeaderText, peer_id_text, key_id_text, nonce_text, timestamp_text, encoded_text, header_value,
  insert_header_value, required_header_value,
}

module _ (c : Crates) where
  -- What a signer is given, and the texts that it writes.
  pub record SignInput (signer : FederationRequestSigner c) (method path destination nonce : List ℕ)
      (n : ℕ) : Type 0 where
    pub source_ok : validate_peer_id signer.source_peer_id ≡ true
    pub key_id_ok : validate_key_id signer.key_id ≡ true
    pub method_ok : validate_method method ≡ true
    pub path_ok : validate_path_and_query path ≡ true
    pub destination_ok : validate_peer_id destination ≡ true
    pub nonce_ok : validate_nonce nonce ≡ true
    pub bound : suc n < 2 ^ 63

  abbrev signature_of :
      FederationRequestSigner c → List ℕ → List ℕ → List ℕ → List ℕ → ℕ → List ℕ → c.Signature
  signature_of signer method path destination body t nonce = c.sign_bytes signer.signing_key (
      canonical_request method path signer.source_peer_id destination signer.key_id t nonce
        (body_sha256 c body))

  algorithm_text : IsHeaderText algorithm_name
  algorithm_text = record { graphic = refl; filled = refl; short = ground arith }

  module _ (d : Documented c) (signer : FederationRequestSigner c)
      (method path destination nonce body : List ℕ) (n : ℕ)
      (input : SignInput signer method path destination nonce n) where
    abbrev signature_bytes : List ℕ
    signature_bytes =
        c.encode
          (c.signature_to_bytes (signature_of signer method path destination body (suc n) nonce))

    hash_text : IsHeaderText (body_sha256 c body)
    unfolding body_sha256
    hash_text =
        encoded_text c d (c.digest body) (omega (arith, d.length_digest body))
          (omega (arith, d.length_digest body))

    hash_length : (length (body_sha256 c body) == 43) ≡ true
    unfolding body_sha256
    hash_length = rw (d.length_digest body) refl

    signature_text : IsHeaderText signature_bytes
    signature_text =
        let s : c.Signature = signature_of signer method path destination body (suc n) nonce in
        encoded_text c d (c.signature_to_bytes s) (omega (arith, d.length_signature s))
          (omega (arith, d.length_signature s))

    abbrev parsed_headers : ParsedHeaders
    parsed_headers = record {
      algorithm = algorithm_name;
      source_peer_id = signer.source_peer_id;
      destination_peer_id = destination;
      key_id = signer.key_id;
      timestamp_ms = suc n;
      nonce = nonce;
      body_sha256 = body_sha256 c body;
      signature = signature_bytes;
    }

    -- The headers after each insertion.
    abbrev with_algorithm : HeaderMap c
    with_algorithm = insert header_algorithm (header_value c d algorithm_name algorithm_text) []

    abbrev with_source : HeaderMap c
    with_source =
        insert header_source
          (header_value c d signer.source_peer_id
            (peer_id_text signer.source_peer_id input.source_ok))
          with_algorithm

    abbrev with_destination : HeaderMap c
    with_destination =
        insert header_destination
          (header_value c d destination (peer_id_text destination input.destination_ok)) with_source

    abbrev with_key_id : HeaderMap c
    with_key_id =
        insert header_key_id
          (header_value c d signer.key_id (key_id_text signer.key_id input.key_id_ok))
          with_destination

    abbrev with_timestamp : HeaderMap c
    with_timestamp =
        insert header_timestamp (header_value c d (to_string (suc n)) (timestamp_text (suc n)))
          with_key_id

    abbrev with_nonce : HeaderMap c
    with_nonce =
        insert header_nonce (header_value c d nonce (nonce_text nonce input.nonce_ok))
          with_timestamp

    abbrev with_body_hash : HeaderMap c
    with_body_hash =
        insert header_body_hash (header_value c d (body_sha256 c body) hash_text) with_nonce

    abbrev with_signature : HeaderMap c
    with_signature =
        insert header_signature (header_value c d signature_bytes signature_text) with_body_hash

    sign_lem : sign c signer method path destination body (pos (suc n)) nonce ≡ ok with_signature
    unfolding sign
    sign_lem = ok_ensure SignError.invalid_input _ _ input.method_ok (
        ok_ensure SignError.invalid_input _ _ input.path_ok (
          ok_ensure SignError.invalid_input _ _ input.destination_ok (
            ok_ensure SignError.invalid_input _ _ input.nonce_ok (
              ok_bind _ _
                (insert_header_value c d [] header_algorithm algorithm_name algorithm_text)
                (ok_bind _ _
                  (insert_header_value c d with_algorithm header_source signer.source_peer_id
                    (peer_id_text signer.source_peer_id input.source_ok))
                  (ok_bind _ _
                    (insert_header_value c d with_source header_destination destination
                      (peer_id_text destination input.destination_ok))
                    (ok_bind _ _
                      (insert_header_value c d with_destination header_key_id signer.key_id
                        (key_id_text signer.key_id input.key_id_ok))
                      (ok_bind _ _
                        (insert_header_value c d with_key_id header_timestamp (to_string (suc n))
                          (timestamp_text (suc n)))
                        (ok_bind _ _
                          (insert_header_value c d with_timestamp header_nonce nonce
                            (nonce_text nonce input.nonce_ok))
                          (ok_bind _ _
                            (insert_header_value c d with_nonce header_body_hash
                              (body_sha256 c body) hash_text)
                            (insert_header_value c d with_body_hash header_signature signature_bytes
                              signature_text)))))))))))

    from_headers_lem : from_headers c with_signature ≡ ok parsed_headers
    unfolding from_headers insert
    from_headers_lem =
        ok_bind _ _
          (required_header_value c d with_signature header_algorithm algorithm_name algorithm_text
            refl)
          (ok_bind _ _
            (required_header_value c d with_signature header_source signer.source_peer_id
              (peer_id_text signer.source_peer_id input.source_ok) refl)
            (ok_bind _ _
              (required_header_value c d with_signature header_destination destination
                (peer_id_text destination input.destination_ok) refl)
              (ok_bind _ _
                (required_header_value c d with_signature header_key_id signer.key_id
                  (key_id_text signer.key_id input.key_id_ok) refl)
                (ok_bind _ _
                  (required_header_value c d with_signature header_timestamp (to_string (suc n))
                    (timestamp_text (suc n)) refl)
                  (ok_some VerifyError.malformed_header _ _
                    (parse_i64-to_string (suc n) input.bound)
                    (ok_bind _ _
                      (required_header_value c d with_signature header_nonce nonce
                        (nonce_text nonce input.nonce_ok) refl)
                      (ok_bind _ _
                        (required_header_value c d with_signature header_body_hash
                          (body_sha256 c body) hash_text refl)
                        (ok_bind _ _
                          (required_header_value c d with_signature header_signature signature_bytes
                            signature_text refl)
                          (ok_ensure VerifyError.malformed_header _ _ input.source_ok (
                            ok_ensure VerifyError.malformed_header _ _ input.destination_ok (
                              ok_ensure VerifyError.malformed_header _ _ input.key_id_ok (
                                ok_ensure VerifyError.malformed_header _ _ input.nonce_ok (
                                  ok_ensure VerifyError.malformed_header _ _ hash_length
                                    refl)))))))))))))

    abbrev pub verified_request : VerifiedFederationRequest
    verified_request = record {
      source_peer_id = signer.source_peer_id;
      destination_peer_id = destination;
      key_id = signer.key_id;
      nonce = nonce;
      timestamp_ms = suc n;
      body_sha256 = body_sha256 c body;
    }

    check_signature_lem :
        (key : FederationPeerKey)
        → key.public_key ≡ public_key_bytes c signer
        → check_signature c key method path parsed_headers ≡ ok verified_request
    unfolding check_signature decode_signature public_key_bytes
    check_signature_lem key same =
        let s : c.Signature = signature_of signer method path destination body (suc n) nonce in
        ok_some VerifyError.unknown_peer_key _ _
          (ap c.from_bytes same ∙ d.key_read (c.verifying_key signer.signing_key))
          (ok_bind _ _
            (ok_some VerifyError.malformed_header _ _ (d.decode_encode s)
              (ok_or-some VerifyError.malformed_header (d.signature_read s)))
            (ok_ensure VerifyError.invalid_signature _ _ (d.verify_signed signer.signing_key _)
              refl))

    -- For a signer, method, path, destination and nonce that pass the validators and a positive
    -- timestamp of 63 bits, sign succeeds, and the headers are accepted for the same method, path
    -- and body by a verifier of that destination whose clock is within its skew and whose store
    -- holds the signer's public key as valid at that time; the verified request holds the signed
    -- values.
    pub sign-verify_signature :
        (v : FederationRequestVerifier) (clock : ℕ) (key : FederationPeerKey)
        → v.destination_peer_id ≡ destination
        → abs_diff (unwrap_or clock v.now_ms) (suc n) ≤ v.max_timestamp_skew_ms
        → v.key_store signer.source_peer_id signer.key_id ≡ some key
        → key.public_key ≡ public_key_bytes c signer
        → key_outside_window key (suc n) ≡ false
        → (headers : HeaderMap c) × (sign c signer method path destination body (pos (suc n)) nonce
            ≡ ok headers)
          × (verify_signature c v clock method path headers body ≡ ok verified_request)
    unfolding verify_signature
    sign-verify_signature v clock key mine fresh found same valid = (
      with_signature,
      sign_lem,
      ok_ensure VerifyError.malformed_header _ _ input.method_ok (
          ok_ensure VerifyError.malformed_header _ _ input.path_ok (
            ok_bind _ _ from_headers_lem (
              ok_ensure VerifyError.unsupported_algorithm _ _ (eq_refl algorithm_name) (
                ok_ensure VerifyError.destination_mismatch _ _
                  ((list_eq.beq_iff destination v.destination_peer_id).1 (sym mine))
                  (ok_ensure VerifyError.body_hash_mismatch _ _ (eq_refl (body_sha256 c body)) (
                    ok_ensure VerifyError.timestamp_outside_window _ _ (ground arith) (
                      ok_some VerifyError.unknown_peer_key _ _ found (
                        ok_ensure VerifyError.key_outside_validity_window _ _ (ap not valid)
                          (check_signature_lem key same))))))))),
    )
