-- ===== src/Federation/Auth/Accepted.antt =====
-- What a request that is accepted (server-rs/src/federation/auth.rs) has shown.
use verdant_backend.Prelude.{
  ℕ, zero, suc, ◌≡◌, ◌≤◌, ◌<◌, ◌^◌, refl, true, false, not, List, some, nat_eq, list_eq, string_eq,
  ◌=?◌, leb, leb→le, ◌==◌, length, arith,
}
use verdant_backend.Prelude.OptionMonad.{unwrap_or}
use verdant_backend.Prelude.Result.{ok, bind_ok, ensure_ok, ok_or_ok, ok_same}
use verdant_backend.Federation.Names.{
  validate_method, validate_path_and_query, validate_peer_id, validate_key_id, validate_nonce,
}
use verdant_backend.Federation.Crates.{Crates}
use verdant_backend.Federation.Decimal.{ℤ, pos, negsuc, parse_i64, parse_i64_bound}
use verdant_backend.Federation.Auth.{
  VerifyError, FederationPeerKey, VerifiedFederationRequest, ParsedHeaders,
  FederationRequestVerifier, canonical_request, key_outside_window, abs_diff, positive,
  algorithm_name, header_algorithm, header_source, header_destination, header_key_id,
  header_timestamp, header_nonce, header_body_hash, header_signature,
}
use verdant_backend.Federation.Auth.Requests.{
  HeaderMap, from_headers, required_header, body_sha256, verify_signature, check_signature,
  decode_signature,
}

module _ (c : Crates) where
  -- Headers that are parsed have passed the validators.
  pub record IsParsed (parsed : ParsedHeaders) : Type 0 where
    pub source_ok : validate_peer_id parsed.source_peer_id ≡ true
    pub destination_ok : validate_peer_id parsed.destination_peer_id ≡ true
    pub key_id_ok : validate_key_id parsed.key_id ≡ true
    pub nonce_ok : validate_nonce parsed.nonce ≡ true
    pub timestamp_ok : (1 ≤ parsed.timestamp_ms) × (parsed.timestamp_ms < 2 ^ 63)

  positive_bound :
      (text : List ℕ) (z : ℤ) (t : ℕ)
      → parse_i64 text ≡ some z
      → positive z ≡ some t
      → (1 ≤ t) × (t < 2 ^ 63)
  positive_bound text (pos zero) t h k = cc
  positive_bound text (pos (suc n)) t h k =
      let b = parse_i64_bound text (suc n) h in (ground arith, ground arith)
  positive_bound text (negsuc n) t h k = cc

  pub from_headers-IsParsed :
      (headers : HeaderMap c) (parsed : ParsedHeaders)
      → from_headers c headers ≡ ok parsed
      → IsParsed parsed
  unfolding from_headers
  from_headers-IsParsed headers parsed h =
      let (algorithm, _, h1) = bind_ok (required_header c headers header_algorithm) h in
      let (source, _, h2) = bind_ok (required_header c headers header_source) h1 in
      let (destination, _, h3) = bind_ok (required_header c headers header_destination) h2 in
      let (key, _, h4) = bind_ok (required_header c headers header_key_id) h3 in
      let (text, _, h5) = bind_ok (required_header c headers header_timestamp) h4 in
      let (z, read, h6) = ok_or_ok VerifyError.malformed_header (parse_i64 text) h5 in
      let (nonce, _, h7) = bind_ok (required_header c headers header_nonce) h6 in
      let (hash, _, h8) = bind_ok (required_header c headers header_body_hash) h7 in
      let (signature, _, h9) = bind_ok (required_header c headers header_signature) h8 in
      let (source_ok, h10) = ensure_ok VerifyError.malformed_header (validate_peer_id source) h9 in
      let (dest_ok, h11) =
        ensure_ok VerifyError.malformed_header (validate_peer_id destination) h10 in
      let (key_ok, h12) = ensure_ok VerifyError.malformed_header (validate_key_id key) h11 in
      let (nonce_ok, h13) = ensure_ok VerifyError.malformed_header (validate_nonce nonce) h12 in
      let (t, positive_t, h14) = ok_or_ok VerifyError.malformed_header (positive z) h13 in
      let (length_ok, h15) = ensure_ok VerifyError.malformed_header (length hash == 43) h14 in
      rw (← ok_same refl h15) (record {
        source_ok = source_ok;
        destination_ok = dest_ok;
        key_id_ok = key_ok;
        nonce_ok = nonce_ok;
        timestamp_ok = positive_bound text z t read positive_t;
      })

  -- What stands behind an accepted request: its fields, and a key of the store that is valid at its
  -- time and verifies a signature of the request's canonical text.
  pub record IsAccepted (v : FederationRequestVerifier) (clock : ℕ) (method path body : List ℕ)
      (verified : VerifiedFederationRequest) : Type 0 where
    pub method_ok : validate_method method ≡ true
    pub path_ok : validate_path_and_query path ≡ true
    pub source_ok : validate_peer_id verified.source_peer_id ≡ true
    pub destination_ok : validate_peer_id verified.destination_peer_id ≡ true
    pub key_id_ok : validate_key_id verified.key_id ≡ true
    pub nonce_ok : validate_nonce verified.nonce ≡ true
    pub timestamp_ok : (1 ≤ verified.timestamp_ms) × (verified.timestamp_ms < 2 ^ 63)
    pub destination_eq : verified.destination_peer_id ≡ v.destination_peer_id
    pub body_eq : verified.body_sha256 ≡ body_sha256 c body
    pub fresh : abs_diff (unwrap_or clock v.now_ms) verified.timestamp_ms ≤ v.max_timestamp_skew_ms
    pub key : FederationPeerKey
    pub key_found : v.key_store verified.source_peer_id verified.key_id ≡ some key
    pub key_valid : key_outside_window key verified.timestamp_ms ≡ false
    pub verifying_key : c.VerifyingKey
    pub key_read : c.from_bytes key.public_key ≡ some verifying_key
    pub signature : c.Signature
    pub signed :
        c.verify_bytes verifying_key
          (canonical_request method path verified.source_peer_id verified.destination_peer_id
            verified.key_id verified.timestamp_ms verified.nonce verified.body_sha256)
          signature
        ≡ true

  -- The request that a success of the last check returns, and the signature that it checked.
  check_signature-ok :
      (key : FederationPeerKey) (method path : List ℕ) (parsed : ParsedHeaders)
      (verified : VerifiedFederationRequest)
      → check_signature c key method path parsed ≡ ok verified
      → (verified ≡ record {
        source_peer_id = parsed.source_peer_id;
        destination_peer_id = parsed.destination_peer_id;
        key_id = parsed.key_id;
        nonce = parsed.nonce;
        timestamp_ms = parsed.timestamp_ms;
        body_sha256 = parsed.body_sha256;
      })
        × (k : c.VerifyingKey) × (c.from_bytes key.public_key ≡ some k)
        × (s : c.Signature) × (decode_signature c parsed.signature ≡ ok s)
        × (c.verify_bytes k
              (canonical_request method path parsed.source_peer_id parsed.destination_peer_id
                parsed.key_id parsed.timestamp_ms parsed.nonce parsed.body_sha256)
              s
            ≡ true)
  unfolding check_signature
  check_signature-ok key method path parsed verified h =
      let (k, read, h1) = ok_or_ok VerifyError.unknown_peer_key (c.from_bytes key.public_key) h in
      let (s, decoded, h2) = bind_ok (decode_signature c parsed.signature) h1 in
      let (signed, h3) =
        ensure_ok VerifyError.invalid_signature
          (c.verify_bytes k
            (canonical_request method path parsed.source_peer_id parsed.destination_peer_id
              parsed.key_id parsed.timestamp_ms parsed.nonce parsed.body_sha256)
            s)
          h2 in
      (ok_same h3 refl, k, read, s, decoded, signed)

  -- An accepted request has a method, path, source, destination, key id and nonce that pass the
  -- validators, a positive timestamp of 63 bits within the skew of the clock, the verifier's own
  -- peer as destination, the hash of the body, and a key of the store for its source and key id
  -- that is in its validity window and verifies a signature of the canonical text.
  pub verify_signature-IsAccepted :
      (v : FederationRequestVerifier) (clock : ℕ) (method path : List ℕ) (headers : HeaderMap c)
      (body : List ℕ) (verified : VerifiedFederationRequest)
      → verify_signature c v clock method path headers body ≡ ok verified
      → IsAccepted v clock method path body verified
  unfolding verify_signature
  verify_signature-IsAccepted v clock method path headers body verified h =
      let (method_ok, h1) = ensure_ok VerifyError.malformed_header (validate_method method) h in
      let (path_ok, h2) =
        ensure_ok VerifyError.malformed_header (validate_path_and_query path) h1 in
      let (parsed, from, h3) = bind_ok (from_headers c headers) h2 in
      let p = from_headers-IsParsed headers parsed from in
      let (algorithm_ok, h4) =
        ensure_ok VerifyError.unsupported_algorithm (parsed.algorithm =? algorithm_name) h3 in
      let (destination_eq, h5) =
        ensure_ok VerifyError.destination_mismatch
          (parsed.destination_peer_id =? v.destination_peer_id) h4 in
      let (body_eq, h6) =
        ensure_ok VerifyError.body_hash_mismatch (parsed.body_sha256 =? body_sha256 c body) h5 in
      let (fresh, h7) =
        ensure_ok VerifyError.timestamp_outside_window
          (leb (abs_diff (unwrap_or clock v.now_ms) parsed.timestamp_ms) v.max_timestamp_skew_ms)
          h6 in
      let (key, found, h8) =
        ok_or_ok VerifyError.unknown_peer_key (v.key_store parsed.source_peer_id parsed.key_id)
          h7 in
      let (in_window, h9) =
        ensure_ok VerifyError.key_outside_validity_window
          (not (key_outside_window key parsed.timestamp_ms)) h8 in
      let (same, k, read, s, _, signed) = check_signature-ok key method path parsed verified h9 in
      rw same (record {
        method_ok = method_ok;
        path_ok = path_ok;
        source_ok = p.source_ok;
        destination_ok = p.destination_ok;
        key_id_ok = p.key_id_ok;
        nonce_ok = p.nonce_ok;
        timestamp_ok = p.timestamp_ok;
        destination_eq = (list_eq.beq_iff _ _).0 destination_eq;
        body_eq = (list_eq.beq_iff _ _).0 body_eq;
        fresh = leb→le _ _ fresh;
        key = key;
        key_found = found;
        key_valid = ground (arith, in_window);
        verifying_key = k;
        key_read = read;
        signature = s;
        signed = signed;
      })

  -- A signature that the headers carry.
  abbrev pub Presents : HeaderMap c → c.Signature → Type 0
  Presents headers s =
      (parsed : ParsedHeaders) × (from_headers c headers ≡ ok parsed)
      × (decode_signature c parsed.signature ≡ ok s)

  -- The signature in the headers of an accepted request verifies the canonical text under a key of the store.
  pub verify_signature-presented :
      (v : FederationRequestVerifier) (clock : ℕ) (method path : List ℕ) (headers : HeaderMap c)
      (body : List ℕ) (verified : VerifiedFederationRequest)
      → verify_signature c v clock method path headers body ≡ ok verified
      → (s : c.Signature) × Presents headers s
        × (key : FederationPeerKey) × (v.key_store verified.source_peer_id verified.key_id
            ≡ some key)
        × (k : c.VerifyingKey) × (c.from_bytes key.public_key ≡ some k)
        × (c.verify_bytes k
              (canonical_request method path verified.source_peer_id verified.destination_peer_id
                verified.key_id verified.timestamp_ms verified.nonce verified.body_sha256)
              s
            ≡ true)
  unfolding verify_signature
  verify_signature-presented v clock method path headers body verified h =
      let (_, h1) = ensure_ok VerifyError.malformed_header (validate_method method) h in
      let (_, h2) = ensure_ok VerifyError.malformed_header (validate_path_and_query path) h1 in
      let (parsed, from, h3) = bind_ok (from_headers c headers) h2 in
      let (_, h4) =
        ensure_ok VerifyError.unsupported_algorithm (parsed.algorithm =? algorithm_name) h3 in
      let (_, h5) =
        ensure_ok VerifyError.destination_mismatch
          (parsed.destination_peer_id =? v.destination_peer_id) h4 in
      let (_, h6) =
        ensure_ok VerifyError.body_hash_mismatch (parsed.body_sha256 =? body_sha256 c body) h5 in
      let (_, h7) =
        ensure_ok VerifyError.timestamp_outside_window
          (leb (abs_diff (unwrap_or clock v.now_ms) parsed.timestamp_ms) v.max_timestamp_skew_ms)
          h6 in
      let (key, found, h8) =
        ok_or_ok VerifyError.unknown_peer_key (v.key_store parsed.source_peer_id parsed.key_id)
          h7 in
      let (_, h9) =
        ensure_ok VerifyError.key_outside_validity_window
          (not (key_outside_window key parsed.timestamp_ms)) h8 in
      let (same, k, read, s, decoded, signed) =
        check_signature-ok key method path parsed verified h9 in
      rw same (s, (parsed, from, decoded), key, found, k, read, signed)
