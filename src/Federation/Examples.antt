-- ===== src/Federation/Examples.antt =====
-- Tests of signed requests, and their theorems at concrete requests (server-rs/src/federation/auth.rs).
use verdant_backend.Prelude.{
  ℕ, ◌≡◌, refl, sym, ap, ◌∙◌, Bool, true, false, List, [], ◌∷◌, none, nat_eq, list_eq, list_beq_iff,
  ◌=?◌, arith,
}
use verdant_backend.Prelude.Ascii.{ascii}
use verdant_backend.Prelude.Result.{ok, err, ok_same}
use verdant_backend.Federation.Decimal.{pos, to_string, parse_i64}
use verdant_backend.Federation.Names.{
  validate_peer_id, validate_key_id, validate_method, validate_path_and_query, validate_nonce,
}
use verdant_backend.Federation.Crates.{Crates}
use verdant_backend.Federation.Auth.{
  VerifyError, ParsedHeaders, algorithm_name, canonical_request, canonical_parts, join, trim,
  key_outside_window,
}
use verdant_backend.Federation.Auth.Requests.{
  HeaderMap, from_headers, decode_signature, from_seed, identity_from_headers, verify, body_sha256,
  public_key_bytes, sign, verify_signature,
}
use verdant_backend.Federation.Auth.Stores.{insert, key_for, new, with_now_ms, reserve}
use verdant_backend.Federation.Auth.Canonical.{IsValid, canonical_request-injective}
use verdant_backend.Federation.Auth.Accepted.{IsAccepted, Presents, verify_signature-IsAccepted}
use verdant_backend.Federation.Auth.Signed.{SignInput, sign-verify_signature}
use verdant_backend.Federation.Auth.Authentic.{IsUnforged, SignCall, verify_signature-signed}
use verdant_backend.Federation.Auth.SingleKey.{single, with_store, verify_signature-single}
use verdant_backend.Federation.Auth.Replay.{
  Arrival, NoRepeat, answer, run_from, run_from-NoRepeat, answer-run_from, start,
}
use verdant_backend.Federation.TestCrates.{
  crates_with, crates, crates_with-Documented, test_encode, bit_bytes, same_bit, crates_documented,
  alpha, beta, post, events, time_1, key_1, nonce_1, body_1, signer_with, signer, peer_key,
  verifier, hash_1, verified, headers_with, message_1, signature_1,
}

input_1 : SignInput crates signer post events beta nonce_1 999
unfolding validate_peer_id validate_key_id validate_method validate_path_and_query validate_nonce
input_1 = record {
  source_ok = refl;
  key_id_ok = refl;
  method_ok = refl;
  path_ok = refl;
  destination_ok = refl;
  nonce_ok = refl;
  bound = ground arith;
}

sign-verify_signature_example :
    (headers : HeaderMap crates) × (sign crates signer post events beta body_1 (pos 1000) nonce_1
      ≡ ok headers)
    × (verify_signature crates verifier 0 post events headers body_1 ≡ ok verified)
unfolding with_now_ms new key_for insert public_key_bytes key_outside_window body_sha256
sign-verify_signature_example =
    sign-verify_signature crates crates_documented signer post events beta nonce_1 body_1 999
      input_1 verifier 0 peer_key refl (ground arith) refl refl refl

-- The checks in the order of the source: a request for another peer, with another body, at another time.
verifier_for_other :
    verify_signature crates
      (new (ascii "c.example") (λ p k. none))
      1000
      post
      events
      (headers_with signature_1)
      body_1
    ≡ err VerifyError.destination_mismatch
unfolding verify_signature new with_now_ms key_for insert validate_method validate_path_and_query
    trim parse_i64 canonical_request join canonical_parts to_string validate_peer_id validate_key_id
    validate_nonce key_outside_window
verifier_for_other = refl

other_body :
    verify_signature crates verifier 0 post events (headers_with signature_1) []
    ≡ err VerifyError.body_hash_mismatch
unfolding verify_signature new with_now_ms key_for insert validate_method validate_path_and_query
    trim parse_i64 canonical_request join canonical_parts to_string validate_peer_id validate_key_id
    validate_nonce key_outside_window
other_body = refl

too_late :
    verify_signature crates
      (with_now_ms verifier 301001)
      0
      post
      events
      (headers_with signature_1)
      body_1
    ≡ err VerifyError.timestamp_outside_window
unfolding verify_signature new with_now_ms key_for insert validate_method validate_path_and_query
    trim parse_i64 canonical_request join canonical_parts to_string validate_peer_id validate_key_id
    validate_nonce key_outside_window
too_late = refl

no_headers :
    verify_signature crates verifier 0 post events [] body_1 ≡ err VerifyError.missing_header
unfolding verify_signature new with_now_ms key_for insert validate_method validate_path_and_query
    trim parse_i64 canonical_request join canonical_parts to_string validate_peer_id validate_key_id
    validate_nonce key_outside_window
no_headers = refl

accepted_1 :
    verify_signature crates verifier 0 post events (headers_with signature_1) body_1 ≡ ok verified
unfolding verify_signature new with_now_ms key_for insert validate_method validate_path_and_query
    trim parse_i64 canonical_request join canonical_parts to_string validate_peer_id validate_key_id
    validate_nonce key_outside_window
accepted_1 = refl

verify_signature-IsAccepted_example : IsAccepted crates verifier 0 post events body_1 verified
verify_signature-IsAccepted_example =
    verify_signature-IsAccepted crates verifier 0 post events (headers_with signature_1) body_1
      verified accepted_1

-- A holder of the key who signed the one message.
abbrev is_message_1 : List ℕ → Bool
is_message_1 message = message =? message_1

abbrev marking : Crates
marking = crates_with is_message_1

abbrev call_1 : SignCall marking
call_1 = record {
  method = post;
  path = events;
  destination = beta;
  body = body_1;
  timestamp_ms = pos 1000;
  nonce = nonce_1;
}

abbrev marked_headers : HeaderMap marking
marked_headers = headers_with (test_encode (bit_bytes true))

abbrev parsed_1 : ParsedHeaders
parsed_1 = record {
  algorithm = algorithm_name;
  source_peer_id = alpha;
  destination_peer_id = beta;
  key_id = key_1;
  nonce = nonce_1;
  timestamp_ms = 1000;
  body_sha256 = hash_1;
  signature = test_encode (bit_bytes true);
}

headers_parse : from_headers marking marked_headers ≡ ok parsed_1
unfolding from_headers trim parse_i64 validate_peer_id validate_key_id validate_nonce
headers_parse = refl

carried_true : (s : Bool) → Presents marking marked_headers s → s ≡ true
unfolding decode_signature
carried_true s (parsed, from, decoded) =
    let same = ok_same from headers_parse in
    ok_same (ap (λ x. decode_signature marking x.signature) (sym same) ∙ decoded) refl

same_bit-true : (b : Bool) → same_bit b true ≡ b
same_bit-true true = refl
same_bit-true false = refl

call_1-signed :
    sign marking (signer_with is_message_1) post events beta body_1 (pos 1000) nonce_1
    ≡ ok marked_headers
unfolding sign validate_method validate_path_and_query trim parse_i64 canonical_request join
    canonical_parts to_string validate_peer_id validate_key_id validate_nonce key_outside_window
    body_sha256
call_1-signed = refl

marking-IsUnforged :
    IsUnforged marking (signer_with is_message_1) (7 ∷ []) (λ call. call ≡ call_1) marked_headers
unfolding body_sha256
marking-IsUnforged = record {
  made_ok = λ call same. rw same (1000, refl, ground arith, marked_headers, call_1-signed);
  only_made = λ s message carried h. (
    call_1,
    1000,
    refl,
    refl,
    (list_beq_iff message message_1).0 (
        sym (same_bit-true (is_message_1 message))
        ∙ ap (same_bit (is_message_1 message)) (sym (carried_true s carried))
        ∙ h),
  );
}

marked_accepts : verify_signature marking verifier 0 post events marked_headers body_1 ≡ ok verified
unfolding verify_signature new with_now_ms key_for insert validate_method validate_path_and_query
    trim parse_i64 canonical_request join canonical_parts to_string validate_peer_id validate_key_id
    validate_nonce key_outside_window
marked_accepts = refl

verify_signature-signed_example :
    (call : SignCall marking) × (call ≡ call_1)
    × (call.method ≡ post)
    × (call.path ≡ events)
    × (call.destination ≡ beta)
    × (body_sha256 marking call.body ≡ body_sha256 marking body_1)
    × (call.timestamp_ms ≡ pos 1000)
    × (call.nonce ≡ nonce_1)
    × (alpha ≡ alpha)
    × (key_1 ≡ key_1)
unfolding with_now_ms new key_for insert from_seed validate_peer_id validate_key_id
verify_signature-signed_example =
    verify_signature-signed marking (crates_with-Documented is_message_1) alpha key_1 (7 ∷ [])
      (signer_with is_message_1) refl (λ call. call ≡ call_1) verifier 0 post events marked_headers
      body_1 verified marking-IsUnforged (λ found h. ground (arith, h)) marked_accepts

canonical_1 : IsValid post events alpha beta key_1 nonce_1 hash_1
unfolding validate_peer_id validate_key_id validate_method validate_path_and_query validate_nonce
canonical_1 = record {
  method_ok = refl;
  path_ok = refl;
  source_ok = refl;
  destination_ok = refl;
  key_id_ok = refl;
  nonce_ok = refl;
  body_sha256_ok = refl;
}

canonical_request-injective_example :
    (post ≡ post)
    × (events ≡ events)
    × (alpha ≡ alpha)
    × (beta ≡ beta)
    × (key_1 ≡ key_1)
    × (time_1 ≡ time_1)
    × (nonce_1 ≡ nonce_1)
    × (hash_1 ≡ hash_1)
canonical_request-injective_example =
    canonical_request-injective post events alpha beta key_1 1000 nonce_1 hash_1 post events alpha
      beta key_1 1000 nonce_1 hash_1 canonical_1 canonical_1 (ground arith) (ground arith) refl

abbrev arrival_1 : Arrival crates
arrival_1 = record {
  clock = 0;
  method = post;
  path = events;
  headers = headers_with signature_1;
  body = body_1;
}

run_from-NoRepeat_example :
    NoRepeat (run_from crates verifier start (arrival_1 ∷ arrival_1 ∷ [])).accepted
run_from-NoRepeat_example = run_from-NoRepeat crates verifier (arrival_1 ∷ arrival_1 ∷ [])

answer-run_from_example :
    (answer crates verifier (run_from crates verifier start (arrival_1 ∷ [])).store arrival_1).1
    ≡ err VerifyError.replay
unfolding run_from verify reserve verify_signature new with_now_ms key_for insert validate_method
    validate_path_and_query trim parse_i64 canonical_request join canonical_parts to_string
    validate_peer_id validate_key_id validate_nonce key_outside_window
answer-run_from_example =
    answer-run_from crates verifier (arrival_1 ∷ []) arrival_1 verified accepted_1

identity_1 :
    identity_from_headers crates (headers_with signature_1)
    ≡ ok (record { source_peer_id = alpha; key_id = key_1 })
unfolding identity_from_headers trim parse_i64 to_string validate_peer_id validate_key_id
    validate_nonce canonical_request join canonical_parts
identity_1 = refl

verify_signature-single_example :
    verify_signature crates
      (with_store crates verifier (single peer_key))
      0
      post
      events
      (headers_with signature_1)
      body_1
    ≡ verify_signature crates verifier 0 post events (headers_with signature_1) body_1
unfolding with_now_ms new key_for insert
verify_signature-single_example =
    verify_signature-single crates verifier 0 post events (headers_with signature_1) body_1
      (record { source_peer_id = alpha; key_id = key_1 }) peer_key identity_1 refl refl refl
