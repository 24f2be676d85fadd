-- ===== src/Federation/Auth/Authentic.antt =====
-- An accepted request is one that the holder of the key signed (server-rs/src/federation/auth.rs).
use verdant_backend.Prelude.{ℕ, ◌≡◌, ◌<◌, ◌^◌, refl, sym, ap, ◌∙◌, true, all, List, some, arith}
use verdant_backend.Prelude.Result.{Result, ok, ensure_ok, ok_same}
use verdant_backend.Federation.Names.{
  validate_method, validate_path_and_query, validate_peer_id, validate_key_id, validate_nonce,
}
use verdant_backend.Federation.Crates.{Crates, Documented}
use verdant_backend.Federation.Decimal.{ℤ, pos}
use verdant_backend.Federation.Names.{is_nonce_byte}
use verdant_backend.Federation.Auth.{
  SignError, FederationPeerKey, VerifiedFederationRequest, FederationRequestVerifier,
  canonical_request,
}
use verdant_backend.Federation.Auth.Requests.{
  HeaderMap, FederationRequestSigner, from_seed, body_sha256, verify_signature, sign,
}
use verdant_backend.Federation.Auth.Accepted.{
  IsAccepted, Presents, verify_signature-IsAccepted, verify_signature-presented,
}
use verdant_backend.Federation.Auth.Canonical.{
  IsValid, canonical_request-injective, one_line, one_line_nonce_bytes,
}

module _ (c : Crates) where
  -- A call of `sign`.
  pub record SignCall : Type 0 where
    pub method : List ℕ
    pub path : List ℕ
    pub destination : List ℕ
    pub body : List ℕ
    pub timestamp_ms : ℤ
    pub nonce : List ℕ

  abbrev pub sign_call : FederationRequestSigner c → SignCall → Result (HeaderMap c) SignError
  sign_call signer call =
      sign c signer call.method call.path call.destination call.body call.timestamp_ms call.nonce

  abbrev pub signed_text : FederationRequestSigner c → SignCall → ℕ → List ℕ
  signed_text signer call t =
      canonical_request call.method call.path signer.source_peer_id call.destination signer.key_id t
        call.nonce (body_sha256 c call.body)

  -- `Made` are the calls of `sign` that the holder of the key made. They succeeded, and no signature
  -- that the request carries verifies another text than theirs: it is not forged.
  pub record IsUnforged (signer : FederationRequestSigner c) (key : c.VerifyingKey)
      (Made : SignCall → Type 0) (request : HeaderMap c) : Type 0 where
    pub made_ok :
        (call : SignCall)
        → Made call
        → (t : ℕ) × (call.timestamp_ms ≡ pos t)
          × (t < 2 ^ 63)
          × (headers : HeaderMap c) × (sign_call signer call ≡ ok headers)
    pub only_made :
        (s : c.Signature) (message : List ℕ)
        → Presents c request s
        → c.verify_bytes key message s ≡ true
        → (call : SignCall) × (t : ℕ) × Made call
          × (call.timestamp_ms ≡ pos t)
          × (message ≡ signed_text signer call t)

  from_seed-ok :
      (source key_id seed : List ℕ) (signer : FederationRequestSigner c)
      → from_seed c source key_id seed ≡ ok signer
      → (validate_peer_id signer.source_peer_id ≡ true) × (validate_key_id signer.key_id ≡ true)
  unfolding from_seed
  from_seed-ok source key_id seed signer h =
      let (source_ok, h1) = ensure_ok SignError.invalid_input (validate_peer_id source) h in
      let (key_ok, h2) = ensure_ok SignError.invalid_input (validate_key_id key_id) h1 in
      rw (← ok_same refl h2) (source_ok, key_ok)

  sign_call-ok :
      (signer : FederationRequestSigner c) (call : SignCall) (headers : HeaderMap c)
      → sign_call signer call ≡ ok headers
      → (validate_method call.method ≡ true)
        × (validate_path_and_query call.path ≡ true)
        × (validate_peer_id call.destination ≡ true)
        × (validate_nonce call.nonce ≡ true)
  unfolding sign
  sign_call-ok signer call headers h =
      let (method_ok, h1) = ensure_ok SignError.invalid_input (validate_method call.method) h in
      let (path_ok, h2) =
        ensure_ok SignError.invalid_input (validate_path_and_query call.path) h1 in
      let (destination_ok, h3) =
        ensure_ok SignError.invalid_input (validate_peer_id call.destination) h2 in
      let (nonce_ok, h4) = ensure_ok SignError.invalid_input (validate_nonce call.nonce) h3 in
      (method_ok, path_ok, destination_ok, nonce_ok)

  body_line :
      (url_safe : (bytes : List ℕ) → all is_nonce_byte (c.encode bytes) ≡ true) (body : List ℕ)
      → one_line (body_sha256 c body) ≡ true
  unfolding body_sha256
  body_line url_safe body =
      one_line_nonce_bytes (c.encode (c.digest body)) (url_safe (c.digest body))

  module _ (documented : Documented c) where
    call-IsValid :
        (source key_id seed : List ℕ) (signer : FederationRequestSigner c)
        → from_seed c source key_id seed ≡ ok signer
        → (call : SignCall) (headers : HeaderMap c) → sign_call signer call ≡ ok headers
        → IsValid call.method call.path signer.source_peer_id call.destination signer.key_id
            call.nonce
            (body_sha256 c call.body)
    call-IsValid source key_id seed signer seeded call headers h =
        let (method_ok, path_ok, destination_ok, nonce_ok) = sign_call-ok signer call headers h in
        let (source_ok, key_ok) = from_seed-ok source key_id seed signer seeded in
        record {
          method_ok = method_ok;
          path_ok = path_ok;
          source_ok = source_ok;
          destination_ok = destination_ok;
          key_id_ok = key_ok;
          nonce_ok = nonce_ok;
          body_sha256_ok = body_line documented.encode_url_safe call.body;
        }

    accepted-IsValid :
        (v : FederationRequestVerifier) (clock : ℕ) (method path body : List ℕ)
        (verified : VerifiedFederationRequest)
        → IsAccepted c v clock method path body verified
        → IsValid method path verified.source_peer_id verified.destination_peer_id verified.key_id
            verified.nonce verified.body_sha256
    accepted-IsValid v clock method path body verified a = record {
      method_ok = a.method_ok;
      path_ok = a.path_ok;
      source_ok = a.source_ok;
      destination_ok = a.destination_ok;
      key_id_ok = a.key_id_ok;
      nonce_ok = a.nonce_ok;
      body_sha256_ok = ap one_line a.body_eq ∙ body_line documented.encode_url_safe body;
    }

  -- Let the crates do what they document, let the signer be one that from_seed made, let its
  -- holder have made the calls of a set, all successful, and let no signature that the request
  -- carries verify under the signer's public key anything but the text of such a call (no
  -- forgery). If a verifier that holds this public key for the source and key id accepts the
  -- request, then one of the holder's calls has the same method, path, timestamp, nonce, source
  -- and key id, the verifier's own peer as its destination, and a body of the same hash.
  pub verify_signature-signed :
      (documented : Documented c) (source key_id seed : List ℕ) (signer : FederationRequestSigner c)
      → from_seed c source key_id seed ≡ ok signer
      → (Made : SignCall → Type 0) (v : FederationRequestVerifier) (clock : ℕ)
        (method path : List ℕ) (headers : HeaderMap c) (body : List ℕ)
        (verified : VerifiedFederationRequest)
      → IsUnforged signer (c.verifying_key signer.signing_key) Made headers
      → ((found : FederationPeerKey)
          → v.key_store verified.source_peer_id verified.key_id ≡ some found
          → c.from_bytes found.public_key ≡ some (c.verifying_key signer.signing_key))
      → verify_signature c v clock method path headers body ≡ ok verified
      → (call : SignCall) × Made call
        × (call.method ≡ method)
        × (call.path ≡ path)
        × (call.destination ≡ v.destination_peer_id)
        × (body_sha256 c call.body ≡ body_sha256 c body)
        × (call.timestamp_ms ≡ pos verified.timestamp_ms)
        × (call.nonce ≡ verified.nonce)
        × (signer.source_peer_id ≡ verified.source_peer_id)
        × (signer.key_id ≡ verified.key_id)
  verify_signature-signed documented source key_id seed signer seeded Made v clock method path
        headers body verified unforged registered h =
      let a = verify_signature-IsAccepted c v clock method path headers body verified h in
      let (s, carried, found, stored, k, read, checked) =
        verify_signature-presented c v clock method path headers body verified h in
      let own : c.VerifyingKey = c.verifying_key signer.signing_key in
      let same_key : k ≡ own = ground (arith, read, registered found stored) in
      let message : List ℕ =
        canonical_request method path verified.source_peer_id verified.destination_peer_id
          verified.key_id verified.timestamp_ms verified.nonce verified.body_sha256 in
      let (call, t, made, time, text) =
        unforged.only_made s message carried
          (ap (λ x. c.verify_bytes x message s) (sym same_key) ∙ checked) in
      let (t', time', bound, signed, ok_call) = unforged.made_ok call made in
      let below : t < 2 ^ 63 = ground (arith, time, time', bound) in
      let (em, ep, es, ed, ek, et, en, eb) =
        canonical_request-injective call.method call.path signer.source_peer_id call.destination
          signer.key_id t call.nonce (body_sha256 c call.body) method path verified.source_peer_id
          verified.destination_peer_id verified.key_id verified.timestamp_ms verified.nonce
          verified.body_sha256
          (call-IsValid documented source key_id seed signer seeded call signed ok_call)
          (accepted-IsValid documented v clock method path body verified a) below a.timestamp_ok.1
          (sym text) in
      (call, made, em, ep, ed ∙ a.destination_eq, eb ∙ a.body_eq, time ∙ ap pos et, en, es, ek)
