-- ===== src/Federation/TestCrates.antt =====
-- What the tests of the federation use: crates that keep one bit of what they digest and sign, and a
-- request of one peer to another.
use Prim.Native.String.{String}
use verdant_backend.Prelude.{
  ℕ, zero, suc, ◌%◌, ◌≡◌, refl, Bool, true, false, not, List, [], ◌∷◌, Option, none, some, nat_eq,
  list_eq, ◌==◌, if◌then◌else◌, all, length, Bool-cases, inl, inr,
}
use verdant_backend.Prelude.Ascii.{ascii}
use verdant_backend.Federation.Decimal.{pos}
use verdant_backend.Federation.Names.{is_nonce_byte}
use verdant_backend.Federation.Crates.{Crates, Documented}
use verdant_backend.Federation.Auth.{
  FederationPeerKey, VerifiedFederationRequest, FederationRequestVerifier, canonical_request,
  algorithm_name, header_algorithm, header_source, header_destination, header_key_id,
  header_timestamp, header_nonce, header_body_hash, header_signature,
}
use verdant_backend.Federation.Auth.Requests.{FederationRequestSigner}
use verdant_backend.Federation.Auth.Stores.{insert, key_for, new, with_now_ms}

abbrev pub letters : ℕ → List ℕ → List ℕ
letters zero rest = rest
letters (suc n) rest = 65 ∷ letters n rest

abbrev pub odd : List ℕ → Bool
odd bytes = length bytes % 2 == 1

abbrev pub test_encode : List ℕ → List ℕ
test_encode [] = letters 43 []
test_encode (b ∷ bytes) =
    if b == 3
    then 66 ∷ letters 85 []
    else if b == 2
    then letters 86 []
    else if b == 1
    then 66 ∷ letters 42 []
    else letters 43 []

abbrev pub test_decode : List ℕ → Option (List ℕ)
test_decode [] = none
test_decode (b ∷ bytes) = some (if b == 66 then 3 ∷ [] else 2 ∷ [])

abbrev pub bit_bytes : Bool → List ℕ
bit_bytes true = 3 ∷ []
bit_bytes false = 2 ∷ []

abbrev pub bit_of : List ℕ → Option Bool
bit_of [] = none
bit_of (b ∷ bytes) = some (b == 3)

abbrev pub same_bit : Bool → Bool → Bool
same_bit true b = b
same_bit false b = not b

abbrev pub crates_with : (List ℕ → Bool) → Crates
crates_with mark = record {
  HeaderValue = List ℕ;
  from_str = λ s. some s;
  to_str = λ v. some v;
  digest = λ body. if odd body then 1 ∷ [] else 0 ∷ [];
  encode = test_encode;
  decode = test_decode;
  SigningKey = List ℕ;
  VerifyingKey = List ℕ;
  Signature = Bool;
  signing_key_from_bytes = λ seed. seed;
  verifying_key = λ key. key;
  from_bytes = λ bytes. some bytes;
  to_bytes = λ key. key;
  sign_bytes = λ key message. mark message;
  signature_to_bytes = bit_bytes;
  signature_try_from = bit_of;
  verify_bytes = λ key message s. same_bit (mark message) s;
}

abbrev pub crates : Crates
crates = crates_with odd

pub encode_url_safe : (bytes : List ℕ) → all is_nonce_byte (test_encode bytes) ≡ true
encode_url_safe [] = refl
encode_url_safe (b ∷ bytes) = elim (Bool-cases (b == 3)) [
  | inl e ↦ rw e refl
  | inr e ↦ elim (Bool-cases (b == 2)) [
    | inl f ↦ rw (e, f) refl
    | inr f ↦ elim (Bool-cases (b == 1)) [ inl g ↦ rw (e, f, g) refl | inr g ↦ rw (e, f, g) refl ]
  ]
]

digest_length : (b : Bool) → length (test_encode (if b then 1 ∷ [] else 0 ∷ [])) ≡ 43
digest_length true = refl
digest_length false = refl

signature_length : (s : Bool) → length (test_encode (bit_bytes s)) ≡ 86
signature_length true = refl
signature_length false = refl

signature_decodes : (s : Bool) → test_decode (test_encode (bit_bytes s)) ≡ some (bit_bytes s)
signature_decodes true = refl
signature_decodes false = refl

signature_reads : (s : Bool) → bit_of (bit_bytes s) ≡ some s
signature_reads true = refl
signature_reads false = refl

same_bit_refl : (b : Bool) → same_bit b b ≡ true
same_bit_refl true = refl
same_bit_refl false = refl

pub crates_with-Documented : (mark : List ℕ → Bool) → Documented (crates_with mark)
crates_with-Documented mark = record {
  visible_header = λ text h. (text, refl, refl);
  encode_url_safe = encode_url_safe;
  length_digest = λ bytes. digest_length (odd bytes);
  length_signature = signature_length;
  decode_encode = signature_decodes;
  signature_read = signature_reads;
  key_read = λ k. refl;
  verify_signed = λ k message. same_bit_refl (mark message);
}

pub crates_documented : Documented crates
crates_documented = crates_with-Documented odd

abbrev pub alpha : List ℕ
alpha = ascii "a.example"

abbrev pub beta : List ℕ
beta = ascii "b.example"

abbrev pub post : List ℕ
post = ascii "POST"

abbrev pub events : List ℕ
events = ascii "/api/federation/v1/events"

abbrev pub time_1 : ℕ
time_1 = 1000

abbrev pub key_1 : List ℕ
key_1 = ascii "key-1"

abbrev pub nonce_1 : List ℕ
nonce_1 = ascii "nonce-0123456789"

abbrev pub body_1 : List ℕ
body_1 = 1 ∷ 2 ∷ 3 ∷ []

abbrev pub signer_with : (mark : List ℕ → Bool) → FederationRequestSigner (crates_with mark)
signer_with mark = record { source_peer_id = alpha; key_id = key_1; signing_key = 7 ∷ [] }

abbrev pub signer : FederationRequestSigner crates
signer = record { source_peer_id = alpha; key_id = key_1; signing_key = 7 ∷ [] }

abbrev pub peer_key : FederationPeerKey
peer_key = record {
  peer_id = alpha;
  key_id = key_1;
  public_key = 7 ∷ [];
  valid_after_ms = some (pos 500);
  valid_until_ms = some (pos 5000);
}

abbrev pub verifier : FederationRequestVerifier
verifier = with_now_ms (new beta (key_for (insert (record { keys = [] }) peer_key))) 1500

abbrev pub hash_1 : List ℕ
hash_1 = 66 ∷ letters 42 []

abbrev pub verified : VerifiedFederationRequest
verified = record {
  source_peer_id = alpha;
  destination_peer_id = beta;
  key_id = key_1;
  nonce = nonce_1;
  timestamp_ms = 1000;
  body_sha256 = hash_1;
}

abbrev pub headers_with : List ℕ → List (String × List ℕ)
headers_with signature =
    (header_algorithm, algorithm_name)
    ∷ (header_source, alpha)
    ∷ (header_destination, beta)
    ∷ (header_key_id, key_1)
    ∷ (header_timestamp, ascii "1000")
    ∷ (header_nonce, nonce_1)
    ∷ (header_body_hash, hash_1)
    ∷ (header_signature, signature)
    ∷ []

abbrev pub message_1 : List ℕ
message_1 = canonical_request post events alpha beta key_1 1000 nonce_1 hash_1

abbrev pub signature_1 : List ℕ
signature_1 = test_encode (bit_bytes (odd message_1))
