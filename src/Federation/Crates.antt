-- ===== src/Federation/Crates.antt =====
-- What server-rs/src/federation/auth.rs uses of the crates http, sha2, base64 and ed25519-dalek: the
-- operations, and the documented behaviour that the code relies on.
use verdant_backend.Prelude.{ℕ, ◌≡◌, Bool, true, ◌&&◌, List, Option, some, leb, all, length}
use verdant_backend.Federation.Names.{is_nonce_byte}

pub record Crates : Type 1 where
  pub HeaderValue : Type 0
  pub from_str : List ℕ → Option HeaderValue
  pub to_str : HeaderValue → Option (List ℕ)
  -- `Sha256::digest`, and `URL_SAFE_NO_PAD.encode` and `decode`.
  pub digest : List ℕ → List ℕ
  pub encode : List ℕ → List ℕ
  pub decode : List ℕ → Option (List ℕ)
  pub SigningKey : Type 0
  pub VerifyingKey : Type 0
  pub Signature : Type 0
  -- `SigningKey::from_bytes`, `VerifyingKey::from_bytes`, `to_bytes`, `Signature::try_from`.
  pub signing_key_from_bytes : List ℕ → SigningKey
  pub verifying_key : SigningKey → VerifyingKey
  pub from_bytes : List ℕ → Option VerifyingKey
  pub to_bytes : VerifyingKey → List ℕ
  pub sign_bytes : SigningKey → List ℕ → Signature
  pub signature_to_bytes : Signature → List ℕ
  pub signature_try_from : List ℕ → Option Signature
  pub verify_bytes : VerifyingKey → List ℕ → Signature → Bool

-- `HeaderValue` takes and gives visible ASCII; base64 of an input gives it back, in letters, digits,
-- `-` and `_`, 43 of them for a digest; keys and signatures are read back from their bytes, and a
-- signature is verified under the key that belongs to it.
pub record Documented (c : Crates) : Type 0 where
  pub visible_header :
      (text : List ℕ)
      → all (λ b. leb 32 b && leb b 126) text ≡ true
      → (v : c.HeaderValue) × (c.from_str text ≡ some v) × (c.to_str v ≡ some text)
  pub encode_url_safe : (bytes : List ℕ) → all is_nonce_byte (c.encode bytes) ≡ true
  pub length_digest : (bytes : List ℕ) → length (c.encode (c.digest bytes)) ≡ 43
  pub length_signature : (s : c.Signature) → length (c.encode (c.signature_to_bytes s)) ≡ 86
  pub decode_encode :
      (s : c.Signature)
      → c.decode (c.encode (c.signature_to_bytes s)) ≡ some (c.signature_to_bytes s)
  pub signature_read : (s : c.Signature) → c.signature_try_from (c.signature_to_bytes s) ≡ some s
  pub key_read : (k : c.VerifyingKey) → c.from_bytes (c.to_bytes k) ≡ some k
  pub verify_signed :
      (k : c.SigningKey) (message : List ℕ)
      → c.verify_bytes (c.verifying_key k) message (c.sign_bytes k message) ≡ true
