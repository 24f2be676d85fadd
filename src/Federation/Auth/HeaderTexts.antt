-- ===== src/Federation/Auth/HeaderTexts.antt =====
-- The texts that a signer puts into headers (server-rs/src/federation/auth.rs) come back unchanged.
use Prim.Native.String.{String}
use verdant_backend.Prelude.{
  ℕ, ◌≡◌, ◌≢◌, ◌≤◌, refl, Bool, true, false, ◌&&◌, List, [], ◌∷◌, some, nat_eq, list_eq, string_eq,
  leb, length, all, arith,
}
use verdant_backend.Prelude.Dict.{lookup, insert}
use verdant_backend.Prelude.HashSet.{is_empty}
use verdant_backend.Prelude.Result.{ok, ok_ensure, ok_some}
use verdant_backend.Federation.Names.{
  validate_peer_id, validate_key_id, validate_nonce, is_id_byte, is_nonce_byte,
}
use verdant_backend.Federation.Crates.{Crates, Documented}
use verdant_backend.Federation.Decimal.{
  to_string, is_digit, to_string-all_digits, length-to_string, to_string_ne,
}
use verdant_backend.Federation.Auth.{SignError, VerifyError, trim, trim_start, trim_end}
use verdant_backend.Federation.Auth.Requests.{HeaderMap, insert_header, required_header}

-- Visible, and no space.
abbrev pub is_graphic : ℕ → Bool
is_graphic b = leb 33 b && leb b 126

pub record IsHeaderText (text : List ℕ) : Type 0 where
  pub graphic : all is_graphic text ≡ true
  pub filled : is_empty text ≡ false
  pub short : length text ≤ 512

module _ (p q : ℕ → Bool) (le : (b : ℕ) → p b ≡ true → q b ≡ true) where
  pub all_le : (text : List ℕ) → all p text ≡ true → all q text ≡ true
  all_le [] h = refl
  all_le (b ∷ text) h = ground (arith, le b, all_le text)

trim_start-graphic : (text : List ℕ) → all is_graphic text ≡ true → trim_start text ≡ text
unfolding trim_start
trim_start-graphic [] h = refl
trim_start-graphic (b ∷ text) h = ground arith

trim_end-graphic : (text : List ℕ) → all is_graphic text ≡ true → trim_end text ≡ text
unfolding trim_end
trim_end-graphic [] h = refl
trim_end-graphic (b ∷ text) h = ground (arith, trim_end-graphic text)

trim-graphic : (text : List ℕ) → all is_graphic text ≡ true → trim text ≡ text
unfolding trim
trim-graphic text h = rw (trim_start-graphic text h) (trim_end-graphic text h)

pub peer_id_text : (text : List ℕ) → validate_peer_id text ≡ true → IsHeaderText text
unfolding validate_peer_id
peer_id_text text h = record {
  graphic = all_le is_id_byte is_graphic (λ b k. ground arith) text (ground arith);
  filled = ground arith;
  short = ground arith;
}

pub key_id_text : (text : List ℕ) → validate_key_id text ≡ true → IsHeaderText text
unfolding validate_key_id
key_id_text text h = record {
  graphic = all_le is_id_byte is_graphic (λ b k. ground arith) text (ground arith);
  filled = ground arith;
  short = ground arith;
}

filled_of_length : (text : List ℕ) → 1 ≤ length text → is_empty text ≡ false
filled_of_length [] h = ground arith
filled_of_length (b ∷ text) h = refl

filled_of_ne : (text : List ℕ) → text ≢ [] → is_empty text ≡ false
filled_of_ne [] h = absurd (h refl)
filled_of_ne (b ∷ text) h = refl

pub nonce_text : (text : List ℕ) → validate_nonce text ≡ true → IsHeaderText text
unfolding validate_nonce
nonce_text text h = record {
  graphic = all_le is_nonce_byte is_graphic (λ b k. ground arith) text (ground arith);
  filled = filled_of_length text (ground arith);
  short = ground arith;
}

pub timestamp_text : (t : ℕ) → IsHeaderText (to_string t)
timestamp_text t = record {
  graphic = all_le is_digit is_graphic (λ b k. ground arith) (to_string t) (to_string-all_digits t);
  filled = filled_of_ne (to_string t) (to_string_ne t);
  short = omega (arith, length-to_string t);
}

module _ (c : Crates) (d : Documented c) where
  pub encoded_text :
      (bytes : List ℕ)
      → 1 ≤ length (c.encode bytes)
      → length (c.encode bytes) ≤ 512
      → IsHeaderText (c.encode bytes)
  encoded_text bytes h k = record {
    graphic =
        all_le is_nonce_byte is_graphic (λ b k. ground arith) (c.encode bytes)
          (d.encode_url_safe bytes);
    filled = filled_of_length (c.encode bytes) h;
    short = k;
  }

  is_visible : (text : List ℕ) → IsHeaderText text → all (λ b. leb 32 b && leb b 126) text ≡ true
  is_visible text h =
      all_le is_graphic (λ b. leb 32 b && leb b 126) (λ b k. ground arith) text h.graphic

  -- The header value of such a text.
  pub header_value : (text : List ℕ) → IsHeaderText text → c.HeaderValue
  header_value text h = (d.visible_header text (is_visible text h)).0

  pub insert_header_value :
      (headers : HeaderMap c) (name : String) (text : List ℕ) (h : IsHeaderText text)
      → insert_header c headers name text ≡ ok (insert name (header_value text h) headers)
  unfolding insert_header header_value
  insert_header_value headers name text h =
      ok_some SignError.invalid_header_value (c.from_str text) _
        (d.visible_header text (is_visible text h)).1 refl

  -- A header that holds it gives the text.
  pub required_header_value :
      (headers : HeaderMap c) (name : String) (text : List ℕ) (h : IsHeaderText text)
      → lookup name headers ≡ some (header_value text h)
      → required_header c headers name ≡ ok text
  unfolding required_header header_value
  required_header_value headers name text h found =
      ok_some VerifyError.missing_header (lookup name headers) _ found (
        ok_some VerifyError.malformed_header (c.to_str (header_value text h)) _
          (d.visible_header text (is_visible text h)).2
          (rw (trim-graphic text h.graphic)
            (ok_ensure VerifyError.malformed_header _ _ (ground (arith, h.filled, h.short)) refl)))
