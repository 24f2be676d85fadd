-- ===== src/Federation/Auth/Canonical.antt =====
-- What the canonical text of a request (server-rs/src/federation/auth.rs) determines.
use verdant_backend.Prelude.{
  ℕ, ◌≡◌, refl, sym, ap, ◌∙◌, ◌<◌, ◌^◌, some, Bool, true, false, not, List, [], ◌∷◌, ◌++◌, nat_eq,
  all, length, arith,
}
use verdant_backend.Prelude.HashSet.{contains}
use verdant_backend.Federation.Decimal.{pos, to_string, parse_i64, is_digit}
use verdant_backend.Federation.Decimal.{to_string-all_digits, parse_i64-to_string}
use verdant_backend.Federation.Names.{
  validate_method, validate_path_and_query, validate_peer_id, validate_key_id, validate_nonce,
  is_method_byte, is_id_byte, is_nonce_byte,
}
use verdant_backend.Federation.Auth.{join, canonical_parts, canonical_request, to_ascii_uppercase}

-- A part without a line feed is what stands in front of the first one.
split-injective :
    (a b r s : List ℕ)
    → contains 10 a ≡ false
    → contains 10 b ≡ false
    → a ++ (10 ∷ r) ≡ b ++ (10 ∷ s)
    → (a ≡ b) × (r ≡ s)
split-injective [] [] r s h k e = (refl, ground (arith, e))
split-injective [] (y ∷ b) r s h k e = ground (arith, e)
split-injective (x ∷ a) [] r s h k e = ground (arith, e)
split-injective (x ∷ a) (y ∷ b) r s h k e = ground (arith, split-injective a b r s)

abbrev pub one_line : List ℕ → Bool
one_line part = not (contains 10 part)

join-injective :
    (ps qs : List (List ℕ))
    → length ps ≡ length qs
    → all one_line ps ≡ true
    → all one_line qs ≡ true
    → join ps ≡ join qs
    → ps ≡ qs
unfolding join
join-injective [] [] h k l e = refl
join-injective [] (q ∷ qs) h k l e = cc
join-injective (p ∷ ps) [] h k l e = cc
join-injective (p ∷ []) (q ∷ []) h k l e = ap (λ t. t ∷ []) e
join-injective (p ∷ []) (q ∷ q2 ∷ qs) h k l e = ground arith
join-injective (p ∷ p2 ∷ ps) (q ∷ []) h k l e = ground arith
join-injective (p ∷ p2 ∷ ps) (q ∷ q2 ∷ qs) h k l e =
    let (first, rest) =
      split-injective p q (join (p2 ∷ ps)) (join (q2 ∷ qs)) (ground arith) (ground arith) e in
    let others =
      join-injective (p2 ∷ ps) (q2 ∷ qs) (ground arith) (ground arith) (ground arith) rest in
    ground (arith, first, others)

module _ (p : ℕ → Bool) (clean : p 10 ≡ false) where
  one_line_of_all : (part : List ℕ) → all p part ≡ true → one_line part ≡ true
  one_line_of_all [] h = refl
  one_line_of_all (b ∷ part) h = ground (arith, one_line_of_all part, clean, λ (e : b ≡ 10). ap p e)

-- The fields that a signer or a parsed request has passed the validators with.
pub record IsValid (method path source destination key_id nonce body_sha256 : List ℕ) : Type 0 where
  pub method_ok : validate_method method ≡ true
  pub path_ok : validate_path_and_query path ≡ true
  pub source_ok : validate_peer_id source ≡ true
  pub destination_ok : validate_peer_id destination ≡ true
  pub key_id_ok : validate_key_id key_id ≡ true
  pub nonce_ok : validate_nonce nonce ≡ true
  pub body_sha256_ok : one_line body_sha256 ≡ true

all-upper :
    (method : List ℕ) → all is_method_byte method ≡ true → to_ascii_uppercase method ≡ method
unfolding to_ascii_uppercase
all-upper [] h = refl
all-upper (b ∷ method) h = ground (arith, all-upper method)

-- A method that passes is in upper case already.
pub to_ascii_uppercase_valid :
    (method : List ℕ) → validate_method method ≡ true → to_ascii_uppercase method ≡ method
unfolding validate_method
to_ascii_uppercase_valid method h = all-upper method (ground arith)

method_line : (method : List ℕ) → validate_method method ≡ true → one_line method ≡ true
unfolding validate_method
method_line method h = one_line_of_all is_method_byte refl method (ground arith)

path_line : (path : List ℕ) → validate_path_and_query path ≡ true → one_line path ≡ true
unfolding validate_path_and_query
path_line path h = ground arith

peer_line : (peer : List ℕ) → validate_peer_id peer ≡ true → one_line peer ≡ true
unfolding validate_peer_id
peer_line peer h = one_line_of_all is_id_byte refl peer (ground arith)

key_line : (key : List ℕ) → validate_key_id key ≡ true → one_line key ≡ true
unfolding validate_key_id
key_line key h = one_line_of_all is_id_byte refl key (ground arith)

pub nonce_line : (nonce : List ℕ) → validate_nonce nonce ≡ true → all is_nonce_byte nonce ≡ true
unfolding validate_nonce
nonce_line nonce h = ground arith

pub one_line_nonce_bytes : (part : List ℕ) → all is_nonce_byte part ≡ true → one_line part ≡ true
one_line_nonce_bytes part h = one_line_of_all is_nonce_byte refl part h

canonical_lines :
    (m p s d k : List ℕ) (t : ℕ) (n b : List ℕ)
    → IsValid m p s d k n b
    → all one_line (canonical_parts m p s d k t n b) ≡ true
unfolding canonical_parts
canonical_lines m p s d k t n b v = rw (to_ascii_uppercase_valid m v.method_ok) (
    ground (
      arith,
      method_line m v.method_ok,
      path_line p v.path_ok,
      peer_line s v.source_ok,
      peer_line d v.destination_ok,
      key_line k v.key_id_ok,
      one_line_of_all is_digit refl (to_string t) (to_string-all_digits t),
      one_line_nonce_bytes n (nonce_line n v.nonce_ok),
      v.body_sha256_ok,
    ))

to_string-injective : (t u : ℕ) → t < 2 ^ 63 → u < 2 ^ 63 → to_string t ≡ to_string u → t ≡ u
to_string-injective t u h k e =
    let both : some (pos t) ≡ some (pos u) =
      sym (parse_i64-to_string t h) ∙ ap parse_i64 e ∙ parse_i64-to_string u k in
    ground (arith, both)

-- Nine fields in a row.
parts-injective :
    (m p s d k : List ℕ) (t : ℕ) (n b : List ℕ) (m2 p2 s2 d2 k2 : List ℕ) (t2 : ℕ) (n2 b2 : List ℕ)
    → canonical_parts m p s d k t n b ≡ canonical_parts m2 p2 s2 d2 k2 t2 n2 b2
    → (to_ascii_uppercase m ≡ to_ascii_uppercase m2)
      × (p ≡ p2)
      × (s ≡ s2)
      × (d ≡ d2)
      × (k ≡ k2)
      × (to_string t ≡ to_string t2)
      × (n ≡ n2)
      × (b ≡ b2)
unfolding canonical_parts
parts-injective m p s d k t n b m2 p2 s2 d2 k2 t2 n2 b2 e = (
  ground (arith, e),
  ground (arith, e),
  ground (arith, e),
  ground (arith, e),
  ground (arith, e),
  ground (arith, e),
  ground (arith, e),
  ground (arith, e),
)

nine_parts :
    (m p s d k : List ℕ) (t : ℕ) (n b : List ℕ) (m2 p2 s2 d2 k2 : List ℕ) (t2 : ℕ) (n2 b2 : List ℕ)
    → length (canonical_parts m p s d k t n b) ≡ length (canonical_parts m2 p2 s2 d2 k2 t2 n2 b2)
unfolding canonical_parts
nine_parts m p s d k t n b m2 p2 s2 d2 k2 t2 n2 b2 = refl

-- Two requests whose fields pass the validators, whose hashes are one line and whose timestamps
-- have 63 bits have the same canonical text only if all their fields are the same.
pub canonical_request-injective :
    (m p s d k : List ℕ) (t : ℕ) (n b : List ℕ) (m2 p2 s2 d2 k2 : List ℕ) (t2 : ℕ) (n2 b2 : List ℕ)
    → IsValid m p s d k n b
    → IsValid m2 p2 s2 d2 k2 n2 b2
    → t < 2 ^ 63
    → t2 < 2 ^ 63
    → canonical_request m p s d k t n b ≡ canonical_request m2 p2 s2 d2 k2 t2 n2 b2
    → (m ≡ m2) × (p ≡ p2) × (s ≡ s2) × (d ≡ d2) × (k ≡ k2) × (t ≡ t2) × (n ≡ n2) × (b ≡ b2)
unfolding canonical_request
canonical_request-injective m p s d k t n b m2 p2 s2 d2 k2 t2 n2 b2 v w h h2 e =
    let same =
      join-injective (canonical_parts m p s d k t n b) (canonical_parts m2 p2 s2 d2 k2 t2 n2 b2)
        (nine_parts m p s d k t n b m2 p2 s2 d2 k2 t2 n2 b2) (canonical_lines m p s d k t n b v)
        (canonical_lines m2 p2 s2 d2 k2 t2 n2 b2 w) e in
    let (em, ep, es, ed, ek, et, en, eb) =
      parts-injective m p s d k t n b m2 p2 s2 d2 k2 t2 n2 b2 same in
    (
      sym (to_ascii_uppercase_valid m v.method_ok) ∙ em ∙ to_ascii_uppercase_valid m2 w.method_ok,
      ep,
      es,
      ed,
      ek,
      to_string-injective t t2 h h2 et,
      en,
      eb,
    )
