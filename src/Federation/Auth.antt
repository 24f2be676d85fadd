-- ===== src/Federation/Auth.antt =====
-- The signatures of federation requests (server-rs/src/federation/auth.rs). Texts are their bytes, a
-- `HeaderMap` is an association list whose names are those of the source, and a clock gives
-- milliseconds since 1970. The crates the file calls are a parameter.
pub mod Requests
pub mod Stores
pub mod SingleKey
pub mod Replay
pub mod Authentic
pub mod Signed
pub mod HeaderTexts
pub mod Accepted
pub mod Canonical
use verdant_backend.Prelude.{
  ℕ, zero, suc, ◌+◌, ◌-◌, ◌*◌, Bool, true, false, not, ◌&&◌, ◌||◌, List, [], ◌∷◌, ◌++◌, Option,
  none, some, string_eq, nat_eq, list_eq, pair_eq, ◌=?◌, ltb, leb, ◌==◌, if◌then◌else◌, length, map,
}
use Prim.Native.String.{String}
use verdant_backend.Prelude.Dict.{Dict, lookup, insert}
use verdant_backend.Prelude.HashSet.{contains, is_empty}
use verdant_backend.Prelude.HashSet as HashSet
use verdant_backend.Prelude.OptionMonad.{unwrap_or}
use verdant_backend.Prelude.Ascii.{ascii}
use verdant_backend.Prelude.Result.{Result, ok, err, ◌>>=◌, ◌>>◌, ok_or, ensure}
use verdant_backend.Federation.Decimal.{ℤ, pos, negsuc, to_string, parse_i64}
use verdant_backend.Federation.Names.{
  validate_method, validate_path_and_query, validate_peer_id, validate_key_id, validate_nonce,
  max_header_value_chars,
}
use verdant_backend.Federation.Crates.{Crates}

abbrev pub algorithm_name : List ℕ
algorithm_name = ascii "ed25519-v1"

abbrev pub canonical_version : List ℕ
canonical_version = ascii "verdant-s2s-v1"

abbrev pub default_max_timestamp_skew_ms : ℕ
default_max_timestamp_skew_ms = 5 * 60 * 1000

abbrev pub header_algorithm : String
header_algorithm = "x-verdant-federation-algorithm"

abbrev pub header_source : String
header_source = "x-verdant-federation-source"

abbrev pub header_destination : String
header_destination = "x-verdant-federation-destination"

abbrev pub header_key_id : String
header_key_id = "x-verdant-federation-key-id"

abbrev pub header_timestamp : String
header_timestamp = "x-verdant-federation-timestamp-ms"

abbrev pub header_nonce : String
header_nonce = "x-verdant-federation-nonce"

abbrev pub header_body_hash : String
header_body_hash = "x-verdant-federation-content-sha256"

abbrev pub header_signature : String
header_signature = "x-verdant-federation-signature"

pub record FederationPeerKey : Type 0 where
  pub peer_id : List ℕ
  pub key_id : List ℕ
  pub public_key : List ℕ
  pub valid_after_ms : Option ℤ
  pub valid_until_ms : Option ℤ

pub record VerifiedFederationRequest : Type 0 where
  pub source_peer_id : List ℕ
  pub destination_peer_id : List ℕ
  pub key_id : List ℕ
  pub nonce : List ℕ
  pub timestamp_ms : ℕ
  pub body_sha256 : List ℕ

pub record FederationRequestIdentity : Type 0 where
  pub source_peer_id : List ℕ
  pub key_id : List ℕ

pub data SignError : Type 0 where
  invalid_input invalid_header_value : SignError

pub data VerifyError : Type 0 where
  missing_header malformed_header unsupported_algorithm destination_mismatch : VerifyError
  body_hash_mismatch timestamp_outside_window replay unknown_peer_key : VerifyError
  key_outside_validity_window invalid_signature replay_store_unavailable : VerifyError

-- The traits `PeerKeyStore` and `NonceStore`; a store that is changed is passed on.
abbrev pub PeerKeyStore : Type 0
PeerKeyStore = List ℕ → List ℕ → Option FederationPeerKey

abbrev pub NonceStore : Type 0 → Type 0
NonceStore S = S → List ℕ → List ℕ → ℕ → S × Result (Unit {0}) VerifyError

pub record ParsedHeaders : Type 0 where
  pub algorithm : List ℕ
  pub source_peer_id : List ℕ
  pub destination_peer_id : List ℕ
  pub key_id : List ℕ
  pub timestamp_ms : ℕ
  pub nonce : List ℕ
  pub body_sha256 : List ℕ
  pub signature : List ℕ

-- `now_ms` holds a time that a test sets; the clock's reading is an argument.
pub record FederationRequestVerifier : Type 0 where
  pub destination_peer_id : List ℕ
  pub key_store : PeerKeyStore
  pub now_ms : Option ℕ
  pub max_timestamp_skew_ms : ℕ

-- The `t` with `timestamp_ms = t > 0`.
abbrev pub positive : ℤ → Option ℕ
positive (pos zero) = none
positive (pos (suc n)) = some (suc n)
positive (negsuc n) = none

-- `t < z` and `t >= z` against an `i64`.
abbrev pub before : ℕ → ℤ → Bool
before t (pos n) = ltb t n
before t (negsuc n) = false

-- `str::trim`: a header's text is ASCII, whose white space this is.
abbrev pub is_whitespace : ℕ → Bool
is_whitespace b = (leb 9 b && leb b 13) || b == 32

unfoldable pub trim_start : List ℕ → List ℕ
trim_start [] = []
trim_start (b ∷ bytes) = let rest = trim_start bytes in if is_whitespace b then rest else b ∷ bytes

unfoldable pub trim_end : List ℕ → List ℕ
trim_end [] = []
trim_end (b ∷ bytes) =
    let rest = trim_end bytes in if is_whitespace b && is_empty rest then [] else b ∷ rest

unfoldable pub trim : List ℕ → List ℕ
unfolding trim_start trim_end
trim value = trim_end (trim_start value)

-- `to_ascii_uppercase`.
abbrev pub upper : ℕ → ℕ
upper b = if leb 97 b && leb b 122 then b - 32 else b

unfoldable pub to_ascii_uppercase : List ℕ → List ℕ
to_ascii_uppercase value = map upper value

-- `join("\n")`.
unfoldable pub join : List (List ℕ) → List ℕ
join [] = []
join (part ∷ parts) = elim parts [ [] ↦ part | _ ∷ _ ↦ part ++ (10 ∷ join parts) ]

unfoldable pub canonical_parts :
    List ℕ → List ℕ → List ℕ → List ℕ → List ℕ → ℕ → List ℕ → List ℕ → List (List ℕ)
unfolding to_ascii_uppercase
canonical_parts method path_and_query source destination key_id timestamp_ms nonce body_sha256 =
    canonical_version
    ∷ to_ascii_uppercase method
    ∷ path_and_query
    ∷ source
    ∷ destination
    ∷ key_id
    ∷ to_string timestamp_ms
    ∷ nonce
    ∷ body_sha256
    ∷ []

unfoldable pub canonical_request :
    List ℕ → List ℕ → List ℕ → List ℕ → List ℕ → ℕ → List ℕ → List ℕ → List ℕ
canonical_request method path_and_query source destination key_id timestamp_ms nonce body_sha256 =
    join (
      canonical_parts method path_and_query source destination key_id timestamp_ms nonce
        body_sha256)

-- Whether a key may sign at `t`.
unfoldable pub key_outside_window : FederationPeerKey → ℕ → Bool
key_outside_window key t =
    (elim key.valid_after_ms [ none ↦ false | some valid_after ↦ before t valid_after ])
    || (elim key.valid_until_ms [ none ↦ false | some valid_until ↦ not (before t valid_until) ])

abbrev pub abs_diff : ℕ → ℕ → ℕ
abs_diff a b = (a - b) + (b - a)
