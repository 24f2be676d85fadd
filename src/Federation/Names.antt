-- ===== src/Federation/Names.antt =====
-- What a peer, a key, a nonce, a method and a path may look like: the validators of
-- server-rs/src/federation/auth.rs on the bytes of a text. Their `Result<(), ()>` is a Bool.
use verdant_backend.Prelude.{
  ℕ, Bool, false, not, ◌&&◌, ◌||◌, List, [], ◌∷◌, nat_eq, leb, ◌==◌, all, length,
}
use verdant_backend.Prelude.HashSet.{contains, is_empty}

abbrev pub max_header_value_chars : ℕ
max_header_value_chars = 512

abbrev pub min_nonce_chars : ℕ
min_nonce_chars = 16

abbrev pub max_nonce_chars : ℕ
max_nonce_chars = 128

abbrev pub max_peer_id_chars : ℕ
max_peer_id_chars = 253

abbrev pub max_key_id_chars : ℕ
max_key_id_chars = 128

abbrev pub is_ascii_uppercase : ℕ → Bool
is_ascii_uppercase b = leb 65 b && leb b 90

abbrev pub is_ascii_alphanumeric : ℕ → Bool
is_ascii_alphanumeric b = (leb 48 b && leb b 57) || is_ascii_uppercase b || (leb 97 b && leb b 122)

-- `-`, `.` and `_`.
abbrev pub is_nonce_byte : ℕ → Bool
is_nonce_byte b = is_ascii_alphanumeric b || (b == 46 || b == 45 || b == 95)

-- With `:`.
abbrev pub is_id_byte : ℕ → Bool
is_id_byte b = is_ascii_alphanumeric b || (b == 46 || b == 45 || b == 95 || b == 58)

abbrev pub is_method_byte : ℕ → Bool
is_method_byte b = is_ascii_uppercase b || b == 45

unfoldable pub validate_method : List ℕ → Bool
validate_method value = not (is_empty value) && leb (length value) 16 && all is_method_byte value

abbrev pub starts_with_slash : List ℕ → Bool
starts_with_slash [] = false
starts_with_slash (b ∷ bytes) = b == 47

unfoldable pub validate_path_and_query : List ℕ → Bool
validate_path_and_query value =
    starts_with_slash value
    && leb (length value) 2048
    && not (contains 13 value)
    && not (contains 10 value)

unfoldable pub validate_peer_id : List ℕ → Bool
validate_peer_id value =
    not (is_empty value) && leb (length value) max_peer_id_chars && all is_id_byte value

unfoldable pub validate_key_id : List ℕ → Bool
validate_key_id value =
    not (is_empty value) && leb (length value) max_key_id_chars && all is_id_byte value

unfoldable pub validate_nonce : List ℕ → Bool
validate_nonce value =
    leb min_nonce_chars (length value)
    && leb (length value) max_nonce_chars
    && all is_nonce_byte value
