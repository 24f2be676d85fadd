-- ===== src/Federation/Payload.antt =====
-- The checks of one field of an event's payload (server-rs/src/federation/protocol.rs).
pub mod Fields
pub mod Checks
use Prim.Native.String.{String}
use verdant_backend.Prelude.{
  ℕ, suc, ◌+◌, Bool, true, false, not, ◌&&◌, ◌||◌, List, [], ◌∷◌, Option, none, some, nat_eq,
  list_eq, ◌=?◌, leb, ltb, ◌==◌, if◌then◌else◌, all, length,
}
use verdant_backend.Prelude.HashSet.{is_empty}
use verdant_backend.Prelude.OptionMonad.{◌>>=◌}
use verdant_backend.Prelude.Ascii.{ascii}
use verdant_backend.Federation.Decimal.{ℤ, pos, negsuc, is_digit, parse_i64}
use verdant_backend.Federation.Names.{is_id_byte}
use verdant_backend.Federation.Interfaces.{Json, Urls}
use verdant_backend.Federation.Identity.{char_count, is_safe_public_profile_url, is_some}

unfoldable pub valid_payload_id : List ℕ → Bool
valid_payload_id value = not (is_empty value) && leb (length value) 256 && all is_id_byte value

unfoldable pub valid_event_id : List ℕ → Bool
valid_event_id value = not (is_empty value) && leb (length value) 256 && all is_id_byte value

unfoldable pub valid_peer_id : List ℕ → Bool
valid_peer_id value = not (is_empty value) && leb (length value) 253 && all is_id_byte value

-- `o.is_some_and(p)` and `o.is_none_or(p)`.
abbrev pub is_some_and : {A : Type 0} → Option A → (A → Bool) → Bool
is_some_and none p = false
is_some_and (some a) p = p a

abbrev pub is_none_or : {A : Type 0} → Option A → (A → Bool) → Bool
is_none_or none p = true
is_none_or (some a) p = p a

-- `(low..=high).contains(&z)` with bounds that are not negative.
abbrev pub z_within : ℕ → ℕ → ℤ → Bool
z_within low high (pos n) = leb low n && leb n high
z_within low high (negsuc n) = false

abbrev pub is_ascii_hexdigit : ℕ → Bool
is_ascii_hexdigit b = is_digit b || (leb 65 b && leb b 70) || (leb 97 b && leb b 102)

-- `strip_prefix('#').unwrap_or(value)`.
abbrev pub without_hash : List ℕ → List ℕ
without_hash [] = []
without_hash (b ∷ text) = if b == 35 then text else b ∷ text

abbrev pub is_presence : List ℕ → Bool
is_presence status =
    (status =? ascii "online")
    || (status =? ascii "idle")
    || (status =? ascii "dnd")
    || (status =? ascii "offline")

module _ (j : Json) where
  abbrev pub field : j.Value → String → Option j.Value
  field payload key = j.get payload (ascii key)

  -- `get(key).and_then(Value::as_str).is_some_and(p)`.
  abbrev pub str_is : j.Value → String → (List ℕ → Bool) → Bool
  str_is payload key p = is_some_and (field payload key >>= j.as_str) p

  -- The match of the optional checks: a missing field and `null` pass.
  abbrev pub optional : j.Value → String → (j.Value → Bool) → Bool
  optional payload key p = is_none_or (field payload key) (λ value. j.is_null value || p value)

  unfoldable pub required_payload_id : j.Value → String → Bool
  required_payload_id payload key = str_is payload key valid_payload_id

  unfoldable pub optional_payload_id : j.Value → String → Bool
  optional_payload_id payload key =
      optional payload key (λ value. is_some_and (j.as_str value) valid_payload_id)

  unfoldable pub required_payload_id_array : j.Value → String → ℕ → ℕ → Bool
  required_payload_id_array payload key min_len max_len =
      is_some_and (field payload key >>= j.as_array) (λ values.
        (leb min_len (length values) && leb (length values) max_len)
        && all (λ value. is_some_and (j.as_str value) valid_payload_id) values)

  abbrev top_level_item : j.Value → Bool
  top_level_item item = is_some_and (j.as_object item) (λ _.
      str_is item "remoteId" valid_payload_id
      && str_is item "type" (λ value. (value =? ascii "channel") || (value =? ascii "category")))

  abbrev category_item : List ℕ × j.Value → Bool
  category_item (category_id, channel_ids) =
      valid_payload_id category_id
      && is_some_and (j.as_array channel_ids) (λ ids.
        leb (length ids) 500 && all (λ id. is_some_and (j.as_str id) valid_payload_id) ids)

  unfoldable pub channel_reorder_items : j.Value → Bool
  channel_reorder_items payload =
      is_some_and (field payload "topLevel" >>= j.as_array)
        (λ items. leb (length items) 1000 && all top_level_item items)
      && is_some_and (field payload "categories" >>= j.as_object)
          (λ categories. leb (length categories) 250 && all category_item categories)

  abbrev not_negative : ℤ → Bool
  not_negative (pos n) = true
  not_negative (negsuc n) = false

  abbrev role_item : j.Value → Bool
  role_item item = is_some_and (j.as_object item) (λ _.
      str_is item "remoteRoleId" valid_payload_id
      && is_none_or (field item "position") (λ value. is_some_and (j.as_i64 value) not_negative)
      && is_none_or (field item "colorPriority")
          (λ value. is_some_and (j.as_i64 value) (z_within 0 10000))
      && (is_some (field item "position") || is_some (field item "colorPriority")))

  unfoldable pub role_reorder_items : j.Value → Bool
  role_reorder_items payload =
      is_some_and (field payload "items" >>= j.as_array)
        (λ items. (leb 1 (length items) && leb (length items) 250) && all role_item items)

  unfoldable pub required_content : j.Value → String → ℕ → Bool
  required_content payload key max_chars =
      str_is payload key (λ value. not (is_empty value) && leb (char_count value) max_chars)

  unfoldable pub optional_short_string : j.Value → String → ℕ → Bool
  optional_short_string payload key max_chars =
      optional payload key
        (λ value. is_some_and (j.as_str value) (λ value. leb (char_count value) max_chars))

  unfoldable pub optional_short_nonempty_string : j.Value → String → ℕ → Bool
  optional_short_nonempty_string payload key max_chars = optional payload key (λ value.
      is_some_and (j.as_str value)
        (λ value. not (is_empty value) && leb (char_count value) max_chars))

  unfoldable pub optional_bool : j.Value → String → Bool
  optional_bool payload key = optional payload key j.is_boolean

  unfoldable pub optional_i32 : j.Value → String → ℕ → ℕ → Bool
  optional_i32 payload key min max =
      optional payload key (λ value. is_some_and (j.as_i64 value) (z_within min max))

  unfoldable pub optional_integer_string : j.Value → String → Bool
  optional_integer_string payload key = optional payload key (λ value.
      is_some_and (j.as_str value)
        (λ value. not (is_empty value) && leb (length value) 20 && is_some (parse_i64 value)))

  unfoldable pub optional_color_string : j.Value → String → Bool
  optional_color_string payload key = optional payload key (λ value.
      is_some_and (j.as_str value)
        (λ value. (length (without_hash value) == 6) && all is_ascii_hexdigit (without_hash value)))

  unfoldable pub optional_url_string : Urls → j.Value → String → Bool
  optional_url_string u payload key =
      optional payload key (λ value. is_some_and (j.as_str value) (is_safe_public_profile_url u))
