-- ===== src/RateLimit/Configs.antt =====
-- The predefined limits (server-rs/src/middleware/rate_limit.rs).
use Prim.Native.String.{String}
use verdant_backend.Prelude.{
  ℕ, zero, suc, ◌+◌, ◌*◌, ◌^◌, ◌<◌, min, ◌≡◌, refl, ap, Bool, true, List, [], ◌∷◌, none, some,
  string_eq, all, get_elem?, ltb, arith,
}
use verdant_backend.Prelude.Dict.{Dict, lookup}
use verdant_backend.RateLimit.{RateLimitConfig, LocalRateLimitEntry, rate_key}
use verdant_backend.RateLimit.Windows.{Event, requests, accepted, AllIn, accepted-eq-min}

abbrev pub auth_limit : RateLimitConfig
auth_limit = record { window_secs = 60; max = 5; prefix = "rl:auth" }

abbrev pub register_limit : RateLimitConfig
register_limit = record { window_secs = 300; max = 3; prefix = "rl:register" }

abbrev pub message_limit : RateLimitConfig
message_limit = record { window_secs = 10; max = 10; prefix = "rl:message" }

abbrev pub reaction_limit : RateLimitConfig
reaction_limit = record { window_secs = 60; max = 20; prefix = "rl:reaction" }

abbrev pub typing_limit : RateLimitConfig
typing_limit = record { window_secs = 10; max = 20; prefix = "rl:typing" }

abbrev pub read_state_limit : RateLimitConfig
read_state_limit = record { window_secs = 60; max = 60; prefix = "rl:read_state" }

abbrev pub presence_limit : RateLimitConfig
presence_limit = record { window_secs = 60; max = 20; prefix = "rl:presence" }

abbrev pub ws_nav_limit : RateLimitConfig
ws_nav_limit = record { window_secs = 10; max = 30; prefix = "rl:ws_nav" }

abbrev pub voice_limit : RateLimitConfig
voice_limit = record { window_secs = 10; max = 8; prefix = "rl:voice" }

abbrev pub api_limit : RateLimitConfig
api_limit = record { window_secs = 10; max = 20; prefix = "rl:api" }

abbrev pub invite_limit : RateLimitConfig
invite_limit = record { window_secs = 60; max = 5; prefix = "rl:invite" }

abbrev pub channel_limit : RateLimitConfig
channel_limit = record { window_secs = 60; max = 20; prefix = "rl:channel" }

abbrev pub category_limit : RateLimitConfig
category_limit = record { window_secs = 60; max = 20; prefix = "rl:category" }

abbrev pub server_limit : RateLimitConfig
server_limit = record { window_secs = 60; max = 10; prefix = "rl:server" }

abbrev pub dm_limit : RateLimitConfig
dm_limit = record { window_secs = 5; max = 5; prefix = "rl:dm" }

abbrev pub relationship_limit : RateLimitConfig
relationship_limit = record { window_secs = 60; max = 10; prefix = "rl:relationship" }

abbrev pub emoji_limit : RateLimitConfig
emoji_limit = record { window_secs = 60; max = 10; prefix = "rl:emoji" }

abbrev pub role_limit : RateLimitConfig
role_limit = record { window_secs = 60; max = 20; prefix = "rl:role" }

abbrev pub upload_limit : RateLimitConfig
upload_limit = record { window_secs = 60; max = 10; prefix = "rl:upload" }

abbrev pub moderation_limit : RateLimitConfig
moderation_limit = record { window_secs = 60; max = 10; prefix = "rl:moderation" }

abbrev pub password_reset_limit : RateLimitConfig
password_reset_limit = record { window_secs = 300; max = 3; prefix = "rl:pwreset" }

abbrev pub identify_limit : RateLimitConfig
identify_limit = record { window_secs = 60; max = 10; prefix = "rl:identify" }

abbrev pub admin_limit : RateLimitConfig
admin_limit = record { window_secs = 60; max = 5; prefix = "rl:admin" }

abbrev pub update_limit : RateLimitConfig
update_limit = record { window_secs = 60; max = 30; prefix = "rl:update" }

abbrev pub media_limit : RateLimitConfig
media_limit = record { window_secs = 60; max = 60; prefix = "rl:media" }

abbrev pub attachment_media_limit : RateLimitConfig
attachment_media_limit = record { window_secs = 60; max = 240; prefix = "rl:attachment_media" }

abbrev pub search_limit : RateLimitConfig
search_limit = record { window_secs = 60; max = 20; prefix = "rl:search" }

abbrev pub link_preview_limit : RateLimitConfig
link_preview_limit = record { window_secs = 60; max = 20; prefix = "rl:link_preview" }

abbrev pub report_limit : RateLimitConfig
report_limit = record { window_secs = 60; max = 5; prefix = "rl:report" }

abbrev pub bug_report_limit : RateLimitConfig
bug_report_limit = record { window_secs = 60; max = 5; prefix = "rl:bugreport" }

abbrev pub stripe_webhook_limit : RateLimitConfig
stripe_webhook_limit = record { window_secs = 60; max = 120; prefix = "rl:stripe_webhook" }

abbrev pub federation_event_limit : RateLimitConfig
federation_event_limit = record { window_secs = 60; max = 120; prefix = "rl:federation_event" }

abbrev pub federation_invite_preview_limit : RateLimitConfig
federation_invite_preview_limit = record {
  window_secs = 60;
  max = 20;
  prefix = "rl:federation_invite_preview";
}

-- All of them.
abbrev pub configs : List RateLimitConfig
configs =
    auth_limit ∷ register_limit ∷ message_limit ∷ reaction_limit ∷ typing_limit ∷ read_state_limit
    ∷ presence_limit ∷ ws_nav_limit ∷ voice_limit ∷ api_limit ∷ invite_limit ∷ channel_limit
    ∷ category_limit ∷ server_limit ∷ dm_limit ∷ relationship_limit ∷ emoji_limit ∷ role_limit
    ∷ upload_limit ∷ moderation_limit ∷ password_reset_limit ∷ identify_limit ∷ admin_limit
    ∷ update_limit ∷ media_limit ∷ attachment_media_limit ∷ search_limit ∷ link_preview_limit
    ∷ report_limit ∷ bug_report_limit ∷ stripe_webhook_limit ∷ federation_event_limit
    ∷ federation_invite_preview_limit ∷ []

all_at :
    {A : Type 0} (p : A → Bool) (xs : List A) (i : ℕ) (a : A)
    → all p xs ≡ true
    → get_elem? xs i ≡ some a
    → p a ≡ true
all_at p [] i a h e = cc
all_at p (x ∷ xs) zero a h e = ground (arith, λ (q : x ≡ a). ap p q)
all_at p (x ∷ xs) (suc i) a h e = all_at p xs i a (ground arith) e

abbrev has_window : RateLimitConfig → Bool
has_window config = ltb 0 config.window_secs

-- For every predefined limit: while Redis does not answer, the requests of an identifier whose
-- key is not in the entries yet, fewer than 2^64 in one window that ends before 2^64, are
-- accepted up to the limit.
pub accepted-predefined :
    (i : ℕ) (config : RateLimitConfig) (identifier : String) (w : ℕ) (events : List Event)
    (entries : Dict String LocalRateLimitEntry)
    → get_elem? configs i ≡ some config
    → (w + 1) * config.window_secs < 2 ^ 64
    → AllIn w config.window_secs events
    → lookup (rate_key config identifier w) entries ≡ none
    → requests events < 2 ^ 64
    → accepted config identifier events entries ≡ min (requests events) config.max
accepted-predefined i config identifier w events entries e q a h l =
    let windowed : has_window config ≡ true = all_at has_window configs i config refl e in
    accepted-eq-min config identifier w events entries (ground arith) q a h l
