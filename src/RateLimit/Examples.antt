-- ===== src/RateLimit/Examples.antt =====
-- The theorems on the rate limits at a limit of two requests in ten seconds.
use verdant_backend.Prelude.{ℕ, string_eq, ◌≡◌, refl, List, [], ◌∷◌, Option, some, arith}
use verdant_backend.AppError.{ok}
use verdant_backend.RateLimit.{RateLimitConfig, RateLimitInfo, enforce, current_count}
use verdant_backend.RateLimit.Windows.{Event, request, tidy, accepted, accepted-eq-min}

abbrev config : RateLimitConfig
config = record { window_secs = 10; max = 2; prefix = "rl:test" }

abbrev events : List Event
events = request 40 ∷ request 41 ∷ tidy 45 ∷ request 49 ∷ []

accepted-eq-min_example : accepted config "7" events [] ≡ 2
accepted-eq-min_example =
    accepted-eq-min config "7" 4 events [] (omega arith) (omega arith)
      (refl, (refl, (refl, (refl, tt)))) refl (omega arith)

abbrev info : RateLimitInfo
info = record { limit = 2; remaining = 1; reset_at = 50 }

first_request : (enforce (some 1) 43 config "7" []).0 ≡ ok info
unfolding enforce current_count
first_request = refl

abbrev secret : Option (List ℕ)
secret = some (115 ∷ [])
