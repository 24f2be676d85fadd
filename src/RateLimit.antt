-- ===== src/RateLimit.antt =====
-- Request rate limits (server-rs/src/middleware/rate_limit.rs): the local counters, the check that
-- asks Redis first, and the headers that bypass it.
pub mod Entries
pub mod Windows
pub mod Configs
pub mod Secrets
mod Examples
use Prim.Native.String.{String, ◌++◌}
use verdant_backend.Prelude.{
  ℕ, zero, suc, ◌+◌, ◌-◌, ◌*◌, ◌/◌, ◌%◌, ◌^◌, Bool, true, false, List, [], ◌∷◌, Option, none, some,
  string_eq, ◌=?◌, ltb, ◌==◌, if◌then◌else◌, bit_or, bit_xor, length, get_elem?,
}
use verdant_backend.Prelude.Format.{decimal}
use verdant_backend.Prelude.Dict
use verdant_backend.Prelude.Dict.{Dict, lookup}
use verdant_backend.Prelude.OptionMonad.{unwrap_or}
use verdant_backend.AppError.{AppError, AppResult, ok, err}

pub record LocalRateLimitEntry : Type 0 where
  pub count : ℕ
  pub window : ℕ
  pub expires_at : ℕ

abbrev pub fresh : ℕ → ℕ → LocalRateLimitEntry
fresh window expires_at = record { count = 0; window = window; expires_at = expires_at }

-- `count.fetch_add(1) + 1`, which is what the counter holds afterwards.
abbrev pub bump : LocalRateLimitEntry → LocalRateLimitEntry
bump e = record e { count = (e.count + 1) % 2 ^ 64 }

-- The entry under the key, once `or_insert_with` has put one there.
abbrev pub stored : LocalRateLimitEntry → Option LocalRateLimitEntry → LocalRateLimitEntry
stored new none = new
stored new (some e) = e

-- The count of the key in the window, and the entries that the call leaves.
unfoldable pub check :
    Dict String LocalRateLimitEntry → String → ℕ → ℕ → ℕ × Dict String LocalRateLimitEntry
check entries key window window_secs =
    let new = fresh window ((window + 1) * window_secs % 2 ^ 64) in
    let held = Dict.or_insert key new entries in
    let entry = stored new (lookup key held) in
    if entry.window == window
    then ((bump entry).count, Dict.modify key bump held)
    else ((bump new).count, Dict.modify key bump (Dict.or_insert key new (Dict.remove key held)))

unfoldable pub cleanup : ℕ → Dict String LocalRateLimitEntry → Dict String LocalRateLimitEntry
cleanup now_secs [] = []
cleanup now_secs ((key, e) ∷ rest) =
    let kept = cleanup now_secs rest in if ltb now_secs e.expires_at then (key, e) ∷ kept else kept

pub record RateLimitConfig : Type 0 where
  pub window_secs : ℕ
  pub max : ℕ
  pub prefix : String

-- `format!("{}:{}:{}", config.prefix, identifier, window)`.
pub rate_key : RateLimitConfig → String → ℕ → String
rate_key config identifier window = config.prefix ++ ":" ++ identifier ++ ":" ++ decimal window

-- The current count: what Redis answers to `INCR`, the local counter where it does not answer.
unfoldable pub current_count :
    Option ℕ
    → ℕ
    → RateLimitConfig
    → String
    → Dict String LocalRateLimitEntry
    → ℕ × Dict String LocalRateLimitEntry
unfolding check
current_count (some val) now_secs config identifier entries = (val, entries)
current_count none now_secs config identifier entries =
    let window = now_secs / config.window_secs in
    check entries (rate_key config identifier window) window config.window_secs

pub record RateLimitInfo : Type 0 where
  pub limit : ℕ
  pub remaining : ℕ
  pub reset_at : ℕ

-- `enforce` and `enforce_inner`; `redis` is the answer to `INCR`, none where the call fails.
unfoldable pub enforce :
    Option ℕ
    → ℕ
    → RateLimitConfig
    → String
    → Dict String LocalRateLimitEntry
    → AppResult RateLimitInfo × Dict String LocalRateLimitEntry
unfolding current_count
enforce redis now_secs config identifier entries =
    let (current, entries') = current_count redis now_secs config identifier entries in
    let window = now_secs / config.window_secs in
    if ltb config.max current then (err AppError.rate_limited, entries') else (
      ok (record {
        limit = config.max;
        remaining = config.max - current;
        reset_at = (window + 1) * config.window_secs % 2 ^ 64;
      }),
      entries',
    )

-- The middleware: a rejection carries the seconds of its `retry-after`.
pub data Limited : Type 0 where
  pass : Limited
  too_many_requests : (retry_after : ℕ) → Limited

unfoldable pub check_rate_limit :
    Option ℕ
    → ℕ
    → RateLimitConfig
    → Option String
    → String
    → Dict String LocalRateLimitEntry
    → Limited × Dict String LocalRateLimitEntry
unfolding current_count
check_rate_limit redis now_secs config user ip entries =
    let identifier : String = elim user [ none ↦ ip | some u ↦ u ] in
    let (current, entries') = current_count redis now_secs config identifier entries in
    if ltb config.max current
    then (too_many_requests (config.window_secs - now_secs % config.window_secs), entries')
    else (pass, entries')

-- A text is its bytes here.
pub diff_bytes : ℕ → List ℕ → List ℕ → ℕ
diff_bytes diff (a ∷ xs) (b ∷ ys) = diff_bytes (bit_or diff (bit_xor a b)) xs ys
diff_bytes diff _ _ = diff

unfoldable pub is_loadtest_bypass : Option (List ℕ) → Option (List ℕ) → Bool
unfolding diff_bytes
is_loadtest_bypass none header = false
is_loadtest_bypass (some []) header = false
is_loadtest_bypass (some (a ∷ xs)) none = false
is_loadtest_bypass (some (a ∷ xs)) (some provided) =
    if length (a ∷ xs) == length provided then diff_bytes 0 (a ∷ xs) provided == 0 else false

unfoldable pub is_stress_test_bypass : Option String → Option String → Bool
is_stress_test_bypass none header = false
is_stress_test_bypass (some key) none = false
is_stress_test_bypass (some key) (some header) = header =? key

-- `headers` is `None`, or what `x-stress-test` holds.
unfoldable pub enforce_opt_bypass :
    Option String
    → Option (Option String)
    → Option ℕ
    → ℕ
    → RateLimitConfig
    → String
    → Dict String LocalRateLimitEntry
    → AppResult RateLimitInfo × Dict String LocalRateLimitEntry
unfolding is_stress_test_bypass enforce
enforce_opt_bypass stress_key headers redis now_secs config identifier entries =
    let limited = enforce redis now_secs config identifier entries in
    elim headers [
      | none ↦ limited
      | some header ↦
          if is_stress_test_bypass stress_key header
          then (ok (record { limit = 2 ^ 64 - 1; remaining = 2 ^ 64 - 1; reset_at = 0 }), entries)
          else limited
    ]
