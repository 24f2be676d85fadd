-- ===== src/RateLimit/Windows.antt =====
-- The local limiter over one window (server-rs/src/middleware/rate_limit.rs): calls and cleanups in
-- any order, while Redis does not answer.
use Prim.Native.String.{String}
use mathlib.Core.Path.{subst}
use native.Mathlib.Nat.{div-lt_iff_lt-mul, div-add-mod'}
use verdant_backend.Prelude.{
  ℕ, ◌+◌, ◌-◌, ◌*◌, ◌/◌, ◌%◌, ◌^◌, ◌≤◌, ◌<◌, min, ◌≡◌, refl, ap, ◌∙◌, List, [], ◌∷◌, Option, none,
  string_eq, ltb, if◌then◌else◌, inl, inr, Bool-cases, arith,
}
use verdant_backend.Prelude.Dict.{Dict, lookup}
use verdant_backend.AppError.{AppResult, ok, err}
use verdant_backend.RateLimit.{
  LocalRateLimitEntry, check, cleanup, RateLimitConfig, rate_key, RateLimitInfo, enforce,
  current_count,
}
use verdant_backend.RateLimit.Entries.{
  check-entry, HoldsCount, count_in-HoldsCount, HoldsCount-check, HoldsCount-cleanup,
}

-- What happens to the limiter in a window: a request of the identifier, or a cleanup.
pub data Event : Type 0 where
  request : (now : ℕ) → Event
  tidy : (now : ℕ) → Event

abbrev pub time : Event → ℕ
time (request now) = now
time (tidy now) = now

abbrev pub is_accepted : AppResult RateLimitInfo → ℕ
is_accepted (ok _) = 1
is_accepted (err _) = 0

-- The requests of the list, and how many of them `enforce` accepts.
abbrev pub requests : List Event → ℕ
requests [] = 0
requests (request _ ∷ rest) = 1 + requests rest
requests (tidy _ ∷ rest) = requests rest

pub accepted : RateLimitConfig → String → List Event → Dict String LocalRateLimitEntry → ℕ
accepted config identifier [] entries = 0
accepted config identifier (request now ∷ rest) entries =
    let (answer, entries') = enforce none now config identifier entries in
    is_accepted answer + accepted config identifier rest entries'
accepted config identifier (tidy now ∷ rest) entries =
    accepted config identifier rest (cleanup now entries)

abbrev pub AllIn : (window window_secs : ℕ) → List Event → Type 0
AllIn window window_secs [] = Unit
AllIn window window_secs (e ∷ rest) =
    (time e / window_secs ≡ window) × AllIn window window_secs rest

lt_window_end : (now ws w : ℕ) → 0 < ws → now / ws ≡ w → now < (w + 1) * ws
lt_window_end now ws w p e = (div-lt_iff_lt-mul {k = ws} {x = now} {y = w + 1} p).0 (omega arith)

-- A call of `enforce` without Redis is a call of the local counter.
enforce-check :
    (now : ℕ) (config : RateLimitConfig) (identifier : String)
    (entries : Dict String LocalRateLimitEntry) (w : ℕ)
    → now / config.window_secs ≡ w
    → (is_accepted (enforce none now config identifier entries).0 ≡ (
        if ltb config.max (check entries (rate_key config identifier w) w config.window_secs).0
        then 0
        else 1))
      × ((enforce none now config identifier entries).1
          ≡ (check entries (rate_key config identifier w) w config.window_secs).1)
unfolding enforce current_count
enforce-check now config identifier entries w e =
    rw (← e)
      (elim (Bool-cases (
        ltb config.max
          (check entries (rate_key config identifier (now / config.window_secs))
            (now / config.window_secs) config.window_secs).0)) [
              | inl over ↦ rw over (refl, refl)
              | inr under ↦ rw under (refl, refl)
            ])

enforce-count :
    (now : ℕ) (config : RateLimitConfig) (identifier : String)
    (entries : Dict String LocalRateLimitEntry) (w n : ℕ)
    → now / config.window_secs ≡ w
    → HoldsCount w
        ((w + 1) * config.window_secs % 2 ^ 64)
        n
        (lookup (rate_key config identifier w) entries)
    → n + 1 < 2 ^ 64
    → (is_accepted (enforce none now config identifier entries).0
        ≡ (if ltb config.max (n + 1) then 0 else 1))
      × HoldsCount w
          ((w + 1) * config.window_secs % 2 ^ 64)
          (n + 1)
          (lookup (rate_key config identifier w) (enforce none now config identifier entries).1)
enforce-count now config identifier entries w n e h l =
    let key = rate_key config identifier w in
    let o = lookup key entries in
    let small : (n + 1) % 2 ^ 64 ≡ n + 1 = omega arith in
    let counted : (check entries key w config.window_secs).0 ≡ n + 1 =
      check-entry entries key w config.window_secs o refl
      ∙ ap (λ t. (t + 1) % 2 ^ 64) (count_in-HoldsCount w _ n o h)
      ∙ small in
    let held = HoldsCount-check entries key w config.window_secs n o refl h in
    let parts = enforce-check now config identifier entries w e in
    (parts.0 ∙ ap (λ t. if ltb config.max t then 0 else 1) counted, rw (parts.1, ← small) held)

accepted-count :
    (config : RateLimitConfig) (identifier : String) (w n : ℕ) (events : List Event)
    (entries : Dict String LocalRateLimitEntry)
    → 0 < config.window_secs
    → (w + 1) * config.window_secs < 2 ^ 64
    → AllIn w config.window_secs events
    → HoldsCount w
        ((w + 1) * config.window_secs % 2 ^ 64)
        n
        (lookup (rate_key config identifier w) entries)
    → n + requests events < 2 ^ 64
    → accepted config identifier events entries
      ≡ min (n + requests events) config.max - min n config.max
unfolding accepted
accepted-count config identifier w n [] entries p q a h l = omega arith
accepted-count config identifier w n (request now ∷ rest) entries p q a h l =
    let once = enforce-count now config identifier entries w n a.0 h (omega arith) in
    let later =
      accepted-count config identifier w (n + 1) rest (enforce none now config identifier entries).1
        p q a.1 once.1 (omega arith) in
    elim (Bool-cases (ltb config.max (n + 1))) [
      | inl over ↦
          let first : is_accepted (enforce none now config identifier entries).0 ≡ 0 =
            once.0 ∙ (rw over refl) in
          rw (first, later) (ground arith)
      | inr under ↦
          let first : is_accepted (enforce none now config identifier entries).0 ≡ 1 =
            once.0 ∙ (rw under refl) in
          rw (first, later) (ground arith)
    ]
accepted-count config identifier w n (tidy now ∷ rest) entries p q a h l =
    let small : (w + 1) * config.window_secs % 2 ^ 64 ≡ (w + 1) * config.window_secs =
      omega arith in
    let early : now < (w + 1) * config.window_secs % 2 ^ 64 =
      rw small (lt_window_end now config.window_secs w p a.0) in
    accepted-count config identifier w n rest (cleanup now entries) p q a.1
      (HoldsCount-cleanup now _ entries w _ n _ early refl h) l

-- While Redis does not answer, the requests of an identifier whose key is not in the entries yet
-- are accepted up to the limit, in one window that ends before 2^64 and in which fewer than 2^64
-- requests come: as many as there are, and `max` at most, whatever cleanups run between them.
pub accepted-eq-min :
    (config : RateLimitConfig) (identifier : String) (w : ℕ) (events : List Event)
    (entries : Dict String LocalRateLimitEntry)
    → 0 < config.window_secs
    → (w + 1) * config.window_secs < 2 ^ 64
    → AllIn w config.window_secs events
    → lookup (rate_key config identifier w) entries ≡ none
    → requests events < 2 ^ 64
    → accepted config identifier events entries ≡ min (requests events) config.max
accepted-eq-min config identifier w events entries p q a h l =
    accepted-count config identifier w 0 events entries p q a (rw h refl) (omega arith)
    ∙ omega arith

-- Whatever Redis answers, an accepted request of a limit whose window is not empty and ends
-- before 2^64 is told of a window that ends after now and within `window_secs`, and of what
-- remains of the limit when the current count is taken off.
pub enforce-ok_bounds :
    (redis : Option ℕ) (now : ℕ) (config : RateLimitConfig) (identifier : String)
    (entries : Dict String LocalRateLimitEntry) (info : RateLimitInfo)
    → 0 < config.window_secs
    → (now / config.window_secs + 1) * config.window_secs < 2 ^ 64
    → (enforce redis now config identifier entries).0 ≡ ok info
    → (now < info.reset_at)
      × (info.reset_at ≤ now + config.window_secs)
      × (info.limit ≡ config.max)
      × (info.remaining + (current_count redis now config identifier entries).0 ≡ config.max)
unfolding enforce
enforce-ok_bounds redis now config identifier entries info p q h =
    let counted = (current_count redis now config identifier entries).0 in
    let e : now / config.window_secs * config.window_secs + now % config.window_secs ≡ now =
      div-add-mod' now config.window_secs in
    let low = lt_window_end now config.window_secs (now / config.window_secs) p refl in
    let told : RateLimitInfo = record {
      limit = config.max;
      remaining = config.max - counted;
      reset_at = (now / config.window_secs + 1) * config.window_secs % 2 ^ 64;
    } in
    elim (Bool-cases (ltb config.max counted)) [
      | inl over ↦ absurd (ground arith)
      | inr under ↦
          let same : told ≡ info = ground arith in
          let exact : (now / config.window_secs + 1) * config.window_secs % 2 ^ 64
              ≡ (now / config.window_secs + 1) * config.window_secs =
            omega arith in
          subst
            (λ i.
              (now < i.reset_at)
              × (i.reset_at ≤ now + config.window_secs)
              × (i.limit ≡ config.max)
              × (i.remaining + counted ≡ config.max))
            same (rw exact low, rw exact (omega (arith, e)), refl, ground arith)
    ]
