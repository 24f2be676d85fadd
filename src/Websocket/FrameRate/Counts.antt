-- ===== src/Websocket/FrameRate/Counts.antt =====
-- How many frames of a window pass (server-rs/src/ws/connection.rs).
use verdant_backend.Prelude.{
  ℕ, ◌+◌, ◌-◌, ◌*◌, ◌/◌, ◌%◌, ◌^◌, ◌≤◌, ◌<◌, min, ◌≡◌, refl, true, false, List, [], ◌∷◌, ltb, leb,
  if◌then◌else◌, length, arith,
}
use verdant_backend.Websocket.FrameRate.{
  RateResult, passes, limited, disconnected, FrameCount, check_rate_limit, check_all,
}

abbrev pub is_pass : RateResult → ℕ
is_pass passes = 1
is_pass limited = 0
is_pass disconnected = 0

abbrev pub is_limited : RateResult → ℕ
is_limited passes = 0
is_limited limited = 1
is_limited disconnected = 0

abbrev pub count_by : (RateResult → ℕ) → List RateResult → ℕ
count_by weight [] = 0
count_by weight (r ∷ results) = weight r + count_by weight results

-- Every instant is in the window that starts at `start`.
abbrev pub InWindow : ℕ → List ℕ → Type 0
InWindow start [] = Unit
InWindow start (now ∷ rest) = (now - start < 10 * 10 ^ 9) × InWindow start rest

abbrev counted : ℕ → ℕ → FrameCount
counted count start = record { msg_count = count; window_start = start; bypass_rate_limits = false }

-- The result of a frame by its number in the window.
abbrev verdict : ℕ → RateResult
verdict number = if ltb 100 number then disconnected else if ltb 50 number then limited else passes

one_frame :
    (count start now : ℕ)
    → count + 1 < 2 ^ 32
    → now - start < 10 * 10 ^ 9
    → check_rate_limit (counted count start) now ≡ (verdict (count + 1), counted (count + 1) start)
unfolding check_rate_limit
one_frame count start now small inside =
    let wraps : (count + 1) % 2 ^ 32 ≡ count + 1 = omega (arith, small) in
    let same_window : leb 10 ((now - start) / 10 ^ 9) ≡ false = ground arith in
    rw (same_window, wraps) refl

counts :
    (count start : ℕ) (times : List ℕ)
    → count + length times < 2 ^ 32
    → InWindow start times
    → (count_by is_pass (check_all (counted count start) times) ≡ min (length times) (50 - count))
      × (count_by is_limited (check_all (counted count start) times)
          ≡ min (length times) (100 - count) - (50 - count))
unfolding check_all
counts count start [] small inside = ground arith
counts count start (now ∷ rest) small inside =
    let later = counts (count + 1) start rest (omega (arith, small)) inside.1 in
    rw (one_frame count start now (omega (arith, small)) inside.0) (ground (arith, later))

new_window :
    (conn : FrameCount) (now : ℕ)
    → conn.bypass_rate_limits ≡ false
    → 10 * 10 ^ 9 ≤ now - conn.window_start
    → check_rate_limit conn now ≡ (passes, counted 1 now)
unfolding check_rate_limit
new_window conn now limits late =
    let over : leb 10 ((now - conn.window_start) / 10 ^ 9) ≡ true = ground arith in
    rw (limits, over) refl

-- When a frame of a connection without bypass starts a new window, 10 seconds or more after the
-- last one began, then of it and the frames that follow within 10 seconds, fewer than 2^32
-- together, 50 pass and the next 50 are limited, or as many as there are, and the rest
-- disconnect.
pub check_all-window :
    (conn : FrameCount) (now : ℕ) (rest : List ℕ)
    → conn.bypass_rate_limits ≡ false
    → 10 * 10 ^ 9 ≤ now - conn.window_start
    → InWindow now rest
    → length (now ∷ rest) < 2 ^ 32
    → (count_by is_pass (check_all conn (now ∷ rest)) ≡ min (length (now ∷ rest)) 50)
      × (count_by is_limited (check_all conn (now ∷ rest)) ≡ min (length (now ∷ rest)) 100 - 50)
unfolding check_all
check_all-window conn now rest limits late inside small =
    let later = counts 1 now rest (omega (arith, small)) inside in
    rw (new_window conn now limits late) (ground (arith, later))
