-- ===== src/Websocket/FrameRate.antt =====
-- The limit on the frames of one connection (server-rs/src/ws/connection.rs). An `Instant` is its
-- nanoseconds.
pub mod Counts
use verdant_backend.Prelude.{
  ℕ, ◌+◌, ◌-◌, ◌/◌, ◌%◌, ◌^◌, Bool, List, [], ◌∷◌, ltb, leb, if◌then◌else◌,
}

abbrev pub rate_window_secs : ℕ
rate_window_secs = 10

abbrev pub rate_max : ℕ
rate_max = 50

abbrev pub rate_hard_max : ℕ
rate_hard_max = 100

pub data RateResult : Type 0 where
  passes limited disconnected : RateResult

-- The fields of `ConnectionState` that the limit reads.
pub record FrameCount : Type 0 where
  pub msg_count : ℕ
  pub window_start : ℕ
  pub bypass_rate_limits : Bool

abbrev pub count_frame : FrameCount → RateResult × FrameCount
count_frame conn =
    let msg_count = (conn.msg_count + 1) % 2 ^ 32 in
    (
      if ltb rate_hard_max msg_count
          then disconnected
          else if ltb rate_max msg_count
          then limited
          else passes,
      record conn { msg_count = msg_count },
    )

-- `duration_since` is 0 for a later start.
unfoldable pub check_rate_limit : FrameCount → ℕ → RateResult × FrameCount
check_rate_limit conn now =
    if conn.bypass_rate_limits
    then (passes, conn)
    else if leb rate_window_secs ((now - conn.window_start) / 10 ^ 9)
    then count_frame (record conn { msg_count = 0; window_start = now })
    else count_frame conn

-- The results for frames that come at these instants.
unfoldable pub check_all : FrameCount → List ℕ → List RateResult
unfolding check_rate_limit
check_all conn [] = []
check_all conn (now ∷ rest) =
    let (result, conn') = check_rate_limit conn now in result ∷ check_all conn' rest
