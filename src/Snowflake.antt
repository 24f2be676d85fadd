-- ===== src/Snowflake.antt =====
-- The generator of ids (server-rs/src/snowflake.rs). Threads share its state by a compare-and-exchange,
-- so a run is the list of the exchanges that succeed, each on the state that the one before it left.
pub mod Fields
pub mod Order
pub mod Rounds
mod Examples
use verdant_backend.Prelude.{
  ℕ, ◌+◌, ◌-◌, ◌*◌, ◌/◌, ◌%◌, ◌^◌, Bool, true, false, List, [], ◌∷◌, Option, none, some, ltb, ◌==◌,
  if◌then◌else◌, bit_and, bit_or,
}

-- `state` is the last timestamp above the 12 bits of the last sequence number.
pub record SnowflakeGenerator : Type 0 where
  pub worker_id : ℕ
  pub state : ℕ

abbrev pub verdant_epoch_ms : ℕ
verdant_epoch_ms = 1735689600000

-- `none` is the failed assertion.
unfoldable pub new : ℕ → Option SnowflakeGenerator
new worker_id =
    if ltb worker_id 1024 then some (record { worker_id = worker_id; state = 0 }) else none

-- `saturating_sub`.
unfoldable pub timestamp_of : ℕ → ℕ
timestamp_of now_ms = now_ms - verdant_epoch_ms

-- One round of the loop up to the exchange: the sequence is exhausted, or a state to store and the id
-- to return if the exchange succeeds.
pub data Attempt : Type 0 where
  exhausted : Attempt
  store : (new_state id : ℕ) → Attempt

unfoldable pub next_seq : ℕ → ℕ → ℕ
next_seq prev timestamp = if prev / 2 ^ 12 == timestamp then bit_and prev (2 ^ 12 - 1) + 1 else 0

-- Shifts drop the bits above 64. The id is the `u64`, whose sign as an `i64` is bit 63.
unfoldable pub attempt : ℕ → ℕ → ℕ → Attempt
unfolding next_seq
attempt worker_id timestamp prev =
    let seq = next_seq prev timestamp in
    if ltb 4095 seq
    then exhausted
    else store (bit_or (timestamp * 2 ^ 12 % 2 ^ 64) seq)
        (bit_or (bit_or (timestamp * 2 ^ 22 % 2 ^ 64) (worker_id * 2 ^ 12 % 2 ^ 64)) seq)

-- What one thread meets in a round: the state it loads, and whether its exchange succeeds.
pub record Round : Type 0 where
  pub prev : ℕ
  pub succeeds : Bool

-- The loop of `next_id`, with the timestamp that was read before it; none if the rounds run out.
unfoldable pub next_id : ℕ → ℕ → List Round → Option ℕ
unfolding attempt
next_id worker_id timestamp [] = none
next_id worker_id timestamp (r ∷ rounds) =
    let again = next_id worker_id timestamp rounds in
    elim (attempt worker_id timestamp r.prev) [
      | exhausted ↦ again
      | store new_state id ↦ if r.succeeds then some id else again
    ]

-- The ids that threads get whose exchanges succeed with these timestamps, in this order. A thread
-- that finds the sequence exhausted exchanges nothing.
unfoldable pub issue : ℕ → ℕ → List ℕ → List ℕ
unfolding attempt
issue worker_id state [] = []
issue worker_id state (timestamp ∷ rest) = elim (attempt worker_id timestamp state) [
  | exhausted ↦ issue worker_id state rest
  | store new_state id ↦ id ∷ issue worker_id new_state rest
]
