-- ===== src/Snowflake/Rounds.antt =====
-- When a call of `next_id` (server-rs/src/snowflake.rs) returns.
use verdant_backend.Prelude.{
  ℕ, ◌+◌, ◌*◌, ◌/◌, ◌%◌, ◌^◌, ◌<◌, ◌≡◌, Bool, true, false, ◌&&◌, any, List, [], ◌∷◌, none, some,
  ◌==◌, if◌then◌else◌, inl, inr, Bool-cases, arith,
}
use verdant_backend.Snowflake.{exhausted, store, next_seq, attempt, Round, next_id}
use verdant_backend.Snowflake.Fields.{id_of, next_seq_lem, attempt_lem}

-- No other thread changes the state while the loop runs.
abbrev pub AllRead : ℕ → List Round → Type 0
AllRead state [] = Unit
AllRead state (r ∷ rounds) = (r.prev ≡ state) × AllRead state rounds

-- The state holds the timestamp of the call with the last sequence number.
abbrev pub is_full : ℕ → ℕ → Bool
is_full timestamp state = (state / 2 ^ 12 == timestamp) && (state % 2 ^ 12 == 4095)

module _ (worker_id timestamp state : ℕ) (worker : worker_id < 1024)
    (early : timestamp < 2 ^ 41) where
  full_exhausted : is_full timestamp state ≡ true → attempt worker_id timestamp state ≡ exhausted
  full_exhausted h =
      ground
        (arith, attempt_lem worker_id timestamp state worker early, next_seq_lem state timestamp)

  free_stores :
      is_full timestamp state ≡ false
      → attempt worker_id timestamp state
        ≡ store
            (timestamp * 2 ^ 12 + next_seq state timestamp)
            (id_of worker_id timestamp (next_seq state timestamp))
  free_stores h =
      ground
        (arith, attempt_lem worker_id timestamp state worker early, next_seq_lem state timestamp)

  -- While no other thread changes the state, `next_id` of a worker below 1024 at a timestamp
  -- below 2^41 never returns, in any number of rounds, if the state holds its timestamp with the
  -- last sequence number, since the timestamp is not read again; otherwise it returns as soon as
  -- one exchange succeeds, the id of the timestamp with the next sequence number.
  pub next_id_alone :
      (rounds : List Round)
      → AllRead state rounds
      → next_id worker_id timestamp rounds ≡ (
          if is_full timestamp state
          then none
          else if any (λ r. r.succeeds) rounds
          then some (id_of worker_id timestamp (next_seq state timestamp))
          else none)
  unfolding next_id
  next_id_alone [] a = ground arith
  next_id_alone (r ∷ rounds) a = elim (Bool-cases (is_full timestamp state)) [
    | inl full ↦ ground (arith, a.0, full, full_exhausted full, next_id_alone rounds a.1)
    | inr free ↦ ground (arith, a.0, free, free_stores free, next_id_alone rounds a.1)
  ]
