-- ===== src/Snowflake/Examples.antt =====
-- The theorems on ids at worker 3 and small timestamps.
use verdant_backend.Prelude.{
  ℕ, ◌+◌, ◌*◌, ◌^◌, ◌≡◌, refl, true, any, List, [], ◌∷◌, none, some, if◌then◌else◌, arith,
}
use verdant_backend.Snowflake.{store, next_seq, attempt, Round, next_id, issue}
use verdant_backend.Snowflake.Fields.{id_of}
use verdant_backend.Snowflake.Order.{Ascends, last_id, issue-Ascends, issue_twice}
use verdant_backend.Snowflake.Rounds.{is_full, next_id_alone}

-- Two ids at one timestamp.
two_ids : issue 3 0 (7 ∷ 7 ∷ []) ≡ 29372416 ∷ 29372417 ∷ []
unfolding issue
two_ids = refl

attempt_value : attempt 3 7 28672 ≡ store 28673 29372417
unfolding attempt
attempt_value = refl

issue-Ascends_example : Ascends (last_id 3 0) (issue 3 0 (7 ∷ 7 ∷ 9 ∷ []))
issue-Ascends_example = issue-Ascends 3 0 (7 ∷ 7 ∷ 9 ∷ []) (omega arith) (omega arith)

issue_twice_example :
    (issued : ℕ) × (issue 3 0 (7 ∷ 8 ∷ 7 ∷ []) ≡ issued ∷ id_of 3 8 0 ∷ issued ∷ [])
issue_twice_example =
    issue_twice 3 0 7 8 (omega arith) (omega arith) (omega arith) (omega arith) (omega arith)

-- The state after 4,096 ids of timestamp 7, loaded twice.
abbrev full_state : ℕ
full_state = 7 * 2 ^ 12 + 4095

abbrev spinning : List Round
spinning =
    record { prev = full_state; succeeds = true }
    ∷ record { prev = full_state; succeeds = true }
    ∷ []

next_id_alone_example : next_id 3 7 spinning ≡ (
    if is_full 7 full_state
    then none
    else if any (λ r. r.succeeds) spinning
    then some (id_of 3 7 (next_seq full_state 7))
    else none)
next_id_alone_example =
    next_id_alone 3 7 full_state (omega arith) (omega arith) spinning (refl, (refl, tt))
