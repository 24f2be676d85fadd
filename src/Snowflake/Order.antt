-- ===== src/Snowflake/Order.antt =====
-- The order of the ids of a run (server-rs/src/snowflake.rs).
use verdant_backend.Prelude.{
  ℕ, ◌+◌, ◌*◌, ◌/◌, ◌%◌, ◌^◌, ◌≤◌, ◌<◌, ◌≡◌, ◌≢◌, refl, ap, ◌∙◌, List, [], ◌∷◌, ltb, inl, inr,
  Bool-cases, arith,
}
use verdant_backend.Snowflake.{exhausted, store, next_seq, attempt, issue}
use verdant_backend.Snowflake.Fields.{id_of, next_seq_lem, attempt_lem}

-- Each number is above the one before it, the first above the bound.
abbrev pub Ascends : ℕ → List ℕ → Type 0
Ascends bound [] = Unit
Ascends bound (x ∷ xs) = (bound < x) × Ascends x xs

-- Timestamps that do not go back, from the first on, and stay below 2^41.
abbrev pub NeverBack : ℕ → List ℕ → Type 0
NeverBack from [] = Unit
NeverBack from (t ∷ ts) = (from ≤ t) × (t < 2 ^ 41) × NeverBack t ts

-- What a state stands for: the last id of the worker, the least one before any.
abbrev pub last_id : ℕ → ℕ → ℕ
last_id worker_id state = id_of worker_id (state / 2 ^ 12) (state % 2 ^ 12)

-- As long as the timestamps of the exchanges do not go back and stay below 2^41, the ids that a
-- worker below 1024 issues rise strictly, so that none is issued twice.
pub issue-Ascends :
    (worker_id state : ℕ) (timestamps : List ℕ)
    → worker_id < 1024
    → NeverBack (state / 2 ^ 12) timestamps
    → Ascends (last_id worker_id state) (issue worker_id state timestamps)
unfolding issue
issue-Ascends w state [] k h = tt
issue-Ascends w state (t ∷ ts) k h = elim (Bool-cases (ltb 4095 (next_seq state t))) [
  | inl over ↦
      let e : attempt w t state ≡ exhausted = ground (arith, attempt_lem w t state k h.1) in
      let same : t ≡ state / 2 ^ 12 = ground (arith, next_seq_lem state t) in
      rw (issue, e) (issue-Ascends w state ts k (rw (← same) h.2))
  | inr under ↦
      let s = t * 2 ^ 12 + next_seq state t in
      let fits : next_seq state t < 4096 = ground arith in
      let e : attempt w t state ≡ store s (id_of w t (next_seq state t)) =
        ground (arith, attempt_lem w t state k h.1) in
      let ts_part : s / 2 ^ 12 ≡ t = omega arith in
      let seq_part : s % 2 ^ 12 ≡ next_seq state t = omega arith in
      let above : last_id w state < id_of w t (next_seq state t) =
        ground (arith, next_seq_lem state t) in
      let rest : Ascends (id_of w t (next_seq state t)) (issue w s ts) =
        rw (ts_part, seq_part) at (issue-Ascends w s ts k (rw ts_part h.2)) in
      rw (issue, e) (above, rest)
]

-- At a timestamp that the state does not hold, the sequence starts again.
attempt_fresh :
    (w t state : ℕ)
    → w < 1024
    → t < 2 ^ 41
    → state / 2 ^ 12 ≢ t
    → attempt w t state ≡ store (t * 2 ^ 12) (id_of w t 0)
attempt_fresh w t state k h fresh =
    let zeroed : next_seq state t ≡ 0 = ground (arith, next_seq_lem state t) in
    attempt_lem w t state k h ∙ rw zeroed (ap (λ x. store x (id_of w t 0)) (omega arith))

-- Exchanges of a worker below 1024 at a timestamp that the state does not hold, at another
-- timestamp, and at the first one again, both below 2^41, issue the same id first and last: a
-- thread that read its timestamp before another thread's later exchange, or a clock that is set
-- back, repeats an id.
pub issue_twice :
    (worker_id state t other : ℕ)
    → worker_id < 1024
    → t < 2 ^ 41
    → other < 2 ^ 41
    → state / 2 ^ 12 ≢ t
    → other ≢ t
    → (issued : ℕ) × (issue worker_id state (t ∷ other ∷ t ∷ [])
        ≡ issued ∷ id_of worker_id other 0 ∷ issued ∷ [])
unfolding issue
issue_twice w state t other k h l fresh ne =
    let first = attempt_fresh w t state k h fresh in
    let second =
      attempt_fresh w other (t * 2 ^ 12) k l
        (λ (p : t * 2 ^ 12 / 2 ^ 12 ≡ other). absurd (omega arith)) in
    let third =
      attempt_fresh w t (other * 2 ^ 12) k h
        (λ (p : other * 2 ^ 12 / 2 ^ 12 ≡ t). absurd (omega arith)) in
    (id_of w t 0, rw (issue, first) (rw (issue, second) (rw (issue, third) refl)))
