-- ===== src/Snowflake/Fields.antt =====
-- The parts of an id (server-rs/src/snowflake.rs).
use verdant_backend.Prelude.{
  ℕ, ◌+◌, ◌*◌, ◌/◌, ◌%◌, ◌^◌, ◌<◌, ◌≡◌, refl, ap, ◌∙◌, ltb, ◌==◌, if◌then◌else◌, inl, inr,
  Bool-cases, bit_or, arith,
}
use verdant_backend.Prelude.Bits.Fields.{bit_or-field, bit_and-ones}
use verdant_backend.Snowflake.{exhausted, store, next_seq, attempt}

-- The id of a worker at a timestamp with a sequence number.
abbrev pub id_of : ℕ → ℕ → ℕ → ℕ
id_of worker_id timestamp seq = timestamp * 2 ^ 22 + worker_id * 2 ^ 12 + seq

state_word :
    (timestamp seq : ℕ)
    → timestamp < 2 ^ 41
    → seq < 2 ^ 12
    → bit_or (timestamp * 2 ^ 12 % 2 ^ 64) seq ≡ timestamp * 2 ^ 12 + seq
state_word ts seq h l =
    let whole : ts * 2 ^ 12 % 2 ^ 64 ≡ ts * 2 ^ 12 = omega arith in
    ap (λ t. bit_or t seq) whole ∙ bit_or-field 12 ts seq l

id_word :
    (worker_id timestamp seq : ℕ)
    → worker_id < 1024
    → timestamp < 2 ^ 41
    → seq < 2 ^ 12
    → bit_or (bit_or (timestamp * 2 ^ 22 % 2 ^ 64) (worker_id * 2 ^ 12 % 2 ^ 64)) seq
      ≡ id_of worker_id timestamp seq
id_word w ts seq k h l =
    let whole : ts * 2 ^ 22 % 2 ^ 64 ≡ ts * 2 ^ 22 = omega arith in
    let below : w * 2 ^ 12 % 2 ^ 64 ≡ w * 2 ^ 12 = omega arith in
    let joined : bit_or (ts * 2 ^ 22 % 2 ^ 64) (w * 2 ^ 12 % 2 ^ 64) ≡ (ts * 1024 + w) * 2 ^ 12 =
      ap (λ t. bit_or t (w * 2 ^ 12 % 2 ^ 64)) whole
      ∙ ap (λ t. bit_or (ts * 2 ^ 22) t) below
      ∙ bit_or-field 22 ts (w * 2 ^ 12) (omega arith)
      ∙ omega arith in
    ap (λ t. bit_or t seq) joined ∙ bit_or-field 12 (ts * 1024 + w) seq l ∙ omega arith

-- The sequence number in plain arithmetic.
pub next_seq_lem :
    (prev timestamp : ℕ)
    → next_seq prev timestamp ≡ (if prev / 2 ^ 12 == timestamp then prev % 2 ^ 12 + 1 else 0)
unfolding next_seq
next_seq_lem prev ts = ap (λ t. if prev / 2 ^ 12 == ts then t + 1 else 0) (bit_and-ones 12 prev)

-- An attempt in plain arithmetic.
pub attempt_lem :
    (worker_id timestamp prev : ℕ)
    → worker_id < 1024
    → timestamp < 2 ^ 41
    → attempt worker_id timestamp prev ≡ (
        if ltb 4095 (next_seq prev timestamp)
        then exhausted
        else store
            (timestamp * 2 ^ 12 + next_seq prev timestamp)
            (id_of worker_id timestamp (next_seq prev timestamp)))
unfolding attempt
attempt_lem w ts prev k h = elim (Bool-cases (ltb 4095 (next_seq prev ts))) [
  | inl over ↦ rw over refl
  | inr under ↦
      rw
        (
          under,
          state_word ts (next_seq prev ts) h (ground arith),
          id_word w ts (next_seq prev ts) k h (ground arith),
        )
        refl
]

-- An attempt that is stored, by a worker below 1024 at a timestamp below 2^41, makes an id that
-- carries the timestamp, the worker and the sequence number and is below 2^63, so not negative as
-- an `i64`; the state stored with it holds the same timestamp and sequence number.
pub attempt-fields :
    (worker_id timestamp prev new_state id : ℕ)
    → worker_id < 1024
    → timestamp < 2 ^ 41
    → attempt worker_id timestamp prev ≡ store new_state id
    → (id / 2 ^ 22 ≡ timestamp)
      × (id / 2 ^ 12 % 2 ^ 10 ≡ worker_id)
      × (id < 2 ^ 63)
      × (new_state / 2 ^ 12 ≡ timestamp)
      × (new_state % 2 ^ 12 ≡ id % 2 ^ 12)
attempt-fields w ts prev s i k h e = elim (Bool-cases (ltb 4095 (next_seq prev ts))) [
  | inl over ↦ absurd (ground (arith, attempt_lem w ts prev k h))
  | inr under ↦
      let stored : store (ts * 2 ^ 12 + next_seq prev ts) (id_of w ts (next_seq prev ts))
          ≡ store s i =
        ground (arith, attempt_lem w ts prev k h) in
      let p : s ≡ ts * 2 ^ 12 + next_seq prev ts = ground arith in
      let q : i ≡ id_of w ts (next_seq prev ts) = ground arith in
      let fits : next_seq prev ts < 4096 = ground arith in
      (omega arith, omega arith, omega arith, omega arith, omega arith)
]
