-- ===== src/Federation/Outbox/Plans.antt =====
-- The plan after a failed delivery (server-rs/src/federation/storage.rs).
use verdant_backend.Prelude.{
  ℕ, ◌+◌, ◌^◌, ◌≤◌, ◌<◌, ◌≡◌, ◌⊎◌, List, none, some, leb, min, Bool-cases, inl, inr, arith,
}
use native.Mathlib.Nat.{one-le-pow}
use verdant_backend.Federation.Outbox.{dead, failed, next_retry_at_ms, next_outbound_failure_plan}

-- The delay doubles from a second on, and is at most half a minute.
next_retry_at_ms_bounds :
    (now attempts : ℕ)
    → now + 30000 < 2 ^ 63
    → (now + 1000 ≤ next_retry_at_ms now attempts) × (next_retry_at_ms now attempts ≤ now + 30000)
unfolding next_retry_at_ms
next_retry_at_ms_bounds now attempts h =
    let one = one-le-pow (min attempts 5) 2 (omega arith) in (omega arith, omega arith)

-- The plan is dead from the eighth attempt on. Before, the event is failed with an attempt more, and
-- due again after one second at least and half a minute at most.
pub next_outbound_failure_plan_cases :
    (now previous : ℕ) (code : List ℕ)
    → now + 30000 < 2 ^ 63
    → ((7 ≤ previous)
        × ((next_outbound_failure_plan now previous code).status ≡ dead)
        × ((next_outbound_failure_plan now previous code).next_attempt_at_ms ≡ none))
      ⊎ ((previous < 7)
          × ((next_outbound_failure_plan now previous code).status ≡ failed)
          × ((next_outbound_failure_plan now previous code).attempt_count ≡ previous + 1)
          × (t : ℕ) × ((next_outbound_failure_plan now previous code).next_attempt_at_ms ≡ some t)
          × (now + 1000 ≤ t)
          × (t ≤ now + 30000))
unfolding next_outbound_failure_plan
next_outbound_failure_plan_cases now previous code h = elim (Bool-cases (leb 7 previous)) [
  | inl e ↦ inl (ground (arith, e), ground (arith, e), ground (arith, e))
  | inr e ↦
      let (low, high) = next_retry_at_ms_bounds now previous h in
      inr (
        ground (arith, e),
        ground (arith, e),
        ground (arith, e),
        next_retry_at_ms now previous,
        ground (arith, e),
        low,
        high,
      )
]
