-- ===== src/RateLimit/Secrets.antt =====
-- The comparison of secrets (server-rs/src/middleware/rate_limit.rs), which reads every byte.
use verdant_backend.Prelude.{
  ℕ, ◌≡◌, refl, ap, ◌∙◌, sym, ◌↔◌, ◌≢◌, true, false, ◌||◌, List, [], ◌∷◌, Option, none, some,
  bit_or, bit_xor, length, arith,
}
use verdant_backend.Prelude.Bits.{bit_at, zero_bits, bit_at-bit_or, bit_at-bit_xor, eq_of_bits}
use mathlib.Core.Bool.{xor}
use verdant_backend.RateLimit.{diff_bytes, is_loadtest_bypass}

bit_or-zero : (a b : ℕ) → bit_or a b ≡ 0 → (a ≡ 0) × (b ≡ 0)
bit_or-zero a b h =
    let none_set : (i : ℕ) → (bit_at i a || bit_at i b) ≡ false =
      λ i. sym (bit_at-bit_or i a b) ∙ ap (bit_at i) h ∙ zero_bits i in
    (
      eq_of_bits a 0 (λ i. ground (arith, none_set i, zero_bits i)),
      eq_of_bits b 0 (λ i. ground (arith, none_set i, zero_bits i)),
    )

bit_xor-zero : (a b : ℕ) → bit_xor a b ≡ 0 → a ≡ b
unfolding xor
bit_xor-zero a b h =
    let agree : (i : ℕ) → xor (bit_at i a) (bit_at i b) ≡ false =
      λ i. sym (bit_at-bit_xor i a b) ∙ ap (bit_at i) h ∙ zero_bits i in
    eq_of_bits a b (λ i. ground (arith, agree i))

bit_xor_self : (a : ℕ) → bit_xor a a ≡ 0
unfolding xor
bit_xor_self a =
    eq_of_bits (bit_xor a a) 0 (λ i. bit_at-bit_xor i a a ∙ ground (arith, zero_bits i))

bit_or-zero_zero : bit_or 0 0 ≡ 0
bit_or-zero_zero =
    eq_of_bits (bit_or 0 0) 0 (λ i. bit_at-bit_or i 0 0 ∙ ground (arith, zero_bits i))

diff_bytes-zero :
    (diff : ℕ) (xs ys : List ℕ)
    → length xs ≡ length ys
    → diff_bytes diff xs ys ≡ 0
    → (diff ≡ 0) × (xs ≡ ys)
unfolding diff_bytes
diff_bytes-zero diff [] [] l h = (h, refl)
diff_bytes-zero diff [] (b ∷ ys) l h = absurd (omega arith)
diff_bytes-zero diff (a ∷ xs) [] l h = absurd (omega arith)
diff_bytes-zero diff (a ∷ xs) (b ∷ ys) l h =
    let rest = diff_bytes-zero (bit_or diff (bit_xor a b)) xs ys (omega arith) h in
    let here = bit_or-zero diff (bit_xor a b) rest.0 in
    (here.0, ap (λ x. x ∷ xs) (bit_xor-zero a b here.1) ∙ ap (λ t. b ∷ t) rest.1)

diff_bytes-same : (xs : List ℕ) → diff_bytes 0 xs xs ≡ 0
unfolding diff_bytes
diff_bytes-same [] = refl
diff_bytes-same (a ∷ xs) = rw (bit_xor_self a, bit_or-zero_zero) (diff_bytes-same xs)

bypass_same : (a : ℕ) (xs : List ℕ) → is_loadtest_bypass (some (a ∷ xs)) (some (a ∷ xs)) ≡ true
unfolding is_loadtest_bypass
bypass_same a xs = ground (arith, diff_bytes-same (a ∷ xs))

bypass_bytes :
    (a : ℕ) (xs provided : List ℕ)
    → is_loadtest_bypass (some (a ∷ xs)) (some provided) ≡ true
    → a ∷ xs ≡ provided
unfolding is_loadtest_bypass
bypass_bytes a xs provided h = (diff_bytes-zero 0 (a ∷ xs) provided (ground arith) (ground arith)).1

-- A request bypasses the limits exactly when a secret that is not empty is configured and the
-- request's header has the same bytes.
pub is_loadtest_bypass_iff :
    (secret header : Option (List ℕ))
    → (is_loadtest_bypass secret header ≡ true)
      ↔ ((secret ≡ header) × (secret ≢ none) × (secret ≢ some []))
is_loadtest_bypass_iff none header = (λ h. unfold is_loadtest_bypass in cc, λ h. absurd (h.1 refl))
is_loadtest_bypass_iff (some []) header =
    (λ h. unfold is_loadtest_bypass in cc, λ h. absurd (h.2 refl))
is_loadtest_bypass_iff (some (a ∷ xs)) none = (λ h. unfold is_loadtest_bypass in cc, λ h. cc)
is_loadtest_bypass_iff (some (a ∷ xs)) (some provided) = (
  λ h. (ap some (bypass_bytes a xs provided h), λ e. cc, λ e. cc),
  λ h. rw (sym h.0) (bypass_same a xs),
)
