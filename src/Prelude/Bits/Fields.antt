-- ===== src/Prelude/Bits/Fields.antt =====
-- Fields of a word: a shift left by `k`, what stands below it, and the mask of the low bits.
use Prim.Native.Nat.{ℕ, zero, suc, ◌+◌, ◌*◌, ◌/◌, ◌%◌, ◌-◌, ◌^◌, ◌<◌, bit_and, bit_or}
use mathlib.Core.Path.{◌≡◌, refl, sym, ap, ◌∙◌}
use mathlib.Core.Logic.{inl, inr}
use mathlib.Core.Bool.{false, ◌&&◌, ◌||◌}
use native.Mathlib.Omega.{arith}
use native.Mathlib.Nat.{pow-suc, one-le-pow, mod-lt, div-add-mod'}
use verdant_backend.Prelude.Tests.{ltb, Bool-cases}
use verdant_backend.Prelude.Bits.{
  bit_at, zero_bits, bit_at-bit_and, bit_at-bit_or, bit_at-ones, bit_at_small, eq_of_bits,
}

-- The word with `a` above `b`, in its two halves.
bit_at-field :
    (k i a b : ℕ) → b < 2 ^ k → bit_at i (a * 2 ^ k + b) ≡ (bit_at i (a * 2 ^ k) || bit_at i b)
bit_at-field zero i a b h =
    let e : b ≡ 0 = omega arith in
    let p : a * 2 ^ 0 + b ≡ a * 2 ^ 0 = omega arith in
    rw p (ground (arith, ap (bit_at i) e, zero_bits i))
bit_at-field (suc k) zero a b h =
    let p : a * 2 ^ suc k ≡ a * 2 ^ k * 2 = omega (arith, ap (λ (t : ℕ). a * t) (pow-suc 2 k)) in
    rw p (
      let low : (a * 2 ^ k * 2 + b) % 2 ≡ b % 2 = omega arith in
      let none_set : (a * 2 ^ k * 2) % 2 ≡ 0 = omega arith in rw (low, none_set) refl)
bit_at-field (suc k) (suc i) a b h =
    let p : a * 2 ^ suc k ≡ a * 2 ^ k * 2 = omega (arith, ap (λ (t : ℕ). a * t) (pow-suc 2 k)) in
    rw p (
      let half : (a * 2 ^ k * 2 + b) / 2 ≡ a * 2 ^ k + b / 2 = omega arith in
      let whole : (a * 2 ^ k * 2) / 2 ≡ a * 2 ^ k = omega arith in
      rw (half, whole) (bit_at-field k i a (b / 2) (omega (arith, pow-suc 2 k))))

-- `(a << k) | b`, where `b` fits below.
pub bit_or-field : (k a b : ℕ) → b < 2 ^ k → bit_or (a * 2 ^ k) b ≡ a * 2 ^ k + b
bit_or-field k a b h =
    eq_of_bits _ _ (λ i. bit_at-bit_or i (a * 2 ^ k) b ∙ sym (bit_at-field k i a b h))

bit_at-shifted_low : (k i a : ℕ) → i < k → bit_at i (a * 2 ^ k) ≡ false
bit_at-shifted_low zero i a h = absurd (omega arith)
bit_at-shifted_low (suc k) zero a h =
    let p : a * 2 ^ suc k ≡ a * 2 ^ k * 2 = omega (arith, ap (λ (t : ℕ). a * t) (pow-suc 2 k)) in
    rw p (let none_set : (a * 2 ^ k * 2) % 2 ≡ 0 = omega arith in rw none_set refl)
bit_at-shifted_low (suc k) (suc i) a h =
    let p : a * 2 ^ suc k ≡ a * 2 ^ k * 2 = omega (arith, ap (λ (t : ℕ). a * t) (pow-suc 2 k)) in
    rw p (
      let whole : (a * 2 ^ k * 2) / 2 ≡ a * 2 ^ k = omega arith in
      rw whole (bit_at-shifted_low k i a (omega arith)))

bit_at-mod : (k i x : ℕ) → bit_at i (x % 2 ^ k) ≡ (bit_at i x && ltb i k)
bit_at-mod k i x =
    let small : x % 2 ^ k < 2 ^ k = mod-lt x {m = 2 ^ k} (one-le-pow k 2 (omega arith)) in
    let split : x / 2 ^ k * 2 ^ k + x % 2 ^ k ≡ x = div-add-mod' x (2 ^ k) in
    let parts : bit_at i x ≡ (bit_at i (x / 2 ^ k * 2 ^ k) || bit_at i (x % 2 ^ k)) =
      sym (ap (bit_at i) split) ∙ bit_at-field k i (x / 2 ^ k) (x % 2 ^ k) small in
    elim (Bool-cases (ltb i k)) [
      | inl below ↦ ground (arith, parts, bit_at-shifted_low k i (x / 2 ^ k))
      | inr above ↦ ground (arith, bit_at_small k i (x % 2 ^ k) small)
    ]

-- `x & (2^k - 1)`.
pub bit_and-ones : (k x : ℕ) → bit_and x (2 ^ k - 1) ≡ x % 2 ^ k
bit_and-ones k x = eq_of_bits _ _ (λ i.
    bit_at-bit_and i x (2 ^ k - 1)
    ∙ ap (λ t. bit_at i x && t) (bit_at-ones k i)
    ∙ sym (bit_at-mod k i x))
