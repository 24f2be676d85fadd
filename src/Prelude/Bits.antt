-- ===== src/Prelude/Bits.antt =====
-- Bits of native numbers: `bit_at i x` is bit `i` of `x`, and `&`, `|`, `^` act bit by bit.
pub mod Fields
use Prim.Native.Nat.{
  ℕ, zero, suc, ◌+◌, ◌*◌, ◌/◌, ◌%◌, ◌-◌, ◌^◌, ◌≤◌, ◌<◌, min, max, bit_and, bit_or, bit_xor, digits,
  bit_and-bitwise, bit_or-bitwise, bit_xor-bitwise, differ,
}
use mathlib.Core.Path.{◌≡◌, refl, sym, ap, ◌∙◌}
use mathlib.Core.Logic.{◌≢◌, inl, inr}
use mathlib.Core.Bool.{Bool, true, false, ◌&&◌, ◌||◌, xor}
use native.Mathlib.Omega.{arith}
use native.Mathlib.Nat.{pow-suc, one-le-pow}
use verdant_backend.Prelude.Tests.{◌==◌, ltb, Bool-cases}

abbrev pub bit_at : ℕ → ℕ → Bool
bit_at zero x = x % 2 == 1
bit_at (suc i) x = bit_at i (x / 2)

pub zero_bits : (i : ℕ) → bit_at i 0 ≡ false
zero_bits zero = refl
zero_bits (suc i) = zero_bits i

-- An operation on binary digits acts on each bit by `f`, if `keep` and `op` do.
module _ (keep : ℕ → ℕ) (op : ℕ → ℕ → ℕ) (f : Bool → Bool → Bool)
    (keep_bits : (i b : ℕ) → bit_at i (keep b) ≡ f false (bit_at i b))
    (op_digit : (p q : ℕ) → p < 2 → q < 2 → op p q < 2)
    (op_bit : (p q : ℕ) → p < 2 → q < 2 → (op p q == 1) ≡ f (p == 1) (q == 1)) where
  digits_bits :
      (i n a b : ℕ) → a ≤ n → bit_at i (digits keep op n a b) ≡ f (bit_at i a) (bit_at i b)
  digits_bits i zero zero b h = keep_bits i b ∙ ap (λ t. f t (bit_at i b)) (sym (zero_bits i))
  digits_bits i zero (suc a) b h = absurd (omega arith)
  digits_bits i (suc n) zero b h = keep_bits i b ∙ ap (λ t. f t (bit_at i b)) (sym (zero_bits i))
  digits_bits zero (suc n) (suc a) b h =
      let rest : ℕ = digits keep op n (suc a / 2) (b / 2) in
      let low = op_digit (suc a % 2) (b % 2) (omega arith) (omega arith) in
      let lowest : (rest * 2 + op (suc a % 2) (b % 2)) % 2 ≡ op (suc a % 2) (b % 2) = omega arith in
      rw lowest (op_bit (suc a % 2) (b % 2) (omega arith) (omega arith))
  digits_bits (suc i) (suc n) (suc a) b h =
      let rest : ℕ = digits keep op n (suc a / 2) (b / 2) in
      let low = op_digit (suc a % 2) (b % 2) (omega arith) (omega arith) in
      let halved : (rest * 2 + op (suc a % 2) (b % 2)) / 2 ≡ rest = omega arith in
      rw halved (digits_bits i n (suc a / 2) (b / 2) (omega arith))

pub bit_at-bit_and : (i a b : ℕ) → bit_at i (bit_and a b) ≡ (bit_at i a && bit_at i b)
bit_at-bit_and i a b = rw bit_and-bitwise (
    digits_bits (λ _. 0) min ◌&&◌ (λ i b. zero_bits i) (λ p q h k. omega arith)
      (λ p q h k. ground arith) i a a b (omega arith))

pub bit_at-bit_or : (i a b : ℕ) → bit_at i (bit_or a b) ≡ (bit_at i a || bit_at i b)
bit_at-bit_or i a b = rw bit_or-bitwise (
    digits_bits (λ b. b) max ◌||◌ (λ i b. refl) (λ p q h k. omega arith) (λ p q h k. ground arith) i
      a a b (omega arith))

differ_digit :
    (p q : ℕ) → p < 2 → q < 2 → (differ p q < 2) × ((differ p q == 1) ≡ xor (p == 1) (q == 1))
unfolding xor
differ_digit zero zero h k = (omega arith, refl)
differ_digit zero (suc zero) h k = (omega arith, refl)
differ_digit (suc zero) zero h k = (omega arith, refl)
differ_digit (suc zero) (suc zero) h k = (omega arith, refl)
differ_digit (suc (suc p)) q h k = absurd (omega arith)
differ_digit p (suc (suc q)) h k = absurd (omega arith)

pub bit_at-bit_xor : (i a b : ℕ) → bit_at i (bit_xor a b) ≡ xor (bit_at i a) (bit_at i b)
unfolding xor
bit_at-bit_xor i a b = rw bit_xor-bitwise (
    digits_bits (λ b. b) differ xor (λ i b. ground arith) (λ p q h k. (differ_digit p q h k).0)
      (λ p q h k. (differ_digit p q h k).1) i a a b (omega arith))

-- Numbers with the same bits are equal.
eq_of_bits_fuel : (n a b : ℕ) → a ≤ n → b ≤ n → ((i : ℕ) → bit_at i a ≡ bit_at i b) → a ≡ b
eq_of_bits_fuel zero a b p q h = omega arith
eq_of_bits_fuel (suc n) a b p q h =
    let half = eq_of_bits_fuel n (a / 2) (b / 2) (omega arith) (omega arith) (λ i. h (suc i)) in
    ground (arith, h 0)

pub eq_of_bits : (a b : ℕ) → ((i : ℕ) → bit_at i a ≡ bit_at i b) → a ≡ b
eq_of_bits a b h = eq_of_bits_fuel (a + b) a b (omega arith) (omega arith) h

pub bit_at-pow_self : (k : ℕ) → bit_at k (2 ^ k) ≡ true
bit_at-pow_self zero = refl
bit_at-pow_self (suc k) =
    let e : 2 ^ suc k / 2 ≡ 2 ^ k = omega (arith, pow-suc 2 k) in rw e (bit_at-pow_self k)

pub bit_at-pow_ne : (k i : ℕ) → k ≢ i → bit_at i (2 ^ k) ≡ false
bit_at-pow_ne zero zero h = absurd (h refl)
bit_at-pow_ne zero (suc i) h = zero_bits i
bit_at-pow_ne (suc k) zero h = let e : 2 ^ suc k % 2 ≡ 0 = omega (arith, pow-suc 2 k) in rw e refl
bit_at-pow_ne (suc k) (suc i) h =
    let e : 2 ^ suc k / 2 ≡ 2 ^ k = omega (arith, pow-suc 2 k) in
    rw e (bit_at-pow_ne k i (λ p. h (ap suc p)))

pub bit_at-pow : (k i : ℕ) → bit_at i (2 ^ k) ≡ (k == i)
bit_at-pow k i = elim (Bool-cases (k == i)) [
  | inl e ↦ let p : k ≡ i = ground arith in rw (e, ← p) (bit_at-pow_self k)
  | inr e ↦ rw (e, bit_at-pow_ne k i (ground arith))
]

-- A word of `w` ones.
pub bit_at-ones : (w i : ℕ) → bit_at i (2 ^ w - 1) ≡ ltb i w
bit_at-ones zero i = rw zero_bits (ground arith)
bit_at-ones (suc w) zero =
    let e : (2 ^ suc w - 1) % 2 ≡ 1 = omega (arith, pow-suc 2 w, one-le-pow w 2) in
    rw e (ground arith)
bit_at-ones (suc w) (suc i) =
    let e : (2 ^ suc w - 1) / 2 ≡ 2 ^ w - 1 = omega (arith, pow-suc 2 w, one-le-pow w 2) in
    rw e (bit_at-ones w i ∙ ground arith)

pub bit_at_small : (w i x : ℕ) → x < 2 ^ w → w ≤ i → bit_at i x ≡ false
bit_at_small zero i x h k = let e : x ≡ 0 = omega arith in rw e (zero_bits i)
bit_at_small (suc w) zero x h k = absurd (omega arith)
bit_at_small (suc w) (suc i) x h k =
    bit_at_small w i (x / 2) (omega (arith, pow-suc 2 w)) (omega arith)
