-- ===== src/Permissions/Bits/Laws.antt =====
-- What the permission words mean, bit by bit.
use verdant_backend.Prelude.{
  ℕ, ◌^◌, ◌<◌, bit_and, ◌≡◌, refl, sym, ap, ◌∙◌, ◌↔◌, ◌⊎◌, inl, inr, true, false, not, ◌&&◌, ◌||◌,
  ltb, ◌==◌, if◌then◌else◌, Bool-cases, arith,
}
use verdant_backend.Prelude.Bits.{
  bit_at, bit_at-bit_and, bit_at-bit_or, bit_at-bit_xor, bit_at-ones, bit_at-pow_self, bit_at-pow,
  bit_at_small, eq_of_bits, zero_bits,
}
use verdant_backend.Permissions.Bits.{administrator, has, apply_override}
use mathlib.Core.Bool.{xor}

pub bit_at-apply_override :
    (k perms allow deny : ℕ)
    → k < 64
    → bit_at k (apply_override perms allow deny)
      ≡ (bit_at k allow || (bit_at k perms && not (bit_at k deny)))
unfolding apply_override xor
bit_at-apply_override k perms allow deny h =
    rw (bit_at-bit_or, bit_at-bit_and, bit_at-bit_xor, bit_at-ones 64 k) (ground arith)

pub and_eq_iff : (x y : ℕ) → (bit_and x y ≡ y) ↔ ((i : ℕ) → bit_at i y ≡ true → bit_at i x ≡ true)
and_eq_iff x y = (
  λ e i h. ground (arith, bit_at-bit_and i x y, ap (bit_at i) e),
  λ h. eq_of_bits _ _ λ i. ground (arith, bit_at-bit_and i x y, h i),
)

pub and_pow_zero_iff : (k x : ℕ) → (bit_and x (2 ^ k) ≡ 0) ↔ (bit_at k x ≡ false)
and_pow_zero_iff k x = (
  λ e. ground (arith, bit_at-bit_and k x (2 ^ k), ap (bit_at k) e, bit_at-pow_self k, zero_bits k),
  λ h. eq_of_bits _ _ λ i. elim (Bool-cases (k == i)) [
    | inl e ↦ let p : k ≡ i = ground arith in rw (← p, bit_at-bit_and, h, zero_bits) refl
    | inr e ↦ rw (bit_at-bit_and, bit_at-pow, e, zero_bits) (ground arith)
  ],
)

-- `has` holds exactly when the permission word has the ADMINISTRATOR bit, or every bit of the
-- mask.
pub has_iff :
    (perms perm : ℕ)
    → (has perms perm ≡ true)
      ↔ ((bit_at 10 perms ≡ true) ⊎ ((i : ℕ) → bit_at i perm ≡ true → bit_at i perms ≡ true))
unfolding has
has_iff perms perm = (forth, back)
  where
    forth :
        (if bit_and perms administrator == 0 then bit_and perms perm == perm else true) ≡ true
        → ((bit_at 10 perms ≡ true) ⊎ ((i : ℕ) → bit_at i perm ≡ true → bit_at i perms ≡ true))
    forth h = elim (Bool-cases (bit_at 10 perms)) [
      | inl admin ↦ inl admin
      | inr plain ↦
          inr ((and_eq_iff perms perm).0 (ground (arith, (and_pow_zero_iff 10 perms).1 plain)))
    ]

    back :
        ((bit_at 10 perms ≡ true) ⊎ ((i : ℕ) → bit_at i perm ≡ true → bit_at i perms ≡ true))
        → (if bit_and perms administrator == 0 then bit_and perms perm == perm else true) ≡ true
    back (inl admin) = ground (arith, (and_pow_zero_iff 10 perms).0)
    back (inr all_set) = ground (arith, (and_eq_iff perms perm).1 all_set)

-- For a permission of one bit, `has` is that bit or the ADMINISTRATOR bit.
pub has-pow : (k perms : ℕ) → has perms (2 ^ k) ≡ (bit_at 10 perms || bit_at k perms)
has-pow k perms = ground (arith, one, has_iff perms (2 ^ k))
  where
    one : ((i : ℕ) → bit_at i (2 ^ k) ≡ true → bit_at i perms ≡ true) ↔ (bit_at k perms ≡ true)
    one = (
      λ h. h k (bit_at-pow_self k),
      λ h i e. ground (arith, bit_at-pow k i, λ (p : k ≡ i). ap (λ t. bit_at t perms) p),
    )

-- Words with the same 64 bits are equal.
pub word_ext :
    (a b : ℕ) → a < 2 ^ 64 → b < 2 ^ 64 → ((i : ℕ) → i < 64 → bit_at i a ≡ bit_at i b) → a ≡ b
word_ext a b p q h = eq_of_bits a b λ i. elim (Bool-cases (ltb i 64)) [
  | inl e ↦ h i (ground arith)
  | inr e ↦ bit_at_small 64 i a p (ground arith) ∙ sym (bit_at_small 64 i b q (ground arith))
]
