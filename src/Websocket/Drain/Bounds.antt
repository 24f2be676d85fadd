-- ===== src/Websocket/Drain/Bounds.antt =====
-- The limits on what a drain command may ask for (server-rs/src/ws/topics.rs).
use verdant_backend.Prelude.{
  ℕ, zero, suc, Bool, ◌≤◌, ◌≡◌, refl, true, false, List, [], ◌∷◌, all, length, take, Option, some,
  Bool-cases, inl, inr, arith,
}
use verdant_backend.Prelude.OptionMonad.{unwrap_or}
use verdant_backend.Websocket.Drain.{
  is_plain, is_whitespace, plain_chars, zdt, sanitize_drain_reason,
}

all_plain-plain_chars : (chars : List ℕ) → all is_plain (plain_chars chars) ≡ true
unfolding plain_chars
all_plain-plain_chars [] = refl
all_plain-plain_chars (c ∷ chars) = ground (arith, all_plain-plain_chars chars)

plain_chars_self : (chars : List ℕ) → all is_plain chars ≡ true → plain_chars chars ≡ chars
unfolding plain_chars
plain_chars_self [] h = refl
plain_chars_self (c ∷ chars) h = ground (arith, plain_chars_self chars)

module _ {A : Type 0} where
  length-take : (n : ℕ) (xs : List A) → length (take n xs) ≤ n
  length-take zero xs = omega arith
  length-take (suc n) [] = omega arith
  length-take (suc n) (x ∷ xs) = omega (arith, length-take n xs)

  take_all : (n : ℕ) (xs : List A) → length xs ≤ n → take n xs ≡ xs
  take_all zero [] h = refl
  take_all zero (x ∷ xs) h = absurd (omega arith)
  take_all (suc n) [] h = refl
  take_all (suc n) (x ∷ xs) h = rw (take_all n xs (omega arith)) refl

all-take : (p : ℕ → Bool) (n : ℕ) (xs : List ℕ) → all p xs ≡ true → all p (take n xs) ≡ true
all-take p zero xs h = refl
all-take p (suc n) [] h = refl
all-take p (suc n) (x ∷ xs) h = ground (arith, all-take p n xs)

-- What is sent as a reason: plain characters, at most 64, not only spaces.
abbrev pub IsReason : List ℕ → Type 0
IsReason chars =
    (all is_plain chars ≡ true) × (length chars ≤ 64) × (all is_whitespace chars ≡ false)

sanitize_drain_reason-IsReason :
    (reason : Option (List ℕ)) → IsReason (sanitize_drain_reason reason)
unfolding sanitize_drain_reason
sanitize_drain_reason-IsReason reason =
    let chars = plain_chars (unwrap_or zdt reason) in
    let plain : all is_plain (take 64 chars) ≡ true =
      all-take is_plain 64 chars (all_plain-plain_chars (unwrap_or zdt reason)) in
    elim (Bool-cases (all is_whitespace (take 64 chars))) [
      | inl blank ↦ rw blank (refl, omega arith, refl)
      | inr visible ↦ rw visible (plain, length-take 64 chars, visible)
    ]

sanitize_drain_reason_self :
    (chars : List ℕ) → IsReason chars → sanitize_drain_reason (some chars) ≡ chars
unfolding sanitize_drain_reason
sanitize_drain_reason_self chars (plain, short, visible) =
    rw (plain_chars_self chars plain, take_all 64 chars short, visible) refl

-- What is sent is a reason, and cleaning it again changes nothing.
pub sanitize_drain_reason-same :
    (reason : Option (List ℕ))
    → IsReason (sanitize_drain_reason reason)
      × (sanitize_drain_reason (some (sanitize_drain_reason reason)) ≡ sanitize_drain_reason reason)
sanitize_drain_reason-same reason =
    let clean = sanitize_drain_reason-IsReason reason in
    (clean, sanitize_drain_reason_self (sanitize_drain_reason reason) clean)
