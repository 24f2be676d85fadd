-- ===== src/Federation/Outbox/Codes.antt =====
-- The error codes that are stored with a failure (server-rs/src/federation/storage.rs).
use verdant_backend.Prelude.{
  ℕ, ◌+◌, ◌-◌, ◌≤◌, ◌≡◌, refl, Bool, true, false, ◌&&◌, List, [], ◌∷◌, nat_eq, leb, ◌==◌, all,
  length, Bool-cases, inl, inr, arith,
}
use verdant_backend.Prelude.HashSet.{is_empty}
use verdant_backend.Federation.Identity.{trim_start_matches, trim_end_matches}
use verdant_backend.Federation.Outbox.{is_code_byte, sanitize_from, sanitize_outbound_error_code}

-- A code that a column can hold: short, and of letters, digits, `_` and `-`.
abbrev pub IsCode : List ℕ → Type 0
IsCode code = (length code ≤ 96) × (all is_code_byte code ≡ true)

sanitize_from-IsCode :
    (len : ℕ) (sep : Bool) (value : List ℕ)
    → len ≤ 96
    → (len + length (sanitize_from len sep value) ≤ 96)
      × (all is_code_byte (sanitize_from len sep value) ≡ true)
unfolding sanitize_from
sanitize_from-IsCode len sep [] h = (omega arith, refl)
sanitize_from-IsCode len sep (b ∷ value) h = elim (Bool-cases (leb 96 len)) [
  | inl full ↦ rw full (ground arith, refl)
  | inr room ↦
      let below : len + 1 ≤ 96 = ground (arith, room) in
      elim (Bool-cases (is_code_byte b)) [
        | inl e ↦
            let (short, clean) = sanitize_from-IsCode (len + 1) false value below in
            rw (room, e) (omega arith, rw e clean)
        | inr e ↦ elim (Bool-cases sep) [
          | inl again ↦
              let (short, clean) = sanitize_from-IsCode len true value h in
              rw (room, e, again) (short, clean)
          | inr first ↦
              let (short, clean) = sanitize_from-IsCode (len + 1) true value below in
              rw (room, e, first) (omega arith, clean)
        ]
      ]
]

-- Trimming takes bytes away.
module _ (p : ℕ → Bool) (c : ℕ) where
  trim_start_matches-all :
      (n : ℕ) (code : List ℕ)
      → length code ≤ n
      → all p code ≡ true
      → (length (trim_start_matches c code) ≤ n) × (all p (trim_start_matches c code) ≡ true)
  trim_start_matches-all n [] h k = (h, k)
  trim_start_matches-all n (b ∷ code) h k = elim (Bool-cases (b == c)) [
    | inl e ↦ rw e (trim_start_matches-all n code (omega arith) (ground arith))
    | inr e ↦ rw e (h, k)
  ]

  trim_end_matches-all :
      (n : ℕ) (code : List ℕ)
      → length code ≤ n
      → all p code ≡ true
      → (length (trim_end_matches c code) ≤ n) × (all p (trim_end_matches c code) ≡ true)
  trim_end_matches-all n [] h k = (h, k)
  trim_end_matches-all n (b ∷ code) h k =
      let (short, clean) = trim_end_matches-all (n - 1) code (omega arith) (ground arith) in
      elim (Bool-cases ((b == c) && is_empty (trim_end_matches c code))) [
        | inl e ↦ rw e (omega arith, refl)
        | inr e ↦ rw e (omega arith, ground arith)
      ]

-- Whatever text a delivery failed with, the code that is stored is not empty, has at most 96
-- characters, and consists of letters, digits, `_` and `-`.
pub sanitize_outbound_error_code-IsCode :
    (value : List ℕ)
    → (is_empty (sanitize_outbound_error_code value) ≡ false)
      × IsCode (sanitize_outbound_error_code value)
unfolding sanitize_outbound_error_code
sanitize_outbound_error_code-IsCode value =
    let (short, clean) = sanitize_from-IsCode 0 false value (omega arith) in
    let (short_1, clean_1) =
      trim_start_matches-all is_code_byte 95 96 (sanitize_from 0 false value) (omega arith) clean in
    let ends =
      trim_end_matches-all is_code_byte 95 96 (trim_start_matches 95 (sanitize_from 0 false value))
        short_1 clean_1 in
    elim (Bool-cases
      (is_empty (trim_end_matches 95 (trim_start_matches 95 (sanitize_from 0 false value))))) [
        | inl e ↦ rw e (refl, (ground arith, refl))
        | inr e ↦ rw e (e, ends)
      ]
