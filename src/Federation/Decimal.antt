-- ===== src/Federation/Decimal.antt =====
-- Decimal texts as bytes: `to_string` of an `i64` that is not negative, and `parse::<i64>`.
use verdant_backend.Prelude.{
  ℕ, zero, suc, ◌+◌, ◌-◌, ◌*◌, ◌/◌, ◌%◌, ◌^◌, ◌<◌, ◌≡◌, refl, Bool, true, ◌&&◌, List, [], ◌∷◌, ◌++◌,
  Option, none, some, arith, ltb, leb, ◌==◌, if◌then◌else◌, all, length, length-append, Bool-cases,
  ◌≤◌, ◌≢◌, inl, inr,
}
use verdant_backend.Prelude.OptionMonad.{◌>>=◌}

pub data ℤ : Type 0 where
  pos negsuc : ℕ → ℤ

digits_of : ℕ → ℕ → List ℕ
digits_of zero n = []
digits_of (suc fuel) n =
    let front = digits_of fuel (n / 10) in
    if ltb n 10 then (48 + n) ∷ [] else front ++ ((48 + n % 10) ∷ [])

-- 20 digits are enough for 64 bits.
unfoldable pub to_string : ℕ → List ℕ
unfolding digits_of
to_string n = digits_of 20 n

abbrev pub is_digit : ℕ → Bool
is_digit b = leb 48 b && leb b 57

-- The value of the digits behind `acc`. The source stops at the digit that overflows; the value only
-- grows, so a bound on the whole says the same.
digits_value : ℕ → List ℕ → Option ℕ
digits_value acc [] = some acc
digits_value acc (b ∷ bytes) =
    let rest = digits_value (acc * 10 + (b - 48)) bytes in if is_digit b then rest else none

unsigned : List ℕ → Option ℕ
unfolding digits_value
unsigned [] = none
unsigned (b ∷ bytes) = digits_value 0 (b ∷ bytes)

abbrev at_most_max : ℕ → Option ℤ
at_most_max n = if ltb n (2 ^ 63) then some (pos n) else none

abbrev negated : ℕ → Option ℤ
negated zero = some (pos 0)
negated (suc n) = if ltb n (2 ^ 63) then some (negsuc n) else none

unfoldable pub parse_i64 : List ℕ → Option ℤ
unfolding unsigned
parse_i64 [] = none
parse_i64 (b ∷ bytes) =
    if b == 45
    then unsigned bytes >>= negated
    else if b == 43
    then unsigned bytes >>= at_most_max
    else unsigned (b ∷ bytes) >>= at_most_max

digits_value-append :
    (acc n b : ℕ) (bytes : List ℕ)
    → digits_value acc bytes ≡ some n
    → is_digit b ≡ true
    → digits_value acc (bytes ++ (b ∷ [])) ≡ some (n * 10 + (b - 48))
unfolding digits_value
digits_value-append acc n b [] h k = ground arith
digits_value-append acc n b (c ∷ bytes) h k =
    ground (arith, digits_value-append (acc * 10 + (c - 48)) n b bytes)

digits_value-digits_of : (fuel n : ℕ) → n < 10 ^ fuel → digits_value 0 (digits_of fuel n) ≡ some n
unfolding digits_of digits_value
digits_value-digits_of zero n h = ground arith
digits_value-digits_of (suc fuel) n h = elim (Bool-cases (ltb n 10)) [
  | inl e ↦ ground arith
  | inr e ↦
      let front = digits_value-digits_of fuel (n / 10) (omega arith) in
      let whole =
        digits_value-append 0 (n / 10) (48 + n % 10) (digits_of fuel (n / 10)) front
          (ground arith) in
      rw e (ground (arith, whole))
]

all-append_one :
    (p : ℕ → Bool) (b : ℕ) (bytes : List ℕ)
    → all p bytes ≡ true
    → p b ≡ true
    → all p (bytes ++ (b ∷ [])) ≡ true
all-append_one p b [] h k = ground arith
all-append_one p b (c ∷ bytes) h k = ground (arith, all-append_one p b bytes)

digits_of-all_digits : (fuel n : ℕ) → all is_digit (digits_of fuel n) ≡ true
unfolding digits_of
digits_of-all_digits zero n = refl
digits_of-all_digits (suc fuel) n = elim (Bool-cases (ltb n 10)) [
  | inl e ↦ ground arith
  | inr e ↦ rw e (
      all-append_one is_digit (48 + n % 10) (digits_of fuel (n / 10))
        (digits_of-all_digits fuel (n / 10)) (ground arith))
]

length-digits_of : (fuel n : ℕ) → length (digits_of fuel n) ≤ fuel
unfolding digits_of
length-digits_of zero n = omega arith
length-digits_of (suc fuel) n = ground (
  arith,
  length-digits_of fuel (n / 10),
  length-append (digits_of fuel (n / 10)) ((48 + n % 10) ∷ []),
)

pub to_string-all_digits : (n : ℕ) → all is_digit (to_string n) ≡ true
unfolding to_string
to_string-all_digits n = digits_of-all_digits 20 n

pub length-to_string : (n : ℕ) → length (to_string n) ≤ 20
unfolding to_string
length-to_string n = length-digits_of 20 n

-- What is printed is a digit with digits behind it, so it is read as unsigned.
parse_i64_of_digits :
    (bytes : List ℕ) (n : ℕ)
    → all is_digit bytes ≡ true
    → bytes ≢ []
    → digits_value 0 bytes ≡ some n
    → n < 2 ^ 63
    → parse_i64 bytes ≡ some (pos n)
unfolding parse_i64 unsigned
parse_i64_of_digits [] n h ne k l = absurd (ne refl)
parse_i64_of_digits (b ∷ bytes) n h ne k l = ground arith

pub to_string_ne : (n : ℕ) → to_string n ≢ []
unfolding to_string digits_of
to_string_ne n = elim (Bool-cases (ltb n 10)) [
  | inl e ↦ λ h. ground arith
  | inr e ↦ λ h. ground arith
]

-- A printed number of 64 bits is read back.
pub parse_i64-to_string : (n : ℕ) → n < 2 ^ 63 → parse_i64 (to_string n) ≡ some (pos n)
unfolding to_string
parse_i64-to_string n h =
    parse_i64_of_digits (to_string n) n (to_string-all_digits n) (to_string_ne n)
      (digits_value-digits_of 20 n (omega arith)) h

at_most_max_bound : (o : Option ℕ) (n : ℕ) → (o >>= at_most_max) ≡ some (pos n) → n < 2 ^ 63
at_most_max_bound none n h = cc
at_most_max_bound (some m) n h = ground (arith, h)

negated_bound : (o : Option ℕ) (n : ℕ) → (o >>= negated) ≡ some (pos n) → n < 2 ^ 63
negated_bound none n h = cc
negated_bound (some zero) n h = ground (arith, h)
negated_bound (some (suc m)) n h = ground (arith, h)

-- What is read as a number that is not negative fits 63 bits.
pub parse_i64_bound : (text : List ℕ) (n : ℕ) → parse_i64 text ≡ some (pos n) → n < 2 ^ 63
unfolding parse_i64
parse_i64_bound [] n h = cc
parse_i64_bound (b ∷ text) n h = ground (
  arith,
  h,
  negated_bound (unsigned text) n,
  at_most_max_bound (unsigned text) n,
  at_most_max_bound (unsigned (b ∷ text)) n,
)
