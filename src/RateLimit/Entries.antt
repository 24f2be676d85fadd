-- ===== src/RateLimit/Entries.antt =====
-- The entry of a key in the local limiter (server-rs/src/middleware/rate_limit.rs) through a count and
-- a cleanup.
use Prim.Native.String.{String}
use mathlib.Core.Option
use verdant_backend.Prelude.OptionMonad.{unwrap_or}
use verdant_backend.Prelude.{
  ℕ, ◌+◌, ◌*◌, ◌%◌, ◌^◌, ◌<◌, ◌≡◌, refl, sym, ap, true, [], ◌∷◌, Option, none, some, string_eq,
  ◌=?◌, eq_refl, ltb, ◌==◌, if◌then◌else◌, inl, inr, Bool-cases, arith,
}
use verdant_backend.Prelude.Dict
use verdant_backend.Prelude.Dict.{Dict, lookup, lookup-modify, lookup-or_insert, lookup-remove}
use verdant_backend.RateLimit.{LocalRateLimitEntry, fresh, bump, check, cleanup}

-- The count that the entries hold for the key in the window: an entry of another window counts
-- for nothing.
abbrev pub count_in : ℕ → Option LocalRateLimitEntry → ℕ
count_in window none = 0
count_in window (some e) = if e.window == window then e.count else 0

pub check-entry :
    (entries : Dict String LocalRateLimitEntry) (key : String) (window window_secs : ℕ)
    (o : Option LocalRateLimitEntry)
    → lookup key entries ≡ o
    → ((check entries key window window_secs).0 ≡ (count_in window o + 1) % 2 ^ 64)
unfolding check
check-entry entries key window ws none e = ground (
  arith,
  lookup-or_insert key key (fresh window ((window + 1) * ws % 2 ^ 64)) entries,
  eq_refl key,
  e,
)
check-entry entries key window ws (some x) e = ground (
  arith,
  lookup-or_insert key key (fresh window ((window + 1) * ws % 2 ^ 64)) entries,
  eq_refl key,
  e,
)

-- The entry of a key that has been counted `n` times in the window, or none before the first time.
abbrev pub HoldsCount : (window expires_at n : ℕ) → Option LocalRateLimitEntry → Type 0
HoldsCount window expires_at n none = n ≡ 0
HoldsCount window expires_at n (some e) =
    (e.window ≡ window) × (e.count ≡ n) × (e.expires_at ≡ expires_at)

pub count_in-HoldsCount :
    (w x n : ℕ) (o : Option LocalRateLimitEntry) → HoldsCount w x n o → count_in w o ≡ n
count_in-HoldsCount w x n none h = ground arith
count_in-HoldsCount w x n (some e) h = ground (arith, h.0, h.1)

pub entry-check-none :
    (entries : Dict String LocalRateLimitEntry) (key : String) (w ws : ℕ)
    → lookup key entries ≡ none
    → lookup key (check entries key w ws).1 ≡ some (bump (fresh w ((w + 1) * ws % 2 ^ 64)))
unfolding check
entry-check-none entries key w ws e =
    let new = fresh w ((w + 1) * ws % 2 ^ 64) in
    ground (
      arith,
      lookup-or_insert key key new entries,
      lookup-modify key key bump (Dict.or_insert key new entries),
      eq_refl key,
      e,
    )

pub entry-check-some :
    (entries : Dict String LocalRateLimitEntry) (key : String) (w ws : ℕ) (x : LocalRateLimitEntry)
    → lookup key entries ≡ some x
    → x.window ≡ w
    → lookup key (check entries key w ws).1 ≡ some (bump x)
unfolding check
entry-check-some entries key w ws x e h =
    let new = fresh w ((w + 1) * ws % 2 ^ 64) in
    ground (
      arith,
      lookup-or_insert key key new entries,
      lookup-modify key key bump (Dict.or_insert key new entries),
      eq_refl key,
      e,
    )

pub HoldsCount-check :
    (entries : Dict String LocalRateLimitEntry) (key : String) (w ws n : ℕ)
    (o : Option LocalRateLimitEntry)
    → lookup key entries ≡ o
    → HoldsCount w ((w + 1) * ws % 2 ^ 64) n o
    → HoldsCount w
        ((w + 1) * ws % 2 ^ 64)
        ((n + 1) % 2 ^ 64)
        (lookup key (check entries key w ws).1)
HoldsCount-check entries key w ws n none e h =
    rw (entry-check-none entries key w ws e) (refl, ap (λ t. (t + 1) % 2 ^ 64) (sym h), refl)
HoldsCount-check entries key w ws n (some x) e h =
    rw (entry-check-some entries key w ws x e h.0) (h.0, ap (λ t. (t + 1) % 2 ^ 64) h.1, h.2)

pub lookup-cleanup-none :
    (now : ℕ) (key : String) (entries : Dict String LocalRateLimitEntry)
    → lookup key entries ≡ none
    → lookup key (cleanup now entries) ≡ none
unfolding cleanup
lookup-cleanup-none now key [] h = h
lookup-cleanup-none now key ((k, e) ∷ rest) h = ground (arith, lookup-cleanup-none now key rest)

pub lookup-cleanup-some :
    (now : ℕ) (key : String) (entries : Dict String LocalRateLimitEntry) (x : LocalRateLimitEntry)
    → lookup key entries ≡ some x
    → now < x.expires_at
    → lookup key (cleanup now entries) ≡ some x
unfolding cleanup
lookup-cleanup-some now key [] x h l = cc
lookup-cleanup-some now key ((k, e) ∷ rest) x h l = elim (Bool-cases (k =? key)) [
  | inl same ↦
      let p : some e ≡ some x = ground (arith) in
      let q : ltb now e.expires_at ≡ true = ground (
        arith,
        ap
            (λ (t : Option LocalRateLimitEntry).
              unwrap_or 0 (Option.map (λ (y : LocalRateLimitEntry). y.expires_at) t))
            p,
      ) in
      ground arith
  | inr other ↦ ground (arith, lookup-cleanup-some now key rest x)
]

pub HoldsCount-cleanup :
    (now : ℕ) (key : String) (entries : Dict String LocalRateLimitEntry) (w x n : ℕ)
    (o : Option LocalRateLimitEntry)
    → now < x
    → lookup key entries ≡ o
    → HoldsCount w x n o
    → HoldsCount w x n (lookup key (cleanup now entries))
HoldsCount-cleanup now key entries w x n none l e h = rw (lookup-cleanup-none now key entries e) h
HoldsCount-cleanup now key entries w x n (some y) l e h =
    rw (lookup-cleanup-some now key entries y e (omega (arith, h.2))) h
