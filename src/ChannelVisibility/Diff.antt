-- ===== src/ChannelVisibility/Diff.antt =====
-- What the difference of two sets of viewers holds (server-rs/src/services/channel_visibility.rs).
use verdant_backend.Prelude.{
  ℕ, nat_eq, ◌≡◌, refl, ap, ◌∙◌, not, ◌&&◌, List, [], ◌∷◌, none, ◌==◌, inl, inr, Bool-cases, arith,
}
use verdant_backend.Prelude.HashSet.{contains}
use verdant_backend.Permissions.Search.{sort_by_key}
use verdant_backend.Permissions.Search.Contents.{contains-sort}
use verdant_backend.Permissions.Search.Laws.{first_with, IsRising}
use verdant_backend.Permissions.Search.Edits.{HasDistinctKeys, sort_by_key-IsRising}
use verdant_backend.ChannelVisibility.{difference, diff_channel_visibility}

abbrev pub itself : ℕ → ℕ
itself x = x

pub contains-sort_by_key :
    (y : ℕ) (xs : List ℕ) → contains y (sort_by_key itself xs) ≡ contains y xs
contains-sort_by_key y xs = contains-sort itself y xs

contains-difference :
    (y : ℕ) (xs ys : List ℕ)
    → contains y (difference xs ys) ≡ (contains y xs && not (contains y ys))
unfolding difference
contains-difference y [] ys = refl
contains-difference y (x ∷ xs) ys = ground (
  arith,
  contains-difference y xs ys,
  nat_eq.beq_iff x y,
  λ (p : x ≡ y). ap (λ t. contains t ys) p,
)

-- A set has no element twice.
abbrev pub IsDistinct : List ℕ → Type 0
IsDistinct xs = HasDistinctKeys itself xs

first_with-difference :
    (k : ℕ) (xs ys : List ℕ)
    → first_with itself k xs ≡ none
    → first_with itself k (difference xs ys) ≡ none
unfolding difference
first_with-difference k [] ys h = refl
first_with-difference k (x ∷ xs) ys h = elim (Bool-cases (x == k)) [
  | inl e ↦ ground (arith, e)
  | inr e ↦ ground (arith, e, first_with-difference k xs ys)
]

difference-IsDistinct : (xs ys : List ℕ) → IsDistinct xs → IsDistinct (difference xs ys)
unfolding difference
difference-IsDistinct [] ys h = tt
difference-IsDistinct (x ∷ xs) ys (fresh, rest) = elim (Bool-cases (contains x ys)) [
  | inl e ↦ rw e (difference-IsDistinct xs ys rest)
  | inr e ↦ rw e (first_with-difference x xs ys fresh, difference-IsDistinct xs ys rest)
]

-- Of two sets of viewers, the users gained are exactly those in the second and not the first, and
-- the users lost those in the first and not the second, each list in strictly rising order.
pub diff_channel_visibility-exact :
    (before after : List ℕ)
    → IsDistinct before
    → IsDistinct after
    → ((x : ℕ)
        → (contains x (diff_channel_visibility before after).gained
            ≡ (contains x after && not (contains x before)))
          × (contains x (diff_channel_visibility before after).lost
              ≡ (contains x before && not (contains x after))))
      × IsRising itself (diff_channel_visibility before after).gained
      × IsRising itself (diff_channel_visibility before after).lost
unfolding diff_channel_visibility
diff_channel_visibility-exact before after b a = (
  λ x. (
    contains-sort_by_key x (difference after before) ∙ contains-difference x after before,
    contains-sort_by_key x (difference before after) ∙ contains-difference x before after,
  ),
  sort_by_key-IsRising itself (difference after before) (difference-IsDistinct after before a),
  sort_by_key-IsRising itself (difference before after) (difference-IsDistinct before after b),
)

pub lost_iff :
    (before after : List ℕ) (x : ℕ)
    → contains x (diff_channel_visibility before after).lost
      ≡ (contains x before && not (contains x after))
unfolding diff_channel_visibility
lost_iff before after x =
    contains-sort_by_key x (difference before after) ∙ contains-difference x before after

pub gained_iff :
    (before after : List ℕ) (x : ℕ)
    → contains x (diff_channel_visibility before after).gained
      ≡ (contains x after && not (contains x before))
unfolding diff_channel_visibility
gained_iff before after x =
    contains-sort_by_key x (difference after before) ∙ contains-difference x after before
