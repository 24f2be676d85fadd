-- ===== src/Broadcast/Counting.antt =====
-- How often a connection stands in the parts of the workers (server-rs/src/services/broadcast.rs).
use verdant_backend.Prelude.{
  ℕ, zero, suc, nat_eq, ◌+◌, ◌%◌, ◌<◌, ◌≡◌, refl, ap, ◌∙◌, true, false, List, [], ◌∷◌, ◌++◌, ◌==◌,
  if◌then◌else◌, inl, inr, Bool-cases, length, arith,
}
use verdant_backend.Websocket.Manager.{ConnectionManager}
use verdant_backend.Broadcast.{Parts, push_at, empty_parts, use_batch, partition_conns, join_parts}

-- How often the connection is in the list, and in the lists of all workers.
abbrev pub times : ℕ → List ℕ → ℕ
times c [] = 0
times c (x ∷ xs) = (if x == c then 1 else 0) + times c xs

abbrev pub total : ℕ → List (List ℕ) → ℕ
total c [] = 0
total c (part ∷ parts) = times c part + total c parts

module _ (c : ℕ) where
  pub times-append : (xs ys : List ℕ) → times c (xs ++ ys) ≡ times c xs + times c ys
  times-append [] ys = omega arith
  times-append (x ∷ xs) ys = omega (arith, times-append xs ys)

  total-push_at :
      (idx x : ℕ) (parts : List (List ℕ))
      → idx < length parts
      → total c (push_at idx x parts) ≡ (if x == c then 1 else 0) + total c parts
  unfolding push_at
  total-push_at idx x [] l = absurd (omega arith)
  total-push_at zero x (part ∷ parts) l = omega (arith, times-append part (x ∷ []))
  total-push_at (suc idx) x (part ∷ parts) l =
      omega (arith, total-push_at idx x parts (omega arith))

  pub total-empty_parts : (n : ℕ) → total c (empty_parts n) ≡ 0
  unfolding empty_parts
  total-empty_parts zero = refl
  total-empty_parts (suc n) = omega (arith, total-empty_parts n)

  pub total-join_parts :
      (indivs batches : List (List ℕ))
      → length indivs ≡ length batches
      → total c (join_parts indivs batches) ≡ total c indivs + total c batches
  unfolding join_parts
  total-join_parts [] [] l = refl
  total-join_parts [] (b ∷ bs) l = absurd (omega arith)
  total-join_parts (i ∷ is) [] l = absurd (omega arith)
  total-join_parts (i ∷ is) (b ∷ bs) l =
      omega (arith, times-append i b, total-join_parts is bs (omega arith))

length-push_at : (idx x : ℕ) (parts : List (List ℕ)) → length (push_at idx x parts) ≡ length parts
unfolding push_at
length-push_at idx x [] = refl
length-push_at zero x (part ∷ parts) = refl
length-push_at (suc idx) x (part ∷ parts) = omega (arith, length-push_at idx x parts)

pub length-empty_parts : (n : ℕ) → length (empty_parts n) ≡ n
unfolding empty_parts
length-empty_parts zero = refl
length-empty_parts (suc n) = omega (arith, length-empty_parts n)

-- One vector for each worker, and no batch connections unless there is a candidate.
pub record IsSplit (num_workers : ℕ) (parts : Parts) : Type 0 where
  pub indiv_length : length parts.indiv_parts ≡ num_workers
  pub batch_length : length parts.batch_parts ≡ num_workers
  pub no_candidate : (c : ℕ) → parts.any_batch_candidate ≡ false → total c parts.batch_parts ≡ 0

module _ (cm : ConnectionManager) (batch_size num_workers : ℕ) (positive : 0 < num_workers) where
  abbrev place : ℕ → Parts → Parts
  place x parts =
      if use_batch cm batch_size x
      then record parts {
        batch_parts = push_at (x % num_workers) x parts.batch_parts;
        any_batch_candidate = true;
      }
      else record parts { indiv_parts = push_at (x % num_workers) x parts.indiv_parts }

  IsSplit-place :
      (x : ℕ) (parts : Parts) → IsSplit num_workers parts → IsSplit num_workers (place x parts)
  IsSplit-place x parts s = elim (Bool-cases (use_batch cm batch_size x)) [
    | inl e ↦ rw e (record {
      indiv_length = s.indiv_length;
      batch_length = length-push_at (x % num_workers) x parts.batch_parts ∙ s.batch_length;
      no_candidate = λ c h. cc;
    })
    | inr e ↦ rw e (record {
      indiv_length = length-push_at (x % num_workers) x parts.indiv_parts ∙ s.indiv_length;
      batch_length = s.batch_length;
      no_candidate = s.no_candidate;
    })
  ]

  pub IsSplit-partition_conns :
      (conns : List ℕ) (parts : Parts)
      → IsSplit num_workers parts
      → IsSplit num_workers (partition_conns cm batch_size num_workers conns parts)
  unfolding partition_conns
  IsSplit-partition_conns [] parts s = s
  IsSplit-partition_conns (x ∷ conns) parts s =
      IsSplit-partition_conns conns (place x parts) (IsSplit-place x parts s)

  pub total-partition_conns :
      (c : ℕ) (conns : List ℕ) (parts : Parts)
      → IsSplit num_workers parts
      → (total c (partition_conns cm batch_size num_workers conns parts).batch_parts
          ≡ (if use_batch cm batch_size c then times c conns else 0) + total c parts.batch_parts)
        × (total c (partition_conns cm batch_size num_workers conns parts).indiv_parts
            ≡ (if use_batch cm batch_size c then 0 else times c conns) + total c parts.indiv_parts)
  unfolding partition_conns
  total-partition_conns c [] parts s = ground arith
  total-partition_conns c (x ∷ conns) parts s =
      let rest = total-partition_conns c conns (place x parts) (IsSplit-place x parts s) in
      let small : x % num_workers < num_workers = omega (arith, positive) in
      ground (
        arith,
        rest,
        total-push_at c (x % num_workers) x parts.batch_parts
            (omega (arith, small, s.batch_length)),
        total-push_at c (x % num_workers) x parts.indiv_parts
            (omega (arith, small, s.indiv_length)),
        nat_eq.beq_iff x c,
        λ (p : x ≡ c). ap (λ y. use_batch cm batch_size y) p,
      )

pub length-join_parts :
    (indivs batches : List (List ℕ))
    → length indivs ≡ length batches
    → length (join_parts indivs batches) ≡ length indivs
unfolding join_parts
length-join_parts [] batches l = refl
length-join_parts (i ∷ is) [] l = refl
length-join_parts (i ∷ is) (b ∷ bs) l = omega (arith, length-join_parts is bs (omega (arith, l)))

pub IsSplit-empty :
    (n : ℕ)
    → IsSplit n (record {
      indiv_parts = empty_parts n;
      batch_parts = empty_parts n;
      any_batch_candidate = false;
    })
IsSplit-empty n = record {
  indiv_length = length-empty_parts n;
  batch_length = length-empty_parts n;
  no_candidate = λ c h. total-empty_parts c n;
}
