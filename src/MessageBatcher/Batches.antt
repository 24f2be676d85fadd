-- ===== src/MessageBatcher/Batches.antt =====
-- Every row is in one batch, and every sender is answered (server-rs/src/services/message_batcher.rs).
use verdant_backend.Prelude.{
  ℕ, ◌+◌, ◌≤◌, ◌<◌, ◌≡◌, refl, sym, ap, ◌∙◌, Bool, true, ◌&&◌, List, [], ◌∷◌, ◌++◌, map, ltb, leb,
  if◌then◌else◌, inl, inr, Bool-cases, length, all, length-append, arith,
}
use verdant_backend.MessageBatcher.{
  PendingInsert, Meets, row_comes, no_row, Phase, waiting, queued, holding, round, drain_loop,
  flush, flush_all, max_batch_rows,
}

module _ {A : Type 0} where
  append_nil : (xs : List A) → xs ++ [] ≡ xs
  append_nil [] = refl
  append_nil (x ∷ xs) = ap (λ rest. x ∷ rest) (append_nil xs)

  append_assoc : (xs ys zs : List A) → (xs ++ ys) ++ zs ≡ xs ++ (ys ++ zs)
  append_assoc [] ys zs = refl
  append_assoc (x ∷ xs) ys zs = ap (λ rest. x ∷ rest) (append_assoc xs ys zs)

  map-append : {B : Type 0} (f : A → B) (xs ys : List A) → map f (xs ++ ys) ≡ map f xs ++ map f ys
  map-append f [] ys = refl
  map-append f (x ∷ xs) ys = ap (λ rest. f x ∷ rest) (map-append f xs ys)

module _ {MessageRow : Type 0} where
  -- The rows that come, in order, and the rows of the batches one after another.
  abbrev pub coming : List (Meets MessageRow) → List (PendingInsert MessageRow)
  coming [] = []
  coming (row_comes p ∷ rest) = p ∷ coming rest
  coming (no_row ∷ rest) = coming rest

  abbrev pub concat : List (List (PendingInsert MessageRow)) → List (PendingInsert MessageRow)
  concat [] = []
  concat (batch ∷ batches) = batch ++ concat batches

  abbrev held : Phase MessageRow → List (PendingInsert MessageRow)
  held waiting = []
  held (queued batch) = batch
  held (holding batch) = batch

  -- A batch is not empty and has at most 128 rows.
  abbrev pub fits : List (PendingInsert MessageRow) → Bool
  fits batch = leb 1 (length batch) && leb (length batch) max_batch_rows

  -- While rows are gathered, the batch has a row and is not full.
  abbrev IsOpen : Phase MessageRow → Type 0
  IsOpen waiting = Unit
  IsOpen (queued batch) = (1 ≤ length batch) × (length batch < 128)
  IsOpen (holding batch) = (1 ≤ length batch) × (length batch < 128)

  grown :
      (batch : List (PendingInsert MessageRow)) (p : PendingInsert MessageRow)
      → length (batch ++ p ∷ []) ≡ length batch + 1
  grown batch p = length-append batch (p ∷ [])

module _ {MessageRow : Type 0} (batch : List (PendingInsert MessageRow))
    (p : PendingInsert MessageRow) (rest : List (Meets MessageRow)) where
  queued_row : drain_loop (queued batch) (row_comes p ∷ rest) ≡ (
      if ltb (length (batch ++ p ∷ [])) 128
      then drain_loop (queued (batch ++ p ∷ [])) rest
      else (batch ++ p ∷ []) ∷ drain_loop waiting rest)
  unfolding drain_loop round
  queued_row = elim (Bool-cases (ltb (length (batch ++ p ∷ [])) 128)) [
    | inl e ↦ ground (arith, e)
    | inr e ↦ ground (arith, e)
  ]

  holding_row : drain_loop (holding batch) (row_comes p ∷ rest) ≡ (
      if ltb (length (batch ++ p ∷ [])) 128
      then drain_loop (holding (batch ++ p ∷ [])) rest
      else (batch ++ p ∷ []) ∷ drain_loop waiting rest)
  unfolding drain_loop round
  holding_row = elim (Bool-cases (ltb (length (batch ++ p ∷ [])) 128)) [
    | inl e ↦ ground (arith, e)
    | inr e ↦ ground (arith, e)
  ]

drained :
    {MessageRow : Type 0} (phase : Phase MessageRow) (meets : List (Meets MessageRow))
    → IsOpen phase
    → (concat (drain_loop phase meets) ≡ held phase ++ coming meets)
      × (all fits (drain_loop phase meets) ≡ true)
unfolding drain_loop round
drained waiting [] o = (refl, refl)
drained (queued batch) [] o = (refl, ground (arith, o.0, o.1))
drained (holding batch) [] o = (refl, ground (arith, o.0, o.1))
drained waiting (row_comes p ∷ rest) o = drained (queued (p ∷ [])) rest (omega arith, omega arith)
drained waiting (no_row ∷ rest) o = drained waiting rest tt
drained (queued batch) (no_row ∷ rest) o = drained (holding batch) rest o
drained (holding batch) (no_row ∷ rest) o =
    let later = drained waiting rest tt in
    (ap (λ ps. batch ++ ps) later.0, ground (arith, o.0, o.1, later.1))
drained (queued batch) (row_comes p ∷ rest) o =
    let batch' = batch ++ p ∷ [] in
    elim (Bool-cases (ltb (length batch') 128)) [
      | inl e ↦
          let later =
            drained (queued batch') rest (omega (arith, grown batch p), ground (arith, e)) in
          rw (queued_row batch p rest, e)
            (later.0 ∙ append_assoc batch (p ∷ []) (coming rest), later.1)
      | inr e ↦
          let later = drained waiting rest tt in
          rw (queued_row batch p rest, e)
            (
              ap (λ ps. batch' ++ ps) later.0 ∙ append_assoc batch (p ∷ []) (coming rest),
              ground (arith, e, grown batch p, o.1, later.1),
            )
    ]
drained (holding batch) (row_comes p ∷ rest) o =
    let batch' = batch ++ p ∷ [] in
    elim (Bool-cases (ltb (length batch') 128)) [
      | inl e ↦
          let later =
            drained (holding batch') rest (omega (arith, grown batch p), ground (arith, e)) in
          rw (holding_row batch p rest, e)
            (later.0 ∙ append_assoc batch (p ∷ []) (coming rest), later.1)
      | inr e ↦
          let later = drained waiting rest tt in
          rw (holding_row batch p rest, e)
            (
              ap (λ ps. batch' ++ ps) later.0 ∙ append_assoc batch (p ∷ []) (coming rest),
              ground (arith, e, grown batch p, o.1, later.1),
            )
    ]

module _ {MessageRow Outcome : Type 0} (insert_batch : List MessageRow → Outcome) where
  -- The channels that are told something.
  abbrev pub told : List (ℕ × Outcome) → List ℕ
  told [] = []
  told ((reply, outcome) ∷ rest) = reply ∷ told rest

  told-append : (xs ys : List (ℕ × Outcome)) → told (xs ++ ys) ≡ told xs ++ told ys
  told-append [] ys = refl
  told-append ((reply, outcome) ∷ xs) ys = ap (λ rest. reply ∷ rest) (told-append xs ys)

  replied :
      (batch : List (PendingInsert MessageRow)) (outcome : Outcome)
      → told (map (λ p. (p.reply, outcome)) batch) ≡ map (λ p. p.reply) batch
  replied [] outcome = refl
  replied (p ∷ batch) outcome = ap (λ rest. p.reply ∷ rest) (replied batch outcome)

  told-flush_all :
      (batches : List (List (PendingInsert MessageRow)))
      → told (flush_all insert_batch batches) ≡ map (λ p. p.reply) (concat batches)
  unfolding flush_all flush
  told-flush_all [] = refl
  told-flush_all (batch ∷ batches) =
      let outcome = insert_batch (map (λ p. p.row) batch) in
      told-append (map (λ p. (p.reply, outcome)) batch) (flush_all insert_batch batches)
      ∙ ap (λ ids. ids ++ told (flush_all insert_batch batches)) (replied batch outcome)
      ∙ ap (λ ids. map (λ p. p.reply) batch ++ ids) (told-flush_all batches)
      ∙ sym (map-append (λ p. p.reply) batch (concat batches))

  -- Whatever the task meets until the senders end, the batches that it flushes hold the rows that
  -- came, each once and in order, no batch is empty or has more than 128 rows, and every sender
  -- is told an outcome, once.
  pub drain_loop_complete :
      (meets : List (Meets MessageRow))
      → (concat (drain_loop waiting meets) ≡ coming meets)
        × (all fits (drain_loop waiting meets) ≡ true)
        × (told (flush_all insert_batch (drain_loop waiting meets))
            ≡ map (λ p. p.reply) (coming meets))
  drain_loop_complete meets =
      let done = drained waiting meets tt in
      (
        done.0,
        done.1,
        told-flush_all (drain_loop waiting meets) ∙ ap (λ ps. map (λ p. p.reply) ps) done.0,
      )
