-- ===== src/MessageBatcher.antt =====
-- The message batcher (server-rs/src/services/message_batcher.rs): rows that wait are gathered into one
-- INSERT, and every sender is told the result of its batch.
pub mod Batches
mod Examples
use verdant_backend.Prelude.{
  ℕ, ◌+◌, Bool, true, false, List, [], ◌∷◌, ◌++◌, map, Option, none, some, ltb, if◌then◌else◌,
  length,
}

abbrev pub max_batch_rows : ℕ
max_batch_rows = 128

-- A row, and the number of the channel that its reply goes to.
pub record PendingInsert (MessageRow : Type 0) : Type 0 where
  pub row : MessageRow
  pub reply : ℕ

-- What the task meets next: a row that the queue gives, or no row, where `try_recv` finds none or the
-- window of the batch ends. The end of the list is the end of the senders.
pub data Meets (MessageRow : Type 0) : Type 0 where
  row_comes : PendingInsert MessageRow → Meets MessageRow
  no_row : Meets MessageRow

-- What the loop does next: wait for the first row of a batch, take the rows that are queued, or hold
-- the batch open for its window.
pub data Phase (MessageRow : Type 0) : Type 0 where
  waiting : Phase MessageRow
  queued holding : List (PendingInsert MessageRow) → Phase MessageRow

module _ {MessageRow : Type 0} where
  -- A row joins the batch, which is flushed when it is full.
  abbrev pub joined :
      (List (PendingInsert MessageRow) → Phase MessageRow)
      → List (PendingInsert MessageRow)
      → PendingInsert MessageRow
      → Option (List (PendingInsert MessageRow)) × Phase MessageRow
  joined phase batch p =
      let batch' = batch ++ p ∷ [] in
      if ltb (length batch') max_batch_rows then (none, phase batch') else (some batch', waiting)

  -- One round: the batch to flush, if one is complete, and the next phase.
  unfoldable pub round :
      Phase MessageRow
      → Meets MessageRow
      → Option (List (PendingInsert MessageRow)) × Phase MessageRow
  round waiting (row_comes p) = (none, queued (p ∷ []))
  round waiting no_row = (none, waiting)
  round (queued batch) (row_comes p) = joined queued batch p
  round (queued batch) no_row = (none, holding batch)
  round (holding batch) (row_comes p) = joined holding batch p
  round (holding batch) no_row = (some batch, waiting)

  -- The batches that are flushed, one after another.
  unfoldable pub drain_loop :
      Phase MessageRow → List (Meets MessageRow) → List (List (PendingInsert MessageRow))
  unfolding round
  drain_loop waiting [] = []
  drain_loop (queued batch) [] = batch ∷ []
  drain_loop (holding batch) [] = batch ∷ []
  drain_loop phase (m ∷ rest) =
      let (flushed, phase') = round phase m in
      let later = drain_loop phase' rest in
      elim flushed [ none ↦ later | some batch ↦ batch ∷ later ]

  -- `insert_batch` is a query of the database, with a result of the model's choice.
  module _ {Outcome : Type 0} (insert_batch : List MessageRow → Outcome) where
    -- The replies of a batch: every waiter is told the outcome.
    unfoldable pub flush : List (PendingInsert MessageRow) → List (ℕ × Outcome)
    flush batch =
        let outcome = insert_batch (map (λ p. p.row) batch) in map (λ p. (p.reply, outcome)) batch

    unfoldable pub flush_all : List (List (PendingInsert MessageRow)) → List (ℕ × Outcome)
    unfolding flush
    flush_all [] = []
    flush_all (batch ∷ batches) = flush batch ++ flush_all batches
