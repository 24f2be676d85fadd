-- ===== src/MessageBatcher/Examples.antt =====
-- The theorem on batches at three rows, of which two wait together.
use verdant_backend.Prelude.{ℕ, ◌≡◌, true, List, [], ◌∷◌, map, length, all}
use verdant_backend.MessageBatcher.{Meets, row_comes, no_row, waiting, drain_loop, flush_all}
use verdant_backend.MessageBatcher.Batches.{coming, concat, fits, told, drain_loop_complete}

abbrev sent : ℕ → Meets ℕ
sent n = row_comes (record { row = n; reply = n })

abbrev meets : List (Meets ℕ)
meets = sent 1 ∷ sent 2 ∷ no_row ∷ no_row ∷ sent 3 ∷ []

-- The outcome is the number of rows.
abbrev insert_batch : List ℕ → ℕ
insert_batch rows = length rows

drain_loop_complete_example :
    (concat (drain_loop waiting meets) ≡ coming meets)
    × (all fits (drain_loop waiting meets) ≡ true)
    × (told insert_batch (flush_all insert_batch (drain_loop waiting meets))
        ≡ map (λ p. p.reply) (coming meets))
drain_loop_complete_example = drain_loop_complete insert_batch meets
