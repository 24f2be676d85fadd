-- ===== src/Broadcast/Examples.antt =====
-- The theorems on the broadcast at two connections, one of which takes batches.
use verdant_backend.Prelude.{
  ℕ, nat_eq, string_eq, ◌≡◌, refl, true, all, length, List, [], ◌∷◌, Option, some, arith,
}
use verdant_backend.Prelude.Dict
use verdant_backend.Prelude.Dict.{lookup}
use verdant_backend.Prelude.HashSet
use verdant_backend.Websocket.Manager
use verdant_backend.Websocket.Manager.{
  ConnectionManager, protobuf, json, add_connection, set_encoding, mark_batch_capable, subscribe,
}
use verdant_backend.Broadcast.{
  Payload, Event, received, ticked, run_coalescer, use_batch, pack_batch_frame, flush_topic,
}
use verdant_backend.Broadcast.Coalescing.{flushed, published, within_limit, run_coalescer_complete}
use verdant_backend.Broadcast.Fanout.{sent_to, deliver_all, expected, flush_topic-expected}

abbrev connected : ConnectionManager
connected = add_connection (add_connection Manager.new 7 1 100) 8 2 101

abbrev typed : ConnectionManager
typed = mark_batch_capable (set_encoding (set_encoding connected 1 protobuf) 2 json) 1

abbrev reading : ConnectionManager
reading = subscribe (subscribe typed 1 "channel:5") 2 "channel:5"

abbrev room : ℕ → ℕ
room conn_id = 1024

-- Messages as they are, and a frame of the number of messages.
abbrev decode : List ℕ → Option (List ℕ)
decode bytes = some bytes

abbrev encode_batch : List (List ℕ) → Option (List ℕ)
encode_batch messages = some (length messages ∷ [])

abbrev hello : Payload
hello = record { proto = 104 ∷ []; json_text = "hello" }

abbrev bye : Payload
bye = record { proto = 98 ∷ []; json_text = "bye" }

both_read : lookup "channel:5" reading.topic_subscribers ≡ some (2 ∷ 1 ∷ [])
unfolding subscribe Dict.modify Dict.or_insert HashSet.insert set_encoding mark_batch_capable
    add_connection
both_read = refl

flush_topic-expected_example :
    sent_to 1 (
      deliver_all reading room
        (flush_topic decode encode_batch reading 2 "channel:5" (hello ∷ bye ∷ [])))
    ≡ expected reading room 1
        (hello ∷ bye ∷ [])
        (use_batch reading 2 1)
        (pack_batch_frame decode encode_batch (hello ∷ bye ∷ []))
flush_topic-expected_example =
    flush_topic-expected decode encode_batch reading room 2 "channel:5" (hello ∷ bye ∷ [])
      (2 ∷ 1 ∷ []) 1 (omega arith) both_read refl

abbrev events : List Event
events =
    received (record { topic = "channel:5"; payload = hello })
    ∷ ticked
    ∷ received (record { topic = "channel:5"; payload = bye })
    ∷ []

run_coalescer_complete_example :
    (flushed "channel:5" (run_coalescer [] 0 events) ≡ published "channel:5" events)
    × (all within_limit (run_coalescer [] 0 events) ≡ true)
run_coalescer_complete_example = run_coalescer_complete "channel:5" events
