-- ===== src/Websocket/Examples.antt =====
-- The theorems on the connections at two connections of user 7 and one topic.
use verdant_backend.Prelude.{ℕ, nat_eq, string_eq, ◌≡◌, ◌↔◌, refl, true, false, none}
use Prim.Native.String.{String}
use verdant_backend.Prelude.Dict
use verdant_backend.Prelude.Dict.{lookup, contains_key}
use verdant_backend.Prelude.HashSet.{contains}
use verdant_backend.Websocket.Manager.{
  ConnectionManager, new, add_connection, remove_connection, subscribe,
}
use verdant_backend.Websocket.Emptied.{remove_connection-emptied}
use verdant_backend.Websocket.Mirror.{members}
use verdant_backend.Websocket.Lifecycle.{
  IsConsistent, Reachable, start, later, add, join, Reachable-IsConsistent,
  remove_connection-forgets,
}

abbrev pair : ConnectionManager
pair = add_connection (add_connection new 7 1 100) 7 2 101

abbrev chatting : ConnectionManager
chatting = subscribe (subscribe pair 1 "server:5") 2 "server:5"

pair-Reachable : Reachable pair
pair-Reachable =
    later (later start (add 7 1 100 refl)) (add 7 2 101 (unfold add_connection Dict.insert in refl))

chatting-Reachable : Reachable chatting
chatting-Reachable =
    later
      (later pair-Reachable
        (join 1 "server:5" (unfold add_connection Dict.or_insert Dict.insert in refl)))
      (join 2 "server:5"
        (unfold subscribe add_connection Dict.modify Dict.or_insert Dict.insert in refl))

Reachable-IsConsistent_example : IsConsistent chatting
Reachable-IsConsistent_example = Reachable-IsConsistent chatting chatting-Reachable

remove_connection-forgets_example :
    ((topic : String)
      → contains 1 (members topic (remove_connection chatting 1).1.topic_subscribers) ≡ false)
    × ((user_id : ℕ)
        → contains 1 (members user_id (remove_connection chatting 1).1.connections) ≡ false)
    × (lookup 1 (remove_connection chatting 1).1.conn_user ≡ none)
    × (lookup 1 (remove_connection chatting 1).1.conn_focus_channel ≡ none)
    × (lookup 1 (remove_connection chatting 1).1.conn_voice_channel ≡ none)
    × (lookup 1 (remove_connection chatting 1).1.conn_info ≡ none)
    × (contains_key 1 (remove_connection chatting 1).1.batch_conns ≡ false)
remove_connection-forgets_example = remove_connection-forgets chatting 1 chatting-Reachable

remove_connection-emptied_example :
    (contains "server:5" (remove_connection chatting 1).0 ≡ true) ↔ (
      (contains "server:5" (members 1 chatting.subscriptions) ≡ true)
      × ((b : ℕ) → contains b (members "server:5" chatting.topic_subscribers) ≡ true → b ≡ 1))
remove_connection-emptied_example =
    remove_connection-emptied chatting 1 "server:5" chatting-Reachable
