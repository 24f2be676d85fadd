-- ===== src/Websocket/Lifecycle.antt =====
-- The connections over their lives (server-rs/src/ws/mod.rs): what holds after any operations.
use Prim.Native.String.{String}
use verdant_backend.Prelude.{
  ℕ, nat_eq, string_eq, eq_refl, ◌≡◌, ◌↔◌, refl, sym, ◌∙◌, true, false, List, [], ◌∷◌, Option, none,
  some, inl, inr, Option-cases, arith,
}
use verdant_backend.Prelude.Dict.{Dict, lookup, contains_key, lookup-remove}
use verdant_backend.Prelude.HashSet.{contains, is_empty}
use verdant_backend.Websocket.Manager.{
  Encoding, ConnectionManager, new, next_conn_id, mark_batch_capable, set_encoding, add_connection,
  drop_member, remove_connection, subscribe, unsubscribe, cleanup_topic,
}
use verdant_backend.Websocket.Delivery.{
  set_focused_channel, set_voice_channel_for_user, clear_voice_channel_for_user, is_online,
}
use verdant_backend.Websocket.Mirror.{
  members, IsMirror, IsMirror-add_connection, IsMirror-subscribe, IsMirror-unsubscribe,
  IsMirror-remove_connection, IsMirror-cleanup_topic,
}
use verdant_backend.Websocket.Sets.{
  NoneEmpty, NoneEmpty-drop_member, NoneEmpty-insert, NoneEmpty-remove, NoneEmpty-leave_topics,
  IsOwned, IsOwned-add_connection, IsOwned-remove_connection,
}

NoneEmpty-cleanup_topic :
    (m : ConnectionManager) (topic : String)
    → NoneEmpty m.topic_subscribers
    → NoneEmpty (cleanup_topic m topic).topic_subscribers
unfolding cleanup_topic
NoneEmpty-cleanup_topic m topic h = elim (Option-cases (lookup topic m.topic_subscribers)) [
  | inl e ↦ rw (cleanup_topic, e) h
  | inr (ids, e) ↦ rw (cleanup_topic, e) (NoneEmpty-remove topic m.topic_subscribers h)
]

NoneEmpty-connections :
    (o : Option ℕ) (c : ℕ) (d : Dict ℕ (List ℕ))
    → NoneEmpty d
    → NoneEmpty (elim o as (λ _. Dict ℕ (List ℕ)) [ none ↦ d | some u ↦ drop_member c u d ])
NoneEmpty-connections none c d h = h
NoneEmpty-connections (some u) c d h = NoneEmpty-drop_member c u d h

-- What the tables promise each other.
pub record IsConsistent (m : ConnectionManager) : Type 0 where
  pub mirror : IsMirror m
  pub owned : IsOwned m
  pub topics_in_use : NoneEmpty m.topic_subscribers
  pub users_in_use : NoneEmpty m.connections

-- An operation of the manager. A connection is added once, and only an added one subscribes.
pub data Step (m : ConnectionManager) : ConnectionManager → Type 0 where
  next_id : Step m (next_conn_id m).1
  add :
      (user_id conn_id tx : ℕ)
      → lookup conn_id m.conn_user ≡ none
      → Step m (add_connection m user_id conn_id tx)
  encode : (conn_id : ℕ) (encoding : Encoding) → Step m (set_encoding m conn_id encoding)
  batch : (conn_id : ℕ) → Step m (mark_batch_capable m conn_id)
  disconnect : (conn_id : ℕ) → Step m (remove_connection m conn_id).1
  join :
      (conn_id : ℕ) (topic : String)
      → contains_key conn_id m.subscriptions ≡ true
      → Step m (subscribe m conn_id topic)
  part : (conn_id : ℕ) (topic : String) → Step m (unsubscribe m conn_id topic)
  clean : (topic : String) → Step m (cleanup_topic m topic)
  focus : (conn_id : ℕ) (channel_id : Option ℕ) → Step m (set_focused_channel m conn_id channel_id)
  voice : (user_id channel_id : ℕ) → Step m (set_voice_channel_for_user m user_id channel_id)
  mute : (user_id channel_id : ℕ) → Step m (clear_voice_channel_for_user m user_id channel_id).1

pub data Reachable : ConnectionManager → Type 0 where
  start : Reachable new
  later : {m n : ConnectionManager} → Reachable m → Step m n → Reachable n

cleanup_rest :
    (m : ConnectionManager) (topic : String)
    → ((cleanup_topic m topic).connections ≡ m.connections)
      × ((cleanup_topic m topic).conn_user ≡ m.conn_user)
unfolding cleanup_topic
cleanup_rest m topic = elim (Option-cases (lookup topic m.topic_subscribers)) [
  | inl e ↦ rw (cleanup_topic, e) (refl, refl)
  | inr (ids, e) ↦ rw (cleanup_topic, e) (refl, refl)
]

IsConsistent-Step : {m n : ConnectionManager} → IsConsistent m → Step m n → IsConsistent n
unfolding next_conn_id set_encoding mark_batch_capable set_focused_channel
    set_voice_channel_for_user clear_voice_channel_for_user
IsConsistent-Step {m} h next_id = record {
  mirror = h.mirror;
  owned = h.owned;
  topics_in_use = h.topics_in_use;
  users_in_use = h.users_in_use;
}
IsConsistent-Step {m} h (add u c tx f) = record {
  mirror = IsMirror-add_connection m u c tx h.mirror;
  owned = IsOwned-add_connection m u c tx f h.owned;
  topics_in_use = unfold add_connection in h.topics_in_use;
  users_in_use = unfold add_connection in NoneEmpty-insert c u m.connections h.users_in_use;
}
IsConsistent-Step {m} h (encode c x) = record {
  mirror = h.mirror;
  owned = h.owned;
  topics_in_use = h.topics_in_use;
  users_in_use = h.users_in_use;
}
IsConsistent-Step {m} h (batch c) = record {
  mirror = h.mirror;
  owned = h.owned;
  topics_in_use = h.topics_in_use;
  users_in_use = h.users_in_use;
}
IsConsistent-Step {m} h (disconnect c) = record {
  mirror = IsMirror-remove_connection m c h.mirror;
  owned = IsOwned-remove_connection m c h.owned;
  topics_in_use =
      unfold remove_connection in
      NoneEmpty-leave_topics c (members c m.subscriptions) m.topic_subscribers h.topics_in_use;
  users_in_use =
      unfold remove_connection in
      NoneEmpty-connections (lookup c m.conn_user) c m.connections h.users_in_use;
}
IsConsistent-Step {m} h (join c t k) = record {
  mirror = IsMirror-subscribe m c t k h.mirror;
  owned = unfold subscribe in h.owned;
  topics_in_use = unfold subscribe in NoneEmpty-insert c t m.topic_subscribers h.topics_in_use;
  users_in_use = unfold subscribe in h.users_in_use;
}
IsConsistent-Step {m} h (part c t) = record {
  mirror = IsMirror-unsubscribe m c t h.mirror;
  owned = unfold unsubscribe in h.owned;
  topics_in_use =
      unfold unsubscribe in NoneEmpty-drop_member c t m.topic_subscribers h.topics_in_use;
  users_in_use = unfold unsubscribe in h.users_in_use;
}
IsConsistent-Step {m} h (clean t) = record {
  mirror = IsMirror-cleanup_topic m t h.mirror;
  owned = rw ((cleanup_rest m t).0, (cleanup_rest m t).1) h.owned;
  topics_in_use = NoneEmpty-cleanup_topic m t h.topics_in_use;
  users_in_use = rw ((cleanup_rest m t).0) h.users_in_use;
}
IsConsistent-Step {m} h (focus c none) = record {
  mirror = h.mirror;
  owned = h.owned;
  topics_in_use = h.topics_in_use;
  users_in_use = h.users_in_use;
}
IsConsistent-Step {m} h (focus c (some x)) = record {
  mirror = h.mirror;
  owned = h.owned;
  topics_in_use = h.topics_in_use;
  users_in_use = h.users_in_use;
}
IsConsistent-Step {m} h (voice u x) = record {
  mirror = h.mirror;
  owned = h.owned;
  topics_in_use = h.topics_in_use;
  users_in_use = h.users_in_use;
}
IsConsistent-Step {m} h (mute u x) = record {
  mirror = h.mirror;
  owned = h.owned;
  topics_in_use = h.topics_in_use;
  users_in_use = h.users_in_use;
}

-- In every manager that operations make of a new one, where a connection is added once and
-- subscribes only once added: a topic is in a connection's set exactly when the connection is in
-- the topic's; a connection is in a user's set exactly when it belongs to the user; and no topic
-- and no user keeps an empty set.
pub Reachable-IsConsistent : (m : ConnectionManager) → Reachable m → IsConsistent m
Reachable-IsConsistent _ start = record {
  mirror = λ c t. refl;
  owned = λ c u. refl;
  topics_in_use = λ k cs p. cc;
  users_in_use = λ k cs p. cc;
}
Reachable-IsConsistent _ (later r s) = IsConsistent-Step (Reachable-IsConsistent _ r) s

-- Some connection of a set that is not empty.
some_member : (conns : List ℕ) → is_empty conns ≡ false → (c : ℕ) × (contains c conns ≡ true)
some_member [] h = cc
some_member (c ∷ rest) h = (c, ground (arith, eq_refl c))

-- In a reachable manager, a user is online exactly when a connection belongs to the user.
pub is_online-Reachable :
    (m : ConnectionManager) (user_id : ℕ)
    → Reachable m
    → (is_online m user_id ≡ true) ↔ ((c : ℕ) × (lookup c m.conn_user ≡ some user_id))
unfolding is_online
is_online-Reachable m u r = (forth, back)
  where
    inv : IsConsistent m
    inv = Reachable-IsConsistent m r

    forth : is_online m u ≡ true → (c : ℕ) × (lookup c m.conn_user ≡ some u)
    forth h = elim (Option-cases (lookup u m.connections)) [
      | inl e ↦ absurd (ground (arith, e))
      | inr (conns, e) ↦
          let (c, there) = some_member conns (ground (arith, e)) in
          (c, ground (arith, e, there, inv.owned c u))
    ]

    back : (c : ℕ) × (lookup c m.conn_user ≡ some u) → is_online m u ≡ true
    back (c, h) = ground (arith, h, inv.owned c u, eq_refl u, inv.users_in_use u)

-- After `remove_connection` in a reachable manager, the connection is in no topic's set and in no
-- user's set, and its user, focus, voice channel, sender and batch flag are forgotten.
pub remove_connection-forgets :
    (m : ConnectionManager) (conn_id : ℕ)
    → Reachable m
    → ((topic : String)
        → contains conn_id (members topic (remove_connection m conn_id).1.topic_subscribers)
          ≡ false)
      × ((user_id : ℕ)
          → contains conn_id (members user_id (remove_connection m conn_id).1.connections) ≡ false)
      × (lookup conn_id (remove_connection m conn_id).1.conn_user ≡ none)
      × (lookup conn_id (remove_connection m conn_id).1.conn_focus_channel ≡ none)
      × (lookup conn_id (remove_connection m conn_id).1.conn_voice_channel ≡ none)
      × (lookup conn_id (remove_connection m conn_id).1.conn_info ≡ none)
      × (contains_key conn_id (remove_connection m conn_id).1.batch_conns ≡ false)
remove_connection-forgets m c r =
    let after = Reachable-IsConsistent (remove_connection m c).1 (later r (disconnect c)) in
    let user : lookup c (remove_connection m c).1.conn_user ≡ none =
      unfold remove_connection in ground (arith, lookup-remove c c m.conn_user, eq_refl c) in
    let subs : lookup c (remove_connection m c).1.subscriptions ≡ none =
      unfold remove_connection in ground (arith, lookup-remove c c m.subscriptions, eq_refl c) in
    (
      λ t. sym (after.mirror c t) ∙ (rw subs refl),
      λ u. after.owned c u ∙ (rw user refl),
      user,
      unfold remove_connection in ground (arith, lookup-remove c c m.conn_focus_channel, eq_refl c),
      unfold remove_connection in ground (arith, lookup-remove c c m.conn_voice_channel, eq_refl c),
      unfold remove_connection in ground (arith, lookup-remove c c m.conn_info, eq_refl c),
      unfold remove_connection in ground (arith, lookup-remove c c m.batch_conns, eq_refl c),
    )
