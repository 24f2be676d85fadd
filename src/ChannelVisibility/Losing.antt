-- ===== src/ChannelVisibility/Losing.antt =====
-- The local subscriptions after a change of who sees a channel
-- (server-rs/src/services/channel_visibility.rs, server-rs/src/ws/topics.rs).
use Prim.Native.String.{String}
use verdant_backend.Prelude.{
  ℕ, nat_eq, string_eq, ◌=?◌, eq_refl, ◌≡◌, refl, ap, ◌∙◌, Bool, true, false, not, ◌&&◌, ◌||◌, List,
  [], ◌∷◌, ◌++◌, any, some, ◌==◌, inl, inr, Bool-cases, arith,
}
use verdant_backend.Prelude.HashSet.{contains}
use verdant_backend.Prelude.Dict
use verdant_backend.Prelude.Dict.{lookup-or_insert}
use verdant_backend.AppError.{AppError, ok, ok_or, ◌>>=◌}
use verdant_backend.Permissions.Types.{PermissionCache}
use verdant_backend.Permissions.Viewers.{collect_online_channel_viewers}
use verdant_backend.Websocket.Manager.{ConnectionManager, subscribe, unsubscribe}
use verdant_backend.Websocket.Mirror.{members, contains-modify-insert, contains-or_insert}
use verdant_backend.Websocket.Sets.{IsOwned}
use verdant_backend.Websocket.Delivery.{get_user_conn_ids}
use verdant_backend.Websocket.Topics.{
  Hub, redis_subscribe, subscribe_connection, subscribe_all, subscribe_user, leave_each, all_leave,
  unsubscribe_user_from_channel, all_channel_topics, voice_topic,
}
use verdant_backend.Websocket.Topics.Leaving.{
  subscribes, ws-redis_leave, unsubscribe_user-subscribes,
}
use verdant_backend.ChannelVisibility.{
  ChannelRow, ChannelVisibilityDelta, Publication, channel_type_server_voice,
  diff_channel_visibility, lose_each, gain_one, gain_each, publish_channel_visibility_update,
  apply_channel_visibility_delta, reconcile_single_channel_visibility,
}
use verdant_backend.ChannelVisibility.Diff.{lost_iff, gained_iff}

-- The connection is one of a user of the list.
abbrev pub belongs : ConnectionManager → List ℕ → ℕ → Bool
belongs ws users conn_id = any (λ user_id. contains conn_id (get_user_conn_ids ws user_id)) users

-- The connections of the users do not depend on the topics.
connections-leave_each :
    (ws : ConnectionManager) (c : ℕ) (topics : List String)
    → (leave_each ws c topics).connections ≡ ws.connections
unfolding leave_each unsubscribe
connections-leave_each ws c [] = refl
connections-leave_each ws c (t ∷ ts) = connections-leave_each (unsubscribe ws c t) c ts

connections-all_leave :
    (ws : ConnectionManager) (ids : List ℕ) (topics : List String)
    → (all_leave ws ids topics).connections ≡ ws.connections
unfolding all_leave
connections-all_leave ws [] topics = refl
connections-all_leave ws (c ∷ ids) topics =
    connections-all_leave (leave_each ws c topics) ids topics ∙ connections-leave_each ws c topics

connections-leave_channel :
    (h : Hub) (user_id channel_id : ℕ)
    → (unsubscribe_user_from_channel h user_id channel_id).ws.connections ≡ h.ws.connections
unfolding unsubscribe_user_from_channel
connections-leave_channel h u c =
    let ids = get_user_conn_ids h.ws u in
    ap (λ ws. ws.connections)
      (ws-redis_leave (record h { ws = all_leave h.ws ids (all_channel_topics c) })
        (all_channel_topics c))
    ∙ connections-all_leave h.ws ids (all_channel_topics c)

connections-subscribe_connection :
    (h : Hub) (c : ℕ) (topics : List String)
    → (subscribe_connection h c topics).ws.connections ≡ h.ws.connections
unfolding subscribe_connection redis_subscribe subscribe
connections-subscribe_connection h c [] = refl
connections-subscribe_connection h c (t ∷ ts) =
    connections-subscribe_connection (redis_subscribe (record h { ws = subscribe h.ws c t }) t) c ts

connections-subscribe_all :
    (h : Hub) (ids : List ℕ) (topics : List String)
    → (subscribe_all h ids topics).ws.connections ≡ h.ws.connections
unfolding subscribe_all
connections-subscribe_all h [] topics = refl
connections-subscribe_all h (c ∷ ids) topics =
    connections-subscribe_all (subscribe_connection h c topics) ids topics
    ∙ connections-subscribe_connection h c topics

connections-gain_one :
    (h : Hub) (channel : ChannelRow) (u : ℕ)
    → (gain_one h channel u).ws.connections ≡ h.ws.connections
unfolding gain_one subscribe_user
connections-gain_one h channel u =
    let joined =
      connections-subscribe_all h (get_user_conn_ids h.ws u) (voice_topic channel.id ∷ []) in
    elim (Bool-cases (channel.channel_type == channel_type_server_voice)) [
      | inl e ↦ rw e joined
      | inr e ↦ rw e refl
    ]

belongs_same :
    (ws ws' : ConnectionManager) (users : List ℕ) (c : ℕ)
    → ws.connections ≡ ws'.connections
    → belongs ws users c ≡ belongs ws' users c
unfolding get_user_conn_ids
belongs_same ws ws' users c p = ap (λ d. any (λ u. contains c (members u d)) users) p

module _ (c : ℕ) (t : String) where
  subscribes-subscribe :
      (ws : ConnectionManager) (conn_id : ℕ) (topic : String)
      → subscribes (subscribe ws conn_id topic) c t
        ≡ (subscribes ws c t || ((conn_id =? c) && (topic =? t)))
  unfolding subscribe
  subscribes-subscribe ws conn_id topic = ground (
    arith,
    contains-modify-insert topic conn_id (Dict.or_insert topic [] ws.topic_subscribers) t c,
    contains-or_insert topic ws.topic_subscribers t c,
    lookup-or_insert topic topic [] ws.topic_subscribers,
    eq_refl topic,
  )

  subscribes-subscribe_one :
      (h : Hub) (conn_id : ℕ) (topic : String)
      → subscribes (subscribe_connection h conn_id (topic ∷ [])).ws c t
        ≡ (subscribes h.ws c t || ((conn_id =? c) && (topic =? t)))
  unfolding subscribe_connection redis_subscribe
  subscribes-subscribe_one h conn_id topic = subscribes-subscribe h.ws conn_id topic

  subscribes-subscribe_all :
      (h : Hub) (ids : List ℕ) (topic : String)
      → subscribes (subscribe_all h ids (topic ∷ [])).ws c t
        ≡ (subscribes h.ws c t || (contains c ids && (topic =? t)))
  unfolding subscribe_all
  subscribes-subscribe_all h [] topic = ground arith
  subscribes-subscribe_all h (i ∷ ids) topic = ground (
    arith,
    subscribes-subscribe_all (subscribe_connection h i (topic ∷ [])) ids topic,
    subscribes-subscribe_one h i topic,
  )

  subscribes-lose_each :
      (h : Hub) (server_id channel_id : ℕ) (users : List ℕ)
      → subscribes (lose_each h server_id channel_id users).0.ws c t ≡ (
          subscribes h.ws c t
          && not (belongs h.ws users c && contains t (all_channel_topics channel_id)))
  unfolding lose_each
  subscribes-lose_each h s ch [] = ground arith
  subscribes-lose_each h s ch (u ∷ us) =
      let h' = unsubscribe_user_from_channel h u ch in
      ground (
        arith,
        subscribes-lose_each h' s ch us,
        belongs_same h'.ws h.ws us c (connections-leave_channel h u ch),
        (unsubscribe_user-subscribes h u s ch [] c t).0,
      )

  subscribes-gain_one :
      (h : Hub) (channel : ChannelRow) (u : ℕ)
      → subscribes (gain_one h channel u).ws c t ≡ (
          subscribes h.ws c t
          || ((channel.channel_type == channel_type_server_voice)
              && (contains c (get_user_conn_ids h.ws u) && (voice_topic channel.id =? t))))
  unfolding gain_one subscribe_user
  subscribes-gain_one h channel u =
      ground (arith, subscribes-subscribe_all h (get_user_conn_ids h.ws u) (voice_topic channel.id))

  subscribes-gain_each :
      (h : Hub) (channel : ChannelRow) (users : List ℕ)
      → subscribes (gain_each h channel users).0.ws c t ≡ (
          subscribes h.ws c t
          || ((channel.channel_type == channel_type_server_voice)
              && (belongs h.ws users c && (voice_topic channel.id =? t))))
  unfolding gain_each
  subscribes-gain_each h channel [] = ground arith
  subscribes-gain_each h channel (u ∷ us) =
      let h' = gain_one h channel u in
      ground (
        arith,
        subscribes-gain_each h' channel us,
        belongs_same h'.ws h.ws us c (connections-gain_one h channel u),
        subscribes-gain_one h channel u,
      )

connections-lose_each :
    (h : Hub) (server_id channel_id : ℕ) (users : List ℕ)
    → (lose_each h server_id channel_id users).0.ws.connections ≡ h.ws.connections
unfolding lose_each
connections-lose_each h s ch [] = refl
connections-lose_each h s ch (u ∷ us) =
    connections-lose_each (unsubscribe_user_from_channel h u ch) s ch us
    ∙ connections-leave_channel h u ch

-- After a delta is applied, the connections of the users who lost the channel have left its topics, and
-- those of the users who gained a voice channel have joined its voice topic; nothing else changes.
pub apply_channel_visibility_delta-subscribes :
    (h : Hub) (channel : ChannelRow) (delta : ChannelVisibilityDelta) (server_id : ℕ)
    → channel.server_id ≡ some server_id
    → (h' : Hub) × (sent : List Publication) × (apply_channel_visibility_delta h channel delta
        ≡ ok (h', sent))
      × ((c : ℕ) (t : String)
          → subscribes h'.ws c t ≡ (
              (subscribes h.ws c t
                && not (belongs h.ws delta.lost c && contains t (all_channel_topics channel.id)))
              || ((channel.channel_type == channel_type_server_voice)
                  && (belongs h.ws delta.gained c && (voice_topic channel.id =? t)))))
unfolding apply_channel_visibility_delta
apply_channel_visibility_delta-subscribes h channel delta s e =
    let (h_lost, deletes) = lose_each h s channel.id delta.lost in
    let (h_gained, creates) = gain_each h_lost channel delta.gained in
    (
      h_gained,
      deletes ++ creates ++ publish_channel_visibility_update s channel.id delta,
      rw e refl,
      λ c t. ground (
        arith,
        subscribes-gain_each c t h_lost channel delta.gained,
        subscribes-lose_each c t h s channel.id delta.lost,
        belongs_same h_lost.ws h.ws delta.gained c
            (connections-lose_each h s channel.id delta.lost),
      ),
    )

reconcile_of :
    (cache : PermissionCache) (h : Hub) (channel : ChannelRow) (before : List ℕ) (s : ℕ)
    (out : Hub × List Publication)
    → channel.server_id ≡ some s
    → apply_channel_visibility_delta h channel
        (diff_channel_visibility before (collect_online_channel_viewers cache s channel.id))
      ≡ ok out
    → reconcile_single_channel_visibility cache h channel before
      ≡ ok (diff_channel_visibility before (collect_online_channel_viewers cache s channel.id), out)
unfolding reconcile_single_channel_visibility
reconcile_of cache h channel before s out e applied =
    let delta : ℕ → ChannelVisibilityDelta =
      λ id. diff_channel_visibility before (collect_online_channel_viewers cache id channel.id) in
    ap
      (λ o. ok_or (AppError.not_found "channel") o >>= λ id.
        (apply_channel_visibility_delta h channel (delta id) >>= λ a. ok (delta id, a)))
      e
    ∙ ap (λ r. r >>= λ a. ok (delta s, a)) applied

belongs-owner :
    (ws : ConnectionManager)
    → IsOwned ws
    → (user_id c : ℕ) → contains c (get_user_conn_ids ws user_id) ≡ true
    → (users : List ℕ) → belongs ws users c ≡ contains user_id users
unfolding get_user_conn_ids
belongs-owner ws owned u c mine [] = refl
belongs-owner ws owned u c mine (v ∷ users) =
    ground (arith, belongs-owner ws owned u c mine users, owned c u, owned c v, mine)

-- Where users and connections agree, a user who saw a channel of a server and sees it no more by
-- the permission cache is, after `reconcile_single_channel_visibility`, with none of their
-- connections in any of the channel's four topics; the call succeeds.
pub reconcile_single-lost :
    (cache : PermissionCache) (h : Hub) (channel : ChannelRow) (before_viewers : List ℕ)
    (server_id user_id conn_id : ℕ)
    → IsOwned h.ws
    → channel.server_id ≡ some server_id
    → contains user_id before_viewers ≡ true
    → contains user_id (collect_online_channel_viewers cache server_id channel.id) ≡ false
    → contains conn_id (get_user_conn_ids h.ws user_id) ≡ true
    → (delta : ChannelVisibilityDelta) × (h' : Hub) × (sent : List Publication)
      × (reconcile_single_channel_visibility cache h channel before_viewers
          ≡ ok (delta, (h', sent)))
      × ((t : String)
          → contains t (all_channel_topics channel.id) ≡ true
          → subscribes h'.ws conn_id t ≡ false)
reconcile_single-lost cache h channel before s u c owned e was now mine =
    let after = collect_online_channel_viewers cache s channel.id in
    let delta = diff_channel_visibility before after in
    let (h', sent, applied, formula) =
      apply_channel_visibility_delta-subscribes h channel delta s e in
    (
      delta,
      h',
      sent,
      reconcile_of cache h channel before s (h', sent) e applied,
      λ t topic. ground (
        arith,
        formula c t,
        topic,
        was,
        now,
        belongs-owner h.ws owned u c mine delta.lost,
        belongs-owner h.ws owned u c mine delta.gained,
        lost_iff before after u,
        gained_iff before after u,
      ),
    )
