-- ===== src/ChannelVisibility.antt =====
-- Who sees a channel, and what a change of it does to the subscriptions
-- (server-rs/src/services/channel_visibility.rs).
pub mod Diff
pub mod Losing
mod Examples
use Prim.Native.String.{String}
use verdant_backend.Prelude.{
  ℕ, nat_eq, Bool, false, true, List, [], ◌∷◌, ◌++◌, Option, ◌==◌, ◌&&◌, if◌then◌else◌,
}
use verdant_backend.Prelude.HashSet.{contains, is_empty}
use verdant_backend.AppError.{AppError, AppResult, ok, err, ok_or, ◌>>=◌}
use verdant_backend.Permissions.Types.{PermissionCache}
use verdant_backend.Permissions.Search.{sort_by_key}
use verdant_backend.Permissions.Viewers.{collect_online_channel_viewers}
use verdant_backend.Websocket.Topics.{
  Hub, user_topic, channel_live_topic, voice_topic, subscribe_user, unsubscribe_user_from_channel,
}

pub record ChannelVisibilityDelta : Type 0 where
  pub gained : List ℕ
  pub lost : List ℕ

-- A row of the channels; a time is its number.
pub record ChannelRow : Type 0 where
  pub id : ℕ
  pub channel_type : ℕ
  pub server_id : Option ℕ
  pub name : Option String
  pub topic : Option String
  pub position : ℕ
  pub category_id : Option ℕ
  pub read_only : Bool
  pub slowmode_seconds : ℕ
  pub created_at : ℕ

abbrev pub channel_type_server_voice : ℕ
channel_type_server_voice = 3

-- `HashSet::difference`.
unfoldable pub difference : List ℕ → List ℕ → List ℕ
difference [] ys = []
difference (x ∷ xs) ys = let rest = difference xs ys in if contains x ys then rest else x ∷ rest

unfoldable pub diff_channel_visibility : List ℕ → List ℕ → ChannelVisibilityDelta
unfolding difference sort_by_key
diff_channel_visibility before after = record {
  gained = sort_by_key (λ x. x) (difference after before);
  lost = sort_by_key (λ x. x) (difference before after);
}

-- An event on its topic; the payload is built from these values.
pub data Publication : Type 0 where
  channel_create : (topic : String) → ChannelRow → Publication
  channel_delete : (topic : String) → (channel_id server_id : ℕ) → Publication
  visibility_update :
      (topic : String) → (server_id channel_id : ℕ) → (gained lost : List ℕ) → Publication

abbrev pub visibility_update_topic : ℕ → String
visibility_update_topic channel_id = channel_live_topic channel_id

abbrev pub publish_channel_create_to_user : ℕ → ChannelRow → Publication
publish_channel_create_to_user user_id channel = channel_create (user_topic user_id) channel

abbrev pub publish_channel_delete_to_user : ℕ → ℕ → ℕ → Publication
publish_channel_delete_to_user user_id channel_id server_id =
    channel_delete (user_topic user_id) channel_id server_id

abbrev pub publish_channel_visibility_update : ℕ → ℕ → ChannelVisibilityDelta → List Publication
publish_channel_visibility_update server_id channel_id delta =
    if is_empty delta.gained && is_empty delta.lost
    then []
    else visibility_update (visibility_update_topic channel_id) server_id channel_id delta.gained
        delta.lost
      ∷ []

-- The loop over the users that see the channel no more.
unfoldable pub lose_each : Hub → ℕ → ℕ → List ℕ → Hub × List Publication
lose_each h server_id channel_id [] = (h, [])
lose_each h server_id channel_id (user_id ∷ rest) =
    let (h', sent) =
      lose_each (unsubscribe_user_from_channel h user_id channel_id) server_id channel_id rest in
    (h', publish_channel_delete_to_user user_id channel_id server_id ∷ sent)

-- A user that sees the channel now; a voice channel's topic is subscribed to at once.
unfoldable pub gain_one : Hub → ChannelRow → ℕ → Hub
gain_one h channel user_id =
    if channel.channel_type == channel_type_server_voice
    then subscribe_user h user_id (voice_topic channel.id ∷ [])
    else h

unfoldable pub gain_each : Hub → ChannelRow → List ℕ → Hub × List Publication
unfolding gain_one
gain_each h channel [] = (h, [])
gain_each h channel (user_id ∷ rest) =
    let (h', sent) = gain_each (gain_one h channel user_id) channel rest in
    (h', publish_channel_create_to_user user_id channel ∷ sent)

unfoldable pub apply_channel_visibility_delta :
    Hub → ChannelRow → ChannelVisibilityDelta → AppResult (Hub × List Publication)
unfolding lose_each gain_each
apply_channel_visibility_delta h channel delta = do
  server_id ← ok_or (AppError.not_found "channel") channel.server_id
  let (h_lost, deletes) = lose_each h server_id channel.id delta.lost
  let (h_gained, creates) = gain_each h_lost channel delta.gained
  ok (h_gained, deletes ++ creates ++ publish_channel_visibility_update server_id channel.id delta)

unfoldable pub reconcile_single_channel_visibility :
    PermissionCache
    → Hub
    → ChannelRow
    → List ℕ
    → AppResult (ChannelVisibilityDelta × (Hub × List Publication))
unfolding apply_channel_visibility_delta diff_channel_visibility
reconcile_single_channel_visibility c h channel before_viewers = do
  server_id ← ok_or (AppError.not_found "channel") channel.server_id
  let delta =
      diff_channel_visibility before_viewers (collect_online_channel_viewers c server_id channel.id)
  applied ← apply_channel_visibility_delta h channel delta
  ok (delta, applied)
