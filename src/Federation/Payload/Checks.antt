-- ===== src/Federation/Payload/Checks.antt =====
-- The checks of an event's payload, by its kind: the match of `validate_payload`
-- (server-rs/src/federation/protocol.rs).
use verdant_backend.Prelude.{Bool, true, ◌&&◌, list_eq, nat_eq, ◌=?◌}
use verdant_backend.Prelude.Ascii.{ascii}
use verdant_backend.Federation.Kinds.{FederationEventKind}
use verdant_backend.Federation.Interfaces.{Json, Urls}
use verdant_backend.Federation.Payload.{
  str_is, is_presence, required_payload_id, optional_payload_id, required_payload_id_array,
  channel_reorder_items, role_reorder_items, required_content, optional_short_string,
  optional_short_nonempty_string, optional_bool, optional_i32, optional_integer_string,
  optional_color_string, optional_url_string,
}

module _ (j : Json) (u : Urls) where
  unfoldable pub checks_pass : FederationEventKind → j.Value → Bool
  checks_pass FederationEventKind.invite_preview payload = true
  checks_pass FederationEventKind.principal_upsert payload =
      required_payload_id j payload "remoteUserId"
      && optional_short_string j payload "username" 120
      && optional_short_string j payload "displayName" 120
      && optional_url_string j u payload "avatarUrl"
  checks_pass FederationEventKind.membership_join payload =
      required_payload_id j payload "serverId"
      && required_payload_id j payload "remoteUserId"
      && optional_short_string j payload "inviteCode" 256
      && optional_short_string j payload "inviteCodeHash" 256
  checks_pass FederationEventKind.membership_leave payload =
      required_payload_id j payload "serverId"
      && required_payload_id j payload "remoteUserId"
      && optional_short_string j payload "reason" 128
  checks_pass FederationEventKind.membership_remove payload =
      required_payload_id j payload "serverId"
      && required_payload_id j payload "remoteUserId"
      && required_payload_id j payload "targetUserId"
      && optional_short_string j payload "reason" 512
  checks_pass FederationEventKind.membership_ban payload =
      required_payload_id j payload "serverId"
      && required_payload_id j payload "remoteUserId"
      && required_payload_id j payload "targetUserId"
      && optional_short_string j payload "reason" 512
  checks_pass FederationEventKind.membership_unban payload =
      required_payload_id j payload "serverId"
      && required_payload_id j payload "remoteUserId"
      && required_payload_id j payload "targetUserId"
  checks_pass FederationEventKind.role_create payload =
      required_payload_id j payload "serverId"
      && required_payload_id j payload "remoteUserId"
      && required_payload_id j payload "remoteRoleId"
      && required_content j payload "name" 100
      && optional_color_string j payload "color"
      && optional_integer_string j payload "permissions"
      && optional_bool j payload "colorOnly"
      && optional_bool j payload "showAsSection"
      && optional_i32 j payload "colorPriority" 0 10000
  checks_pass FederationEventKind.role_update payload =
      required_payload_id j payload "serverId"
      && required_payload_id j payload "remoteUserId"
      && required_payload_id j payload "remoteRoleId"
      && optional_short_nonempty_string j payload "name" 100
      && optional_color_string j payload "color"
      && optional_integer_string j payload "permissions"
      && optional_i32 j payload "position" 0 2147483647
      && optional_bool j payload "showAsSection"
      && optional_i32 j payload "colorPriority" 0 10000
  checks_pass FederationEventKind.role_delete payload =
      required_payload_id j payload "serverId"
      && required_payload_id j payload "remoteUserId"
      && required_payload_id j payload "remoteRoleId"
  checks_pass FederationEventKind.role_reorder payload =
      required_payload_id j payload "serverId"
      && required_payload_id j payload "remoteUserId"
      && role_reorder_items j payload
  checks_pass FederationEventKind.category_create payload =
      required_payload_id j payload "serverId"
      && required_payload_id j payload "remoteUserId"
      && required_payload_id j payload "remoteCategoryId"
      && required_content j payload "name" 100
      && optional_short_string j payload "emoji" 32
  checks_pass FederationEventKind.category_update payload =
      required_payload_id j payload "serverId"
      && required_payload_id j payload "remoteUserId"
      && required_payload_id j payload "remoteCategoryId"
      && optional_short_nonempty_string j payload "name" 100
      && optional_i32 j payload "position" 0 2147483647
      && optional_short_string j payload "emoji" 32
  checks_pass FederationEventKind.category_delete payload =
      required_payload_id j payload "serverId"
      && required_payload_id j payload "remoteUserId"
      && required_payload_id j payload "remoteCategoryId"
  checks_pass FederationEventKind.channel_create payload =
      required_payload_id j payload "serverId"
      && required_payload_id j payload "remoteUserId"
      && required_payload_id j payload "remoteChannelId"
      && required_content j payload "name" 100
      && optional_short_string j payload "topic" 1024
      && str_is j payload "type" (λ value. value =? ascii "text")
      && optional_payload_id j payload "remoteCategoryId"
      && optional_bool j payload "readOnly"
      && optional_i32 j payload "slowmodeSeconds" 0 21600
  checks_pass FederationEventKind.channel_update payload =
      required_payload_id j payload "serverId"
      && required_payload_id j payload "remoteUserId"
      && required_payload_id j payload "remoteChannelId"
      && optional_short_nonempty_string j payload "name" 100
      && optional_short_string j payload "topic" 1024
      && optional_i32 j payload "position" 0 2147483647
      && optional_payload_id j payload "remoteCategoryId"
      && optional_bool j payload "readOnly"
      && optional_i32 j payload "slowmodeSeconds" 0 21600
  checks_pass FederationEventKind.channel_delete payload =
      required_payload_id j payload "serverId"
      && required_payload_id j payload "remoteUserId"
      && required_payload_id j payload "remoteChannelId"
  checks_pass FederationEventKind.channel_reorder payload =
      required_payload_id j payload "serverId"
      && required_payload_id j payload "remoteUserId"
      && channel_reorder_items j payload
  checks_pass FederationEventKind.channel_override_set payload =
      required_payload_id j payload "serverId"
      && required_payload_id j payload "remoteUserId"
      && required_payload_id j payload "remoteChannelId"
      && required_payload_id j payload "roleId"
      && optional_integer_string j payload "allow"
      && optional_integer_string j payload "deny"
  checks_pass FederationEventKind.channel_override_delete payload =
      required_payload_id j payload "serverId"
      && required_payload_id j payload "remoteUserId"
      && required_payload_id j payload "remoteChannelId"
      && required_payload_id j payload "roleId"
  checks_pass FederationEventKind.member_role_assign payload =
      required_payload_id j payload "serverId"
      && required_payload_id j payload "remoteUserId"
      && required_payload_id j payload "targetUserId"
      && required_payload_id j payload "roleId"
  checks_pass FederationEventKind.member_role_remove payload =
      required_payload_id j payload "serverId"
      && required_payload_id j payload "remoteUserId"
      && required_payload_id j payload "targetUserId"
      && required_payload_id j payload "roleId"
  checks_pass FederationEventKind.emoji_rename payload =
      required_payload_id j payload "serverId"
      && required_payload_id j payload "remoteUserId"
      && required_payload_id j payload "emojiId"
      && required_content j payload "name" 32
  checks_pass FederationEventKind.emoji_delete payload =
      required_payload_id j payload "serverId"
      && required_payload_id j payload "remoteUserId"
      && required_payload_id j payload "emojiId"
  checks_pass FederationEventKind.message_create payload =
      optional_payload_id j payload "serverId"
      && required_payload_id j payload "channelId"
      && required_payload_id j payload "remoteMessageId"
      && required_payload_id j payload "remoteUserId"
      && required_content j payload "content" 4000
      && optional_short_string j payload "nonce" 128
      && optional_payload_id j payload "replyToRemoteMessageId"
  checks_pass FederationEventKind.message_update payload =
      required_payload_id j payload "channelId"
      && required_payload_id j payload "remoteMessageId"
      && required_payload_id j payload "remoteUserId"
      && required_content j payload "content" 4000
  checks_pass FederationEventKind.message_delete payload =
      required_payload_id j payload "channelId"
      && required_payload_id j payload "remoteMessageId"
      && required_payload_id j payload "remoteUserId"
  checks_pass FederationEventKind.message_pin payload =
      required_payload_id j payload "channelId"
      && required_payload_id j payload "remoteMessageId"
      && required_payload_id j payload "remoteUserId"
  checks_pass FederationEventKind.message_unpin payload =
      required_payload_id j payload "channelId"
      && required_payload_id j payload "remoteMessageId"
      && required_payload_id j payload "remoteUserId"
  checks_pass FederationEventKind.reaction_add payload =
      required_payload_id j payload "channelId"
      && required_payload_id j payload "remoteMessageId"
      && required_payload_id j payload "remoteUserId"
      && required_content j payload "emoji" 64
      && optional_payload_id j payload "emojiId"
  checks_pass FederationEventKind.reaction_remove payload =
      required_payload_id j payload "channelId"
      && required_payload_id j payload "remoteMessageId"
      && required_payload_id j payload "remoteUserId"
      && required_content j payload "emoji" 64
      && optional_payload_id j payload "emojiId"
  checks_pass FederationEventKind.relationship_request payload =
      required_payload_id j payload "remoteUserId" && required_payload_id j payload "localUserId"
  checks_pass FederationEventKind.relationship_accept payload =
      required_payload_id j payload "remoteUserId" && required_payload_id j payload "localUserId"
  checks_pass FederationEventKind.relationship_remove payload =
      required_payload_id j payload "remoteUserId" && required_payload_id j payload "localUserId"
  checks_pass FederationEventKind.relationship_block payload =
      required_payload_id j payload "remoteUserId" && required_payload_id j payload "localUserId"
  checks_pass FederationEventKind.presence_update payload =
      required_payload_id j payload "remoteUserId" && str_is j payload "status" is_presence
  checks_pass FederationEventKind.typing_start payload =
      required_payload_id j payload "channelId" && required_payload_id j payload "remoteUserId"
  checks_pass FederationEventKind.read_state_update payload =
      required_payload_id j payload "channelId"
      && required_payload_id j payload "remoteMessageId"
      && required_payload_id j payload "remoteUserId"
  checks_pass FederationEventKind.dm_create payload =
      required_payload_id j payload "dmId"
      && required_payload_id j payload "remoteUserId"
      && required_payload_id j payload "localUserId"
  checks_pass FederationEventKind.dm_group_create payload =
      required_payload_id j payload "dmId"
      && required_payload_id j payload "remoteUserId"
      && required_payload_id_array j payload "localUserIds" 2 9
      && optional_short_string j payload "name" 120
