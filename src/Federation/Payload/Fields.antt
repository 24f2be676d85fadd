-- ===== src/Federation/Payload/Fields.antt =====
-- The fields that an event may have, by its kind (server-rs/src/federation/protocol.rs).
use Prim.Native.String.{String}
use verdant_backend.Prelude.{List, [], ◌∷◌}
use verdant_backend.Federation.Kinds.{FederationEventKind}

unfoldable pub allowed_payload_fields : FederationEventKind → List String
allowed_payload_fields FederationEventKind.invite_preview =
    "serverId" ∷ "inviteCode" ∷ "inviteCodeHash" ∷ []
allowed_payload_fields FederationEventKind.principal_upsert =
    "remoteUserId" ∷ "username" ∷ "displayName" ∷ "avatarUrl" ∷ []
allowed_payload_fields FederationEventKind.membership_join =
    "serverId" ∷ "remoteUserId" ∷ "inviteCode" ∷ "inviteCodeHash" ∷ []
allowed_payload_fields FederationEventKind.membership_leave =
    "serverId" ∷ "remoteUserId" ∷ "reason" ∷ []
allowed_payload_fields FederationEventKind.membership_remove =
    "serverId" ∷ "remoteUserId" ∷ "targetUserId" ∷ "reason" ∷ []
allowed_payload_fields FederationEventKind.membership_ban =
    "serverId" ∷ "remoteUserId" ∷ "targetUserId" ∷ "reason" ∷ []
allowed_payload_fields FederationEventKind.membership_unban =
    "serverId" ∷ "remoteUserId" ∷ "targetUserId" ∷ []
allowed_payload_fields FederationEventKind.role_create =
    "serverId" ∷ "remoteUserId" ∷ "remoteRoleId" ∷ "name" ∷ "color" ∷ "permissions" ∷ "colorOnly"
    ∷ "showAsSection" ∷ "colorPriority" ∷ []
allowed_payload_fields FederationEventKind.role_update =
    "serverId" ∷ "remoteUserId" ∷ "remoteRoleId" ∷ "name" ∷ "color" ∷ "permissions" ∷ "position"
    ∷ "showAsSection" ∷ "colorPriority" ∷ []
allowed_payload_fields FederationEventKind.role_delete =
    "serverId" ∷ "remoteUserId" ∷ "remoteRoleId" ∷ []
allowed_payload_fields FederationEventKind.role_reorder = "serverId" ∷ "remoteUserId" ∷ "items" ∷ []
allowed_payload_fields FederationEventKind.category_create =
    "serverId" ∷ "remoteUserId" ∷ "remoteCategoryId" ∷ "name" ∷ "emoji" ∷ []
allowed_payload_fields FederationEventKind.category_update =
    "serverId" ∷ "remoteUserId" ∷ "remoteCategoryId" ∷ "name" ∷ "position" ∷ "emoji" ∷ []
allowed_payload_fields FederationEventKind.category_delete =
    "serverId" ∷ "remoteUserId" ∷ "remoteCategoryId" ∷ []
allowed_payload_fields FederationEventKind.channel_create =
    "serverId" ∷ "remoteUserId" ∷ "remoteChannelId" ∷ "name" ∷ "topic" ∷ "type" ∷ "remoteCategoryId"
    ∷ "readOnly" ∷ "slowmodeSeconds" ∷ []
allowed_payload_fields FederationEventKind.channel_update =
    "serverId" ∷ "remoteUserId" ∷ "remoteChannelId" ∷ "name" ∷ "topic" ∷ "position"
    ∷ "remoteCategoryId" ∷ "readOnly" ∷ "slowmodeSeconds" ∷ []
allowed_payload_fields FederationEventKind.channel_delete =
    "serverId" ∷ "remoteUserId" ∷ "remoteChannelId" ∷ []
allowed_payload_fields FederationEventKind.channel_reorder =
    "serverId" ∷ "remoteUserId" ∷ "topLevel" ∷ "categories" ∷ []
allowed_payload_fields FederationEventKind.channel_override_set =
    "serverId" ∷ "remoteUserId" ∷ "remoteChannelId" ∷ "roleId" ∷ "allow" ∷ "deny" ∷ []
allowed_payload_fields FederationEventKind.channel_override_delete =
    "serverId" ∷ "remoteUserId" ∷ "remoteChannelId" ∷ "roleId" ∷ []
allowed_payload_fields FederationEventKind.member_role_assign =
    "serverId" ∷ "remoteUserId" ∷ "targetUserId" ∷ "roleId" ∷ []
allowed_payload_fields FederationEventKind.member_role_remove =
    "serverId" ∷ "remoteUserId" ∷ "targetUserId" ∷ "roleId" ∷ []
allowed_payload_fields FederationEventKind.emoji_rename =
    "serverId" ∷ "remoteUserId" ∷ "emojiId" ∷ "name" ∷ []
allowed_payload_fields FederationEventKind.emoji_delete =
    "serverId" ∷ "remoteUserId" ∷ "emojiId" ∷ []
allowed_payload_fields FederationEventKind.message_create =
    "serverId" ∷ "channelId" ∷ "remoteMessageId" ∷ "remoteUserId" ∷ "content" ∷ "nonce"
    ∷ "replyToRemoteMessageId" ∷ []
allowed_payload_fields FederationEventKind.message_update =
    "channelId" ∷ "remoteMessageId" ∷ "remoteUserId" ∷ "content" ∷ []
allowed_payload_fields FederationEventKind.message_delete =
    "channelId" ∷ "remoteMessageId" ∷ "remoteUserId" ∷ []
allowed_payload_fields FederationEventKind.message_pin =
    "channelId" ∷ "remoteMessageId" ∷ "remoteUserId" ∷ []
allowed_payload_fields FederationEventKind.message_unpin =
    "channelId" ∷ "remoteMessageId" ∷ "remoteUserId" ∷ []
allowed_payload_fields FederationEventKind.reaction_add =
    "channelId" ∷ "remoteMessageId" ∷ "remoteUserId" ∷ "emoji" ∷ "emojiId" ∷ []
allowed_payload_fields FederationEventKind.reaction_remove =
    "channelId" ∷ "remoteMessageId" ∷ "remoteUserId" ∷ "emoji" ∷ "emojiId" ∷ []
allowed_payload_fields FederationEventKind.relationship_request =
    "remoteUserId" ∷ "localUserId" ∷ []
allowed_payload_fields FederationEventKind.relationship_accept = "remoteUserId" ∷ "localUserId" ∷ []
allowed_payload_fields FederationEventKind.relationship_remove = "remoteUserId" ∷ "localUserId" ∷ []
allowed_payload_fields FederationEventKind.relationship_block = "remoteUserId" ∷ "localUserId" ∷ []
allowed_payload_fields FederationEventKind.presence_update = "remoteUserId" ∷ "status" ∷ []
allowed_payload_fields FederationEventKind.typing_start = "channelId" ∷ "remoteUserId" ∷ []
allowed_payload_fields FederationEventKind.read_state_update =
    "channelId" ∷ "remoteMessageId" ∷ "remoteUserId" ∷ []
allowed_payload_fields FederationEventKind.dm_create = "dmId" ∷ "remoteUserId" ∷ "localUserId" ∷ []
allowed_payload_fields FederationEventKind.dm_group_create =
    "dmId" ∷ "remoteUserId" ∷ "localUserIds" ∷ "name" ∷ []
