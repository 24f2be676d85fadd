-- ===== src/Federation/Ownership/Passing.antt =====
-- The kinds that pass between backends (server-rs/src/federation/ownership.rs), one by one.
use verdant_backend.Prelude.{◌≡◌, true}
use verdant_backend.Federation.Kinds.{FederationEventKind}
use verdant_backend.Federation.Ownership.{runtime_propagation_allowed}

pub data Passes : FederationEventKind → Type 0 where
  invite_preview : Passes FederationEventKind.invite_preview
  principal_upsert : Passes FederationEventKind.principal_upsert
  membership_join : Passes FederationEventKind.membership_join
  membership_leave : Passes FederationEventKind.membership_leave
  membership_remove : Passes FederationEventKind.membership_remove
  membership_ban : Passes FederationEventKind.membership_ban
  membership_unban : Passes FederationEventKind.membership_unban

pub allowed-Passes :
    (kind : FederationEventKind) → runtime_propagation_allowed kind ≡ true → Passes kind
unfolding runtime_propagation_allowed
allowed-Passes FederationEventKind.invite_preview h = Passes.invite_preview
allowed-Passes FederationEventKind.principal_upsert h = Passes.principal_upsert
allowed-Passes FederationEventKind.membership_join h = Passes.membership_join
allowed-Passes FederationEventKind.membership_leave h = Passes.membership_leave
allowed-Passes FederationEventKind.membership_remove h = Passes.membership_remove
allowed-Passes FederationEventKind.membership_ban h = Passes.membership_ban
allowed-Passes FederationEventKind.membership_unban h = Passes.membership_unban
allowed-Passes FederationEventKind.role_create h = cc
allowed-Passes FederationEventKind.role_update h = cc
allowed-Passes FederationEventKind.role_delete h = cc
allowed-Passes FederationEventKind.role_reorder h = cc
allowed-Passes FederationEventKind.category_create h = cc
allowed-Passes FederationEventKind.category_update h = cc
allowed-Passes FederationEventKind.category_delete h = cc
allowed-Passes FederationEventKind.channel_create h = cc
allowed-Passes FederationEventKind.channel_update h = cc
allowed-Passes FederationEventKind.channel_delete h = cc
allowed-Passes FederationEventKind.channel_reorder h = cc
allowed-Passes FederationEventKind.channel_override_set h = cc
allowed-Passes FederationEventKind.channel_override_delete h = cc
allowed-Passes FederationEventKind.member_role_assign h = cc
allowed-Passes FederationEventKind.member_role_remove h = cc
allowed-Passes FederationEventKind.emoji_rename h = cc
allowed-Passes FederationEventKind.emoji_delete h = cc
allowed-Passes FederationEventKind.message_create h = cc
allowed-Passes FederationEventKind.message_update h = cc
allowed-Passes FederationEventKind.message_delete h = cc
allowed-Passes FederationEventKind.message_pin h = cc
allowed-Passes FederationEventKind.message_unpin h = cc
allowed-Passes FederationEventKind.reaction_add h = cc
allowed-Passes FederationEventKind.reaction_remove h = cc
allowed-Passes FederationEventKind.relationship_request h = cc
allowed-Passes FederationEventKind.relationship_accept h = cc
allowed-Passes FederationEventKind.relationship_remove h = cc
allowed-Passes FederationEventKind.relationship_block h = cc
allowed-Passes FederationEventKind.presence_update h = cc
allowed-Passes FederationEventKind.typing_start h = cc
allowed-Passes FederationEventKind.read_state_update h = cc
allowed-Passes FederationEventKind.dm_create h = cc
allowed-Passes FederationEventKind.dm_group_create h = cc
