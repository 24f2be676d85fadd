-- ===== src/Federation/Ownership.antt =====
-- Which events may pass between backends (server-rs/src/federation/ownership.rs).
pub mod Passing
use verdant_backend.Prelude.{Bool, true, false}
use verdant_backend.Federation.Kinds.{FederationEventKind}

pub data FederationRuntimePropagationScope : Type 0 where
  metadata_handshake membership_handshake : FederationRuntimePropagationScope
  cross_backend_runtime_persistence ephemeral_runtime_signal : FederationRuntimePropagationScope

unfoldable pub runtime_propagation_scope : FederationEventKind → FederationRuntimePropagationScope
runtime_propagation_scope FederationEventKind.invite_preview =
    FederationRuntimePropagationScope.metadata_handshake
runtime_propagation_scope FederationEventKind.principal_upsert =
    FederationRuntimePropagationScope.metadata_handshake
runtime_propagation_scope FederationEventKind.membership_join =
    FederationRuntimePropagationScope.membership_handshake
runtime_propagation_scope FederationEventKind.membership_leave =
    FederationRuntimePropagationScope.membership_handshake
runtime_propagation_scope FederationEventKind.membership_remove =
    FederationRuntimePropagationScope.membership_handshake
runtime_propagation_scope FederationEventKind.membership_ban =
    FederationRuntimePropagationScope.membership_handshake
runtime_propagation_scope FederationEventKind.membership_unban =
    FederationRuntimePropagationScope.membership_handshake
runtime_propagation_scope FederationEventKind.role_create =
    FederationRuntimePropagationScope.cross_backend_runtime_persistence
runtime_propagation_scope FederationEventKind.role_update =
    FederationRuntimePropagationScope.cross_backend_runtime_persistence
runtime_propagation_scope FederationEventKind.role_delete =
    FederationRuntimePropagationScope.cross_backend_runtime_persistence
runtime_propagation_scope FederationEventKind.role_reorder =
    FederationRuntimePropagationScope.cross_backend_runtime_persistence
runtime_propagation_scope FederationEventKind.category_create =
    FederationRuntimePropagationScope.cross_backend_runtime_persistence
runtime_propagation_scope FederationEventKind.category_update =
    FederationRuntimePropagationScope.cross_backend_runtime_persistence
runtime_propagation_scope FederationEventKind.category_delete =
    FederationRuntimePropagationScope.cross_backend_runtime_persistence
runtime_propagation_scope FederationEventKind.channel_create =
    FederationRuntimePropagationScope.cross_backend_runtime_persistence
runtime_propagation_scope FederationEventKind.channel_update =
    FederationRuntimePropagationScope.cross_backend_runtime_persistence
runtime_propagation_scope FederationEventKind.channel_delete =
    FederationRuntimePropagationScope.cross_backend_runtime_persistence
runtime_propagation_scope FederationEventKind.channel_reorder =
    FederationRuntimePropagationScope.cross_backend_runtime_persistence
runtime_propagation_scope FederationEventKind.channel_override_set =
    FederationRuntimePropagationScope.cross_backend_runtime_persistence
runtime_propagation_scope FederationEventKind.channel_override_delete =
    FederationRuntimePropagationScope.cross_backend_runtime_persistence
runtime_propagation_scope FederationEventKind.member_role_assign =
    FederationRuntimePropagationScope.cross_backend_runtime_persistence
runtime_propagation_scope FederationEventKind.member_role_remove =
    FederationRuntimePropagationScope.cross_backend_runtime_persistence
runtime_propagation_scope FederationEventKind.emoji_rename =
    FederationRuntimePropagationScope.cross_backend_runtime_persistence
runtime_propagation_scope FederationEventKind.emoji_delete =
    FederationRuntimePropagationScope.cross_backend_runtime_persistence
runtime_propagation_scope FederationEventKind.message_create =
    FederationRuntimePropagationScope.cross_backend_runtime_persistence
runtime_propagation_scope FederationEventKind.message_update =
    FederationRuntimePropagationScope.cross_backend_runtime_persistence
runtime_propagation_scope FederationEventKind.message_delete =
    FederationRuntimePropagationScope.cross_backend_runtime_persistence
runtime_propagation_scope FederationEventKind.message_pin =
    FederationRuntimePropagationScope.cross_backend_runtime_persistence
runtime_propagation_scope FederationEventKind.message_unpin =
    FederationRuntimePropagationScope.cross_backend_runtime_persistence
runtime_propagation_scope FederationEventKind.reaction_add =
    FederationRuntimePropagationScope.cross_backend_runtime_persistence
runtime_propagation_scope FederationEventKind.reaction_remove =
    FederationRuntimePropagationScope.cross_backend_runtime_persistence
runtime_propagation_scope FederationEventKind.relationship_request =
    FederationRuntimePropagationScope.cross_backend_runtime_persistence
runtime_propagation_scope FederationEventKind.relationship_accept =
    FederationRuntimePropagationScope.cross_backend_runtime_persistence
runtime_propagation_scope FederationEventKind.relationship_remove =
    FederationRuntimePropagationScope.cross_backend_runtime_persistence
runtime_propagation_scope FederationEventKind.relationship_block =
    FederationRuntimePropagationScope.cross_backend_runtime_persistence
runtime_propagation_scope FederationEventKind.presence_update =
    FederationRuntimePropagationScope.ephemeral_runtime_signal
runtime_propagation_scope FederationEventKind.typing_start =
    FederationRuntimePropagationScope.ephemeral_runtime_signal
runtime_propagation_scope FederationEventKind.read_state_update =
    FederationRuntimePropagationScope.cross_backend_runtime_persistence
runtime_propagation_scope FederationEventKind.dm_create =
    FederationRuntimePropagationScope.cross_backend_runtime_persistence
runtime_propagation_scope FederationEventKind.dm_group_create =
    FederationRuntimePropagationScope.cross_backend_runtime_persistence

abbrev scope_allowed : FederationRuntimePropagationScope → Bool
scope_allowed FederationRuntimePropagationScope.metadata_handshake = true
scope_allowed FederationRuntimePropagationScope.membership_handshake = true
scope_allowed FederationRuntimePropagationScope.cross_backend_runtime_persistence = false
scope_allowed FederationRuntimePropagationScope.ephemeral_runtime_signal = false

unfoldable pub runtime_propagation_allowed : FederationEventKind → Bool
unfolding runtime_propagation_scope
runtime_propagation_allowed kind = scope_allowed (runtime_propagation_scope kind)
