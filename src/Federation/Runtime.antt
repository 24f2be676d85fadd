-- ===== src/Federation/Runtime.antt =====
-- What an accepted event makes the backend do (server-rs/src/federation/runtime.rs).
pub mod Principals
pub mod Supported
use Prim.Native.String.{String}
use verdant_backend.Prelude.{
  ℕ, Bool, true, false, not, ◌&&◌, ◌||◌, List, Option, none, some, nat_eq, if◌then◌else◌,
}
use verdant_backend.Prelude.HashSet.{is_empty}
use verdant_backend.Prelude.OptionMonad.{and_then}
use verdant_backend.Prelude.Result.{Result, ok, err, ◌>>=◌, ◌>>◌, ok_or, ensure}
use verdant_backend.Federation.Decimal.{ℤ, pos, negsuc, parse_i64}
use verdant_backend.Federation.Auth.{positive}
use verdant_backend.Federation.Interfaces.{Json, Urls}
use verdant_backend.Federation.Identity.{new_metadata, is_some}
use verdant_backend.Federation.Kinds.{FederationEventKind}
use verdant_backend.Federation.Ownership.{runtime_propagation_allowed}
use verdant_backend.Federation.Payload.{field}
use verdant_backend.Federation.Protocol.{ParsedFederationEnvelope}

-- Local ids are those of `parse::<i64>` above zero.
pub data FederationRuntimeCommand : Type 0 where
  audit_only : FederationRuntimeCommand
  upsert_remote_principal :
      (home_peer_id remote_user_id : List ℕ) (username display_name avatar_url : Option (List ℕ))
      → FederationRuntimeCommand
  membership_join :
      (home_peer_id remote_user_id : List ℕ) (server_id : ℕ)
      (invite_code invite_code_hash : Option (List ℕ))
      → FederationRuntimeCommand
  membership_leave :
      (home_peer_id remote_user_id : List ℕ) (server_id : ℕ) → FederationRuntimeCommand
  membership_remove membership_ban :
      (home_peer_id remote_user_id : List ℕ) (server_id target_user_id : ℕ)
      (reason : Option (List ℕ))
      → FederationRuntimeCommand
  membership_unban :
      (home_peer_id remote_user_id : List ℕ) (server_id target_user_id : ℕ)
      → FederationRuntimeCommand

pub data FederationRuntimeError : Type 0 where
  unsupported_event_kind invalid_payload : FederationRuntimeError

pub data MembershipModerationOp : Type 0 where
  remove ban unban : MembershipModerationOp

-- `o.filter(|value| !value.is_empty())`.
abbrev pub non_empty : Option (List ℕ) → Option (List ℕ)
non_empty none = none
non_empty (some value) = if is_empty value then none else some value

module _ (j : Json) where
  unfoldable pub optional_str : j.Value → String → Option (List ℕ)
  optional_str payload key = and_then (field j payload key) j.as_str

  unfoldable pub required_str : j.Value → String → Result (List ℕ) FederationRuntimeError
  unfolding optional_str
  required_str payload key =
      ok_or FederationRuntimeError.invalid_payload (non_empty (optional_str payload key))

  unfoldable pub required_local_id : j.Value → String → Result ℕ FederationRuntimeError
  unfolding required_str
  required_local_id payload key = do
    value ← required_str payload key
    ok_or FederationRuntimeError.invalid_payload (and_then (parse_i64 value) positive)

  unfoldable pub remote_principal_command :
      Urls → ParsedFederationEnvelope j → Result FederationRuntimeCommand FederationRuntimeError
  unfolding required_str
  remote_principal_command u envelope = do
    remote_user_id ← required_str envelope.payload "remoteUserId"
    elim (new_metadata u (optional_str envelope.payload "username")
        (optional_str envelope.payload "displayName") (optional_str envelope.payload "avatarUrl")) [
          | err _ ↦ err FederationRuntimeError.invalid_payload
          | ok metadata ↦ ok (
              FederationRuntimeCommand.upsert_remote_principal envelope.source_peer_id
                remote_user_id metadata.username metadata.display_name metadata.avatar_url)
        ]

  -- `code_hash` is that of the invites.
  abbrev pub hash_or : (List ℕ → List ℕ) → Option (List ℕ) → Option (List ℕ) → Option (List ℕ)
  hash_or code_hash (some given) invite_code = some given
  hash_or code_hash none none = none
  hash_or code_hash none (some code) = some (code_hash code)

  unfoldable pub membership_join_command :
      (List ℕ → List ℕ)
      → ParsedFederationEnvelope j
      → Result FederationRuntimeCommand FederationRuntimeError
  unfolding required_local_id
  membership_join_command code_hash envelope = do
    remote_user_id ← required_str envelope.payload "remoteUserId"
    server_id ← required_local_id envelope.payload "serverId"
    let invite_code : Option (List ℕ) = non_empty (optional_str envelope.payload "inviteCode")
    let invite_code_hash : Option (List ℕ) =
        hash_or code_hash (non_empty (optional_str envelope.payload "inviteCodeHash")) invite_code
    ensure FederationRuntimeError.invalid_payload
        (not (not (is_some invite_code) && not (is_some invite_code_hash)))
    ok (
        FederationRuntimeCommand.membership_join envelope.source_peer_id remote_user_id server_id
          invite_code invite_code_hash)

  unfoldable pub membership_leave_command :
      ParsedFederationEnvelope j → Result FederationRuntimeCommand FederationRuntimeError
  unfolding required_local_id
  membership_leave_command envelope = do
    remote_user_id ← required_str envelope.payload "remoteUserId"
    server_id ← required_local_id envelope.payload "serverId"
    ok (FederationRuntimeCommand.membership_leave envelope.source_peer_id remote_user_id server_id)

  abbrev pub moderation :
      MembershipModerationOp → List ℕ → List ℕ → ℕ → ℕ → Option (List ℕ) → FederationRuntimeCommand
  moderation MembershipModerationOp.remove home user server target reason =
      FederationRuntimeCommand.membership_remove home user server target reason
  moderation MembershipModerationOp.ban home user server target reason =
      FederationRuntimeCommand.membership_ban home user server target reason
  moderation MembershipModerationOp.unban home user server target reason =
      FederationRuntimeCommand.membership_unban home user server target

  unfoldable pub membership_moderation_command :
      ParsedFederationEnvelope j
      → MembershipModerationOp
      → Result FederationRuntimeCommand FederationRuntimeError
  unfolding required_local_id
  membership_moderation_command envelope op = do
    remote_user_id ← required_str envelope.payload "remoteUserId"
    server_id ← required_local_id envelope.payload "serverId"
    target_user_id ← required_local_id envelope.payload "targetUserId"
    let reason : Option (List ℕ) = non_empty (optional_str envelope.payload "reason")
    ok (moderation op envelope.source_peer_id remote_user_id server_id target_user_id reason)

  unfoldable pub command_of_kind :
      Urls
      → (List ℕ → List ℕ)
      → FederationEventKind
      → ParsedFederationEnvelope j
      → Result FederationRuntimeCommand FederationRuntimeError
  unfolding remote_principal_command membership_join_command membership_leave_command
      membership_moderation_command
  command_of_kind u code_hash FederationEventKind.invite_preview envelope =
      ok FederationRuntimeCommand.audit_only
  command_of_kind u code_hash FederationEventKind.principal_upsert envelope =
      remote_principal_command u envelope
  command_of_kind u code_hash FederationEventKind.membership_join envelope =
      membership_join_command code_hash envelope
  command_of_kind u code_hash FederationEventKind.membership_leave envelope =
      membership_leave_command envelope
  command_of_kind u code_hash FederationEventKind.membership_remove envelope =
      membership_moderation_command envelope MembershipModerationOp.remove
  command_of_kind u code_hash FederationEventKind.membership_ban envelope =
      membership_moderation_command envelope MembershipModerationOp.ban
  command_of_kind u code_hash FederationEventKind.membership_unban envelope =
      membership_moderation_command envelope MembershipModerationOp.unban
  command_of_kind u code_hash kind envelope = err FederationRuntimeError.unsupported_event_kind

  unfoldable pub command_from_envelope :
      Urls
      → (List ℕ → List ℕ)
      → ParsedFederationEnvelope j
      → Result FederationRuntimeCommand FederationRuntimeError
  unfolding command_of_kind
  command_from_envelope u code_hash envelope =
      if not (runtime_propagation_allowed envelope.kind)
      then err FederationRuntimeError.unsupported_event_kind
      else command_of_kind u code_hash envelope.kind envelope
