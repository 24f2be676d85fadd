-- ===== src/Federation/Runtime/Principals.antt =====
-- For whom the commands of server-rs/src/federation/runtime.rs act.
use verdant_backend.Prelude.{
  ℕ, ◌≡◌, refl, ap, ◌∙◌, not, ◌&&◌, List, Option, none, some, nat_eq, list_eq,
}
use verdant_backend.Prelude.Result.{Result, ok, err, bind_ok, ensure_ok, ok_same}
use verdant_backend.Federation.Interfaces.{Json, Urls}
use verdant_backend.Federation.Identity.{
  RemotePrincipalMetadata, RemotePrincipalProjectionError, new_metadata, is_some,
}
use verdant_backend.Federation.Protocol.{ParsedFederationEnvelope}
use verdant_backend.Federation.Runtime.{
  FederationRuntimeCommand, FederationRuntimeError, MembershipModerationOp, non_empty, optional_str,
  required_str, required_local_id, remote_principal_command, membership_join_command,
  membership_leave_command, membership_moderation_command, moderation, hash_or,
}

-- The principal that a command acts for: its home and its id there.
abbrev pub principal : FederationRuntimeCommand → Option (List ℕ × List ℕ)
principal FederationRuntimeCommand.audit_only = none
principal (FederationRuntimeCommand.upsert_remote_principal home user _ _ _) = some (home, user)
principal (FederationRuntimeCommand.membership_join home user _ _ _) = some (home, user)
principal (FederationRuntimeCommand.membership_leave home user _) = some (home, user)
principal (FederationRuntimeCommand.membership_remove home user _ _ _) = some (home, user)
principal (FederationRuntimeCommand.membership_ban home user _ _ _) = some (home, user)
principal (FederationRuntimeCommand.membership_unban home user _ _) = some (home, user)

module _ (j : Json) (u : Urls) (code_hash : List ℕ → List ℕ) where
  upserted :
      (made : Result RemotePrincipalMetadata RemotePrincipalProjectionError)
      (envelope : ParsedFederationEnvelope j) (user : List ℕ) (command : FederationRuntimeCommand)
      → (elim made [
        | err _ ↦ err FederationRuntimeError.invalid_payload
        | ok metadata ↦ ok (
            FederationRuntimeCommand.upsert_remote_principal envelope.source_peer_id user
              metadata.username metadata.display_name metadata.avatar_url)
      ])
        ≡ ok command
      → principal command ≡ some (envelope.source_peer_id, user)
  upserted (ok metadata) envelope user command h = ap principal (ok_same h refl)
  upserted (err e) envelope user command h = cc

  moderation-principal :
      (op : MembershipModerationOp) (home user : List ℕ) (server target : ℕ)
      (reason : Option (List ℕ))
      → principal (moderation j op home user server target reason) ≡ some (home, user)
  moderation-principal MembershipModerationOp.remove home user server target reason = refl
  moderation-principal MembershipModerationOp.ban home user server target reason = refl
  moderation-principal MembershipModerationOp.unban home user server target reason = refl

  -- A command of these kinds is for the principal that the payload names, at the envelope's source.
  abbrev pub Named : ParsedFederationEnvelope j → FederationRuntimeCommand → Type 0
  Named envelope command =
      (user : List ℕ) × (required_str j envelope.payload "remoteUserId" ≡ ok user)
      × (principal command ≡ some (envelope.source_peer_id, user))

  pub remote_principal_command-Named :
      (envelope : ParsedFederationEnvelope j) (command : FederationRuntimeCommand)
      → remote_principal_command j u envelope ≡ ok command
      → Named envelope command
  unfolding remote_principal_command
  remote_principal_command-Named envelope command h =
      let (user, named, h1) = bind_ok (required_str j envelope.payload "remoteUserId") h in
      (
        user,
        named,
        upserted
            (new_metadata u (optional_str j envelope.payload "username")
              (optional_str j envelope.payload "displayName")
              (optional_str j envelope.payload "avatarUrl"))
            envelope user command h1,
      )

  pub membership_join_command-Named :
      (envelope : ParsedFederationEnvelope j) (command : FederationRuntimeCommand)
      → membership_join_command j code_hash envelope ≡ ok command
      → Named envelope command
  unfolding membership_join_command
  membership_join_command-Named envelope command h =
      let (user, named, h1) = bind_ok (required_str j envelope.payload "remoteUserId") h in
      let (server, _, h2) = bind_ok (required_local_id j envelope.payload "serverId") h1 in
      let invite_code : Option (List ℕ) =
        non_empty (optional_str j envelope.payload "inviteCode") in
      let invite_code_hash : Option (List ℕ) =
        hash_or j code_hash (non_empty (optional_str j envelope.payload "inviteCodeHash"))
          invite_code in
      let (_, h3) =
        ensure_ok FederationRuntimeError.invalid_payload
          (not (not (is_some invite_code) && not (is_some invite_code_hash))) h2 in
      (user, named, ap principal (ok_same h3 refl))

  pub membership_leave_command-Named :
      (envelope : ParsedFederationEnvelope j) (command : FederationRuntimeCommand)
      → membership_leave_command j envelope ≡ ok command
      → Named envelope command
  unfolding membership_leave_command
  membership_leave_command-Named envelope command h =
      let (user, named, h1) = bind_ok (required_str j envelope.payload "remoteUserId") h in
      let (server, _, h2) = bind_ok (required_local_id j envelope.payload "serverId") h1 in
      (user, named, ap principal (ok_same h2 refl))

  pub membership_moderation_command-Named :
      (op : MembershipModerationOp) (envelope : ParsedFederationEnvelope j)
      (command : FederationRuntimeCommand)
      → membership_moderation_command j envelope op ≡ ok command
      → Named envelope command
  unfolding membership_moderation_command
  membership_moderation_command-Named op envelope command h =
      let (user, named, h1) = bind_ok (required_str j envelope.payload "remoteUserId") h in
      let (server, _, h2) = bind_ok (required_local_id j envelope.payload "serverId") h1 in
      let (target, _, h3) = bind_ok (required_local_id j envelope.payload "targetUserId") h2 in
      let reason : Option (List ℕ) = non_empty (optional_str j envelope.payload "reason") in
      (
        user,
        named,
        ap principal (ok_same h3 refl)
            ∙ moderation-principal op envelope.source_peer_id user server target reason,
      )
