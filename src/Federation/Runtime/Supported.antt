-- ===== src/Federation/Runtime/Supported.antt =====
-- Which events have a way to be applied (server-rs/src/federation/runtime.rs).
use Prim.Native.String.{String}
use verdant_backend.Prelude.{
  ℕ, ◌≡◌, ◌≢◌, ◌↔◌, Bool, true, false, List, Option, none, some, Bool-cases, inl, inr, arith,
}
use verdant_backend.Prelude.OptionMonad.{and_then}
use verdant_backend.Prelude.Result.{Result, ok, err, ◌>>=◌, ◌>>◌, ok_or, ensure}
use verdant_backend.Federation.Interfaces.{Json, Urls}
use verdant_backend.Federation.Kinds.{FederationEventKind}
use verdant_backend.Federation.Ownership.{runtime_propagation_allowed}
use verdant_backend.Federation.Ownership.Passing.{Passes, allowed-Passes}
use verdant_backend.Federation.Decimal.{parse_i64}
use verdant_backend.Federation.Auth.{positive}
use verdant_backend.Federation.Identity.{
  RemotePrincipalMetadata, RemotePrincipalProjectionError, new_metadata,
}
use verdant_backend.Federation.Protocol.{ParsedFederationEnvelope}
use verdant_backend.Federation.Runtime.{
  FederationRuntimeCommand, FederationRuntimeError, MembershipModerationOp, non_empty, optional_str,
  required_str, required_local_id, remote_principal_command, membership_join_command,
  membership_leave_command, membership_moderation_command, command_of_kind, command_from_envelope,
}

abbrev Applies : {A : Type 0} → Result A FederationRuntimeError → Type 0
Applies r = r ≢ err FederationRuntimeError.unsupported_event_kind

ok-Applies : {A : Type 0} (a : A) → Applies (ok a)
ok-Applies a h = cc

ok_or-Applies :
    {A : Type 0} (o : Option A) → Applies (ok_or FederationRuntimeError.invalid_payload o)
ok_or-Applies none h = cc
ok_or-Applies (some a) h = cc

bind-Applies :
    {A B : Type 0} (m : Result A FederationRuntimeError) (f : A → Result B FederationRuntimeError)
    → Applies m
    → ((a : A) → Applies (f a))
    → Applies (m >>= f)
bind-Applies (ok a) f h k = k a
bind-Applies (err e) f h k = λ p. h (ground (arith, p))

ensure-Applies :
    {B : Type 0} (t : Bool) (k : Result B FederationRuntimeError)
    → Applies k
    → Applies (ensure FederationRuntimeError.invalid_payload t >> k)
ensure-Applies true k h = h
ensure-Applies false k h = λ p. cc

module _ (j : Json) (u : Urls) (code_hash : List ℕ → List ℕ) where
  required_str-Applies : (payload : j.Value) (key : String) → Applies (required_str j payload key)
  unfolding required_str
  required_str-Applies payload key = ok_or-Applies (non_empty (optional_str j payload key))

  required_local_id-Applies :
      (payload : j.Value) (key : String) → Applies (required_local_id j payload key)
  unfolding required_local_id
  required_local_id-Applies payload key =
      bind-Applies (required_str j payload key) _ (required_str-Applies payload key)
        (λ value. ok_or-Applies (and_then (parse_i64 value) positive))

  upserted-Applies :
      (made : Result RemotePrincipalMetadata RemotePrincipalProjectionError)
      (f : RemotePrincipalMetadata → FederationRuntimeCommand)
      → Applies (elim made [
        | err _ ↦ err FederationRuntimeError.invalid_payload
        | ok metadata ↦ ok (f metadata)
      ])
  upserted-Applies (ok metadata) f h = cc
  upserted-Applies (err e) f h = cc

  remote_principal_command-Applies :
      (envelope : ParsedFederationEnvelope j) → Applies (remote_principal_command j u envelope)
  unfolding remote_principal_command
  remote_principal_command-Applies envelope =
      bind-Applies _ _ (required_str-Applies envelope.payload "remoteUserId") (λ user.
        upserted-Applies
          (new_metadata u (optional_str j envelope.payload "username")
            (optional_str j envelope.payload "displayName")
            (optional_str j envelope.payload "avatarUrl"))
          (λ metadata.
            FederationRuntimeCommand.upsert_remote_principal envelope.source_peer_id user
              metadata.username metadata.display_name metadata.avatar_url))

  membership_join_command-Applies :
      (envelope : ParsedFederationEnvelope j)
      → Applies (membership_join_command j code_hash envelope)
  unfolding membership_join_command
  membership_join_command-Applies envelope =
      bind-Applies _ _ (required_str-Applies envelope.payload "remoteUserId") (λ user.
        bind-Applies _ _ (required_local_id-Applies envelope.payload "serverId")
          (λ server. ensure-Applies _ _ (ok-Applies _)))

  membership_leave_command-Applies :
      (envelope : ParsedFederationEnvelope j) → Applies (membership_leave_command j envelope)
  unfolding membership_leave_command
  membership_leave_command-Applies envelope =
      bind-Applies _ _ (required_str-Applies envelope.payload "remoteUserId") (λ user.
        bind-Applies _ _ (required_local_id-Applies envelope.payload "serverId")
          (λ server. ok-Applies _))

  membership_moderation_command-Applies :
      (envelope : ParsedFederationEnvelope j) (op : MembershipModerationOp)
      → Applies (membership_moderation_command j envelope op)
  unfolding membership_moderation_command
  membership_moderation_command-Applies envelope op =
      bind-Applies _ _ (required_str-Applies envelope.payload "remoteUserId") (λ user.
        bind-Applies _ _ (required_local_id-Applies envelope.payload "serverId") (λ server.
          bind-Applies _ _ (required_local_id-Applies envelope.payload "targetUserId")
            (λ target. ok-Applies _)))

  command_of_kind-Applies :
      (kind : FederationEventKind) (envelope : ParsedFederationEnvelope j)
      → Passes kind
      → Applies (command_of_kind j u code_hash kind envelope)
  unfolding command_of_kind runtime_propagation_allowed
  command_of_kind-Applies _ envelope Passes.invite_preview =
      ok-Applies FederationRuntimeCommand.audit_only
  command_of_kind-Applies _ envelope Passes.principal_upsert =
      remote_principal_command-Applies envelope
  command_of_kind-Applies _ envelope Passes.membership_join =
      membership_join_command-Applies envelope
  command_of_kind-Applies _ envelope Passes.membership_leave =
      membership_leave_command-Applies envelope
  command_of_kind-Applies _ envelope Passes.membership_remove =
      membership_moderation_command-Applies envelope MembershipModerationOp.remove
  command_of_kind-Applies _ envelope Passes.membership_ban =
      membership_moderation_command-Applies envelope MembershipModerationOp.ban
  command_of_kind-Applies _ envelope Passes.membership_unban =
      membership_moderation_command-Applies envelope MembershipModerationOp.unban

  -- An event is refused as unsupported exactly when its kind may not pass between backends.
  pub command_from_envelope-unsupported_iff :
      (envelope : ParsedFederationEnvelope j)
      → (command_from_envelope j u code_hash envelope
          ≡ err FederationRuntimeError.unsupported_event_kind)
        ↔ (runtime_propagation_allowed envelope.kind ≡ false)
  unfolding command_from_envelope
  command_from_envelope-unsupported_iff envelope =
      elim (Bool-cases (runtime_propagation_allowed envelope.kind)) [
        | inl e ↦ (
          λ h. absurd (
              command_of_kind-Applies envelope.kind envelope (allowed-Passes envelope.kind e)
                (ground (arith, e, h))),
          λ h. ground (arith, e, h),
        )
        | inr e ↦ (λ h. e, λ h. ground (arith, e))
      ]
