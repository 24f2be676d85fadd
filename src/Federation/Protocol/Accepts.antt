-- ===== src/Federation/Protocol/Accepts.antt =====
-- What an event that is accepted behind a verified request has shown, and for whom it acts
-- (server-rs/src/federation/protocol.rs, ingress.rs and runtime.rs).
use Prim.Native.String.{String}
use verdant_backend.Prelude.{
  ℕ, ◌≡◌, refl, Bool, true, false, List, Option, none, some, nat_eq, list_eq, ◌=?◌, list_beq_iff,
  Bool-cases, inl, inr, arith,
}
use verdant_backend.Prelude.OptionMonad.{and_then}
use verdant_backend.Prelude.Result.{
  ok, ensure, bind_ok, ensure_ok, ok_or_ok, ok_same, some_of_ok_or,
}
use verdant_backend.Federation.Interfaces.{Json, Urls}
use verdant_backend.Federation.Auth.{VerifiedFederationRequest}
use verdant_backend.Federation.Kinds.{
  FederationEventKind, FederationProtocolError, parse_event_kind,
}
use verdant_backend.Federation.Ownership.{runtime_propagation_allowed}
use verdant_backend.Federation.Ownership.Passing.{Passes, allowed-Passes}
use verdant_backend.Federation.Payload.{valid_payload_id, required_payload_id, field}
use verdant_backend.Federation.Payload.Checks.{checks_pass}
use verdant_backend.Federation.Protocol.{
  FederationIngressError, FederationIngressDecision, RawFederationEnvelope,
  ParsedFederationEnvelope, payload_has_only_allowed_fields, validate_payload, envelope_fields_ok,
  is_one, from_json, validate_ingress_envelope,
}
use verdant_backend.Federation.Runtime.Principals.{
  principal, Named, remote_principal_command-Named, membership_join_command-Named,
  membership_leave_command-Named, membership_moderation_command-Named,
}
use verdant_backend.Federation.Runtime.{
  FederationRuntimeCommand, FederationRuntimeError, MembershipModerationOp, non_empty, optional_str,
  required_str, command_of_kind, command_from_envelope,
}

-- A command acts for nobody, or for a principal of `home` with a well-formed id.
abbrev pub ActsFor : List ℕ → Option (List ℕ × List ℕ) → Type 0
ActsFor home none = Unit
ActsFor home (some (of, user)) = (of ≡ home) × (valid_payload_id user ≡ true)

checked : (t : Bool) → ensure FederationProtocolError.invalid_payload t ≡ ok tt → t ≡ true
checked true h = refl
checked false h = cc

module _ (j : Json) (u : Urls) (code_hash : List ℕ → List ℕ) where
  validate_payload-ok :
      (kind : FederationEventKind) (payload : j.Value)
      → validate_payload j u kind payload ≡ ok tt
      → checks_pass j u kind payload ≡ true
  unfolding validate_payload
  validate_payload-ok kind payload h =
      let (_, h1) =
        ensure_ok FederationProtocolError.invalid_payload
          (payload_has_only_allowed_fields j kind payload) h in
      checked (checks_pass j u kind payload) h1

  from_json-checks_pass :
      (from_slice : List ℕ → Option (RawFederationEnvelope j)) (bytes : List ℕ)
      (envelope : ParsedFederationEnvelope j)
      → from_json j from_slice u bytes ≡ ok envelope
      → checks_pass j u envelope.kind envelope.payload ≡ true
  unfolding from_json
  from_json-checks_pass from_slice bytes envelope h =
      let (raw, _, h1) = ok_or_ok FederationProtocolError.malformed_json (from_slice bytes) h in
      let (_, h2) =
        ensure_ok FederationProtocolError.unsupported_version (is_one raw.protocol_version) h1 in
      let (kind, _, h3) = bind_ok (parse_event_kind raw.kind) h2 in
      let (_, h4) =
        ensure_ok FederationProtocolError.invalid_envelope (envelope_fields_ok j raw) h3 in
      let (_, valid, h5) = bind_ok (validate_payload j u kind raw.payload) h4 in
      rw (← ok_same refl h5) (validate_payload-ok kind raw.payload valid)

  -- The id that is required is the id that was validated.
  required_str-valid :
      (payload : j.Value) (key : String) (value : List ℕ)
      → required_payload_id j payload key ≡ true
      → required_str j payload key ≡ ok value
      → valid_payload_id value ≡ true
  unfolding required_payload_id required_str optional_str
  required_str-valid payload key value h k =
      let e =
        some_of_ok_or FederationRuntimeError.invalid_payload
          (non_empty (and_then (field j payload key) j.as_str)) k in
      ground (arith, e, h)

  -- A named principal whose id was validated.
  acts_by_name :
      (envelope : ParsedFederationEnvelope j) (command : FederationRuntimeCommand)
      → required_payload_id j envelope.payload "remoteUserId" ≡ true
      → Named j u code_hash envelope command
      → ActsFor envelope.source_peer_id (principal command)
  acts_by_name envelope command h (user, named, of) =
      rw of (refl, required_str-valid envelope.payload "remoteUserId" user h named)

  command_of_kind-acts :
      (kind : FederationEventKind)
      → Passes kind
      → (envelope : ParsedFederationEnvelope j) (command : FederationRuntimeCommand)
      → checks_pass j u kind envelope.payload ≡ true
      → command_of_kind j u code_hash kind envelope ≡ ok command
      → ActsFor envelope.source_peer_id (principal command)
  unfolding command_of_kind checks_pass
  command_of_kind-acts _ Passes.invite_preview envelope command h g = rw (← ok_same refl g) tt
  command_of_kind-acts _ Passes.principal_upsert envelope command h g =
      acts_by_name envelope command (ground (arith, h))
        (remote_principal_command-Named j u code_hash envelope command g)
  command_of_kind-acts _ Passes.membership_join envelope command h g =
      acts_by_name envelope command (ground (arith, h))
        (membership_join_command-Named j u code_hash envelope command g)
  command_of_kind-acts _ Passes.membership_leave envelope command h g =
      acts_by_name envelope command (ground (arith, h))
        (membership_leave_command-Named j u code_hash envelope command g)
  command_of_kind-acts _ Passes.membership_remove envelope command h g =
      acts_by_name envelope command (ground (arith, h)) (
        membership_moderation_command-Named j u code_hash MembershipModerationOp.remove envelope
          command g)
  command_of_kind-acts _ Passes.membership_ban envelope command h g =
      acts_by_name envelope command (ground (arith, h)) (
        membership_moderation_command-Named j u code_hash MembershipModerationOp.ban envelope
          command g)
  command_of_kind-acts _ Passes.membership_unban envelope command h g =
      acts_by_name envelope command (ground (arith, h)) (
        membership_moderation_command-Named j u code_hash MembershipModerationOp.unban envelope
          command g)

  -- The source of an accepted envelope is the signer's.
  validate_ingress_envelope-source :
      (hex_digest : List ℕ → List ℕ) (verified : VerifiedFederationRequest)
      (envelope : ParsedFederationEnvelope j) (decision : FederationIngressDecision)
      → validate_ingress_envelope j hex_digest verified envelope ≡ ok decision
      → envelope.source_peer_id ≡ verified.source_peer_id
  unfolding validate_ingress_envelope
  validate_ingress_envelope-source hex_digest verified envelope decision h =
      let (same, _) =
        ensure_ok FederationIngressError.source_mismatch
          (envelope.source_peer_id =? verified.source_peer_id) h in
      (list_beq_iff envelope.source_peer_id verified.source_peer_id).0 same

  -- The command of an event whose envelope was parsed, passed the checks of its payload and was
  -- accepted behind a verified request acts for nobody or for a principal whose home is the peer
  -- that signed and whose id is a valid payload id.
  pub command_from_envelope-acts :
      (from_slice : List ℕ → Option (RawFederationEnvelope j)) (hex_digest : List ℕ → List ℕ)
      (verified : VerifiedFederationRequest) (body : List ℕ) (envelope : ParsedFederationEnvelope j)
      (decision : FederationIngressDecision) (command : FederationRuntimeCommand)
      → from_json j from_slice u body ≡ ok envelope
      → validate_ingress_envelope j hex_digest verified envelope ≡ ok decision
      → command_from_envelope j u code_hash envelope ≡ ok command
      → ActsFor verified.source_peer_id (principal command)
  unfolding command_from_envelope
  command_from_envelope-acts from_slice hex_digest verified body envelope decision command parsed
        accepted h =
      let source =
        validate_ingress_envelope-source hex_digest verified envelope decision accepted in
      let valid = from_json-checks_pass from_slice body envelope parsed in
      rw (← source) (elim (Bool-cases (runtime_propagation_allowed envelope.kind)) [
        | inl e ↦
            command_of_kind-acts envelope.kind (allowed-Passes envelope.kind e) envelope command
              valid (ground (arith, e, h))
        | inr e ↦ absurd (ground (arith, e, h))
      ])
