-- ===== src/Federation/EventExamples.antt =====
-- Tests of the events of the federation, and their theorems at concrete events. The tests' payloads
-- are flat: objects of texts.
use Prim.Native.String.{String}
use verdant_backend.Prelude.{
  ℕ, ◌≡◌, refl, true, false, List, [], ◌∷◌, Option, none, some, map, nat_eq, list_eq,
}
use verdant_backend.Prelude.OptionMonad.{and_then}
use verdant_backend.Prelude.Ascii.{ascii}
use verdant_backend.Prelude.Dict.{Dict, lookup}
use verdant_backend.Prelude.Result.{ok, err}
use verdant_backend.PublicNet.{Ipv4Addr, Ipv6Addr, IpAddr}
use verdant_backend.PublicNet as PublicNet
use verdant_backend.Federation.Decimal.{pos, parse_i64}
use verdant_backend.Federation.Interfaces.{Json, Urls}
use verdant_backend.Federation.Auth.{VerifiedFederationRequest}
use verdant_backend.Federation.Identity.{is_public_ipv6}
use verdant_backend.Federation.Kinds.{
  FederationEventKind, FederationProtocolError, parse_event_kind,
}
use verdant_backend.Federation.Ownership.{runtime_propagation_allowed}
use verdant_backend.Federation.Payload.{
  valid_event_id, valid_peer_id, required_payload_id, valid_payload_id, optional_short_string,
}
use verdant_backend.Federation.Payload.Fields.{allowed_payload_fields}
use verdant_backend.Federation.Payload.Checks.{checks_pass}
use verdant_backend.Federation.Protocol.{
  FederationIngressDecision, RawFederationEnvelope, ParsedFederationEnvelope, from_json,
  validate_ingress_envelope,
}
use verdant_backend.Federation.Protocol.Accepts.{ActsFor, command_from_envelope-acts}
use verdant_backend.Federation.Runtime.Principals.{principal}
use verdant_backend.Federation.Runtime.{FederationRuntimeCommand, command_from_envelope}

pub data TestValue : Type 0 where
  text : List ℕ → TestValue
  object : Dict (List ℕ) (List ℕ) → TestValue

abbrev entries : TestValue → Option (Dict (List ℕ) (List ℕ))
entries (text t) = none
entries (object d) = some d

abbrev texts : TestValue → Option (List ℕ)
texts (text t) = some t
texts (object d) = none

abbrev pub json : Json
json = record {
  Value = TestValue;
  get = λ value key. and_then (entries value) (λ d. and_then (lookup key d) (λ t. some (text t)));
  is_null = λ value. false;
  is_boolean = λ value. false;
  as_str = texts;
  as_i64 = λ value. none;
  as_array = λ value. none;
  as_object = λ value. and_then (entries value) (λ d. some (map (λ e. (e.0, text e.1)) d));
  to_vec = λ value. some [];
}

abbrev pub urls : Urls
urls = record { parse_url = λ t. none; parse_ip = λ t. none }

abbrev pub leave_payload : TestValue
leave_payload = object ((ascii "serverId", ascii "42") ∷ (ascii "remoteUserId", ascii "u:7") ∷ [])

abbrev pub raw_of : String → TestValue → RawFederationEnvelope json
raw_of kind payload = record {
  protocol_version = pos 1;
  event_id = ascii "event-1";
  kind = kind;
  source_peer_id = ascii "a.example";
  destination_peer_id = ascii "b.example";
  sent_at_ms = pos 1000;
  payload = payload;
}

abbrev envelope_of : FederationEventKind → TestValue → ParsedFederationEnvelope json
envelope_of kind payload = record {
  protocol_version = pos 1;
  event_id = ascii "event-1";
  kind = kind;
  source_peer_id = ascii "a.example";
  destination_peer_id = ascii "b.example";
  sent_at_ms = pos 1000;
  payload = payload;
}

abbrev leave : ParsedFederationEnvelope json
leave = envelope_of FederationEventKind.membership_leave leave_payload

abbrev signed_by_a : VerifiedFederationRequest
signed_by_a = record {
  source_peer_id = ascii "a.example";
  destination_peer_id = ascii "b.example";
  key_id = ascii "key-1";
  nonce = ascii "nonce-0123456789";
  timestamp_ms = 1000;
  body_sha256 = [];
}

leave_parses :
    from_json json (λ bytes. some (raw_of "membership_leave" leave_payload)) urls [] ≡ ok leave
unfolding from_json parse_event_kind valid_event_id valid_peer_id allowed_payload_fields checks_pass
    required_payload_id valid_payload_id optional_short_string
leave_parses = refl

unknown_kind :
    from_json json (λ bytes. some (raw_of "membership_left" leave_payload)) urls []
    ≡ err FederationProtocolError.unknown_event_kind
unfolding from_json parse_event_kind
unknown_kind = refl

-- A field that the kind does not have.
extra_field :
    from_json json (λ bytes. some (raw_of "typing_start" leave_payload)) urls []
    ≡ err FederationProtocolError.invalid_payload
unfolding from_json parse_event_kind valid_event_id valid_peer_id allowed_payload_fields
extra_field = refl

abbrev pub leave_command : FederationRuntimeCommand
leave_command = FederationRuntimeCommand.membership_leave (ascii "a.example") (ascii "u:7") 42

leave_commands : command_from_envelope json urls (λ code. code) leave ≡ ok leave_command
unfolding command_from_envelope runtime_propagation_allowed parse_i64
leave_commands = refl

abbrev pub leave_decision : FederationIngressDecision
leave_decision = record {
  source_peer_id = ascii "a.example";
  destination_peer_id = ascii "b.example";
  remote_event_id = ascii "event-1";
  event_kind = FederationEventKind.membership_leave;
  payload_hash = [];
}

command_from_envelope-acts_example : ActsFor (ascii "a.example") (principal leave_command)
unfolding validate_ingress_envelope runtime_propagation_allowed
command_from_envelope-acts_example =
    command_from_envelope-acts json urls (λ code. code)
      (λ bytes. some (raw_of "membership_leave" leave_payload)) (λ bytes. bytes) signed_by_a []
      leave leave_decision leave_command leave_parses refl leave_commands

abbrev shared_address : Ipv4Addr
shared_address = record { o0 = 100; o1 = 100; o2 = 0; o3 = 1 }

-- ::ffff:127.0.0.1, which the network filter refuses.
abbrev mapped_loopback : Ipv6Addr
mapped_loopback = record { s0 = 0; s1 = 0; s2 = 0; s3 = 0; s4 = 0; s5 = 65535; s6 = 32512; s7 = 1 }

mapped_loopback_passes :
    (is_public_ipv6 mapped_loopback ≡ true) × (PublicNet.is_public_ipv6 mapped_loopback ≡ false)
unfolding is_public_ipv6 PublicNet.is_public_ipv6
mapped_loopback_passes = (refl, refl)
