-- ===== src/Federation/Kinds.antt =====
-- The kinds of federation events and their names (server-rs/src/federation/protocol.rs), and which
-- of them may pass between backends (server-rs/src/federation/ownership.rs).
use Prim.Native.String.{String}
use verdant_backend.Prelude.{
  ◌≡◌, ◌↔◌, refl, ap, ◌∙◌, all, true, [], ◌∷◌, some, string_eq, ◌=?◌, arith,
}
use verdant_backend.Prelude.Dict.{Dict, lookup}
use verdant_backend.Prelude.Result.{Result, ok, ok_or, some_of_ok_or}

pub data FederationEventKind : Type 0 where
  invite_preview principal_upsert membership_join membership_leave membership_remove :
      FederationEventKind
  membership_ban membership_unban role_create role_update role_delete : FederationEventKind
  role_reorder category_create category_update category_delete channel_create : FederationEventKind
  channel_update channel_delete channel_reorder channel_override_set channel_override_delete :
      FederationEventKind
  member_role_assign member_role_remove emoji_rename emoji_delete message_create :
      FederationEventKind
  message_update message_delete message_pin message_unpin reaction_add : FederationEventKind
  reaction_remove relationship_request relationship_accept relationship_remove relationship_block :
      FederationEventKind
  presence_update typing_start read_state_update dm_create dm_group_create : FederationEventKind

unfoldable pub as_str : FederationEventKind → String
as_str FederationEventKind.invite_preview = "invite_preview"
as_str FederationEventKind.principal_upsert = "principal_upsert"
as_str FederationEventKind.membership_join = "membership_join"
as_str FederationEventKind.membership_leave = "membership_leave"
as_str FederationEventKind.membership_remove = "membership_remove"
as_str FederationEventKind.membership_ban = "membership_ban"
as_str FederationEventKind.membership_unban = "membership_unban"
as_str FederationEventKind.role_create = "role_create"
as_str FederationEventKind.role_update = "role_update"
as_str FederationEventKind.role_delete = "role_delete"
as_str FederationEventKind.role_reorder = "role_reorder"
as_str FederationEventKind.category_create = "category_create"
as_str FederationEventKind.category_update = "category_update"
as_str FederationEventKind.category_delete = "category_delete"
as_str FederationEventKind.channel_create = "channel_create"
as_str FederationEventKind.channel_update = "channel_update"
as_str FederationEventKind.channel_delete = "channel_delete"
as_str FederationEventKind.channel_reorder = "channel_reorder"
as_str FederationEventKind.channel_override_set = "channel_override_set"
as_str FederationEventKind.channel_override_delete = "channel_override_delete"
as_str FederationEventKind.member_role_assign = "member_role_assign"
as_str FederationEventKind.member_role_remove = "member_role_remove"
as_str FederationEventKind.emoji_rename = "emoji_rename"
as_str FederationEventKind.emoji_delete = "emoji_delete"
as_str FederationEventKind.message_create = "message_create"
as_str FederationEventKind.message_update = "message_update"
as_str FederationEventKind.message_delete = "message_delete"
as_str FederationEventKind.message_pin = "message_pin"
as_str FederationEventKind.message_unpin = "message_unpin"
as_str FederationEventKind.reaction_add = "reaction_add"
as_str FederationEventKind.reaction_remove = "reaction_remove"
as_str FederationEventKind.relationship_request = "relationship_request"
as_str FederationEventKind.relationship_accept = "relationship_accept"
as_str FederationEventKind.relationship_remove = "relationship_remove"
as_str FederationEventKind.relationship_block = "relationship_block"
as_str FederationEventKind.presence_update = "presence_update"
as_str FederationEventKind.typing_start = "typing_start"
as_str FederationEventKind.read_state_update = "read_state_update"
as_str FederationEventKind.dm_create = "dm_create"
as_str FederationEventKind.dm_group_create = "dm_group_create"

pub data FederationProtocolError : Type 0 where
  malformed_json unsupported_version unknown_event_kind : FederationProtocolError
  invalid_envelope invalid_payload : FederationProtocolError

-- The names and kinds of the match, from the first arm on.
abbrev kind_arms : Dict String FederationEventKind
kind_arms =
    ("invite_preview", FederationEventKind.invite_preview)
    ∷ ("principal_upsert", FederationEventKind.principal_upsert)
    ∷ ("membership_join", FederationEventKind.membership_join)
    ∷ ("membership_leave", FederationEventKind.membership_leave)
    ∷ ("membership_remove", FederationEventKind.membership_remove)
    ∷ ("membership_ban", FederationEventKind.membership_ban)
    ∷ ("membership_unban", FederationEventKind.membership_unban)
    ∷ ("role_create", FederationEventKind.role_create)
    ∷ ("role_update", FederationEventKind.role_update)
    ∷ ("role_delete", FederationEventKind.role_delete)
    ∷ ("role_reorder", FederationEventKind.role_reorder)
    ∷ ("category_create", FederationEventKind.category_create)
    ∷ ("category_update", FederationEventKind.category_update)
    ∷ ("category_delete", FederationEventKind.category_delete)
    ∷ ("channel_create", FederationEventKind.channel_create)
    ∷ ("channel_update", FederationEventKind.channel_update)
    ∷ ("channel_delete", FederationEventKind.channel_delete)
    ∷ ("channel_reorder", FederationEventKind.channel_reorder)
    ∷ ("channel_override_set", FederationEventKind.channel_override_set)
    ∷ ("channel_override_delete", FederationEventKind.channel_override_delete)
    ∷ ("member_role_assign", FederationEventKind.member_role_assign)
    ∷ ("member_role_remove", FederationEventKind.member_role_remove)
    ∷ ("emoji_rename", FederationEventKind.emoji_rename)
    ∷ ("emoji_delete", FederationEventKind.emoji_delete)
    ∷ ("message_create", FederationEventKind.message_create)
    ∷ ("message_update", FederationEventKind.message_update)
    ∷ ("message_delete", FederationEventKind.message_delete)
    ∷ ("message_pin", FederationEventKind.message_pin)
    ∷ ("message_unpin", FederationEventKind.message_unpin)
    ∷ ("reaction_add", FederationEventKind.reaction_add)
    ∷ ("reaction_remove", FederationEventKind.reaction_remove)
    ∷ ("relationship_request", FederationEventKind.relationship_request)
    ∷ ("relationship_accept", FederationEventKind.relationship_accept)
    ∷ ("relationship_remove", FederationEventKind.relationship_remove)
    ∷ ("relationship_block", FederationEventKind.relationship_block)
    ∷ ("presence_update", FederationEventKind.presence_update)
    ∷ ("typing_start", FederationEventKind.typing_start)
    ∷ ("read_state_update", FederationEventKind.read_state_update)
    ∷ ("dm_create", FederationEventKind.dm_create)
    ∷ ("dm_group_create", FederationEventKind.dm_group_create)
    ∷ []

unfoldable pub parse_event_kind : String → Result FederationEventKind FederationProtocolError
parse_event_kind value = ok_or FederationProtocolError.unknown_event_kind (lookup value kind_arms)

arms_named :
    (arms : Dict String FederationEventKind) (value : String) (kind : FederationEventKind)
    → all (λ arm. as_str arm.1 =? arm.0) arms ≡ true
    → lookup value arms ≡ some kind
    → value ≡ as_str kind
arms_named [] value kind h k = cc
arms_named ((name, named) ∷ arms) value kind h k = ground (
  arith,
  arms_named arms value kind,
  string_eq.beq_iff name value,
  string_eq.beq_iff (as_str named) name,
  λ (e : named ≡ kind). ap as_str e,
)

found :
    (value : String) (kind : FederationEventKind)
    → parse_event_kind value ≡ ok kind
    → lookup value kind_arms ≡ some kind
unfolding parse_event_kind
found value kind h =
    some_of_ok_or FederationProtocolError.unknown_event_kind (lookup value kind_arms) h

parse_event_kind-as_str : (kind : FederationEventKind) → parse_event_kind (as_str kind) ≡ ok kind
unfolding parse_event_kind as_str
parse_event_kind-as_str FederationEventKind.invite_preview = refl
parse_event_kind-as_str FederationEventKind.principal_upsert = refl
parse_event_kind-as_str FederationEventKind.membership_join = refl
parse_event_kind-as_str FederationEventKind.membership_leave = refl
parse_event_kind-as_str FederationEventKind.membership_remove = refl
parse_event_kind-as_str FederationEventKind.membership_ban = refl
parse_event_kind-as_str FederationEventKind.membership_unban = refl
parse_event_kind-as_str FederationEventKind.role_create = refl
parse_event_kind-as_str FederationEventKind.role_update = refl
parse_event_kind-as_str FederationEventKind.role_delete = refl
parse_event_kind-as_str FederationEventKind.role_reorder = refl
parse_event_kind-as_str FederationEventKind.category_create = refl
parse_event_kind-as_str FederationEventKind.category_update = refl
parse_event_kind-as_str FederationEventKind.category_delete = refl
parse_event_kind-as_str FederationEventKind.channel_create = refl
parse_event_kind-as_str FederationEventKind.channel_update = refl
parse_event_kind-as_str FederationEventKind.channel_delete = refl
parse_event_kind-as_str FederationEventKind.channel_reorder = refl
parse_event_kind-as_str FederationEventKind.channel_override_set = refl
parse_event_kind-as_str FederationEventKind.channel_override_delete = refl
parse_event_kind-as_str FederationEventKind.member_role_assign = refl
parse_event_kind-as_str FederationEventKind.member_role_remove = refl
parse_event_kind-as_str FederationEventKind.emoji_rename = refl
parse_event_kind-as_str FederationEventKind.emoji_delete = refl
parse_event_kind-as_str FederationEventKind.message_create = refl
parse_event_kind-as_str FederationEventKind.message_update = refl
parse_event_kind-as_str FederationEventKind.message_delete = refl
parse_event_kind-as_str FederationEventKind.message_pin = refl
parse_event_kind-as_str FederationEventKind.message_unpin = refl
parse_event_kind-as_str FederationEventKind.reaction_add = refl
parse_event_kind-as_str FederationEventKind.reaction_remove = refl
parse_event_kind-as_str FederationEventKind.relationship_request = refl
parse_event_kind-as_str FederationEventKind.relationship_accept = refl
parse_event_kind-as_str FederationEventKind.relationship_remove = refl
parse_event_kind-as_str FederationEventKind.relationship_block = refl
parse_event_kind-as_str FederationEventKind.presence_update = refl
parse_event_kind-as_str FederationEventKind.typing_start = refl
parse_event_kind-as_str FederationEventKind.read_state_update = refl
parse_event_kind-as_str FederationEventKind.dm_create = refl
parse_event_kind-as_str FederationEventKind.dm_group_create = refl

-- A text is read as an event kind exactly when it is the name of that kind.
pub parse_event_kind_iff :
    (value : String) (kind : FederationEventKind)
    → (parse_event_kind value ≡ ok kind) ↔ (value ≡ as_str kind)
unfolding parse_event_kind as_str
parse_event_kind_iff value kind = (
  λ h. arms_named kind_arms value kind refl (found value kind h),
  λ e. ap parse_event_kind e ∙ parse_event_kind-as_str kind,
)
