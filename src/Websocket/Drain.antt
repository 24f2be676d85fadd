-- ===== src/Websocket/Drain.antt =====
-- Planned drains (server-rs/src/ws/topics.rs): a command tells a node to send its clients elsewhere.
-- A reason is its characters, as code points.
pub mod Bounds
pub mod Once
use Prim.Native.String.{String}
use verdant_backend.Prelude.{
  ℕ, suc, string_eq, ◌=?◌, min, max, Bool, true, false, not, ◌&&◌, ◌||◌, List, [], ◌∷◌, ◌++◌, all,
  take, Option, none, some, ltb, leb, ◌==◌, if◌then◌else◌,
}
use verdant_backend.Prelude.OptionMonad.{unwrap_or}
use verdant_backend.Websocket.Manager.{ConnectionManager, OutboundMsg, text, close, all_conn_ids}
use verdant_backend.Websocket.Delivery.{send_all}

pub record DrainCommand : Type 0 where
  pub target_node_id : Option String
  pub target_droplet_id : Option String
  pub target_public_ip : Option String
  pub target_name : Option String
  pub reason : Option (List ℕ)
  pub reconnect_after_ms : Option ℕ
  pub close_after_ms : Option ℕ

pub record NodeRuntimeInfo : Type 0 where
  pub droplet_id : Option String
  pub name : Option String
  pub public_ip : Option String
  pub region : Option String

abbrev pub default_drain_close_after_ms : ℕ
default_drain_close_after_ms = 750

abbrev pub max_drain_delay_ms : ℕ
max_drain_delay_ms = 30000

-- `serde_json::Value`, as far as the event needs it.
mutual
  pub data Json : Type 0 where
    string : List ℕ → Json
    number : ℕ → Json
    object : Members → Json

  pub data Members : Type 0 where
    end : Members
    member : String → Json → Members → Members

-- The value that the event prints.
unfoldable pub server_draining_json : List ℕ → ℕ → ℕ → Json
server_draining_json reason reconnect_after_ms close_after_ms = object (
    member "op"
      (string (83 ∷ 69 ∷ 82 ∷ 86 ∷ 69 ∷ 82 ∷ 95 ∷ 68 ∷ 82 ∷ 65 ∷ 73 ∷ 78 ∷ 73 ∷ 78 ∷ 71 ∷ []))
      (member "d"
        (object (
          member "reason" (string reason) (
            member "reconnectAfterMs" (number reconnect_after_ms)
              (member "closeAfterMs" (number close_after_ms) end))))
        end))

abbrev pub is_ascii_alphanumeric : ℕ → Bool
is_ascii_alphanumeric c =
    (leb 48 c && leb c 57) || ((leb 65 c && leb c 90) || (leb 97 c && leb c 122))

-- Alphanumeric, a hyphen, a low line or a space.
abbrev pub is_plain : ℕ → Bool
is_plain c = is_ascii_alphanumeric c || ((c == 45) || ((c == 95) || (c == 32)))

-- `char::is_whitespace`, which is what `trim` takes away.
abbrev pub is_whitespace : ℕ → Bool
is_whitespace c =
    (leb 9 c && leb c 13)
    || ((c == 32)
        || ((c == 133)
            || ((c == 160)
                || ((c == 5760)
                    || ((leb 8192 c && leb c 8202)
                        || ((c == 8232)
                            || ((c == 8233) || ((c == 8239) || ((c == 8287) || (c == 12288))))))))))

unfoldable pub plain_chars : List ℕ → List ℕ
plain_chars [] = []
plain_chars (c ∷ chars) = let rest = plain_chars chars in if is_plain c then c ∷ rest else rest

abbrev pub zdt : List ℕ
zdt = 122 ∷ 100 ∷ 116 ∷ []

unfoldable pub sanitize_drain_reason : Option (List ℕ) → List ℕ
unfolding plain_chars
sanitize_drain_reason reason =
    let cleaned = take 64 (plain_chars (unwrap_or zdt reason)) in
    if all is_whitespace cleaned then zdt else cleaned

-- A target that the command names and that is the node's.
abbrev pub hits : Option String → Option String → Bool
hits (some target) (some value) = value =? target
hits (some target) none = false
hits none value = false

unfoldable pub drain_targets_node : String → NodeRuntimeInfo → DrainCommand → Bool
drain_targets_node node_id node cmd =
    if hits cmd.target_node_id (some node_id)
    then true
    else if hits cmd.target_droplet_id node.droplet_id
    then true
    else if hits cmd.target_public_ip node.public_ip
    then true
    else hits cmd.target_name node.name

-- What handling does, in order.
pub data Action : Type 0 where
  send : ℕ → OutboundMsg → Action
  sleep : ℕ → Action

unfoldable pub sends : List (ℕ × OutboundMsg) → List Action
sends [] = []
sends ((tx, msg) ∷ rest) = send tx msg ∷ sends rest

-- The node's flag `draining` afterwards, and the actions: `ws` are the connections when the command
-- comes, `ws_later` those after the delay, and `to_string` prints JSON.
unfoldable pub handle_drain_command :
    (Json → String)
    → String
    → NodeRuntimeInfo
    → Bool
    → ConnectionManager
    → ConnectionManager
    → DrainCommand
    → Bool × List Action
unfolding drain_targets_node sanitize_drain_reason server_draining_json sends
handle_drain_command to_string node_id node draining ws ws_later cmd =
    let reconnect_after_ms = min (unwrap_or 0 cmd.reconnect_after_ms) 5000 in
    let close_after_ms =
      min (max (unwrap_or default_drain_close_after_ms cmd.close_after_ms) 100)
        max_drain_delay_ms in
    let reason = sanitize_drain_reason cmd.reason in
    let event = text (to_string (server_draining_json reason reconnect_after_ms close_after_ms)) in
    let conn_ids = all_conn_ids ws in
    if not (drain_targets_node node_id node cmd)
    then (draining, [])
    else if draining
    then (true, [])
    else (
      true,
      sends (send_all ws conn_ids event)
          ++ sleep close_after_ms
            ∷ sends (send_all ws_later conn_ids (close 1001 "Server draining")),
    )
