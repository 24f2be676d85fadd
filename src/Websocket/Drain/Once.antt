-- ===== src/Websocket/Drain/Once.antt =====
-- A node drains once, whatever commands follow (server-rs/src/ws/topics.rs).
use Prim.Native.String.{String}
use verdant_backend.Prelude.{
  ℕ, ◌≤◌, ◌≡◌, refl, ap, min, max, Bool, true, false, List, [], ◌∷◌, ◌++◌, if◌then◌else◌, inl, inr,
  Bool-cases, arith,
}
use verdant_backend.Prelude.OptionMonad.{unwrap_or}
use verdant_backend.Websocket.Manager.{ConnectionManager, text, close, all_conn_ids}
use verdant_backend.Websocket.Delivery.{send_all}
use verdant_backend.Websocket.Drain.{
  DrainCommand, NodeRuntimeInfo, Json, server_draining_json, drain_targets_node,
  sanitize_drain_reason, Action, sleep, sends, handle_drain_command, default_drain_close_after_ms,
  max_drain_delay_ms,
}
use verdant_backend.Websocket.Drain.Bounds.{IsReason, sanitize_drain_reason-same}

-- An event is sent to the connections, which are closed when the delay is over.
abbrev pub drain :
    (Json → String) → ConnectionManager → ConnectionManager → List ℕ → ℕ → ℕ → List Action
drain to_string ws ws_later reason reconnect_after_ms close_after_ms =
    sends (
      send_all ws (all_conn_ids ws)
        (text (to_string (server_draining_json reason reconnect_after_ms close_after_ms))))
    ++ sleep close_after_ms
      ∷ sends (send_all ws_later (all_conn_ids ws) (close 1001 "Server draining"))

-- A command comes with the connections at that time and after the delay.
abbrev pub Arrival : Type 0
Arrival = DrainCommand × (ConnectionManager × ConnectionManager)

module _ (to_string : Json → String) (node_id : String) (node : NodeRuntimeInfo) where
  -- One command after another, from the flag `draining`.
  unfoldable pub handle_all : Bool → List Arrival → List Action
  handle_all draining [] = []
  handle_all draining ((cmd, (ws, ws_later)) ∷ rest) =
      let (draining', actions) =
        handle_drain_command to_string node_id node draining ws ws_later cmd in
      actions ++ handle_all draining' rest

  -- The first command that targets the node is carried out, and no other.
  unfoldable pub first_targeted : List Arrival → List Action
  first_targeted [] = []
  first_targeted ((cmd, (ws, ws_later)) ∷ rest) =
      let later = first_targeted rest in
      if drain_targets_node node_id node cmd
      then (handle_drain_command to_string node_id node false ws ws_later cmd).1
      else later

  draining_true :
      (ws ws_later : ConnectionManager) (cmd : DrainCommand)
      → handle_drain_command to_string node_id node true ws ws_later cmd ≡ (true, [])
  unfolding handle_drain_command
  draining_true ws ws_later cmd = elim (Bool-cases (drain_targets_node node_id node cmd)) [
    | inl e ↦ rw e refl
    | inr e ↦ rw e refl
  ]

  untargeted :
      (ws ws_later : ConnectionManager) (cmd : DrainCommand)
      → drain_targets_node node_id node cmd ≡ false
      → handle_drain_command to_string node_id node false ws ws_later cmd ≡ (false, [])
  unfolding handle_drain_command
  untargeted ws ws_later cmd e = rw e refl

  targeted :
      (ws ws_later : ConnectionManager) (cmd : DrainCommand)
      → drain_targets_node node_id node cmd ≡ true
      → (handle_drain_command to_string node_id node false ws ws_later cmd).0 ≡ true
  unfolding handle_drain_command
  targeted ws ws_later cmd e = rw e refl

  handle_all-draining : (arrivals : List Arrival) → handle_all true arrivals ≡ []
  unfolding handle_all
  handle_all-draining [] = refl
  handle_all-draining ((cmd, (ws, ws_later)) ∷ rest) =
      rw (draining_true ws ws_later cmd) (handle_all-draining rest)

  append_nil : (actions : List Action) → actions ++ [] ≡ actions
  append_nil [] = refl
  append_nil (a ∷ actions) = ap (λ rest. a ∷ rest) (append_nil actions)

  -- Of the drain commands that come to a node that is not draining, one after another, exactly
  -- the first that names the node is carried out.
  pub handle_all-first_targeted :
      (arrivals : List Arrival) → handle_all false arrivals ≡ first_targeted arrivals
  unfolding handle_all first_targeted
  handle_all-first_targeted [] = refl
  handle_all-first_targeted ((cmd, (ws, ws_later)) ∷ rest) =
      elim (Bool-cases (drain_targets_node node_id node cmd)) [
        | inl e ↦
            rw (targeted ws ws_later cmd e, e, handle_all-draining rest)
              (append_nil (handle_drain_command to_string node_id node false ws ws_later cmd).1)
        | inr e ↦ rw (untargeted ws ws_later cmd e, e) (handle_all-first_targeted rest)
      ]

  -- A command that names a node that is not draining sends the local connections an event and
  -- closes them after a delay: the reason has at most 64 characters, plain ones and not only
  -- spaces, the reconnect delay is at most 5 seconds, and the delay between 0.1 and 30 seconds.
  pub handle_drain_command-bounds :
      (ws ws_later : ConnectionManager) (cmd : DrainCommand)
      → drain_targets_node node_id node cmd ≡ true
      → (reason : List ℕ) × (reconnect_after_ms : ℕ) × (close_after_ms : ℕ) × (IsReason reason
          × (reconnect_after_ms ≤ 5000)
          × (100 ≤ close_after_ms)
          × (close_after_ms ≤ 30000)
          × (handle_drain_command to_string node_id node false ws ws_later cmd
              ≡ (true, drain to_string ws ws_later reason reconnect_after_ms close_after_ms)))
  unfolding handle_drain_command
  handle_drain_command-bounds ws ws_later cmd e = (
    sanitize_drain_reason cmd.reason,
    min (unwrap_or 0 cmd.reconnect_after_ms) 5000,
    min (max (unwrap_or default_drain_close_after_ms cmd.close_after_ms) 100) max_drain_delay_ms,
    ((sanitize_drain_reason-same cmd.reason).0, omega arith, omega arith, omega arith, rw e refl),
  )
