-- ===== src/Federation/Receive/Applied.antt =====
-- What a run of the handler applies (server-rs/src/handlers/federation.rs).
use verdant_backend.Prelude.{
  ℕ, ◌≤◌, ◌≡◌, refl, ◌∙◌, true, List, [], ◌∷◌, Option, nat_eq, list_eq, if◌then◌else◌, arith,
}
use verdant_backend.Federation.Crates.{Crates}
use verdant_backend.Federation.Interfaces.{Json, Urls}
use verdant_backend.Federation.Protocol.{RawFederationEnvelope}
use verdant_backend.Federation.ReplayTable.{NonceTable}
use verdant_backend.Federation.Receive.Inbound.{is_recorded}
use verdant_backend.Federation.Receive.{Intake, EventRequest, receive_event, receive_all}
use verdant_backend.Federation.Receive.Steps.{times_applied, Steps, Leads, receive_event-Leads}

module _ (c : Crates) (j : Json) (u : Urls) (from_slice : List ℕ → Option (RawFederationEnvelope j))
    (hex_digest code_hash : List ℕ → List ℕ) (instance_id : List ℕ) (source event : List ℕ) where
  -- Nothing is applied but for an event that is recorded, and once.
  AtMostOnce : Intake → Type 0
  AtMostOnce s =
      times_applied source event s.applied ≤ (if is_recorded s.inbound source event then 1 else 0)

  step-AtMostOnce :
      (s : Intake) (q : EventRequest c)
      → AtMostOnce s
      → AtMostOnce (receive_event c j u from_slice hex_digest code_hash instance_id s q).0
  unfolding Leads Steps AtMostOnce
  step-AtMostOnce s q h =
      let step =
        receive_event-Leads c j u from_slice hex_digest code_hash instance_id source event s q in
      ground (arith, h, step)

  run-AtMostOnce :
      (s : Intake) (requests : List (EventRequest c))
      → AtMostOnce s
      → AtMostOnce (receive_all c j u from_slice hex_digest code_hash instance_id s requests)
  unfolding receive_all
  run-AtMostOnce s [] h = h
  run-AtMostOnce s (q ∷ requests) h =
      run-AtMostOnce (receive_event c j u from_slice hex_digest code_hash instance_id s q).0
        requests (step-AtMostOnce s q h)

  -- In any run of the handler of events from empty inbound records, whatever the requests, the
  -- database and the commands answer, commands of one event of one source are given to be applied
  -- once at most.
  pub receive_all-applied_once :
      (nonces : NonceTable) (requests : List (EventRequest c))
      → times_applied source event
          (receive_all c j u from_slice hex_digest code_hash instance_id
            (record { nonces = nonces; inbound = []; applied = [] })
            requests).applied
        ≤ 1
  unfolding AtMostOnce
  receive_all-applied_once nonces requests =
      let once =
        run-AtMostOnce (record { nonces = nonces; inbound = []; applied = [] }) requests
          (ground arith) in
      ground (arith, once)

  -- An event that is recorded, also one whose command failed, is never applied again in any run
  -- of the handler, and stays recorded.
  pub receive_all-recorded :
      (s : Intake) (requests : List (EventRequest c))
      → is_recorded s.inbound source event ≡ true
      → (times_applied source event
            (receive_all c j u from_slice hex_digest code_hash instance_id s requests).applied
          ≡ times_applied source event s.applied)
        × (is_recorded
              (receive_all c j u from_slice hex_digest code_hash instance_id s requests).inbound
              source
              event
            ≡ true)
  unfolding receive_all Leads Steps
  receive_all-recorded s [] h = (refl, h)
  receive_all-recorded s (q ∷ requests) h =
      let step =
        receive_event-Leads c j u from_slice hex_digest code_hash instance_id source event s q in
      let (same, still) =
        receive_all-recorded (receive_event c j u from_slice hex_digest code_hash instance_id s q).0
          requests (ground (arith, h, step)) in
      (same ∙ ground (arith, h, step), still)
