-- ===== src/Federation/ReplayTable/Examples.antt =====
-- Tests of the nonces in the database, and their theorem at a concrete run.
use verdant_backend.Prelude.{ℕ, ◌≡◌, refl, true, List, [], ◌∷◌, nat_eq, list_eq, arith}
use verdant_backend.Prelude.Dict.{insert, remove}
use verdant_backend.Permissions.Search.{sort_by_key}
use verdant_backend.Federation.Decimal.{to_string, parse_i64}
use verdant_backend.Federation.Names.{
  validate_peer_id, validate_key_id, validate_method, validate_path_and_query, validate_nonce,
}
use verdant_backend.Federation.Auth.{
  PeerKeyStore, canonical_request, canonical_parts, join, trim, key_outside_window,
}
use verdant_backend.Federation.Auth.Requests.{verify_signature}
use verdant_backend.Federation.Auth.Stores.{insert as add_key, key_for, new}
use verdant_backend.Federation.ReplayTable.{
  reserve_replay_nonce, prune_expired_replay_nonces, expired_ids, conflicts,
}
use verdant_backend.Federation.ReplayTable.Admission.{
  Request, Ledger, Call, request, prune, run_calls, call_step, admit, IsOnce,
}
use verdant_backend.Federation.ReplayTable.Once.{run_calls-IsOnce}
use verdant_backend.Federation.TestCrates.{
  crates, beta, body_1, peer_key, verified, headers_with, signature_1,
}

abbrev store : PeerKeyStore
store = key_for (add_key (record { keys = [] }) peer_key)

abbrev arrival_at : ℕ → ℕ → Request crates
arrival_at id now = record {
  clock = now;
  now_ms = now;
  id = id;
  answers = true;
  headers = headers_with signature_1;
  body = body_1;
}

-- A request that comes twice, and once more after its nonce has expired and been pruned, when its
-- timestamp is too old.
abbrev calls_1 : List (Call crates)
calls_1 =
    request (arrival_at 1 1500)
    ∷ prune true 1600 10
    ∷ request (arrival_at 2 2000)
    ∷ prune true 700000 10
    ∷ request (arrival_at 3 700000)
    ∷ []

abbrev no_calls : Ledger
no_calls = record { table = []; accepted = [] }

accepted_once : (run_calls crates (new beta store) no_calls calls_1).accepted ≡ verified ∷ []
unfolding run_calls call_step admit reserve_replay_nonce prune_expired_replay_nonces expired_ids
    conflicts insert remove sort_by_key verify_signature new canonical_request validate_method
    validate_path_and_query trim parse_i64 join canonical_parts to_string validate_peer_id
    validate_key_id validate_nonce key_for add_key key_outside_window
accepted_once = refl

run_calls-IsOnce_example : IsOnce (run_calls crates (new beta store) no_calls calls_1).accepted
run_calls-IsOnce_example = run_calls-IsOnce crates beta store 0 calls_1 (
  ground arith,
  ground arith,
  ground arith,
  (
    ground arith,
    (
      ground arith,
      ground arith,
      ground arith,
      (ground arith, (ground arith, ground arith, ground arith, tt)),
    ),
  ),
)
