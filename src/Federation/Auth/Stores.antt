-- ===== src/Federation/Auth/Stores.antt =====
-- The stores of keys and of nonces in memory (server-rs/src/federation/auth.rs).
use verdant_backend.Prelude.{
  ℕ, Bool, false, List, ◌∷◌, ◌++◌, none, some, nat_eq, list_eq, pair_eq, if◌then◌else◌,
}
use verdant_backend.Prelude.Dict.{Dict, lookup}
use verdant_backend.Prelude.Dict as Dict
use verdant_backend.Prelude.HashSet.{contains}
use verdant_backend.Prelude.HashSet as HashSet
use verdant_backend.Prelude.Result.{ok, err}
use verdant_backend.Federation.Auth.{
  FederationPeerKey, VerifyError, PeerKeyStore, NonceStore, default_max_timestamp_skew_ms,
  FederationRequestVerifier,
}

pub record StaticPeerKeyStore : Type 0 where
  pub keys : Dict (List ℕ × List ℕ) FederationPeerKey

unfoldable pub insert : StaticPeerKeyStore → FederationPeerKey → StaticPeerKeyStore
unfolding Dict.insert
insert store key = record { keys = Dict.insert (key.peer_id, key.key_id) key store.keys }

unfoldable pub key_for : StaticPeerKeyStore → PeerKeyStore
key_for store peer_id key_id = lookup (peer_id, key_id) store.keys

-- A poisoned lock is one whose holder panicked.
pub record InMemoryNonceStore : Type 0 where
  pub seen : List (List ℕ)
  pub poisoned : Bool

-- `format!("{peer_id}:{nonce}")`.
abbrev pub nonce_key : List ℕ → List ℕ → List ℕ
nonce_key peer_id nonce = peer_id ++ 58 ∷ nonce

unfoldable pub reserve : NonceStore InMemoryNonceStore
unfolding HashSet.insert
reserve store peer_id nonce timestamp_ms =
    let key : List ℕ = nonce_key peer_id nonce in
    if store.poisoned
    then (store, err VerifyError.replay_store_unavailable)
    else if contains key store.seen
    then (store, err VerifyError.replay)
    else (record { seen = HashSet.insert key store.seen; poisoned = false }, ok tt)

-- `FederationRequestVerifier::new` and `with_now_ms`.
unfoldable pub new : List ℕ → PeerKeyStore → FederationRequestVerifier
new destination_peer_id key_store = record {
  destination_peer_id = destination_peer_id;
  key_store = key_store;
  now_ms = none;
  max_timestamp_skew_ms = default_max_timestamp_skew_ms;
}

unfoldable pub with_now_ms : FederationRequestVerifier → ℕ → FederationRequestVerifier
with_now_ms v now_ms = record v { now_ms = some now_ms }
