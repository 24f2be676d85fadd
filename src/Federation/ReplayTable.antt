-- ===== src/Federation/ReplayTable.antt =====
-- The nonces in the database (server-rs/src/federation/storage.rs): the table
-- federation_replay_nonces by its primary key, and the two statements on it. Whether the database
-- answers is an argument, and a clock does not read before 1970.
pub mod Rows
pub mod Admission
pub mod Once
mod Examples
use verdant_backend.Prelude.{
  ℕ, ◌+◌, ◌-◌, ◌*◌, ◌^◌, Bool, true, false, not, ◌&&◌, List, [], ◌∷◌, Option, none, some, nat_eq,
  list_eq, ◌=?◌, ltb, min, max, if◌then◌else◌, any, take,
}
use verdant_backend.Prelude.Dict.{Dict, lookup, contains_key, insert, remove, keys}
use verdant_backend.Prelude.Result.{Result, ok, err}
use verdant_backend.Permissions.Search.{sort_by_key}

abbrev pub replay_nonce_ttl_ms : ℕ
replay_nonce_ttl_ms = 10 * 60 * 1000

abbrev pub replay_nonce_prune_batch_limit : ℕ
replay_nonce_prune_batch_limit = 10000

-- The error of a query.
pub data StorageError : Type 0 where
  storage : StorageError

pub record NonceRow : Type 0 where
  pub source_peer_id : List ℕ
  pub key_id : List ℕ
  pub nonce : List ℕ
  pub request_timestamp_ms : ℕ
  pub expires_at_ms : ℕ
  pub created_at_ms : ℕ

abbrev pub NonceTable : Type 0
NonceTable = Dict ℕ NonceRow

-- `saturating_add` of an `i64`.
abbrev pub saturating_add : ℕ → ℕ → ℕ
saturating_add a b = min (a + b) (2 ^ 63 - 1)

-- A test on the row of a key.
abbrev pub row_is : NonceTable → (NonceRow → Bool) → ℕ → Bool
row_is table p id = elim (lookup id table) [ none ↦ false | some row ↦ p row ]

abbrev pub has_nonce : List ℕ → List ℕ → NonceRow → Bool
has_nonce source_peer_id nonce row = (row.source_peer_id =? source_peer_id) && (row.nonce =? nonce)

-- federation_replay_nonces_unique_nonce: the source and the nonce of a row are unique.
unfoldable pub conflicts : NonceTable → List ℕ → List ℕ → Bool
conflicts table source_peer_id nonce =
    any (row_is table (has_nonce source_peer_id nonce)) (keys table)

-- A conflict on the source and nonce does nothing; one on the primary key is an error.
unfoldable pub reserve_replay_nonce :
    Bool → NonceTable → ℕ → List ℕ → List ℕ → List ℕ → ℕ → ℕ → NonceTable × Result Bool StorageError
unfolding conflicts insert
reserve_replay_nonce answers table id source_peer_id key_id nonce request_timestamp_ms now_ms =
    if not answers
    then (table, err StorageError.storage)
    else if conflicts table source_peer_id nonce
    then (table, ok false)
    else if contains_key id table
    then (table, err StorageError.storage)
    else (
      insert id
          (record {
            source_peer_id = source_peer_id;
            key_id = key_id;
            nonce = nonce;
            request_timestamp_ms = request_timestamp_ms;
            expires_at_ms = saturating_add now_ms replay_nonce_ttl_ms;
            created_at_ms = now_ms;
          })
          table,
      ok true,
    )

abbrev pub filter_keys : (ℕ → Bool) → List ℕ → List ℕ
filter_keys p [] = []
filter_keys p (id ∷ ids) = let rest = filter_keys p ids in if p id then id ∷ rest else rest

abbrev pub expiry : NonceTable → ℕ → ℕ
expiry table id = elim (lookup id table) [ none ↦ 0 | some row ↦ row.expires_at_ms ]

abbrev pub has_expired : ℕ → NonceRow → Bool
has_expired now_ms row = ltb row.expires_at_ms now_ms

-- The ids of the statement's first part: expired rows, the oldest first.
unfoldable pub expired_ids : NonceTable → ℕ → ℕ → List ℕ
unfolding sort_by_key
expired_ids table now_ms limit = take limit (
    sort_by_key (expiry table)
      (sort_by_key (λ id. id) (filter_keys (row_is table (has_expired now_ms)) (keys table))))

abbrev pub delete_all : List ℕ → NonceTable → NonceTable
delete_all [] table = table
delete_all (id ∷ ids) table = delete_all ids (remove id table)

-- `limit.clamp(1, REPLAY_NONCE_PRUNE_BATCH_LIMIT)`.
abbrev pub batch_limit : ℕ → ℕ
batch_limit limit = min (max limit 1) replay_nonce_prune_batch_limit

unfoldable pub prune_expired_replay_nonces : Bool → NonceTable → ℕ → ℕ → NonceTable
unfolding expired_ids
prune_expired_replay_nonces answers table now_ms limit =
    if answers then delete_all (expired_ids table now_ms (batch_limit limit)) table else table
