-- ===== src/Federation/ReplayTable/Once.antt =====
-- The nonces in the database admit a signed request once, also with expiry and pruning
-- (server-rs/src/federation/storage.rs and server-rs/src/handlers/federation.rs).
use verdant_backend.Prelude.{
  ℕ, ◌+◌, ◌^◌, ◌≤◌, ◌<◌, ◌≡◌, ◌⊎◌, refl, sym, ap, ◌∙◌, Bool, true, false, List, [], ◌∷◌, none, some,
  nat_eq, list_eq, list_beq_iff, eq_refl, ltb, any, Bool-cases, Option-cases, inl, inr, arith,
}
use verdant_backend.Prelude.Dict.{lookup, insert, contains_key, lookup-insert}
use verdant_backend.Prelude.Result.{Result, ok, Result-cases}
use verdant_backend.Federation.Crates.{Crates}
use verdant_backend.Federation.Auth.{
  VerifyError, VerifiedFederationRequest, FederationRequestVerifier, PeerKeyStore,
}
use verdant_backend.Federation.Auth.Requests.{verify_signature}
use verdant_backend.Federation.Auth.Stores.{new}
use verdant_backend.Federation.Auth.Accepted.{verify_signature-IsAccepted}
use verdant_backend.Federation.ReplayTable.{
  NonceRow, NonceTable, conflicts, has_nonce, reserve_replay_nonce, prune_expired_replay_nonces,
  saturating_add, replay_nonce_ttl_ms,
}
use verdant_backend.Federation.ReplayTable.Rows.{conflicts-of_row, prune-keeps}
use verdant_backend.Federation.ReplayTable.Admission.{
  events_method, events_path, Request, Call, request, prune, Ledger, admit, call_step, run_calls,
  Timely, same_signed, IsOnce,
}

-- At time `t` a request is too old to be accepted, or its nonce is in the table for as long as it may
-- be accepted.
abbrev Kept : ℕ → NonceTable → VerifiedFederationRequest → Type 0
Kept t table r =
    (r.timestamp_ms + 300000 < t)
    ⊎ ((id : ℕ) × (row : NonceRow) × (lookup id table ≡ some row)
        × (has_nonce r.source_peer_id r.nonce row ≡ true)
        × (r.timestamp_ms + 300000 ≤ row.expires_at_ms))

abbrev AllKept : ℕ → NonceTable → List VerifiedFederationRequest → Type 0
AllKept t table [] = Unit
AllKept t table (r ∷ accepted) = Kept t table r × AllKept t table accepted

AllKept-map :
    (t u : ℕ) (a b : NonceTable) (accepted : List VerifiedFederationRequest)
    → ((r : VerifiedFederationRequest) → Kept t a r → Kept u b r)
    → AllKept t a accepted
    → AllKept u b accepted
AllKept-map t u a b [] f k = tt
AllKept-map t u a b (r ∷ accepted) f (k, ks) = (f r k, AllKept-map t u a b accepted f ks)

Kept-later :
    (t u : ℕ) (table : NonceTable) (r : VerifiedFederationRequest)
    → t ≤ u
    → Kept t table r
    → Kept u table r
Kept-later t u table r h (inl old) = inl (omega arith)
Kept-later t u table r h (inr row) = inr row

Kept-prune :
    (t u limit : ℕ) (answers : Bool) (table : NonceTable) (r : VerifiedFederationRequest)
    → t ≤ u
    → Kept t table r
    → Kept u (prune_expired_replay_nonces answers table u limit) r
Kept-prune t u limit answers table r h (inl old) = inl (omega arith)
Kept-prune t u limit answers table r h (inr (id, row, found, same, late)) =
    elim (Bool-cases (ltb row.expires_at_ms u)) [
      | inl e ↦ inl (ground (arith, e))
      | inr e ↦
          inr (
            id,
            row,
            prune-keeps answers table u limit id row found (ground (arith, e)),
            same,
            late,
          )
    ]

Kept-insert :
    (t id : ℕ) (new_row : NonceRow) (table : NonceTable) (r : VerifiedFederationRequest)
    → lookup id table ≡ none
    → Kept t table r
    → Kept t (insert id new_row table) r
Kept-insert t id new_row table r free (inl old) = inl old
Kept-insert t id new_row table r free (inr (j, row, found, same, late)) = inr (
  j,
  row,
  lookup-insert id j new_row table
      ∙ ground (arith, found, free, λ (e : id ≡ j). ap (λ i. lookup i table) e),
  same,
  late,
)

-- A request that may still be accepted, and whose nonce is free, was not accepted before.
AllKept-fresh :
    (t : ℕ) (table : NonceTable) (r : VerifiedFederationRequest)
    (accepted : List VerifiedFederationRequest)
    → AllKept t table accepted
    → t ≤ r.timestamp_ms + 300000
    → conflicts table r.source_peer_id r.nonce ≡ false
    → any (same_signed r) accepted ≡ false
AllKept-fresh t table r [] k h free = refl
AllKept-fresh t table r (a ∷ accepted) (inl old, ks) h free =
    ground (arith, AllKept-fresh t table r accepted ks h free, old)
AllKept-fresh t table r (a ∷ accepted) (inr (id, row, found, same, late), ks) h free =
    elim (Bool-cases (same_signed r a)) [
      | inr e ↦ rw e (AllKept-fresh t table r accepted ks h free)
      | inl e ↦
          let source = (list_beq_iff a.source_peer_id r.source_peer_id).0 (ground (arith, e)) in
          let nonce = (list_beq_iff a.nonce r.nonce).0 (ground (arith, e)) in
          let there = conflicts-of_row table id row r.source_peer_id r.nonce found (
            ap (λ s. has_nonce s r.nonce row) (sym source)
            ∙ ap (λ n. has_nonce a.source_peer_id n row) (sym nonce)
            ∙ same) in
          absurd (ground (arith, there, free))
    ]

no_row : (id : ℕ) (table : NonceTable) → contains_key id table ≡ false → lookup id table ≡ none
no_row id table h = elim (Option-cases (lookup id table)) [
  | inl e ↦ e
  | inr (row, e) ↦ absurd (ground (arith, e, h))
]

module _ (c : Crates) (peer : List ℕ) (keys : PeerKeyStore) where
  abbrev verifier : FederationRequestVerifier
  verifier = new peer keys

  abbrev Sound : ℕ → Ledger → Type 0
  Sound t ledger = AllKept t ledger.table ledger.accepted × IsOnce ledger.accepted

  abbrev row_of : Request c → VerifiedFederationRequest → NonceRow
  row_of q r = record {
    source_peer_id = r.source_peer_id;
    key_id = r.key_id;
    nonce = r.nonce;
    request_timestamp_ms = r.timestamp_ms;
    expires_at_ms = saturating_add q.now_ms replay_nonce_ttl_ms;
    created_at_ms = q.now_ms;
  }

  abbrev checked : Request c → Result VerifiedFederationRequest VerifyError
  checked q = verify_signature c verifier q.clock events_method events_path q.headers q.body

  -- What a request makes of the ledger.
  request_step :
      (ledger : Ledger) (q : Request c)
      → (call_step c verifier ledger (request q) ≡ ledger)
        ⊎ ((r : VerifiedFederationRequest) × (checked q ≡ ok r)
            × (conflicts ledger.table r.source_peer_id r.nonce ≡ false)
            × (lookup q.id ledger.table ≡ none)
            × (call_step c verifier ledger (request q) ≡ record {
              table = insert q.id (row_of q r) ledger.table;
              accepted = r ∷ ledger.accepted;
            }))
  unfolding call_step admit reserve_replay_nonce
  request_step ledger q = elim (Result-cases (checked q)) [
    | inr (e, h) ↦ inl (rw h refl)
    | inl (r, h) ↦ elim (Bool-cases q.answers) [
      | inr off ↦ inl (rw (h, off) refl)
      | inl on ↦ elim (Bool-cases (conflicts ledger.table r.source_peer_id r.nonce)) [
        | inl again ↦ inl (rw (h, on, again) refl)
        | inr free ↦ elim (Bool-cases (contains_key q.id ledger.table)) [
          | inl taken ↦ inl (rw (h, on, free, taken) refl)
          | inr absent ↦
              inr (r, h, free, no_row q.id ledger.table absent, rw (h, on, free, absent) refl)
        ]
      ]
    ]
  ]

  accept_request :
      (t : ℕ) (ledger : Ledger) (q : Request c) (r : VerifiedFederationRequest)
      → Sound t ledger
      → t ≤ q.clock
      → q.clock ≤ q.now_ms
      → q.now_ms + replay_nonce_ttl_ms < 2 ^ 63
      → checked q ≡ ok r
      → conflicts ledger.table r.source_peer_id r.nonce ≡ false
      → lookup q.id ledger.table ≡ none
      → Sound q.now_ms
          (record { table = insert q.id (row_of q r) ledger.table; accepted = r ∷ ledger.accepted })
  unfolding new
  accept_request t ledger q r (kept, once) order later bound ok_r free absent =
      let fresh =
        (verify_signature-IsAccepted c verifier q.clock events_method events_path q.headers q.body r
          ok_r).fresh in
      let table : NonceTable = insert q.id (row_of q r) ledger.table in
      (
        (
          inr (
            q.id,
            row_of q r,
            lookup-insert q.id q.id (row_of q r) ledger.table ∙ ground (arith, eq_refl q.id),
            ground (arith, eq_refl r.source_peer_id, eq_refl r.nonce),
            ground (arith, fresh),
          ),
          AllKept-map t q.now_ms ledger.table table ledger.accepted
              (λ a k.
                Kept-insert q.now_ms q.id (row_of q r) ledger.table a absent
                  (Kept-later t q.now_ms ledger.table a (omega arith) k))
              kept,
        ),
        (AllKept-fresh t ledger.table r ledger.accepted kept (ground (arith, fresh)) free, once),
      )

  run_calls-Sound :
      (t : ℕ) (ledger : Ledger) (calls : List (Call c))
      → Sound t ledger
      → Timely c t calls
      → IsOnce (run_calls c verifier ledger calls).accepted
  unfolding run_calls
  run_calls-Sound t ledger [] (kept, once) timely = once
  run_calls-Sound t ledger (prune answers now limit ∷ calls) (kept, once) (order, timely) =
      run_calls-Sound now (call_step c verifier ledger (prune answers now limit)) calls
        (unfold call_step in
          (
            AllKept-map t now ledger.table
                (prune_expired_replay_nonces answers ledger.table now limit) ledger.accepted
                (λ a k. Kept-prune t now limit answers ledger.table a order k) kept,
            once,
          ))
        timely
  run_calls-Sound t ledger (request q ∷ calls) (kept, once) (order, later, bound, timely) =
      run_calls-Sound q.now_ms (call_step c verifier ledger (request q)) calls
        (elim (request_step ledger q) [
          | inl same ↦ rw same (
            AllKept-map t q.now_ms ledger.table ledger.table ledger.accepted
                (λ a k. Kept-later t q.now_ms ledger.table a (omega arith) k) kept,
            once,
          )
          | inr (r, ok_r, free, absent, step) ↦
              rw step (accept_request t ledger q r (kept, once) order later bound ok_r free absent)
        ])
        timely

  -- However requests to a verifier and prunings of expired nonces follow each other, the clock
  -- not going back and staying below 2^63 less the ten minutes a nonce is kept, no two requests
  -- that are admitted have the same source, nonce and timestamp: a signed request is admitted
  -- once, also after its nonce has been pruned.
  pub run_calls-IsOnce :
      (t : ℕ) (calls : List (Call c))
      → Timely c t calls
      → IsOnce (run_calls c (new peer keys) (record { table = []; accepted = [] }) calls).accepted
  run_calls-IsOnce t calls timely =
      run_calls-Sound t (record { table = []; accepted = [] }) calls (tt, tt) timely
