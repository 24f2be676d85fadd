-- ===== src/Federation/Auth/Replay.antt =====
-- Runs of a verifier with the nonces in memory (server-rs/src/federation/auth.rs): a list of
-- requests, one after another.
use verdant_backend.Prelude.{
  ℕ, ◌≡◌, refl, ap, ◌∙◌, Bool, true, false, ◌||◌, List, [], ◌∷◌, ◌++◌, map, nat_eq, list_eq,
  pair_eq, list_beq_iff, pair_beq_iff, eq_refl, ◌=?◌, if◌then◌else◌, all, Bool-cases, inl, inr,
  arith,
}
use verdant_backend.Prelude.HashSet.{contains, insert, contains-insert}
use verdant_backend.Prelude.Result.{Result, ok, err, Result-cases}
use verdant_backend.Federation.Names.{validate_nonce, is_nonce_byte}
use verdant_backend.Federation.Crates.{Crates}
use verdant_backend.Federation.Auth.{
  VerifyError, VerifiedFederationRequest, FederationRequestVerifier,
}
use verdant_backend.Federation.Auth.Requests.{HeaderMap, verify_signature, verify}
use verdant_backend.Federation.Auth.Stores.{InMemoryNonceStore, nonce_key, reserve}
use verdant_backend.Federation.Auth.Accepted.{verify_signature-IsAccepted}
use verdant_backend.Federation.Auth.Canonical.{nonce_line}

nonce_no_colon : (nonce : List ℕ) → all is_nonce_byte nonce ≡ true → contains 58 nonce ≡ false
nonce_no_colon [] h = refl
nonce_no_colon (b ∷ nonce) h =
    ground (arith, nonce_no_colon nonce, λ (e : b ≡ 58). ap is_nonce_byte e)

contains_here : (b : ℕ) (xs ys : List ℕ) → contains b (xs ++ b ∷ ys) ≡ true
contains_here b [] ys = ground (arith, eq_refl b)
contains_here b (x ∷ xs) ys = ground (arith, contains_here b xs ys)

-- A nonce has no `:`, so the store's text of a peer and a nonce determines both.
nonce_key-injective :
    (p q n m : List ℕ)
    → contains 58 n ≡ false
    → contains 58 m ≡ false
    → nonce_key p n ≡ nonce_key q m
    → (p ≡ q) × (n ≡ m)
nonce_key-injective [] [] n m h k e = (refl, ground (arith, e))
nonce_key-injective [] (y ∷ q) n m h k e =
    let rest : n ≡ q ++ 58 ∷ m = ground (arith, e) in
    absurd (ground (arith, h, ap (contains 58) rest, contains_here 58 q m))
nonce_key-injective (x ∷ p) [] n m h k e =
    let rest : p ++ 58 ∷ n ≡ m = ground (arith, e) in
    absurd (ground (arith, k, ap (contains 58) rest, contains_here 58 p n))
nonce_key-injective (x ∷ p) (y ∷ q) n m h k e = ground (arith, nonce_key-injective p q n m, e)

-- Whom a request is from, and its nonce.
abbrev pub sender : VerifiedFederationRequest → List ℕ × List ℕ
sender r = (r.source_peer_id, r.nonce)

abbrev pub seen_by : List ℕ × List ℕ → List VerifiedFederationRequest → Bool
seen_by s accepted = contains s (map sender accepted)

pub record Arrival (c : Crates) : Type 0 where
  pub clock : ℕ
  pub method : List ℕ
  pub path : List ℕ
  pub headers : HeaderMap c
  pub body : List ℕ

-- A store, and the requests accepted so far, the last one first.
pub record Run : Type 0 where
  pub store : InMemoryNonceStore
  pub accepted : List VerifiedFederationRequest

abbrev pub start : Run
start = record { store = record { seen = []; poisoned = false }; accepted = [] }

same_truth : {a b : Bool} → (a ≡ true → b ≡ true) → (b ≡ true → a ≡ true) → a ≡ b
same_truth h k = ground (arith, h, k)

same_key :
    (r : VerifiedFederationRequest) (p n : List ℕ)
    → validate_nonce r.nonce ≡ true
    → validate_nonce n ≡ true
    → (nonce_key r.source_peer_id r.nonce =? nonce_key p n) ≡ (sender r =? (p, n))
same_key r p n h k =
    let key : List ℕ = nonce_key r.source_peer_id r.nonce in
    same_truth
      (λ t.
        let (ep, en) =
          nonce_key-injective r.source_peer_id p r.nonce n
            (nonce_no_colon r.nonce (nonce_line r.nonce h)) (nonce_no_colon n (nonce_line n k))
            ((list_beq_iff key (nonce_key p n)).0 t) in
        (pair_beq_iff (sender r) (p, n)).1 (ap (λ q. (q, r.nonce)) ep ∙ ap (λ m. (p, m)) en))
      (λ t.
        let e = (pair_beq_iff (sender r) (p, n)).0 t in
        (list_beq_iff key (nonce_key p n)).1 (ap (λ q. nonce_key q.0 q.1) e))

-- No sender uses a nonce twice.
abbrev pub NoRepeat : List VerifiedFederationRequest → Type 0
NoRepeat [] = Unit
NoRepeat (r ∷ accepted) = (seen_by (sender r) accepted ≡ false) × NoRepeat accepted

module _ (c : Crates) (v : FederationRequestVerifier) where
  abbrev pub check : Arrival c → Result VerifiedFederationRequest VerifyError
  check a = verify_signature c v a.clock a.method a.path a.headers a.body

  abbrev pub answer :
      InMemoryNonceStore
      → Arrival c
      → InMemoryNonceStore × Result VerifiedFederationRequest VerifyError
  answer store a = verify c reserve v store a.clock a.method a.path a.headers a.body

  unfoldable pub step : Run → Arrival c → Run
  step run a =
      let (store, result) = answer run.store a in
      record {
        store = store;
        accepted = elim result [ ok r ↦ r ∷ run.accepted | err _ ↦ run.accepted ];
      }

  unfoldable pub run_from : Run → List (Arrival c) → Run
  unfolding step
  run_from run [] = run
  run_from run (a ∷ rest) = run_from (step run a) rest

  -- The store holds exactly the senders of the accepted requests.
  record Tracks (run : Run) : Type 0 where
    working : run.store.poisoned ≡ false
    tracked :
        (p n : List ℕ)
        → validate_nonce n ≡ true
        → contains (nonce_key p n) run.store.seen ≡ seen_by (p, n) run.accepted

  -- An answer, by what the signature check says and what was accepted before.
  answer-Tracks :
      (run : Run) (a : Arrival c) (r : VerifiedFederationRequest)
      → Tracks run
      → check a ≡ ok r
      → (answer run.store a).1
        ≡ (if seen_by (sender r) run.accepted then err VerifyError.replay else ok r)
  unfolding verify reserve
  answer-Tracks run a r t h =
      let accepted = verify_signature-IsAccepted c v a.clock a.method a.path a.headers a.body r h in
      rw h (ground (arith, t.working, t.tracked r.source_peer_id r.nonce accepted.nonce_ok))

  -- The run that accepts a request more.
  abbrev accept : Run → VerifiedFederationRequest → Run
  accept run r = record {
    store = record {
      seen = insert (nonce_key r.source_peer_id r.nonce) run.store.seen;
      poisoned = false;
    };
    accepted = r ∷ run.accepted;
  }

  step-rejected : (run : Run) (a : Arrival c) (e : VerifyError) → check a ≡ err e → step run a ≡ run
  unfolding step verify
  step-rejected run a e h = rw h refl

  step-replayed :
      (run : Run) (a : Arrival c) (r : VerifiedFederationRequest)
      → Tracks run
      → check a ≡ ok r
      → seen_by (sender r) run.accepted ≡ true
      → step run a ≡ run
  unfolding step verify reserve
  step-replayed run a r t h again =
      let valid =
        (verify_signature-IsAccepted c v a.clock a.method a.path a.headers a.body r h).nonce_ok in
      rw (h, t.working, t.tracked r.source_peer_id r.nonce valid, again) refl

  step-accepted :
      (run : Run) (a : Arrival c) (r : VerifiedFederationRequest)
      → Tracks run
      → check a ≡ ok r
      → seen_by (sender r) run.accepted ≡ false
      → step run a ≡ accept run r
  unfolding step verify reserve
  step-accepted run a r t h first =
      let valid =
        (verify_signature-IsAccepted c v a.clock a.method a.path a.headers a.body r h).nonce_ok in
      rw (h, t.working, t.tracked r.source_peer_id r.nonce valid, first) refl

  accept-Tracks :
      (run : Run) (r : VerifiedFederationRequest)
      → validate_nonce r.nonce ≡ true
      → Tracks run
      → Tracks (accept run r)
  unfolding validate_nonce
  accept-Tracks run r valid t = record {
    working = refl;
    tracked = λ p n h.
        rw
          (
            contains-insert (nonce_key r.source_peer_id r.nonce) (nonce_key p n) run.store.seen,
            t.tracked p n h,
          )
          (ap (λ same. same || seen_by (p, n) run.accepted) (same_key r p n valid h));
  }

  -- What every step keeps.
  abbrev Sound : Run → Type 0
  Sound run = Tracks run × NoRepeat run.accepted

  step-Sound : (run : Run) (a : Arrival c) → Sound run → Sound (step run a)
  step-Sound run a (t, distinct) = elim (Result-cases (check a)) [
    | inr (e, h) ↦ rw (step-rejected run a e h) (t, distinct)
    | inl (r, h) ↦ elim (Bool-cases (seen_by (sender r) run.accepted)) [
      | inl again ↦ rw (step-replayed run a r t h again) (t, distinct)
      | inr first ↦
          let valid =
            (verify_signature-IsAccepted c v a.clock a.method a.path a.headers a.body r
              h).nonce_ok in
          rw (step-accepted run a r t h first) (accept-Tracks run r valid t, (first, distinct))
    ]
  ]

  run_from-Sound :
      (run : Run) (arrivals : List (Arrival c)) → Sound run → Sound (run_from run arrivals)
  unfolding run_from
  run_from-Sound run [] s = s
  run_from-Sound run (a ∷ rest) s = run_from-Sound (step run a) rest (step-Sound run a s)

  start-Sound : Sound start
  start-Sound = (record { working = refl; tracked = λ p n h. refl }, tt)

  -- Among the requests that a verifier with the nonces in memory accepts in a run, no two have
  -- the same source and nonce.
  pub run_from-NoRepeat :
      (arrivals : List (Arrival c)) → NoRepeat (run_from start arrivals).accepted
  run_from-NoRepeat arrivals = (run_from-Sound start arrivals start-Sound).1

  -- After any requests, a verifier with the nonces in memory answers a request that passes the
  -- signature check with a replay error when it has accepted the same nonce from the same source,
  -- and otherwise accepts it.
  pub answer-run_from :
      (arrivals : List (Arrival c)) (a : Arrival c) (r : VerifiedFederationRequest)
      → check a ≡ ok r
      → (answer (run_from start arrivals).store a).1 ≡ (
          if seen_by (sender r) (run_from start arrivals).accepted
          then err VerifyError.replay
          else ok r)
  answer-run_from arrivals a r h =
      answer-Tracks (run_from start arrivals) a r (run_from-Sound start arrivals start-Sound).0 h
