-- ===== src/Broadcast/Fanout.antt =====
-- What a subscriber of a topic is handed when the topic is flushed
-- (server-rs/src/services/broadcast.rs).
use Prim.Native.String.{String}
use verdant_backend.Prelude.{
  ℕ, zero, suc, nat_eq, string_eq, ◌+◌, ◌<◌, ◌≡◌, refl, sym, ap, ◌∙◌, Bool, true, false, List, [],
  ◌∷◌, ◌++◌, map, Option, none, some, ◌==◌, ==_iff, if◌then◌else◌, inl, inr, Bool-cases,
  Option-cases, length, take, arith,
}
use verdant_backend.Prelude.Dict.{lookup}
use verdant_backend.Websocket.Manager.{ConnectionManager, OutboundMsg, binary}
use verdant_backend.Broadcast.{
  Payload, BroadcastWork, message_for, deliver_individually, deliver_batch, deliver, Parts,
  empty_parts, use_batch, partition_conns, join_parts, dispatch, pack_batch_frame, flush_to,
  flush_topic,
}
use verdant_backend.Broadcast.Counting.{
  times, total, total-empty_parts, total-join_parts, length-empty_parts, length-join_parts,
  IsSplit-empty, IsSplit-partition_conns, total-partition_conns,
}

-- The messages of one connection among those handed out.
abbrev pub sent_to : ℕ → List (ℕ × OutboundMsg) → List OutboundMsg
sent_to c [] = []
sent_to c ((x, msg) ∷ rest) = (if x == c then msg ∷ [] else []) ++ sent_to c rest

abbrev repeat : ℕ → List OutboundMsg → List OutboundMsg
repeat zero msgs = []
repeat (suc n) msgs = msgs ++ repeat n msgs

append_nil : (xs : List OutboundMsg) → xs ++ [] ≡ xs
append_nil [] = refl
append_nil (x ∷ xs) = ap (λ rest. x ∷ rest) (append_nil xs)

append_assoc : (xs ys zs : List OutboundMsg) → (xs ++ ys) ++ zs ≡ xs ++ (ys ++ zs)
append_assoc [] ys zs = refl
append_assoc (x ∷ xs) ys zs = ap (λ rest. x ∷ rest) (append_assoc xs ys zs)

repeat-nil : (n : ℕ) → repeat n [] ≡ []
repeat-nil zero = refl
repeat-nil (suc n) = repeat-nil n

repeat-plus :
    (m n : ℕ) (msgs : List OutboundMsg) → repeat (m + n) msgs ≡ repeat m msgs ++ repeat n msgs
repeat-plus zero n msgs = ap (λ k. repeat k msgs) (omega arith)
repeat-plus (suc m) n msgs =
    let shift : suc m + n ≡ suc (m + n) = omega arith in
    ap (λ k. repeat k msgs) shift
    ∙ ap (λ rest. msgs ++ rest) (repeat-plus m n msgs)
    ∙ sym (append_assoc msgs (repeat m msgs) (repeat n msgs))

-- The works of all workers, delivered.
abbrev pub deliver_all :
    ConnectionManager → (ℕ → ℕ) → List (ℕ × BroadcastWork) → List (ℕ × OutboundMsg)
deliver_all cm room [] = []
deliver_all cm room ((worker_idx, work) ∷ works) = deliver cm room work ++ deliver_all cm room works

repeat_if :
    (b : Bool) (n : ℕ) (msgs : List OutboundMsg)
    → repeat ((if b then 1 else 0) + n) msgs ≡ (if b then msgs else []) ++ repeat n msgs
repeat_if true n msgs = let one : 1 + n ≡ suc n = omega arith in ap (λ k. repeat k msgs) one
repeat_if false n msgs =
    let none_more : 0 + n ≡ n = omega arith in ap (λ k. repeat k msgs) none_more

-- Each connection is handed its messages.
abbrev hand_each : (ℕ → List OutboundMsg) → List ℕ → List (ℕ × OutboundMsg)
hand_each msgs_of [] = []
hand_each msgs_of (x ∷ ids) = map (λ msg. (x, msg)) (msgs_of x) ++ hand_each msgs_of ids

module _ (c : ℕ) where
  sent_to-append :
      (xs ys : List (ℕ × OutboundMsg)) → sent_to c (xs ++ ys) ≡ sent_to c xs ++ sent_to c ys
  sent_to-append [] ys = refl
  sent_to-append ((x, msg) ∷ xs) ys =
      ap (λ rest. (if x == c then msg ∷ [] else []) ++ rest) (sent_to-append xs ys)
      ∙ sym (append_assoc (if x == c then msg ∷ [] else []) (sent_to c xs) (sent_to c ys))

  sent_to-label :
      (x : ℕ) (msgs : List OutboundMsg)
      → sent_to c (map (λ msg. (x, msg)) msgs) ≡ (if x == c then msgs else [])
  sent_to-label x [] = ground arith
  sent_to-label x (msg ∷ msgs) = elim (Bool-cases (x == c)) [
    | inl e ↦ ground (arith, e, sent_to-label x msgs)
    | inr e ↦ ground (arith, e, sent_to-label x msgs)
  ]

  own :
      (msgs_of : ℕ → List OutboundMsg) (x : ℕ)
      → (if x == c then msgs_of x else []) ≡ (if x == c then msgs_of c else [])
  own msgs_of x = ground (arith, ==_iff x c, λ (p : x ≡ c). ap msgs_of p)

  sent_to-hand_each :
      (msgs_of : ℕ → List OutboundMsg) (ids : List ℕ)
      → sent_to c (hand_each msgs_of ids) ≡ repeat (times c ids) (msgs_of c)
  sent_to-hand_each msgs_of [] = refl
  sent_to-hand_each msgs_of (x ∷ ids) =
      sent_to-append (map (λ msg. (x, msg)) (msgs_of x)) (hand_each msgs_of ids)
      ∙ ap (λ first. first ++ sent_to c (hand_each msgs_of ids))
          (sent_to-label x (msgs_of x) ∙ own msgs_of x)
      ∙ ap (λ rest. (if x == c then msgs_of c else []) ++ rest) (sent_to-hand_each msgs_of ids)
      ∙ sym (repeat_if (x == c) (times c ids) (msgs_of c))

module _ (cm : ConnectionManager) (room : ℕ → ℕ) where
  -- What a connection gets payload by payload, or as a batch: nothing when it has gone.
  abbrev pub individually : List Payload → ℕ → List OutboundMsg
  individually payloads c = elim (lookup c cm.conn_info) [
    | none ↦ []
    | some info ↦ take (room c) (map (message_for info.1) payloads)
  ]

  abbrev pub as_batch : List ℕ → ℕ → List OutboundMsg
  as_batch frame c = elim (lookup c cm.conn_info) [
    | none ↦ []
    | some _ ↦ take (room c) (binary frame ∷ [])
  ]

  deliver_individually-hand_each :
      (payloads : List Payload) (ids : List ℕ)
      → deliver_individually cm room payloads ids ≡ hand_each (individually payloads) ids
  unfolding deliver_individually
  deliver_individually-hand_each payloads [] = refl
  deliver_individually-hand_each payloads (x ∷ ids) = elim (Option-cases (lookup x cm.conn_info)) [
    | inl e ↦ ground (arith, e, deliver_individually-hand_each payloads ids)
    | inr (info, e) ↦ ground (arith, e, deliver_individually-hand_each payloads ids)
  ]

  deliver_batch-hand_each :
      (frame : List ℕ) (ids : List ℕ)
      → deliver_batch cm room frame ids ≡ hand_each (as_batch frame) ids
  unfolding deliver_batch
  deliver_batch-hand_each frame [] = refl
  deliver_batch-hand_each frame (x ∷ ids) = elim (Option-cases (lookup x cm.conn_info)) [
    | inl e ↦ ground (arith, e, deliver_batch-hand_each frame ids)
    | inr (info, e) ↦ ground (arith, e, deliver_batch-hand_each frame ids)
  ]

  -- What a batch brings, if there is one.
  abbrev framed : Option (List ℕ) → ℕ → List OutboundMsg
  framed none c = []
  framed (some frame) c = as_batch frame c

  module _ (c : ℕ) (payloads : List Payload) where
    work_for :
        (frame : Option (List ℕ)) (indiv batch : List ℕ)
        → sent_to c (
            deliver cm room (record {
              payloads = payloads;
              batch_proto = frame;
              indiv_conn_ids = indiv;
              batch_conn_ids = batch;
            }))
          ≡ repeat (times c indiv) (individually payloads c)
            ++ repeat (times c batch) (framed frame c)
    unfolding deliver
    work_for none indiv batch =
        sent_to-append c (deliver_individually cm room payloads indiv) []
        ∙ ap (λ msgs. sent_to c msgs ++ []) (deliver_individually-hand_each payloads indiv)
        ∙ ap (λ msgs. msgs ++ []) (sent_to-hand_each c (individually payloads) indiv)
        ∙ ap (λ rest. repeat (times c indiv) (individually payloads c) ++ rest)
            (sym (repeat-nil (times c batch)))
    work_for (some frame) indiv batch =
        sent_to-append c (deliver_individually cm room payloads indiv)
          (deliver_batch cm room frame batch)
        ∙ ap (λ msgs. sent_to c msgs ++ sent_to c (deliver_batch cm room frame batch))
            (deliver_individually-hand_each payloads indiv)
        ∙ ap (λ msgs. msgs ++ sent_to c (deliver_batch cm room frame batch))
            (sent_to-hand_each c (individually payloads) indiv)
        ∙ ap (λ msgs. repeat (times c indiv) (individually payloads c) ++ sent_to c msgs)
            (deliver_batch-hand_each frame batch)
        ∙ ap (λ rest. repeat (times c indiv) (individually payloads c) ++ rest)
            (sent_to-hand_each c (as_batch frame) batch)

    once : (n : ℕ) (msgs : List OutboundMsg) → n ≡ 1 → repeat n msgs ≡ msgs
    once n msgs h = ap (λ k. repeat k msgs) h ∙ append_nil msgs

    -- The works of the workers from an index on bring what the first one brings, then the others.
    dispatch_first :
        (frame : Option (List ℕ)) (idx : ℕ) (indiv batch : List ℕ) (indivs batches : List (List ℕ))
        → sent_to c
            (deliver_all cm room (dispatch payloads frame idx (indiv ∷ indivs) (batch ∷ batches)))
          ≡ (repeat (times c indiv) (individually payloads c)
              ++ repeat (times c batch) (framed frame c))
            ++ sent_to c (deliver_all cm room (dispatch payloads frame (idx + 1) indivs batches))
    unfolding dispatch
    dispatch_first frame idx [] [] indivs batches = refl
    dispatch_first frame idx [] (b ∷ batch) indivs batches =
        sent_to-append c
          (deliver cm room (record {
            payloads = payloads;
            batch_proto = frame;
            indiv_conn_ids = [];
            batch_conn_ids = b ∷ batch;
          }))
          (deliver_all cm room (dispatch payloads frame (idx + 1) indivs batches))
        ∙ ap
            (λ first.
              first
              ++ sent_to c (deliver_all cm room (dispatch payloads frame (idx + 1) indivs batches)))
            (work_for frame [] (b ∷ batch))
    dispatch_first frame idx (i ∷ indiv) batch indivs batches =
        sent_to-append c
          (deliver cm room (record {
            payloads = payloads;
            batch_proto = frame;
            indiv_conn_ids = i ∷ indiv;
            batch_conn_ids = batch;
          }))
          (deliver_all cm room (dispatch payloads frame (idx + 1) indivs batches))
        ∙ ap
            (λ first.
              first
              ++ sent_to c (deliver_all cm room (dispatch payloads frame (idx + 1) indivs batches)))
            (work_for frame (i ∷ indiv) batch)

    dispatch-individually :
        (frame : Option (List ℕ)) (idx : ℕ) (indivs batches : List (List ℕ))
        → length indivs ≡ length batches
        → total c batches ≡ 0
        → sent_to c (deliver_all cm room (dispatch payloads frame idx indivs batches))
          ≡ repeat (total c indivs) (individually payloads c)
    unfolding dispatch
    dispatch-individually frame idx [] batches l h = refl
    dispatch-individually frame idx (i ∷ is) [] l h = absurd (omega arith)
    dispatch-individually frame idx (i ∷ is) (b ∷ bs) l h =
        let x = individually payloads c in
        let no_batch : times c b ≡ 0 = omega (arith, h) in
        dispatch_first frame idx i b is bs
        ∙ ap
            (λ k.
              (repeat (times c i) x ++ repeat k (framed frame c))
              ++ sent_to c (deliver_all cm room (dispatch payloads frame (idx + 1) is bs)))
            no_batch
        ∙ ap
            (λ first.
              first ++ sent_to c (deliver_all cm room (dispatch payloads frame (idx + 1) is bs)))
            (append_nil (repeat (times c i) x))
        ∙ ap (λ rest. repeat (times c i) x ++ rest)
            (dispatch-individually frame (idx + 1) is bs (omega (arith, l)) (omega (arith, h)))
        ∙ sym (repeat-plus (times c i) (total c is) x)

    dispatch-framed :
        (frame : Option (List ℕ)) (idx : ℕ) (indivs batches : List (List ℕ))
        → length indivs ≡ length batches
        → total c indivs ≡ 0
        → sent_to c (deliver_all cm room (dispatch payloads frame idx indivs batches))
          ≡ repeat (total c batches) (framed frame c)
    unfolding dispatch
    dispatch-framed frame idx [] [] l h = refl
    dispatch-framed frame idx [] (b ∷ bs) l h = absurd (omega arith)
    dispatch-framed frame idx (i ∷ is) [] l h = absurd (omega arith)
    dispatch-framed frame idx (i ∷ is) (b ∷ bs) l h =
        let y = framed frame c in
        let no_indiv : times c i ≡ 0 = omega (arith, h) in
        dispatch_first frame idx i b is bs
        ∙ ap
            (λ k.
              (repeat k (individually payloads c) ++ repeat (times c b) y)
              ++ sent_to c (deliver_all cm room (dispatch payloads frame (idx + 1) is bs)))
            no_indiv
        ∙ ap (λ rest. repeat (times c b) y ++ rest)
            (dispatch-framed frame (idx + 1) is bs (omega (arith, l)) (omega (arith, h)))
        ∙ sym (repeat-plus (times c b) (total c bs) y)

    -- What the connection is handed: the frame where it takes batches and there is one.
    abbrev pub expected : Bool → Option (List ℕ) → List OutboundMsg
    expected true (some frame) = as_batch frame c
    expected true none = individually payloads c
    expected false packed = individually payloads c

    abbrev works : ℕ → Parts → Option (List ℕ) → List (ℕ × BroadcastWork)
    works n parts packed = elim (if parts.any_batch_candidate then packed else none) [
      | some frame ↦ dispatch payloads (some frame) 0 parts.indiv_parts parts.batch_parts
      | none ↦
          if parts.any_batch_candidate
          then dispatch payloads none 0 (join_parts parts.indiv_parts parts.batch_parts)
              (empty_parts n)
          else dispatch payloads none 0 parts.indiv_parts parts.batch_parts
    ]

    module _ (n : ℕ) (indivs batches : List (List ℕ)) (li : length indivs ≡ n)
        (lb : length batches ≡ n) where
      abbrev split : Bool → Parts
      split any = record { indiv_parts = indivs; batch_parts = batches; any_batch_candidate = any }

      same_length : length indivs ≡ length batches
      same_length = li ∙ sym lb

      join_length : length (join_parts indivs batches) ≡ length (empty_parts n)
      join_length = length-join_parts indivs batches same_length ∙ li ∙ sym (length-empty_parts n)

      works-sent :
          (any takes : Bool) (packed : Option (List ℕ))
          → (any ≡ false → total c batches ≡ 0)
          → total c batches ≡ (if takes then 1 else 0)
          → total c indivs ≡ (if takes then 0 else 1)
          → sent_to c (deliver_all cm room (works n (split any) packed)) ≡ expected takes packed
      works-sent false true packed none_takes tb ti = absurd (omega (arith, none_takes refl, tb))
      works-sent false false packed none_takes tb ti =
          dispatch-individually none 0 indivs batches same_length tb
          ∙ once (total c indivs) (individually payloads c) ti
      works-sent true true (some frame) none_takes tb ti =
          dispatch-framed (some frame) 0 indivs batches same_length ti
          ∙ once (total c batches) (as_batch frame c) tb
      works-sent true false (some frame) none_takes tb ti =
          dispatch-individually (some frame) 0 indivs batches same_length tb
          ∙ once (total c indivs) (individually payloads c) ti
      works-sent true true none none_takes tb ti =
          dispatch-individually none 0 (join_parts indivs batches) (empty_parts n) join_length
            (total-empty_parts c n)
          ∙ once (total c (join_parts indivs batches)) (individually payloads c)
              (omega (arith, total-join_parts c indivs batches same_length, tb, ti))
      works-sent true false none none_takes tb ti =
          dispatch-individually none 0 (join_parts indivs batches) (empty_parts n) join_length
            (total-empty_parts c n)
          ∙ once (total c (join_parts indivs batches)) (individually payloads c)
              (omega (arith, total-join_parts c indivs batches same_length, tb, ti))

module _ {WsMessage : Type 0} (decode : List ℕ → Option WsMessage)
    (encode_batch : List WsMessage → Option (List ℕ)) (cm : ConnectionManager) (room : ℕ → ℕ) where
  taken_nil : (k : ℕ) → take {A = OutboundMsg} k [] ≡ []
  taken_nil zero = refl
  taken_nil (suc k) = refl

  nothing_published : (c : ℕ) → individually cm room [] c ≡ []
  nothing_published c = elim (Option-cases (lookup c cm.conn_info)) [
    | inl e ↦ ground (arith, e)
    | inr (info, e) ↦ ground (arith, e, taken_nil (room c))
  ]

  flush_to-expected :
      (n : ℕ) (payloads : List Payload) (conns : List ℕ) (c : ℕ)
      → 0 < n
      → times c conns ≡ 1
      → sent_to c (deliver_all cm room (flush_to decode encode_batch cm n payloads conns))
        ≡ expected cm room c payloads
            (use_batch cm (length payloads) c)
            (pack_batch_frame decode encode_batch payloads)
  unfolding flush_to
  flush_to-expected n payloads [] c positive one = absurd (omega arith)
  flush_to-expected n payloads (x ∷ conns) c positive one =
      let start : Parts = record {
        indiv_parts = empty_parts n;
        batch_parts = empty_parts n;
        any_batch_candidate = false;
      } in
      let parts = partition_conns cm (length payloads) n (x ∷ conns) start in
      let s =
        IsSplit-partition_conns cm (length payloads) n positive (x ∷ conns) start
          (IsSplit-empty n) in
      let totals =
        total-partition_conns cm (length payloads) n positive c (x ∷ conns) start
          (IsSplit-empty n) in
      let nil = total-empty_parts c n in
      works-sent cm room c payloads n parts.indiv_parts parts.batch_parts s.indiv_length
        s.batch_length parts.any_batch_candidate (use_batch cm (length payloads) c)
        (pack_batch_frame decode encode_batch payloads) (s.no_candidate c)
        (ground (arith, totals, nil, one)) (ground (arith, totals, nil, one))

  -- With at least one worker, a connection that is once in a topic's set is handed, over all
  -- workers, each payload of a flushed topic once and in order, or one packed frame where it
  -- takes batches, reads protobuf, more than one payload waits and the packing succeeds; of that,
  -- as much as its channel takes, and nothing when it is gone.
  pub flush_topic-expected :
      (num_workers : ℕ) (topic : String) (payloads : List Payload) (conns : List ℕ) (c : ℕ)
      → 0 < num_workers
      → lookup topic cm.topic_subscribers ≡ some conns
      → times c conns ≡ 1
      → sent_to c
          (deliver_all cm room (flush_topic decode encode_batch cm num_workers topic payloads))
        ≡ expected cm room c payloads
            (use_batch cm (length payloads) c)
            (pack_batch_frame decode encode_batch payloads)
  unfolding flush_topic
  flush_topic-expected n topic [] conns c positive subscribed one =
      unfold use_batch in sym (nothing_published c)
  flush_topic-expected n topic (p ∷ ps) conns c positive subscribed one =
      ap
        (λ o. sent_to c (
          deliver_all cm room
            (elim o [ none ↦ [] | some found ↦ flush_to decode encode_batch cm n (p ∷ ps) found ])))
        subscribed
      ∙ flush_to-expected n (p ∷ ps) conns c positive one
