-- ===== src/Broadcast/Coalescing.antt =====
-- What the coalescer flushes is what was published (server-rs/src/services/broadcast.rs).
use Prim.Native.String.{String}
use verdant_backend.Prelude.{
  ℕ, string_eq, ◌=?◌, ◌+◌, ◌<◌, ◌≡◌, refl, sym, ap, ◌∙◌, Bool, true, List, [], ◌∷◌, ◌++◌, none,
  some, leb, if◌then◌else◌, inl, inr, Bool-cases, Option-cases, length, all, length-append, arith,
}
use verdant_backend.Prelude.OptionMonad.{unwrap_or}
use verdant_backend.Prelude.Dict
use verdant_backend.Prelude.Dict.{Dict, lookup, lookup-insert, lookup-modify, lookup-or_insert}
use verdant_backend.Broadcast.{
  Payload, PendingPublish, Event, received, ticked, run_coalescer, max_pending_before_flush,
}

abbrev pub Buffer : Type 0
Buffer = Dict String (List Payload)

-- The payloads of a topic in a buffer that is drained entry by entry, and in a list of such.
abbrev pub payloads_in : String → Buffer → List Payload
payloads_in topic [] = []
payloads_in topic ((t, payloads) ∷ buffer) =
    (if t =? topic then payloads else []) ++ payloads_in topic buffer

abbrev pub flushed : String → List Buffer → List Payload
flushed topic [] = []
flushed topic (buffer ∷ rest) = payloads_in topic buffer ++ flushed topic rest

-- The payloads published on a topic, in order.
abbrev pub published : String → List Event → List Payload
published topic [] = []
published topic (received p ∷ events) =
    (if p.topic =? topic then p.payload ∷ [] else []) ++ published topic events
published topic (ticked ∷ events) = published topic events

-- How many payloads a buffer holds.
abbrev pub size : Buffer → ℕ
size [] = 0
size ((topic, payloads) ∷ buffer) = length payloads + size buffer

-- No topic has two entries.
abbrev IsKeyed : Buffer → Type 0
IsKeyed [] = Unit
IsKeyed ((t, payloads) ∷ buffer) = (lookup t buffer ≡ none) × IsKeyed buffer

append_nil : (xs : List Payload) → xs ++ [] ≡ xs
append_nil [] = refl
append_nil (x ∷ xs) = ap (λ rest. x ∷ rest) (append_nil xs)

append_assoc : (xs ys zs : List Payload) → (xs ++ ys) ++ zs ≡ xs ++ (ys ++ zs)
append_assoc [] ys zs = refl
append_assoc (x ∷ xs) ys zs = ap (λ rest. x ∷ rest) (append_assoc xs ys zs)

payloads_in-absent :
    (topic : String) (b : Buffer) → lookup topic b ≡ none → payloads_in topic b ≡ []
payloads_in-absent topic [] h = refl
payloads_in-absent topic ((t, ps) ∷ b) h = elim (Bool-cases (t =? topic)) [
  | inl e ↦ ground (arith, e)
  | inr e ↦ ground (arith, e, payloads_in-absent topic b)
]

payloads_in-lookup :
    (topic : String) (b : Buffer) → IsKeyed b → payloads_in topic b ≡ unwrap_or [] (lookup topic b)
payloads_in-lookup topic [] k = refl
payloads_in-lookup topic ((t, ps) ∷ b) (fresh, k) = elim (Bool-cases (t =? topic)) [
  | inl e ↦
      rw
        (
          e,
          payloads_in-absent topic b
              (ap (λ x. lookup x b) (sym ((string_eq.beq_iff t topic).0 e)) ∙ fresh),
        )
        (append_nil ps)
  | inr e ↦ rw e (payloads_in-lookup topic b k)
]

IsKeyed-insert :
    (t : String) (ps : List Payload) (b : Buffer)
    → lookup t b ≡ none
    → IsKeyed b
    → IsKeyed (Dict.insert t ps b)
unfolding Dict.insert
IsKeyed-insert t ps [] h k = (refl, tt)
IsKeyed-insert t ps ((u, qs) ∷ b) h (fresh, k) = elim (Bool-cases (u =? t)) [
  | inl e ↦ ground (arith, e, h)
  | inr e ↦ rw e (
    ground (arith, lookup-insert t u ps b, fresh, e, string_eq.beq_iff t u, string_eq.beq_iff u t),
    IsKeyed-insert t ps b (ground (arith, h, e)) k,
  )
]

IsKeyed-modify :
    (t : String) (f : List Payload → List Payload) (b : Buffer)
    → IsKeyed b
    → IsKeyed (Dict.modify t f b)
unfolding Dict.modify
IsKeyed-modify t f [] k = tt
IsKeyed-modify t f ((u, qs) ∷ b) (fresh, k) =
    let still : lookup u (Dict.modify t f b) ≡ none =
      ground (arith, lookup-modify t u f b, fresh) in
    elim (Bool-cases (u =? t)) [
      | inl e ↦ rw e (still, IsKeyed-modify t f b k)
      | inr e ↦ rw e (still, IsKeyed-modify t f b k)
    ]

-- A publish is put at the end of its topic's payloads.
abbrev gather : PendingPublish → Buffer → Buffer
gather p b =
    Dict.modify p.topic (λ payloads. payloads ++ p.payload ∷ []) (Dict.or_insert p.topic [] b)

or_insert_absent :
    (t : String) (b : Buffer) → lookup t b ≡ none → Dict.or_insert t [] b ≡ Dict.insert t [] b
unfolding Dict.or_insert
or_insert_absent t b e = ground (arith, e)

or_insert_present :
    (t : String) (b : Buffer) (ps : List Payload) → lookup t b ≡ some ps → Dict.or_insert t [] b ≡ b
unfolding Dict.or_insert
or_insert_present t b ps e = ground (arith, e)

IsKeyed-or_insert : (t : String) (b : Buffer) → IsKeyed b → IsKeyed (Dict.or_insert t [] b)
IsKeyed-or_insert t b k = elim (Option-cases (lookup t b)) [
  | inl e ↦ rw (or_insert_absent t b e) (IsKeyed-insert t [] b e k)
  | inr (ps, e) ↦ rw (or_insert_present t b ps e) k
]

IsKeyed-gather : (p : PendingPublish) (b : Buffer) → IsKeyed b → IsKeyed (gather p b)
IsKeyed-gather p b k =
    IsKeyed-modify p.topic (λ payloads. payloads ++ p.payload ∷ []) (Dict.or_insert p.topic [] b)
      (IsKeyed-or_insert p.topic b k)

lookup-gather :
    (topic : String) (p : PendingPublish) (b : Buffer)
    → unwrap_or [] (lookup topic (gather p b))
      ≡ unwrap_or [] (lookup topic b) ++ (if p.topic =? topic then p.payload ∷ [] else [])
lookup-gather topic p b = elim (Bool-cases (p.topic =? topic)) [
  | inl e ↦ ground (
    arith,
    e,
    lookup-modify p.topic topic (λ payloads. payloads ++ p.payload ∷ [])
        (Dict.or_insert p.topic [] b),
    lookup-or_insert p.topic topic [] b,
  )
  | inr e ↦ ground (
    arith,
    e,
    lookup-modify p.topic topic (λ payloads. payloads ++ p.payload ∷ [])
        (Dict.or_insert p.topic [] b),
    lookup-or_insert p.topic topic [] b,
    append_nil (unwrap_or [] (lookup topic b)),
  )
]

payloads_in-gather :
    (topic : String) (p : PendingPublish) (b : Buffer)
    → IsKeyed b
    → payloads_in topic (gather p b)
      ≡ payloads_in topic b ++ (if p.topic =? topic then p.payload ∷ [] else [])
payloads_in-gather topic p b k =
    payloads_in-lookup topic (gather p b) (IsKeyed-gather p b k)
    ∙ lookup-gather topic p b
    ∙ ap (λ ps. ps ++ (if p.topic =? topic then p.payload ∷ [] else []))
        (sym (payloads_in-lookup topic b k))

flushed-run :
    (topic : String) (b : Buffer) (n : ℕ) (events : List Event)
    → IsKeyed b
    → flushed topic (run_coalescer b n events) ≡ payloads_in topic b ++ published topic events
unfolding run_coalescer
flushed-run topic [] n [] k = refl
flushed-run topic (entry ∷ b) n [] k = refl
flushed-run topic b n (received p ∷ events) k =
    let more = if p.topic =? topic then p.payload ∷ [] else [] in
    let first : payloads_in topic (gather p b) ++ published topic events
        ≡ payloads_in topic b ++ (more ++ published topic events) =
      ap (λ ps. ps ++ published topic events) (payloads_in-gather topic p b k)
      ∙ append_assoc (payloads_in topic b) more (published topic events) in
    elim (Bool-cases (leb 256 (n + 1))) [
      | inl e ↦ rw e (
          ap (λ ps. payloads_in topic (gather p b) ++ ps) (flushed-run topic [] 0 events tt)
          ∙ first)
      | inr e ↦ rw e (flushed-run topic (gather p b) (n + 1) events (IsKeyed-gather p b k) ∙ first)
    ]
flushed-run topic [] n (ticked ∷ events) k = flushed-run topic [] n events k
flushed-run topic (entry ∷ b) n (ticked ∷ events) k =
    ap (λ ps. payloads_in topic (entry ∷ b) ++ ps) (flushed-run topic [] 0 events tt)

size-modify :
    (t : String) (p : Payload) (b : Buffer)
    → IsKeyed b
    → size (Dict.modify t (λ payloads. payloads ++ p ∷ []) b)
      ≡ (if Dict.contains_key t b then size b + 1 else size b)
unfolding Dict.modify
size-modify t p [] k = refl
size-modify t p ((u, ps) ∷ b) (fresh, k) = elim (Bool-cases (u =? t)) [
  | inl e ↦ ground (
    arith,
    e,
    fresh,
    string_eq.beq_iff u t,
    λ (q : u ≡ t). ap (λ x. lookup x b) q,
    size-modify t p b k,
    length-append ps (p ∷ []),
  )
  | inr e ↦ ground (arith, e, size-modify t p b k)
]

size-insert : (t : String) (b : Buffer) → lookup t b ≡ none → size (Dict.insert t [] b) ≡ size b
unfolding Dict.insert
size-insert t [] h = refl
size-insert t ((u, ps) ∷ b) h = ground (arith, h, size-insert t b)

size-or_insert : (t : String) (b : Buffer) → size (Dict.or_insert t [] b) ≡ size b
size-or_insert t b = elim (Option-cases (lookup t b)) [
  | inl e ↦ rw (or_insert_absent t b e) (size-insert t b e)
  | inr (ps, e) ↦ rw (or_insert_present t b ps e) refl
]

size-gather : (p : PendingPublish) (b : Buffer) → IsKeyed b → size (gather p b) ≡ size b + 1
size-gather p b k =
    size-modify p.topic p.payload (Dict.or_insert p.topic [] b) (IsKeyed-or_insert p.topic b k)
    ∙ ground (
      arith,
      lookup-or_insert p.topic p.topic [] b,
      size-or_insert p.topic b,
      string_eq.beq_iff p.topic p.topic,
    )

-- No flush has more payloads than the limit.
abbrev pub within_limit : Buffer → Bool
within_limit buffer = leb (size buffer) max_pending_before_flush

within-run :
    (b : Buffer) (n : ℕ) (events : List Event)
    → IsKeyed b
    → size b ≡ n
    → n < 256
    → all within_limit (run_coalescer b n events) ≡ true
unfolding run_coalescer
within-run [] n [] k s l = refl
within-run (entry ∷ b) n [] k s l = ground (arith, s)
within-run b n (received p ∷ events) k s l = elim (Bool-cases (leb 256 (n + 1))) [
  | inl e ↦
      rw e (ground (arith, size-gather p b k, s, within-run [] 0 events tt refl (omega arith)))
  | inr e ↦ rw e (
      within-run (gather p b) (n + 1) events (IsKeyed-gather p b k)
        (ground (arith, size-gather p b k, s)) (ground (arith, e)))
]
within-run [] n (ticked ∷ events) k s l = within-run [] n events k s l
within-run (entry ∷ b) n (ticked ∷ events) k s l =
    ground (arith, s, within-run [] 0 events tt refl (omega arith))

-- Whatever publishes and ticks the coalescer meets until the senders end, the payloads that it
-- flushes of a topic are those published on it, each once and in order, and no flush has more
-- than 256 payloads.
pub run_coalescer_complete :
    (topic : String) (events : List Event)
    → (flushed topic (run_coalescer [] 0 events) ≡ published topic events)
      × (all within_limit (run_coalescer [] 0 events) ≡ true)
run_coalescer_complete topic events =
    (flushed-run topic [] 0 events tt, within-run [] 0 events tt refl (omega arith))
