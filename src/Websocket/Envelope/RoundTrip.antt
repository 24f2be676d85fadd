-- ===== src/Websocket/Envelope/RoundTrip.antt =====
-- What is published arrives (server-rs/src/ws/topics.rs).
use verdant_backend.Prelude.{
  ℕ, zero, suc, ◌+◌, ◌%◌, ◌≤◌, ◌<◌, ◌≡◌, refl, ap, ◌∙◌, Bool, true, false, ◌&&◌, ◌||◌, List, [],
  ◌∷◌, ◌++◌, some, nat_eq, list_eq, ◌=?◌, ltb, leb, if◌then◌else◌, inl, inr, Bool-cases,
  Option-cases, length, take, all, length-append, take_append_self, drop_append_self, list_beq_iff,
  arith,
}
use verdant_backend.Prelude.HashSet.{is_empty}
use verdant_backend.Prelude.Utf8.{from_utf8, from_utf8-ascii, from_utf8-append, from_utf8_same}
use verdant_backend.Websocket.Envelope.{
  redis_proto_envelope, parse_redis_proto_envelope, redis_json_envelope, split_line,
  parse_json_envelope, ignored, remote_proto, remote_json, receive_json, receive,
}

-- A hexadecimal digit in lower case.
abbrev pub is_hex : ℕ → Bool
is_hex b = (leb 48 b && leb b 57) || (leb 97 b && leb b 102)

-- `format!("{:016x}", …)`, as the node's id is made at the start.
pub record IsNodeId (node_id : List ℕ) : Type 0 where
  pub sixteen : length node_id ≡ 16
  pub digits : all is_hex node_id ≡ true

hex_ascii : (bytes : List ℕ) → all is_hex bytes ≡ true → all (λ b. ltb b 128) bytes ≡ true
hex_ascii [] h = refl
hex_ascii (b ∷ bytes) h = ground (arith, hex_ascii bytes)

-- An envelope parses to the node id and the payload, for node ids of ASCII bytes and fewer than 256.
pub parse-redis_proto_envelope :
    (node_id proto_bytes : List ℕ)
    → all (λ b. ltb b 128) node_id ≡ true
    → length node_id < 256
    → parse_redis_proto_envelope (redis_proto_envelope node_id proto_bytes)
      ≡ some (node_id, proto_bytes)
unfolding redis_proto_envelope parse_redis_proto_envelope
parse-redis_proto_envelope node_id proto_bytes ascii short =
    let fits : length node_id % 256 ≡ length node_id = omega arith in
    rw fits (
      ground (
        arith,
        take_append_self node_id proto_bytes,
        drop_append_self node_id proto_bytes,
        from_utf8-ascii node_id ascii,
        length-append node_id proto_bytes,
      ))

-- What a node whose id is 16 hexadecimal digits publishes as protobuf, not empty, a node of the
-- same id ignores, and every other node hands to its subscribers as it was.
pub receive-redis_proto_envelope :
    (node_id origin proto_bytes : List ℕ)
    → IsNodeId origin
    → is_empty proto_bytes ≡ false
    → receive node_id (redis_proto_envelope origin proto_bytes)
      ≡ (if origin =? node_id then ignored else remote_proto proto_bytes)
unfolding receive redis_proto_envelope
receive-redis_proto_envelope node_id origin proto_bytes o ne =
    let parsed : parse_redis_proto_envelope (redis_proto_envelope origin proto_bytes)
        ≡ some (origin, proto_bytes) =
      parse-redis_proto_envelope origin proto_bytes (hex_ascii origin o.digits)
        (omega (arith, o.sixteen)) in
    ground (arith, o.sixteen, ne, parsed)

split_line-append :
    (line rest : List ℕ)
    → all is_hex line ≡ true
    → split_line (line ++ 10 ∷ rest) ≡ some (line, rest)
unfolding split_line
split_line-append [] rest h = refl
split_line-append (b ∷ line) rest h = ground (arith, split_line-append line rest)

receive_json-redis_json_envelope :
    (node_id origin json : List ℕ)
    → all is_hex origin ≡ true
    → from_utf8 json ≡ some json
    → receive_json node_id (redis_json_envelope origin json)
      ≡ (if origin =? node_id then ignored else remote_json json)
unfolding receive_json redis_json_envelope parse_json_envelope
receive_json-redis_json_envelope node_id origin json h u = ground (
  arith,
  from_utf8-append origin (10 ∷ json) (hex_ascii origin h),
  from_utf8-append (10 ∷ []) json refl,
  u,
  split_line-append origin json h,
)

length-take : (n : ℕ) (xs : List ℕ) → n ≤ length xs → length (take n xs) ≡ n
length-take zero xs h = refl
length-take (suc n) [] h = absurd (omega arith)
length-take (suc n) (x ∷ xs) h = ap suc (length-take n xs (omega arith))

-- A byte above 15 at the front is no length of a node id.
not_own :
    (node_id rest : List ℕ) (b : ℕ)
    → length node_id ≡ 16
    → 16 < b
    → b ≤ length rest
    → (take b rest =? node_id) ≡ false
not_own node_id rest b s above fits = elim (Bool-cases (take b rest =? node_id)) [
  | inr e ↦ e
  | inl e ↦
      let same : take b rest ≡ node_id = (list_beq_iff (take b rest) node_id).0 e in
      absurd (omega (arith, ap length same, length-take b rest fits))
]

receive_legacy :
    (node_id rest : List ℕ) (b : ℕ)
    → length node_id ≡ 16
    → 16 < b
    → receive node_id (b ∷ rest) ≡ receive_json node_id (b ∷ rest)
unfolding receive parse_redis_proto_envelope
receive_legacy node_id rest b s above = elim (Bool-cases (ltb (length (b ∷ rest)) (1 + b))) [
  | inl short ↦ ground (arith, short)
  | inr fits ↦ elim (Option-cases (from_utf8 (take b rest))) [
    | inl e ↦ ground (arith, fits, e)
    | inr (x, e) ↦ ground (
      arith,
      fits,
      e,
      from_utf8_same (take b rest) x e,
      not_own node_id rest b s above,
      λ (p : take b rest ≡ x). ap (λ t. t =? node_id) p,
    )
  ]
]

-- What a node publishes as JSON text in UTF-8, a node of the same id ignores, and every other
-- node hands to its subscribers as it was; the ids are 16 hexadecimal digits.
pub receive-redis_json_envelope :
    (node_id origin json : List ℕ)
    → IsNodeId node_id
    → IsNodeId origin
    → from_utf8 json ≡ some json
    → receive node_id (redis_json_envelope origin json)
      ≡ (if origin =? node_id then ignored else remote_json json)
unfolding redis_json_envelope
receive-redis_json_envelope node_id [] json n o u = absurd (omega (arith, o.sixteen))
receive-redis_json_envelope node_id (b ∷ origin) json n o u =
    receive_legacy node_id (origin ++ 10 ∷ json) b n.sixteen (ground (arith, o.digits))
    ∙ receive_json-redis_json_envelope node_id (b ∷ origin) json o.digits u
