-- ===== src/Lib.antt =====
-- verdant-backend is a chat backend in Rust (server-rs): HTTP handlers and a websocket layer over
-- PostgreSQL and Redis. This library models the parts that decide who may do what, how often, and
-- who is told of it. Each definition stands beside the function it follows, under that function's
-- name; a file's first comment says which code it is about.
--
-- The permission cache, server-rs/src/services/permissions.rs, is Permissions.antt and the files
-- below Permissions:
--   Bits      the permission words, `bits::has` and the overrides' masks, on 64 bits
--   Search    `binary_search_by_key`, sorting, and the edits of a vector at an index
--   Types     `PermissionCache`, its entries and the lookups in them
--   Compute   `compute_permissions`, `compute_server_permissions`, `verify_access`
--   Storage   the database's answers, a parameter of every operation that reads it
--   Loading   `lazy_load_server`, the checks and their fallbacks on the database
--             (`check_server_permission`, `check_channel_permission`, `check_hierarchy`)
--   Members   IDENTIFY, joins, leaves, cleanup timers, eviction and the idle sweep
--   Invalidation   role and override updates, channels created and deleted
--   Invariant      the sorted vectors through every operation, and the runs of the cache
-- The maps of the cache are association lists (Prelude.Dict), hash sets are lists without order
-- (Prelude.HashSet). An operation takes the cache and returns it. The DashMap locks are taken one
-- at a time in the source; an operation here is one step, so what two of them do in between each
-- other is not modelled. The instants of the clock are numbers that the caller gives.
--
-- The rate limits, server-rs/src/middleware/rate_limit.rs, are RateLimit.antt: the local counters,
-- the check that asks Redis first (its answer is an argument, none where the call fails), the
-- predefined limits and the headers that bypass them.
--
-- The connections, server-rs/src/ws/mod.rs, are Websocket.antt: `ConnectionManager` with its
-- subscriptions (Manager), what it sends (Delivery), and its runs (Mirror, Lifecycle).
--
--   Topics    the topics of channels, servers and users, the subscriptions of an instance in Redis
--             (`Hub`: the connections, the topics that Redis sends, and whether each command to
--             Redis is carried out, an input, since the code drops its result), and the end of a
--             connection. A run starts with the subscription to `ops:drain` of the start-up:
--             Bridged and Histories follow the calls one after another, Leaving is about users who
--             are taken out of a channel or server, Races about a task that runs late
--   Envelope  what instances send each other through Redis, and what a node makes of it
--   Drain     the commands that tell a node to send its clients elsewhere
--   FrameRate the limit on the frames of a connection
-- These follow server-rs/src/ws/topics.rs and server-rs/src/ws/connection.rs, of which the end of a
-- connection and the limit are modelled.
--
-- The broadcast service, server-rs/src/services/broadcast.rs, is Broadcast.antt: `run_coalescer`
-- gathers publishes by topic, `flush_topic` splits a topic's subscribers among the workers, and
-- `deliver` is a worker. How many messages of a work a connection's channel takes is a parameter, and
-- so are prost's decoding and encoding. The tasks of the workers are taken to run on, so that
-- handing a work to one does not fail.
--
-- The message batcher, server-rs/src/services/message_batcher.rs, is MessageBatcher.antt: what the
-- queue and the timer give is a list, and the INSERT is a parameter.
--
-- Channel visibility, server-rs/src/services/channel_visibility.rs, is ChannelVisibility.antt: it joins
-- the permission cache (Permissions.Viewers) and the topics.
--
-- The ids, server-rs/src/snowflake.rs, are Snowflake.antt: an attempt is one round of the loop of
-- `next_id` up to its exchange; a run is the list of the exchanges that succeed.
--
-- The network targets, server-rs/src/services/public_net.rs, are PublicNet.antt: which addresses are
-- public, and the filter of what a name resolves to; Blocks is the IPv4 blocks of special use, as
-- intervals, against which the code's tests are held.
--
-- The federation of backends, server-rs/src/federation, is Federation.antt:
--   Names, Crates, Auth   auth.rs: the validators, the crates it calls, and the signing and
--             verification of requests (Requests), the stores of keys and nonces (Stores). Canonical
--             is about the text that is signed; HeaderTexts and Signed follow a request from the
--             signer to the verifier, Accepted and Authentic go back from an accepted one, Replay
--             is about runs of a verifier, and SingleKey about one that holds one key, as the
--             handlers make it
--   Kinds, Ownership   the kinds of events in protocol.rs and, of ownership.rs, which may pass
--   Identity, Payload, Protocol   the hosts and names of identity.rs, the checks of each kind's
--             payload in protocol.rs, and ingress.rs
--   Runtime   the commands of runtime.rs that events become
--   ReplayTable   the nonces in the database (storage.rs), how the handler of
--             server-rs/src/handlers/federation.rs admits a request with them, and runs of both
--   Outbox    the outbox of storage.rs and outbox.rs: the plans after a failure (Plans, Codes), the
--             statements on its table (Statements), the dispatch of due events (Dispatch), what it
--             settles (Settled, Claims), runs of insertions and ticks (Queue, Cycles), and the attempts
--             of one event (Retries). A table is
--             an association list by its primary key; which statements fail, and what peers answer,
--             is a `World`
--   Receive   `receive_event` of server-rs/src/handlers/federation.rs, from the rate limit's answer to
--             the response: Errors, the table of inbound events (Inbound), and what a run of it
--             applies (Steps, Applied), and what a peer's outbox makes of its errors (Answers). What
--             applying a command returns is an input
-- A peer's request passes `verify_signature`, its body `from_json`, the two together
-- `validate_ingress_envelope`, and the event `command_from_envelope`. http, sha2, base64 and
-- ed25519-dalek are the record `Crates`, with the documented behaviour the code relies on in
-- `Documented`; serde_json is `Json`, url and the parser of addresses are `Urls`
-- (Federation.Interfaces). Texts are bytes, and the clock does not read before 1970.
--
-- The errors of server-rs/src/error.rs are AppError.antt. Prelude holds what all parts share.
--
-- Numbers are natural. An `i64` permission word is its 64 bits, so `!x` is written over 2^64;
-- identifiers are only compared. `u32` and `u64` counters wrap by `% 2 ^ 32` and `% 2 ^ 64`, as
-- release builds do. A role's position is taken not to be negative. Binary search runs on the
-- vector's length as fuel, which is enough since the interval shrinks in every round, and a number
-- has 20 decimal digits, which 64 bits never exceed. A sender of a websocket is a number, and a full
-- channel drops what it is handed.
--
-- Not modelled: the other handlers, the other SQL, the clients of Redis, NATS, mail, storage and voice
-- servers, tokens and passwords, and start-up, since they are input, output and third-party code;
-- the producer and client of the federation; the JSON and protobuf of the events.
pub mod Prelude
pub mod AppError
pub mod Permissions
pub mod RateLimit
pub mod Snowflake
pub mod Federation
pub mod MessageBatcher
pub mod Broadcast
pub mod ChannelVisibility
pub mod PublicNet
pub mod Websocket
