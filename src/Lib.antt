-- ===== src/Lib.antt =====
-- RSHome: a smart-home daemon and firmware configurator for ESP32 devices, in Rust. This library
-- models parts of its crates and shows what makes them correct.
--
-- The parts and how they interact. `crates/rshome-schema` describes components, chips, pins and
-- retry policies; `crates/rshome-config` validates a configuration against it.
-- `crates/rshome-device-link` finds devices by mDNS and keeps one session for each, which speaks
-- the native API of `crates/rshome-native-api`. `crates/rshome-wf` runs workflows over entities and
-- services; `crates/rshome-state` stores the states of entities. `crates/rshome-wasm-host` gives
-- guests handles to host objects.
--
-- Which file models which part:
--   NativeApi/Codec     crates/rshome-native-api/src/codec.rs: peek_varint, write_varint, decode and
--                       encode over lists of bytes; `decode` returns its answer and the buffer that
--                       it leaves.
--   NativeApi/Fnv       crates/rshome-native-api/src/fnv.rs: fnv1a_32.
--   Schema/Chip, Pin    crates/rshome-schema/src/platform.rs and pin.rs: the chip tables, the
--                       resource tracker and the validation of pins.
--   Schema/Registry     crates/rshome-schema/src/registry.rs: resolve_auto_load,
--                       check_dependencies and check_conflicts. Hash sets are lists of members.
--   Schema/Profile      crates/rshome-schema/src/profile.rs: the profiles and their registry.
--   Schema/Solution     crates/rshome-schema/src/solution.rs: solutions, variants and their registry,
--                       as far as the validation reads them.
--   Schema/Flags, Entity  crates/rshome-schema/src/feature_flags.rs and entity.rs: the flags and
--                       entity counts of a selection.
--   Schema/Orchestration  crates/rshome-schema/src/orchestration.rs: RetryPolicy and traces.
--   Config              crates/rshome-config/src: raw.rs (Raw), error.rs (Diagnostic), and the stages
--                       1 (Packages), 2 (Substitutions), 3 (Merge, Directives), 3.5 (Variants), 4
--                       (Sources), 5 (Preload), 6 (Loading), 7 (Schemas), 8 (Ids), 9 (FinalChecks,
--                       with sigrok.rs), 10 (PinConflicts), 11 (ExclusiveGroups), 12 (Profiles) and
--                       13 (SecretFields); Value is the document type of serde_json, with the
--                       constructors that the stages match on and maps in the order of their keys.
--   Config/Pipeline     crates/rshome-config/src/pipeline.rs: the run of all stages, each on what the
--                       one before left.
--   Config/Assembly     the end of pipeline.rs and crates/rshome-config/src/validated.rs: the
--                       validated configuration that the run builds.
--   WasmHost/Capability crates/rshome-wasm-host/src/capability.rs: handles and the object registry.
--   DeviceLink/Manager  crates/rshome-device-link/src/manager.rs: Steps and Handlers hold one
--                       function per message and `handle`, which dispatches on the message; Queries
--                       holds the messages that only ask.
--   Workflow            crates/rshome-wf/src: definition.rs, rtc.rs (Rtc), engine.rs (Engine), and of
--                       pipeline.rs the loop over steps.
--   StateStore          crates/rshome-state/src/store.rs: updates, reads, subscriptions and
--                       snapshots. `after` runs a history of calls, and the ends of receivers
--                       count among them; Channels holds an instance of the channels.
--   Examples            concrete runs.
-- Stateful code returns its new state and what it sent or answered; hash maps are association
-- lists, so that an iteration has the order of the list where the code leaves it open.
--
-- Bounds and fuel. Integers are native numbers with the wrap-around of their width written out.
-- `write_varint` has fuel for ten groups, which is enough for 64 bits; `expand_loop` has fuel for
-- the selection and all AUTO_LOAD entries of the registry, which is enough since each round takes
-- one entry off the worklist and each component joins it once. That it is enough is part of
-- the results on `encode` and `resolve_auto_load`. `resolve_loop` has fuel for the length of the
-- text and `process_loop` for the components, since each round shortens what is left;
-- `unique_loop` has fuel for the entries of the table, since each round finds another of them.
-- Lemmas beside the loops show that more fuel changes nothing.
--
-- Parameters. The bitflags type of the rights is a record of two functions and one law; the watch
-- channels of tokio are a record of operations with their documented laws, of which one is that a
-- value sent while no receiver is left is not stored; one step of a pipeline is a function on a
-- world; the Unicode functions of the standard library, such as `to_lowercase`, are functions on
-- texts and characters; the conversions, order and printing of floats, which stand for their 64
-- bits, are a record; reading a logic analyser's settings from a document, which serde derives, is
-- a function; the table of solutions is an argument; the clock, the ids of new actors and runs, and
-- whether a mailbox takes a message are arguments of the handlers.
--
-- Not modelled: sockets, mDNS, protobuf, the Noise handshake and other input and output; generated
-- code; JSON export and text templates; the actor runtime; device sessions, entities and services;
-- the table of solutions; and the graph of components, which stands on petgraph, so that a validated
-- configuration is modelled without its dependency graph.
mod Common
pub mod Config
pub mod NativeApi
pub mod Schema
pub mod WasmHost
pub mod DeviceLink
pub mod Workflow
pub mod StateStore
pub mod Examples
