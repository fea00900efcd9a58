-- ===== src/Lib.antt =====
-- A verification library for WAVS (packages/): services whose WebAssembly components run when a
-- trigger fires, and whose signed results are gathered until a quorum submits them to a chain.
--
-- The parts and how they interact. The dispatcher adds, changes and removes services: it writes them
-- to the services table, gives each a key in the submission manager, and hands it to the trigger manager.
-- That keeps the triggers of every service in `LookupMaps` and asks the interval schedulers, one of blocks
-- for each chain and one of cron expressions, what is due; its watcher starts the streams that a trigger
-- needs and turns each event into actions of active services. The engine runs the component, which keeps
-- its data in the key-value store of its host. The submission manager signs the result, and the
-- aggregator appends it to the quorum queue of its event and action, submits the queue, and burns it when
-- the chain takes it.
--
-- Which file models what:
--   Prelude, Prelude/*   shared names, Boolean tests, lists, maps, sorted and distinct keys, Rust's Result.
--   Errors               the errors of packages/wavs/src/subsystems/trigger/error.rs that the model returns.
--   Samples              concrete crates and services of the examples.
--   Types/Chain          packages/types/src/id/chain.rs: `ChainKey` with `new`, `validate`, `to_string`.
--   Types/ChainText      printing and parsing of chain keys.
--   Types/ChainConfig    packages/types/src/chain_config.rs: `get_chain`, `add_chain`, the lists of keys;
--                        Types/ChainConfigs and its child are the proof about `add_chain`.
--   Types/Service        packages/types/src/service.rs: services, workflows, triggers, managers.
--   Types/TriggerData    `TriggerData` of the same file.
--   Types/Submission     packages/types/src/submission.rs, aggregator_types.rs, signing.rs.
--   Services/Table       packages/utils/src/storage/db.rs.
--   Services/Store       packages/wavs/src/services.rs: `get` is `get_service`, `remove` is `remove_service`.
--   Services/Listing, Refinement   proofs about them.
--   Scheduler/Interval   packages/wavs/src/subsystems/trigger/schedulers/interval_scheduler.rs:
--                        `add_trigger`, `tick`, `remove_trigger`.
--   Scheduler/Block      schedulers/block_scheduler.rs: `initialize`, `interval_hit`.
--   Scheduler/Cron       schedulers/cron_scheduler.rs, over the crate `cron`.
--   Scheduler/Keys, Exact, BlockPlan, BlockFiring, CronFiring, Ids, SameId, Unique, Ready   proofs about them.
--   Lookup/Index, Maps   packages/wavs/src/subsystems/trigger/lookup.rs: `add_trigger` is `add_config`,
--                        its match is `index_trigger`; `add_service`, `remove_workflow` and
--                        `remove_service` have their names; the match they share is `unindex_trigger`.
--   Lookup/Configs       `get_trigger_config` and `get_trigger_configs` of the same file.
--   Lookup/Keys, Entries, Indexed, IndexedAdd, IndexedRemove, Patterns   proofs about them.
--   Trigger/Commands     packages/wavs/src/subsystems/trigger.rs: `TriggerCommand::map` is `commands_of`,
--                        `add_service` is `add_to_manager`.
--   Trigger/Streams      the local commands of `start_watcher`, with the states of its streams: `command`.
--   Trigger/Events       the events of `start_watcher`: `stream_event`; `process_blocks`,
--                        `handle_hypercore_event`. What the events carry is in Events/Data.
--   Trigger/Pattern      `matches_collection_pattern`, and the proof about it.
--   Trigger/CronStream   subsystems/trigger/streams/cron_stream.rs, and the proof about it.
--   Trigger/Fired, Contract, AtProto, Blocks, Reached, Active, Malformed, Listening, Restart   proofs about them.
--   Submission/Event, Order   `EventId::new` and `EventOrder::new_u64` of packages/types/src/signing.rs.
--   Submission/Manager   packages/wavs/src/subsystems/submission.rs: `submit` is the spawned part of a
--                        `Submit` command, with what it sends to the dispatcher.
--   Submission/Keys, Signed   proofs about it.
--   Dispatcher/Operations     packages/wavs/src/dispatcher.rs: `add_service_direct`, `remove_service`,
--                        `change_service`, `add_service_to_managers`, and the population at the start.
--   Dispatcher/Registered, Removed, Changed, Revived   proofs about them.
--   Aggregator/Queue     packages/wavs/src/subsystems/aggregator/queue.rs.
--   Aggregator/Submit    packages/wavs/src/subsystems/aggregator.rs: the spawned part of an `Actions`
--                        command is `run_task`, with `handle_submit_action`.
--   Aggregator/Commands   `handle_dispatcher_command` of the same file.
--   Aggregator/Signers, Burned, Retry, Cleanup, Hosted   proofs about them.
--   Keyvalue/State, Store, Batch, Atomics   packages/engine/src/backend/wasi_keyvalue/.
--   Keyvalue/Separate, Listing, Calls       proofs about them.
--   */Tests, Trigger/StreamTests   examples.
--
-- Conventions. Times, heights and counters are natural numbers, with the wrap-around of u64 and i64
-- written out where the code adds; what is proved of block heights assumes room for one more interval
-- below 2^64. Strings, hashes and addresses are their bytes. Maps are association lists; a set is a
-- list. Errors are values, and where the code keeps a change beside an error the state comes back with
-- it. No loop needs fuel: each is recursion on a list. Tasks of the aggregator run one after another for
-- each queue, as its transactions make them, so a run is a list of tasks in any order. A local
-- command of the watcher and an operation of the dispatcher each run to their end before the next.
--
-- Parameters: the crates `cron`, `bimap` and `ripemd`, the encoder `bincode`, the resource table of
-- `wasmtime`, the reading of logs and events (`alloy`, `cosmwasm_std`), the derivation of keys, signing and
-- the recovery of a signer (`alloy`), the hash of a service manager, the JSON of a service, the clients
-- of the chains, and what the engine answers when it is to store components. That a client or a stream
-- starts is an answer of the network.
--
-- Not modelled: the bodies of the streams but the cron stream, the query of a contract for its service
-- URI, the engine, the peer-to-peer network, the HTTP server, and the command-line tools, which are I/O.
-- The flags of the feature `dev`, logs and metrics are left out.
pub mod Prelude
pub mod Types
pub mod Errors
pub mod Scheduler
pub mod Lookup
pub mod Aggregator
pub mod Keyvalue
pub mod Services
pub mod Trigger
pub mod Submission
pub mod Dispatcher
pub mod Samples
