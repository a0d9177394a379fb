-- ===== src/Lib.antt =====
-- CPSR-Lite plans bundles of Solana transactions: it orders user intents by the accounts they touch, packs
-- each layer of the order into transactions within a budget, keeps what sending them needs (account
-- versions, fees, lookup tables and blockhashes), and sends them, on an ephemeral rollup first where one
-- is used.
--
-- Parts and files:
-- - Types: crates/types. Access follows intent.rs (`conflicts`, `accesses_from_ix`, `normalized`,
--   `validate_accesses_match_ix`, `new`), Shortvec and IntentId follow `encode_short_u16`, `id` and
--   `planner_fingerprint` of the same file, Version follows version.rs, Merkle merkle.rs and Bundle
--   bundle.rs.
-- - Estimator: crates/estimator (cost.rs, config.rs, size.rs), and the length functions of
--   bundler/src/serializer.rs.
-- - Dag: bundler/src/dag/mod.rs. Build follows `Dag::build`, from the map of participants to the edges of
--   each account; Order follows `topo_order` and `layers`.
-- - Chunking: bundler/src/chunking/mod.rs. Footprint has the oracles and the size model, Accumulator the
--   chunk under construction, and Layer the greedy loop of `chunk_layer_with`.
-- - Occ: bundler/src/occ/mod.rs. `collect_target_accounts`, `capture_once`, the retry loop of
--   `capture_with_targets`, and the classification of errors. RpcFetcher follows `fetch_many` of
--   bundler/src/occ/rpc_fetcher.rs.
-- - Fee: bundler/src/fee.rs and bundler/src/fee_oracles/recent.rs.
-- - Alt: bundler/src/alt.rs (which keys are offloaded; Cache has `resolve_tables` with the cache and the
--   metrics), bundler/src/alt/table_catalog.rs and bundler/src/serializer/precheck.rs.
-- - Blockhash: bundler/src/pipeline/blockhash.rs, the lease manager as steps of concurrent callers.
-- - Serializer: `build_v0_message` of bundler/src/serializer.rs.
-- - Sender: bundler/src/sender.rs, in a monad for `anyhow::Result` over the statistics and the counters.
-- - Er: bundler/src/er/mod.rs, the client of the rollup's router. Breaker follows `CircuitState` and
--   `post_json`, Requests `send_with_retries`, Routes `resolve_route` and `fetch_route_from_router`,
--   Execute and Submit the two halves of `execute_router`, which meet at the blockhash. Bhfa follows
--   bundler/src/er/bhfa.rs.
-- - Pipeline: bundler/src/pipeline/rollup.rs. Merge follows `merge_small_chunk_plans`, Prepare
--   `prepare_chunk` and `prepare_er_stage`, Attempts `process_chunk_once`, and Layer `process_chunk` and
--   `send_layer_parallel`. Provider follows `ErAwareBlockhashProvider` and joins it and the table manager
--   to an attempt.
-- - Samples: test data, and each result applied to it.
-- - Prelude: shared lists, counts, words, integers, sorting, sets and byte strings.
--
-- The pipeline runs the graph over the intents' access sets, chunks each layer with the indices of the
-- intents, and captures the accounts of a chunk. So the graph takes intents (Types), the chunker takes the
-- nodes of a layer and the intents, and the capture takes intents or keys; each is a function of these. An
-- attempt of a chunk runs the stage of the rollup, the capture (Occ), the tables and the lease, and the
-- sender. The rollup's client, the blockhash provider and the table manager are trait objects there,
-- records of operations on a state that is not looked into; Er, Blockhash and Alt follow their
-- implementations, and Provider puts the last two in.
--
-- Conventions: a public key is the number that its bytes spell. Words have their bounds written out, in
-- Prelude/Words. Sums of `usize` are taken in ℕ; 32-bit and 64-bit sums wrap or saturate as in a release
-- build, and the `debug_assert!` of `chunk_layer_with` is kept, under a flag for debug builds, while that
-- of `UserIntent::new` is left out. A set is its list of members, ascending for a `BTreeSet`. The order in
-- which a hash map is iterated is a parameter, of which only IsIteration is assumed, or IsVisit for the
-- map of the usages. BLAKE3, the bytes of a key, the account fetcher, the RPC's answers, the clock, the
-- jitter and the arithmetic on `f64` are parameters too, and so are HTTP, JSON, the parsing of URLs,
-- signing, building messages, and what the network answers. An error is its text, or its kind where only
-- that is read. Logs, telemetry and durations are left out.
--
-- Bounds and fuel: `topo_order` and `layers` take one round for a node or a layer, so the number of nodes
-- is enough fuel. `merkle_root` has one layer fewer than leaves at most. The retry loop has
-- `max(max_retries, 1)` rounds, the last of which does not retry. `encode_short_u16` has three rounds, as
-- a `u16` has three groups of seven bits, and the serializer's `shortvec_len` has ten for a `usize`. A
-- call of `lease` is run for as many steps as there are answers; alone, with the clock still, 12 steps end
-- it. `process_chunk` has `max_attempts` rounds, at least one, the last of which does not retry, and
-- `send_with_retries` one more than the retries.
--
-- Not modelled: the redirects that the HTTP client follows, telemetry and the wiretap's files,
-- `get_latest_blockhash` of the rollup's client, bundler/src/er/router_client.rs, the interleaving of a
-- layer's tasks on the state that they share, the compilation of messages by solana-sdk, the serde glue,
-- the command line of bundler/examples, and the TypeScript SDK. Mutexes are never poisoned here, since
-- nothing panics while it holds one.
pub mod Prelude
pub mod Types
pub mod Estimator
pub mod Dag
pub mod Chunking
pub mod Occ
pub mod Fee
pub mod Alt
pub mod Blockhash
pub mod Er
pub mod Sender
pub mod Serializer
pub mod Pipeline
pub mod Samples
