-- ===== src/Lib.antt =====
-- AuditForwarder: a model of the core of the audit forwarding system, in which a client filters,
-- chains and signs audit events and a server looks for collusion among operators.
--
-- The parts, and the files that model them:
--   Text, Maps, Decimal    `std::string` and `std::map` members and number printing that the code calls.
--   Glob                   `wildcard_match` (server/src/collusion/collusion.cpp) and `filter_glob_match`
--                          (client/src/collector/collector_filter.cpp). `Glob.Spec` says what a pattern
--                          means without a search order.
--   Hex, Crypto, Merkle    the encodings and `MerkleTree` of shared/src/crypto/crypto.cpp. OpenSSL is
--                          the record `Crypto.OpenSsl`: digests have 32 bytes, a signature is accepted.
--   Event, Audit           names, events, the hashed text and the JSON text
--                          (shared/src/common/event.cpp, types.cpp).
--   Chain                  `Chain` (shared/src/crypto/chain.cpp): `submit` numbers, hashes and queues an
--                          event, `flush` turns the queue into a signed batch, and every so many batches
--                          a super batch covers their roots. Times read from the clock are arguments,
--                          files and callbacks are lists in the state. `Chain.Batches.run` is a sequence
--                          of calls.
--   Collusion              server/src/collusion/collusion.cpp: `Keywords` (when an event hits a step),
--                          `Sequence` (order of events, subsequences), `Window` (evidence window),
--                          `Guards` (work orders, whitelist), `Detect` (factors, score and level),
--                          `Correlation` (rules over one object or operator), and `Engine`: the state
--                          behind the mutex, `Engine.Windows` (sets by group and window),
--                          `Engine.Evaluate` (levels, storage, alerts), `Engine.Chain` (the sliding
--                          chain), `Engine.Correlate` and `Engine.Ingest` (the calls, the closing of
--                          windows), which begin with `Engine.Reload` (changed files). The results of
--                          `clean_event_json`, what the files read as and the clock are arguments.
--   Config                 `ConfigValue` (shared/src/common/config.cpp) and the JSON reader of
--                          shared/src/common/config_parser.cpp: `Json` with `Numbers`, `Dump`, `Paths`,
--                          `Format` (the loaders; the YAML reader is an argument).
--   Rules                  `RuleEngine` (shared/src/detector/rule_engine.cpp): `Behavior`, `Match`,
--                          `Inspect`, `Load`. What `std::regex_search` finds and the arithmetic on
--                          doubles are arguments; what a call makes other parts do is a list of effects.
--   Filter                 client/src/collector/collector_filter.cpp: decisions, `Coalescer`, `Differ`.
--   Processor              client/src/processor/processor.cpp: `Normalizer`, `Actions` with `Commands`
--                          (ActionNormalizer), `Schema` (SchemaMapper), `Aggregator`, `Enricher`, `Deduper`
--                          (with RegexFilter).
--   Examples               concrete inputs and the theorems applied to them.
--
-- Texts are lists of bytes. `u64` arithmetic that may wrap is written with `% 2 ^ 64`; `int` is the
-- unbounded `ℤ`, except for the casts of the hours of a span and of the threshold and the hits of a
-- rule. A pointer position in a loop is the list that is left at that position.
--
-- Bounds and fuel: `glob_loop` has (length of the text + 1) * (length of the pattern + 1) rounds, and
-- `Glob.Total` shows that they are enough; the levels of a Merkle tree are counted by its number of
-- leaves, more than it has levels, and decimal digits by the number itself. The JSON reader has as much
-- fuel as the text has bytes, and one more, for the depth of the values and for the rounds of each
-- list or map; `Config.Total` shows that it is enough. All other loops are structural.
--
-- Not modelled: threads and locks (each call is one step), files, sockets, databases and platform
-- interfaces, the floating point scores of the machine learning and graph parts (what they come to is
-- an argument of `detect`), the texts of the messages, the queries of the engine, the YAML
-- reader, the rest of the processors, and the servers and windows of the two programs.
pub mod Audit
pub mod Chain
pub mod Collusion
pub mod Config
pub mod Crypto
pub mod Decimal
pub mod Event
pub mod Examples
pub mod Filter
pub mod Glob
pub mod Hex
pub mod Maps
pub mod Merkle
pub mod Prelude
pub mod Processor
pub mod Rules
pub mod Text
