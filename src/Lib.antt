-- ===== src/Lib.antt =====
-- mcptracer records the messages between an MCP client and an MCP server, keeps them in a database
-- with secrets masked, and reads them back as a correlated session. This library models the core of
-- the Rust crates and proves what they are relied on for.
--
-- The parts, and how they work together:
-- - crates/mcptracer-protocol: Protocol.Message is the message model (`Direction`, `McpMessage` and
--   its accessors), Protocol.Stdio the newline framing (`parse_stdio_frame`, `encode_stdio_frame`),
--   Protocol.Sse the decoder of event streams (`SseDecoder`: `push` is split into the fragments of a
--   chunk, the buffer, the end of a line and the end of an event).
-- - crates/mcptracer-proxy/src/session_writer.rs: Writer.Pump is `drain_frames`, which forwards each
--   stdio frame and then hands it to the channel of the storage writer; Writer.Budget is
--   `StorageQueueBudget`, the byte budget of that channel, as atomic steps of its threads;
--   Writer.Reorder is the buffer in which the storage writer brings messages back into the order of
--   their numbers; Writer.Thread is the thread of `spawn_storage_writer`, which takes batches from
--   the channel (`collect_storage_event`), sends them through that buffer, masks them, writes them in
--   chunks and closes the session; Writer.Command is `redact_server_command`.
-- - crates/mcptracer-proxy/src/session_health.rs: Health is `assess_capture` and the gates
--   `require_healthy_session` and `require_complete_capture`.
-- - crates/mcptracer-redact: Redact.Keys decides which keys are sensitive, Redact.Policy holds the
--   policies, the `Redactor` and the entry points, Redact.Walk the masking walks, Redact.Schema
--   `walk_schema`, which masking and validation share, Redact.Collect the validator, Redact.Context
--   the `RedactionContextTracker`, and Redact.Lint `sensitive_content_lint`.
-- - crates/mcptracer-model/src/lib.rs: Model.Session holds the types (and `StoredMessage` of
--   crates/mcptracer-storage), Model.Correlate and Model.Pending `correlate`, Model.Stats
--   `compute_stats` and `percentile`, Model.Validate `validate_session`.
-- - crates/mcptracer-model/src/plan.rs, serve.rs and eval.rs: Model.Plan is `build_plan`, what a replay
--   would drive; Model.Serve is `MockSession`, the recorded answers that stand in for a server;
--   Model.Eval is `evaluate`, expected tool calls against the calls that were recorded.
-- - crates/mcptracer-storage: Storage.Row is the row of a message, Storage.Mtrace the portable document
--   and `validate` of mtrace.rs, Storage.Export and Storage.Import `export_mtrace_document` and
--   `import_mtrace_document` of lib.rs, Storage.Vcr the cassettes of vcr.rs,
--   Storage.Merge `merge_sessions` of lib.rs up to its transaction, with the deduplication of calls.
--   An export masks the rows of a session and keeps their columns; validation derives the columns
--   again from the masked payloads.
-- Common holds the shared types and lemmas, Json the values of serde_json, and Tests the theorems
-- at concrete inputs.
--
-- How the code is read: a method with `&mut self` takes the state and returns it; a byte is a
-- number, a text is `String` where it is compared and its code points where it is walked; an object
-- is its entries in the order of iteration; a hash map or hash set is a list of entries. Lengths
-- are natural numbers: the sums that the code saturates stay far below 2 ^ 64 at lists of bytes that
-- fit in memory, and are saturated only where a size field is an argument. Atomic counters wrap.
-- Times are integers; a difference of two wraps in 64 bits, as `i64` does in a build without overflow
-- checks. A write or a flush of the pipe may never complete: the call then ends as `waiting`.
-- Outside the model are parameters: parsing and printing of JSON (`Codec`, `from_slice`, `Texts`),
-- the equality of JSON values (`value_eq`), the length of a text (`len`), the ranks that `percentile`
-- computes in floats (`Ranks`), and the clock, the pipe, the channel, the other tasks of a pump and the
-- outcomes of the store (`World`).
--
-- Bounds: the loop of `drain_frames` runs on fuel, one more than the bytes in its buffer, which is
-- enough since each turn takes at least one byte. `digits_from` runs on a number as fuel for its
-- own digits. The loop of the storage writer runs on fuel, one more than the messages sent, which is
-- enough since each turn takes at least one event. All other recursion is structural.
--
-- Not modelled: the SQL of the store, compression, digests, files, processes, sockets and HTTP, the
-- command line, the analyses of crates/mcptracer-model not named above (diff, assertions, quota, cache,
-- manifest, optimize, otel), and crates/mcptracer-intel; log lines and the sentences of error messages.
pub mod Common
pub mod Json
pub mod Protocol
pub mod Redact
pub mod Model
pub mod Writer
pub mod Storage
pub mod Health
pub mod Tests
