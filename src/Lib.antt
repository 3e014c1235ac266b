-- ===== src/Lib.antt =====
-- The Shittim Kernel: the domain crates of the Rust workspace, with the rate-limit authority and
-- the JSON pointers that serve them.
--
-- rust/crates/domain-task decides which status changes of a Task or an Action are legal, checks the
-- evidence for them, and returns an immutable outcome (new status and revision, effects that
-- persistence has to apply in the same transaction, event intents). It keeps no state; the callers
-- store outcomes and issue the next command for what they stored.
--
-- Base: the shared helpers: tests on numbers, `Result` with `?` as bind, lists, text, i32 and i64,
--   comparisons that chain as those of total orders do.
-- Contracts.TaskTypes, PolicyEnums, PolicyTypes: the generated types that the crates compute with
--   (rust/crates/kernel-contracts/src/generated/types.rs). Contracts.Json: `serde_json::Value`.
-- DomainTask.Error, DomainTask.Types: error codes, evidence, outcomes, event intents
--   (rust/crates/domain-task/src/error.rs, types.rs, event_intent.rs).
-- DomainTask.CountMap: the `BTreeMap<String, usize>` of `enforce_succeeded_coverage`.
-- DomainTask.Task: `apply_task_transition` and all that it calls (task.rs). Its children hold the
--   proofs: Coverage (success evidence), Apply (acceptance and outcome), Errors (order of refusal),
--   History (sequences of commands), Realize (every allowed edge can be taken).
-- DomainTask.Action: commands, the status graph and small checks; DomainTask.Action.Enforce: the
--   guards, `apply_action_transition`, the confirm update and drafts (action.rs). Rules, Effects,
--   Apply, Confirm, Leases, Draft and History hold the proofs.
-- DomainTask.PolicyOutcome: `apply_policy_evaluation_outcome` (policy_outcome.rs).
-- DomainTask.Recovery: legality of recovery candidates (recovery.rs).
-- DomainTask.TaskExamples, DomainTask.ActionExamples: the theorems at concrete inputs, and tests.
--
-- rust/crates/domain-policy parses policy URIs into a normal form, matches them against segment
-- globs, and decides whether the resources of an Action stay inside the scope of its Task; it matches
-- rules against an Action, ranks those that match, and makes the best one's effect the decision.
--
-- DomainPolicy.Error: machine codes (rust/crates/domain-policy/src/error.rs).
-- DomainPolicy.Percent, Globs, Paths, Segments, Uri: the parser and the matcher of uri.rs. Globs
--   has Segments (which segments are accepted) and Placement (where a `*` may stand), Paths has
--   Dots and Cancels (dot segments as steps in any order), Segments has Backtrack and Meaning. Uri
--   has Normal (what an accepted URI looks like), Matching (what a pattern means) and Best
--   (`best_uri_pattern`, with Order, Sorting and Ranking). `Url::parse` of the url crate is the
--   parameter `url_parse`: it returns what the accessors of the parsed `Url` give, and nothing is
--   assumed of it.
-- DomainPolicy.ResourceScope: `resource_refs_within_task_scope` (resource_scope.rs), with Parsing,
--   Containment and Refusal.
-- DomainPolicy.TimeWindow: `time_window_matches` (matcher.rs), with Weekdays, Open and Meaning. The
--   parsers and the calendar of chrono are the parameters `local_time` and `parse_time`.
-- DomainPolicy.ActionPatterns: `best_action_pattern` and `validate_action_patterns` (matcher.rs),
--   with Affixes, Meaning and Best.
-- DomainPolicy.RateLimit: the port to the rate-limit authority (rate_limit.rs), a record of the two
--   operations over a state that the evaluation threads through and never looks into.
-- DomainPolicy.Context: facts, results and `binding_material` (types.rs); its record `Platform`
--   holds what url, chrono, chrono_tz, sha2 and serde_json do, of which nothing is assumed.
-- DomainPolicy.Specificity, Rules, Dimensions, Matcher: `match_rule` and all that it calls
--   (matcher.rs). A `&mut Specificity` is passed on from step to step; a step that does not match
--   ends the chain, as `MatchOutcome::NotMatched` does.
-- DomainPolicy.Evaluate: `evaluate_policy` (matcher.rs). Order, Precedence and Ranking hold the proofs on
--   `candidate_cmp` and the sort, Election the specification of an evaluation that no order
--   decides, with the proof that the loop implements it, and FailClosed what happens on failures.
-- DomainPolicy.PolicyExamples, MatcherExamples, EvaluateExamples: the theorems at concrete inputs,
--   and tests.
--
-- rust/crates/kernel-sqlite implements the rate-limit port on a table of consumptions, and the
-- Event Outbox: a write transaction appends events to a table, under a savepoint, and a publisher
-- reads them in pages and marks them delivered.
--
-- KernelSqlite.RateLimit: `TransactionRateLimitPort` (rate_limit.rs) over the rows of its table. The
--   SQL statements are written out as a count and an insertion; when SQLite refuses them is the
--   parameter `Sqlite`. The i64 of microseconds are exact integers with the checked operations
--   written out. Window and Preview hold the proofs, KernelSqlite.RateLimitExamples the tests.
-- KernelSqlite.Store: the store's error codes (error.rs) and `WriteTransaction::with_savepoint`
--   (lib.rs), which works on any tables; when SQLite refuses a statement is the parameter
--   `Database`. Atomic holds what a savepoint promises.
-- KernelSqlite.Events: the events of outbox.rs as they are given, stored and read, with the checks on
--   both ways; uuid, chrono, serde, the canonicalizer and the Schema validator are the parameter
--   `EventCodec`. An event's payload is the identifier that the store compares and the rest.
-- KernelSqlite.OutboxTables, KernelSqlite.Outbox: the two tables with the SQL statements written out,
--   and `append_active_event_v2`, `read_after`, `read_undelivered`, `latest_position` and
--   `mark_delivered` on them. Rows are kept in the order of their positions; an i64 sequence or
--   position is a natural number, with no bound on how many events are appended. Numbering, Appends and
--   Reachable hold the invariant of the numbers, Positions, Pages and Paging the law of pages,
--   KernelSqlite.OutboxExamples the tests.
-- KernelSqlite.Cursor: `OutboxCursor::from_str`, with what it makes of a position's text.
--
-- rust/crates/schema-tool selects and changes values of JSON documents by pointers.
--
-- SchemaTool.JsonPointer: pointers and their escapes (json_pointer.rs), with Escapes and RoundTrip.
-- SchemaTool.JsonDocument: array index tokens, and the operations of serde_json's arrays and of its
--   map, which keeps its keys in order, with Lookup.
-- SchemaTool.JsonMutation: `select_json_value` and `apply_json_mutation` (json_pointer.rs), with Steps
--   and Select. A traversal over `&mut Value` is written as the document that it leaves.
-- SchemaTool.JsonExamples: the theorems at concrete inputs, and tests.
--
-- Text is the sequence of Unicode scalar values of a Rust `String`; UTF-8 keeps their order, so
-- comparisons of bytes are comparisons of scalar values. u64 revisions and plan versions are
-- natural numbers with `checked_add` written out. Mutable `effects` are passed on from guard to
-- guard. A domain error is its machine code: the message beside it, built for a reader, is left out.
-- All recursion is structural; the one fuel is that of `decimal_digits`, 5 digits for the u16 of a
-- port and 20 for a usize.
--
-- Not modelled: the rest of SQLite persistence, the Kernel Control Protocol, Task creation, the
-- authorization projections, the code generators and the artifact transactions of the schema tool,
-- and the generated code other than the enums and records that the modelled crates compute with.
pub mod Base
pub mod Contracts
pub mod DomainTask
pub mod DomainPolicy
pub mod KernelSqlite
pub mod SchemaTool
