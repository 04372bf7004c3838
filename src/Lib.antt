-- ===== src/Lib.antt =====
-- Previously On: a local service that keeps what happened in coding sessions, and hands the part
-- that still holds over to the next session.
--
-- The hook and the servers write events into a store. From the store's projections a context pack
-- is built for a task: facts backed by verified evidence, open items, files and tests, within a
-- budget of tokens. Regression contracts say which tests must pass when certain files change; a
-- continuation of a task in a new session is evaluated against them.
--
-- The modules, and the code that they model:
--   Prelude           what the standard library of the source gives: Boolean tests, orders, lists,
--                     stable sort and dedup, text, and maps with sorted keys
--   Domain            src/domain.rs: enumerations and records; Domain/Coverage is `CoverageStatus`
--                     and `CoverageV1`, Domain/Temporal is `bounded_for_context_pack` and
--                     `minimized_against`, Domain/Tasks tasks, grouping operations and
--                     `deterministic_id`, Domain/Sessions sessions
--   Json              values of `serde_json`
--   Redaction         src/redaction.rs: `redact_text`, `redact_excerpt`, `cap_chars`;
--                     Redaction/Value is `redact_value` with `is_sensitive_key`
--   EventStore        src/store.rs and src/store/projection.rs: `insert_event_inner` and what it
--                     calls, `load_events`, `list_session_events`; the event envelope of
--                     src/domain.rs
--   ContextPack       src/context_pack.rs: data and errors; ContextPack/Select has the filters, the
--                     orders and the limits of `build`, ContextPack/Budget `stabilize_token_count`
--                     and the loop, and ContextPack/Build `build` as a whole
--   Git               `parse_name_status` and `normalize_path` of src/git.rs
--   RepositoryPath    `validated_repository_relative_path` of src/git.rs, and `is_sensitive_path`
--                     of src/redaction.rs
--   Contracts         src/contracts.rs: data; Contracts/Token is `contains_literal_token`,
--                     Contracts/Match `match_contracts_for_changes`, Contracts/Match/Hunks
--                     `merge_changed_hunks`, Contracts/Evaluation `evaluation_from_match`,
--                     Contracts/Argv `interpreter_uses_inline_evaluation` and what else is asked of
--                     a command, Contracts/RequiredTest `validate_required_test`, and
--                     Contracts/Validate `validate_contract` and `validate_loaded_contracts`;
--                     Contracts/Checked has the errors, and checks in a row
--   Continuation      src/continuation.rs: Continuation/Evidence is `apply_prior_test_evidence`
--                     and the end of `evaluate_contract_handoff`; Continuation/Rollover has the
--                     data of a rollover and its records, and below it Program the calls, Source
--                     the checks up to `operation_events`, Records the events that are written,
--                     Handoff `prepare_handoff`, and Execute the rest of
--                     `execute_automatic_rollover_with_program`. Once runs rollovers side by side,
--                     Returns and Leaves run one on its own, and Keys and Writes have the rows
--                     that one may add
--   Grouping          `inverse` of src/grouping.rs, the checks of the sessions in
--                     `claim_task_grouping_operation` of src/store/operations.rs, and the loop over
--                     session moves in `apply_task_grouping_projection` of src/store/projection.rs
--   BoundedIo         src/bounded_io.rs: `read_bounded_line`
--
-- State is passed explicitly, and a fallible function returns a result type of its own. Times are
-- natural numbers: nanoseconds since the Unix epoch. A token count is taken modulo 2 ^ 32, as
-- `len() as u32` takes it. A set that the code gathers is a list here, put in order and freed of
-- repetitions where the code turns it into a `Vec`. The loop of `build` runs on fuel, one round more
-- than the pack has items, since each round but the last drops one. A reader is the list of what its
-- calls of `fill_buf` give, so the loops that read one are structural.
--
-- A rollover is a tree of calls, whose branches are what may come back: an answer or an error. The
-- reads and writes of the table of events are done on the table; the answers of the app server, of
-- git, of the projections and of the clock are arbitrary, and a theorem that needs an answer says so.
-- One step of one rollover is one call, so that the steps of several take turns; a rollover that is
-- killed takes no more steps. A purge, which deletes events, is not among the steps. In the search
-- for a fresh key the fuel is the number of keys that may be in the way.
--
-- Parameters stand for code that is not of the repository: the compiled regular expressions
-- (`Patterns`), SHA-256 in hexadecimal, the JSON writer and the tokenizer (`Codec`),
-- `char::is_alphanumeric`, the parser of UUIDs, and the clock. An error of validation names the
-- contract or the field; the words of its message are left out. Paths are those of Unix.
--
-- Not modelled: the SQL of the store beyond the table of events, the claims of its operations and its
-- projections, the HTTP and MCP servers, the client of the app server and the other processes, git,
-- the file system, configuration and setup, which are input and output; the hook policies, the
-- relationship graph; and in the modelled files the projection of checkpoints, the reads that find the
-- contracts of a handoff, the preview of a grouping, and the rows and facts that follow a session.
pub mod Prelude
pub mod BoundedIo
pub mod ContextPack
pub mod Continuation
pub mod Contracts
pub mod Domain
pub mod EventStore
pub mod Git
pub mod Grouping
pub mod Json
pub mod Redaction
pub mod RepositoryPath
