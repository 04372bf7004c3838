-- ===== src/EventStore.antt =====
-- src/domain.rs, src/store.rs and src/store/projection.rs: events, and the table that keeps them.
-- The table is the list of its rows, in the order of their insertion.
pub mod Unique
pub mod Order
mod Tests
use previously_on.Prelude.{
  ℕ, String, Option, none, some, List, [], ◌∷◌, map, Bool, true, false, not, ◌||◌, ◌==◌,
  string_partial_eq, nat_partial_eq, option_partial_eq, any, filter, sort_by, text_cmp, then_cmp,
  compare, Ordering, ◌&&◌, if◌then◌else◌,
}
use previously_on.Domain.{schema_version_v1}
use previously_on.Domain.Coverage.{CoverageV1}
use previously_on.Contracts.Evaluation.{timestamp_micros}
use previously_on.Json.{Value}
use previously_on.Redaction.{Patterns, redact_text, redact_excerpt}
use previously_on.Redaction.Value.{redact_value}

pub data EventKind : Type 0 where
  session_started user_prompt assistant_final tool_started tool_finished git_snapshot : EventKind
  fact_candidate fact_confirmed checkpoint context_compaction : EventKind
  context_usage_updated continuation_suggested continuation_started session_excluded : EventKind
  fact_deprecated regression_candidate_recorded contract_evaluation_recorded : EventKind
  task_updated task_grouping_changed ai_fact_refresh_operation_recorded : EventKind
  agent_observed session_stopped unknown : EventKind

-- `i64`.
pub data ℤ : Type 0 where
  pos : ℕ → ℤ
  negsuc : ℕ → ℤ

abbrev pub int_cmp : ℤ → ℤ → Ordering
int_cmp (pos m) (pos n) = compare m n
int_cmp (pos m) (negsuc n) = Ordering.gt
int_cmp (negsuc m) (pos n) = Ordering.lt
int_cmp (negsuc m) (negsuc n) = compare n m

pub record EventEnvelopeV1 : Type 0 where
  pub schema_version : ℕ
  pub event_id : String
  pub dedupe_key : String
  pub source_id : String
  pub repository_id : String
  pub session_id : String
  pub task_id : Option String
  pub sequence : Option ℤ
  pub occurred_at : ℕ
  pub received_at : ℕ
  pub kind : EventKind
  pub payload : Value
  pub coverage : CoverageV1

pub data InsertOutcome : Type 0 where
  inserted duplicate : InsertOutcome

pub record InsertFault : Type 0 where
  pub before_insert : Bool
  pub before_commit : Bool
  pub after_commit : Bool

-- What the locks, the files of a purge and SQLite answer during one call.
pub record WriteIo : Type 0 where
  pub locked : Bool
  pub purged : Bool
  -- `read_purge_journal`: it fails, or it gives the repository of a purge that is under way.
  pub journal_read : Bool
  pub purging : Option String
  pub opened : Bool
  pub executed : Bool
  pub projected : Bool
  pub committed : Bool

pub data Written : Type 0 where
  written : InsertOutcome → Written
  failed : Written

unfoldable pub prepare_event : Patterns → EventEnvelopeV1 → EventEnvelopeV1
prepare_event p event =
    let coverage = event.coverage in
    record event {
      source_id = redact_text p event.source_id;
      payload = redact_value p event.payload;
      coverage = record coverage {
        captured = map (redact_excerpt p) coverage.captured;
        missing = map (redact_excerpt p) coverage.missing;
        warnings = map (redact_excerpt p) coverage.warnings;
      };
    }

unfoldable pub ensure_event_write_allowed : WriteIo → EventEnvelopeV1 → Bool
ensure_event_write_allowed io event =
    if io.purged || not io.journal_read
    then false
    else if io.purging == some event.repository_id
    then false
    else event.schema_version == schema_version_v1

-- The keys of the table: `event_id` is its primary key, and `dedupe_key` is unique.
unfoldable pub is_taken : EventEnvelopeV1 → List EventEnvelopeV1 → Bool
is_taken event = any (λ row. row.event_id == event.event_id || row.dedupe_key == event.dedupe_key)

-- `INSERT OR IGNORE`, and the projection of an event that is new; the rows are those after it.
unfoldable pub insert_event_tx :
    WriteIo → EventEnvelopeV1 → List EventEnvelopeV1 → Written × List EventEnvelopeV1
unfolding is_taken
insert_event_tx io event rows =
    if not io.executed
    then (failed, rows)
    else if is_taken event rows
    then (written duplicate, rows)
    else if io.projected
    then (written inserted, event ∷ rows)
    else (failed, event ∷ rows)

-- A transaction that is not committed is rolled back.
abbrev pub commit :
    WriteIo
    → InsertFault
    → List EventEnvelopeV1
    → Written × List EventEnvelopeV1
    → Written × List EventEnvelopeV1
commit io fault rows (failed, changed) = (failed, rows)
commit io fault rows (written outcome, changed) =
    if fault.before_commit || not io.committed
    then (failed, rows)
    else if fault.after_commit
    then (failed, changed)
    else (written outcome, changed)

unfoldable pub insert_event_inner :
    Patterns
    → WriteIo
    → InsertFault
    → EventEnvelopeV1
    → List EventEnvelopeV1
    → Written × List EventEnvelopeV1
unfolding ensure_event_write_allowed insert_event_tx prepare_event
insert_event_inner p io fault event rows =
    if not io.locked
    then (failed, rows)
    else if not (ensure_event_write_allowed io event)
    then (failed, rows)
    else if not io.opened || fault.before_insert
    then (failed, rows)
    else commit io fault rows (insert_event_tx io (prepare_event p event) rows)

-- `COALESCE(sequence_no, 9223372036854775807)`.
abbrev pub sequence_or_max : Option ℤ → ℤ
sequence_or_max none = pos 9223372036854775807
sequence_or_max (some n) = n

-- `ORDER BY occurred_at, COALESCE(sequence_no, …), event_id`: the time is a text with six digits
-- after the point.
unfoldable pub event_order : EventEnvelopeV1 → EventEnvelopeV1 → Ordering
event_order a b =
    then_cmp (compare (timestamp_micros a.occurred_at) (timestamp_micros b.occurred_at)) (
      then_cmp (int_cmp (sequence_or_max a.sequence) (sequence_or_max b.sequence))
        (text_cmp a.event_id b.event_id))

-- `load_events` of one repository.
unfoldable pub load_events : String → List EventEnvelopeV1 → List EventEnvelopeV1
unfolding event_order
load_events repository_id rows =
    sort_by event_order (filter (λ event. event.repository_id == repository_id) rows)

unfoldable pub list_session_events : String → String → List EventEnvelopeV1 → List EventEnvelopeV1
unfolding event_order
list_session_events repository_id session_id rows =
    sort_by event_order (
      filter (λ event. event.repository_id == repository_id && event.session_id == session_id) rows)
