-- ===== src/Continuation/Rollover.antt =====
-- src/continuation.rs: the automatic rollover of a task, its data and its records in the store.
pub mod Program
pub mod Source
pub mod Records
pub mod Handoff
pub mod Execute
pub mod Calls
pub mod Safe
pub mod Claim
pub mod Once
pub mod Returns
pub mod Starts
pub mod Leaves
pub mod Keys
pub mod Writes
pub mod Honest
pub mod Recorded
mod Tests
use previously_on.Prelude.{
  ℕ, String, Option, none, some, List, [], ◌∷◌, reverse, filter_map, Bool, true, false, not, ◌&&◌,
  ◌||◌, ◌==◌, string_partial_eq, nat_partial_eq, option_partial_eq, any, find, filter, trim,
  text_is_empty, char_count, ltb, concat, if◌then◌else◌,
}
use previously_on.Domain.{schema_version_v1}
use previously_on.Domain.Coverage.{default_coverage}
use previously_on.Domain.Tasks.{TaskGroupingOperationV1, deterministic_id}
use previously_on.Json.{
  Value, Fields, Items, nil, item, null, string, array, object, end, field, insert, as_str,
  get_field, get_str,
}
use previously_on.Redaction.{Patterns}
use previously_on.EventStore.{
  EventEnvelopeV1, EventKind, task_grouping_changed, fact_deprecated, continuation_started,
  load_events,
}
use previously_on.ContextPack.{ContextPackV1}
use previously_on.Contracts.{ContractEvaluationV1}

abbrev pub max_current_prompt_chars : ℕ
max_current_prompt_chars = 12000

abbrev pub max_handoff_prompt_chars : ℕ
max_handoff_prompt_chars = 32000

abbrev pub auto_rollover_token_budget : ℕ
auto_rollover_token_budget = 1800

pub record AutomaticRolloverRequestV1 : Type 0 where
  pub schema_version : ℕ
  pub repository_id : String
  pub task_id : String
  pub source_session_id : String
  pub source_event_id : String
  pub current_prompt : String

pub data AutomaticRolloverStatusV1 : Type 0 where
  started failed pending_recovery : AutomaticRolloverStatusV1

pub record AutomaticRolloverResultV1 : Type 0 where
  pub schema_version : ℕ
  pub operation_id : String
  pub status : AutomaticRolloverStatusV1
  pub task_id : String
  pub task_title : String
  pub source_session_id : String
  pub new_thread_id : Option String
  pub new_turn_id : Option String
  pub started_at : Option ℕ
  pub message : String
  pub warnings : List String

-- A result, or the words of an `anyhow` error.
pub data Answered (A : Type 0) : Type 0 where
  answer : A → Answered A
  error : String → Answered A

-- What other crates compute: the patterns, SHA-256, and the JSON of values and times.
pub record Outside : Type 0 where
  pub patterns : Patterns
  pub sha256_hex : String → String
  pub handoff_value : ContextPackV1 → ContractEvaluationV1 → Option Value
  pub to_string : Value → Option String
  pub evaluation_value : ContractEvaluationV1 → Value
  pub time_value : ℕ → Value
  pub parse_time : String → Option ℕ
  -- `payload_as::<TaskGroupingOperationV1>(…, "operation")`.
  pub grouping_operation : Value → Option TaskGroupingOperationV1

-- The task of a session and that of a fact, as the projections of the store have them.
pub record Projections : Type 0 where
  pub session_task : String → Option String
  pub fact_task : String → Option String

abbrev check_ids : List (String × String) → Answered Unit
check_ids [] = answer tt
check_ids ((name, value) ∷ rest) =
    let later = check_ids rest in
    if text_is_empty (trim value) || ltb 512 (char_count value)
    then error (concat ("automatic rollover " ∷ name ∷ " is empty or too long" ∷ []))
    else later

unfoldable pub validate_request : AutomaticRolloverRequestV1 → Answered Unit
validate_request request =
    if not (request.schema_version == schema_version_v1)
    then error "unsupported automatic rollover request schema"
    else elim (check_ids (
        ("repository_id", request.repository_id)
        ∷ ("task_id", request.task_id)
        ∷ ("source_session_id", request.source_session_id)
        ∷ ("source_event_id", request.source_event_id)
        ∷ [])) [
          | error message ↦ error message
          | answer _ ↦
              if text_is_empty (trim request.current_prompt)
                || ltb max_current_prompt_chars (char_count request.current_prompt)
              then error "automatic rollover current_prompt is empty or too long"
              else answer tt
        ]

unfoldable pub operation_id_of : Outside → AutomaticRolloverRequestV1 → String
operation_id_of o request = deterministic_id o.sha256_hex "automatic-rollover" (
    request.repository_id ∷ request.task_id ∷ request.source_session_id ∷ request.source_event_id
    ∷ [])

unfoldable pub operation_event_id : Outside → String → String → String
operation_event_id o operation_id status =
    deterministic_id o.sha256_hex "automatic-rollover-event" (operation_id ∷ status ∷ [])

unfoldable pub status_of : EventEnvelopeV1 → Option String
status_of event = get_str "status" event.payload

-- The test `belongs` of `list_task_events`.
unfoldable pub belongs : Outside → Projections → String → EventEnvelopeV1 → Bool
belongs o projections task_id event = elim event.kind [
  | task_grouping_changed ↦ elim (o.grouping_operation event.payload) [
    | none ↦ false
    | some operation ↦
        any (λ item. item.from_task_id == task_id || item.to_task_id == task_id)
          operation.session_moves
        || any (λ item. item.task_id == task_id) operation.task_lifecycle
  ]
  | fact_deprecated ↦ elim (get_str "fact_id" event.payload) [
    | none ↦ false
    | some fact_id ↦ projections.fact_task fact_id == some task_id
  ]
  | _ ↦
      if not (event.session_id == "local-ui" || event.session_id == "task-grouping")
      then projections.session_task event.session_id == some task_id
      else event.task_id == some task_id
]

unfoldable pub list_task_events :
    Outside → Projections → String → String → List EventEnvelopeV1 → List EventEnvelopeV1
unfolding belongs
list_task_events o projections repository_id task_id rows =
    filter (belongs o projections task_id) (load_events repository_id rows)

-- The filter of `operation_events`.
unfoldable pub is_operation_event : String → EventEnvelopeV1 → Bool
is_operation_event operation_id event = elim event.kind [
  | continuation_started ↦ get_str "operation_id" event.payload == some operation_id
  | _ ↦ false
]

unfoldable pub has_status : String → EventEnvelopeV1 → Bool
unfolding status_of
has_status status event = status_of event == some status

-- `iter().rev().find(…)`.
abbrev pub last_with : String → List EventEnvelopeV1 → Option EventEnvelopeV1
last_with status events = find (has_status status) (reverse events)

abbrev strings_of : Items → List String
strings_of nil = []
strings_of (item (string s) rest) = s ∷ strings_of rest
strings_of (item _ rest) = strings_of rest

-- `get("warnings")`, and the strings of the array that it is.
abbrev payload_warnings : Value → List String
payload_warnings payload = elim (get_field "warnings" payload) [
  | some (array items) ↦ strings_of items
  | _ ↦ []
]

-- `get("started_at")`, and the time that it reads as.
abbrev payload_time : Outside → Value → Option ℕ
payload_time o payload = elim (get_str "started_at" payload) [
  | none ↦ none
  | some text ↦ o.parse_time text
]

abbrev pub reused_message : String
reused_message = "The automatic rollover was already started; the existing task was reused."

unfoldable pub completed_result :
    Outside
    → List EventEnvelopeV1
    → String
    → AutomaticRolloverRequestV1
    → String
    → Option AutomaticRolloverResultV1
completed_result o events task_title request operation_id = elim (last_with "started" events) [
  | none ↦ none
  | some event ↦ some (record {
    schema_version = schema_version_v1;
    operation_id = operation_id;
    status = started;
    task_id = request.task_id;
    task_title = task_title;
    source_session_id = request.source_session_id;
    new_thread_id = get_str "new_thread_id" event.payload;
    new_turn_id = get_str "new_turn_id" event.payload;
    started_at = payload_time o event.payload;
    message = reused_message;
    warnings = payload_warnings event.payload;
  })
]

abbrev payload_str : String → Option EventEnvelopeV1 → Option String
payload_str key none = none
payload_str key (some event) = get_str key event.payload

abbrev unwrap_or : String → Option String → String
unwrap_or fallback none = fallback
unwrap_or fallback (some s) = s

unfoldable pub failed_result :
    List EventEnvelopeV1 → String → AutomaticRolloverRequestV1 → String → AutomaticRolloverResultV1
failed_result events task_title request operation_id =
    let event = last_with "failed" events in
    record {
      schema_version = schema_version_v1;
      operation_id = operation_id;
      status = failed;
      task_id = request.task_id;
      task_title = task_title;
      source_session_id = request.source_session_id;
      new_thread_id = payload_str "new_thread_id" event;
      new_turn_id = none;
      started_at = none;
      message =
          unwrap_or "The automatic rollover failed and was not retried to avoid duplicates."
            (payload_str "message" event);
      warnings = "manual review required before retry" ∷ [];
    }

-- `Map::extend`.
abbrev extend : Fields → Fields → Fields
extend fields end = fields
extend fields (field k v more) = extend (insert k v fields) more

unfoldable pub operation_payload : AutomaticRolloverRequestV1 → String → String → Fields → Value
operation_payload request operation_id status fields = object (
    extend
      (insert "operation_id" (string operation_id) (
        insert "status" (string status) (
          insert "source_session_id" (string request.source_session_id)
            (insert "source_event_id" (string request.source_event_id) end))))
      fields)

-- `EventEnvelopeV1::new`, and the id, the dedupe key and the task that are set after it.
unfoldable pub keyed_event :
    String → String → String → String → String → EventKind → ℕ → ℕ → Value → EventEnvelopeV1
keyed_event id task_id source_id repository_id session_id kind occurred_at received_at payload =
    record {
      schema_version = schema_version_v1;
      event_id = id;
      dedupe_key = id;
      source_id = source_id;
      repository_id = repository_id;
      session_id = session_id;
      task_id = some task_id;
      sequence = none;
      occurred_at = occurred_at;
      received_at = received_at;
      kind = kind;
      payload = payload;
      coverage = default_coverage;
    }
