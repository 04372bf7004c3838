-- ===== src/Continuation/Rollover/Execute.antt =====
-- src/continuation.rs: `execute_automatic_rollover_with_program`, from the claim of the operation on.
use previously_on.Prelude.{
  ℕ, String, Option, none, some, List, [], ◌∷◌, Bool, true, false, not, ◌&&◌, string_partial_eq,
  nat_partial_eq, option_partial_eq, any, concat, if◌then◌else◌,
}
use previously_on.Domain.{schema_version_v1, is_none}
use previously_on.Domain.Tasks.{TaskV1}
use previously_on.Json.{Value, Items, nil, item, null, string, array, end, insert, get_str}
use previously_on.Redaction.{redact_excerpt}
use previously_on.EventStore.{EventEnvelopeV1, InsertOutcome, inserted, duplicate}
use previously_on.Continuation.Rollover.{
  Answered, answer, error, AutomaticRolloverRequestV1, AutomaticRolloverResultV1,
  AutomaticRolloverStatusV1, started, failed, pending_recovery, answer, error, Outside,
  validate_request, operation_id_of, has_status, last_with, completed_result, failed_result,
  payload_str,
}
use previously_on.Continuation.Rollover.Program.{
  Program, AppServerThread, finish, attempt, on_error, ◌>>=◌, ◌>>◌, pure, or_bail, ask, now,
  connect, start_thread, resume_thread, read_thread_in_worktree, set_thread_name, start_turn,
  shutdown,
}
use previously_on.Continuation.Rollover.Source.{Source, check_task, check_source, operation_events}
use previously_on.Continuation.Rollover.Records.{append_operation_event, link_new_session}
use previously_on.Continuation.Rollover.Handoff.{prepare_handoff}

-- A thread is open, or the rollover has ended.
pub data Opened : Type 0 where
  opened : String → String → Opened
  ended : AutomaticRolloverResultV1 → Opened

abbrev pub is_inserted : InsertOutcome → Bool
is_inserted inserted = true
is_inserted duplicate = false

abbrev optional_string : Option String → Value
optional_string none = null
optional_string (some s) = string s

abbrev items_of : List String → Items
items_of [] = nil
items_of (s ∷ ss) = item (string s) (items_of ss)

module _ (o : Outside) (request : AutomaticRolloverRequestV1) (operation_id : String)
    (task : TaskV1) where
  abbrev result_with :
      AutomaticRolloverStatusV1
      → Option String
      → Option String
      → Option ℕ
      → String
      → List String
      → AutomaticRolloverResultV1
  result_with status thread_id turn_id started_at message warnings = record {
    schema_version = schema_version_v1;
    operation_id = operation_id;
    status = status;
    task_id = request.task_id;
    task_title = task.title;
    source_session_id = request.source_session_id;
    new_thread_id = thread_id;
    new_turn_id = turn_id;
    started_at = started_at;
    message = message;
    warnings = warnings;
  }

  abbrev pub pending_result : AutomaticRolloverResultV1
  pending_result =
      result_with pending_recovery none none none
        (concat (
          "A previous rollover attempt stopped before its new task id was durably recorded; "
          ∷ "PreviouslyOn refused to create a possible duplicate." ∷ []))
        ("manual review required before retry" ∷ [])

  unfoldable pub record_failure : Option String → String → Program AutomaticRolloverResultV1
  record_failure new_thread_id words = do
    let message = redact_excerpt o.patterns words
    append_operation_event o request operation_id "failed" (
        insert "new_thread_id" (optional_string new_thread_id)
          (insert "message" (string message) end))
    pure (
        result_with failed new_thread_id none none message
          ("The original prompt was not blocked and can continue in the source task." ∷ []))

  -- A new thread is on record before it is used.
  unfoldable pub keep_thread : Answered AppServerThread → Program Opened
  keep_thread (error words) = record_failure none words >>= λ result. pure (ended result)
  keep_thread (answer thread) = do
    append_operation_event o request operation_id "thread_created" (
        insert "new_thread_id" (string thread.id)
          (insert "new_session_id" (string thread.session_id) end))
    pure (opened thread.id thread.session_id)

  unfoldable pub open_thread : Source → Option EventEnvelopeV1 → Program Opened
  open_thread source none = attempt (ask (start_thread source.root source.model)) keep_thread
  open_thread source (some event) = do
    thread_id ←
        or_bail (get_str "new_thread_id" event.payload)
          "recorded rollover thread omitted new_thread_id"
    attempt (ask (resume_thread thread_id)) (
        on_error (λ words. record_failure (some thread_id) words >>= λ result. pure (ended result))
          λ thread. pure (opened thread.id thread.session_id))

  -- The warnings that naming the thread leaves.
  unfoldable pub name_thread : String → Program (List String)
  name_thread thread_id =
      attempt (ask (set_thread_name thread_id (concat (task.title ∷ " · continued" ∷ []))))
        (on_error (λ words. pure (redact_excerpt o.patterns words ∷ [])) λ _. pure [])

  -- The record of a turn that runs, and the result.
  unfoldable pub record_started : String → List String → String → Program AutomaticRolloverResultV1
  record_started thread_id warnings turn_id = do
    started_at ← ask now
    append_operation_event o request operation_id "started" (
        insert "new_thread_id" (string thread_id) (
          insert "new_turn_id" (string turn_id) (
            insert "started_at" (o.time_value started_at)
              (insert "warnings" (array (items_of warnings)) end))))
    attempt (ask shutdown) λ _. pure (
        result_with started (some thread_id) (some turn_id) (some started_at)
          (concat (
            "A fresh Codex task was created and the current request was started "
            ∷ "with a verified Context Pack." ∷ []))
          warnings)

  -- The turn in an open thread.
  unfoldable pub run_turn : Source → String → String → String → Program AutomaticRolloverResultV1
  run_turn source prompt thread_id session_id =
      attempt (ask (read_thread_in_worktree thread_id source.root)) (
        on_error (record_failure (some thread_id)) λ _.
          link_new_session o request operation_id source.root thread_id session_id
          >> (name_thread thread_id >>= λ warnings.
              attempt (ask (start_turn thread_id source.root prompt source.model operation_id)) (
                on_error (record_failure (some thread_id))
                  λ turn_id. record_started thread_id warnings turn_id)))

  unfoldable pub use_thread : Source → String → Opened → Program AutomaticRolloverResultV1
  use_thread source prompt (ended result) = pure result
  use_thread source prompt (opened thread_id session_id) =
      run_turn source prompt thread_id session_id

  -- From the handoff on.
  unfoldable pub hand_over : Source → Option EventEnvelopeV1 → Program AutomaticRolloverResultV1
  hand_over source thread_created =
      let fail = record_failure (payload_str "new_thread_id" thread_created) in
      attempt (prepare_handoff o request operation_id source) (
        on_error fail λ prompt.
          attempt (ask connect)
            (on_error fail λ _. open_thread source thread_created >>= use_thread source prompt))

  -- `first_attempt`.
  unfoldable pub claim : List EventEnvelopeV1 → Program Bool
  claim [] = append_operation_event o request operation_id "pending" end >>= λ outcome.
      pure (is_inserted outcome)
  claim (event ∷ existing) = pure false

  -- Without a thread on record, only the attempt that made the claim goes on.
  unfoldable pub after_claim :
      Source → Option EventEnvelopeV1 → Bool → Program AutomaticRolloverResultV1
  after_claim source thread_created first_attempt =
      if not first_attempt && is_none thread_created
      then pure pending_result
      else hand_over source thread_created

  -- An operation that was started or has failed is not tried again.
  unfoldable pub settle :
      Source
      → List EventEnvelopeV1
      → Option AutomaticRolloverResultV1
      → Bool
      → Program AutomaticRolloverResultV1
  settle source existing (some result) has_failed = pure result
  settle source existing none true = pure (failed_result existing task.title request operation_id)
  settle source existing none false =
      claim existing >>= after_claim source (last_with "thread_created" existing)

  -- What a rollover does with the events of its operation.
  unfoldable pub continue_operation :
      Source → List EventEnvelopeV1 → Program AutomaticRolloverResultV1
  continue_operation source existing =
      settle source existing (completed_result o existing task.title request operation_id)
        (any (has_status "failed") existing)

unfoldable pub execute_automatic_rollover :
    Outside → AutomaticRolloverRequestV1 → Program AutomaticRolloverResultV1
execute_automatic_rollover o request = do
  finish (validate_request request)
  task ← check_task o request
  source ← check_source o request
  let operation_id = operation_id_of o request
  existing ← operation_events o request operation_id
  continue_operation o request operation_id task source existing
