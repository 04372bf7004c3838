-- ===== src/Continuation/Rollover/Tests.antt =====
-- src/continuation.rs: a rollover of one task, and two that run into each other.
use previously_on.Prelude.{
  ℕ, zero, suc, String, none, some, List, [], ◌∷◌, ◌≡◌, ◌≤◌, refl, concat, char_count, take_chars,
  false, true, ◌≢◌, arith, text_eq_iff,
}
use previously_on.Domain.Coverage.{default_coverage}
use previously_on.Domain.Tasks.{TaskV1, active, deterministic_id}
use previously_on.Json.{null, string, object, end, field}
use previously_on.Redaction.{redact_excerpt, redact_text, cap_chars}
use previously_on.ContextPack.{ContextPackV1}
use previously_on.EventStore.{
  insert_event_tx, ensure_event_write_allowed, is_taken, EventEnvelopeV1, user_prompt,
  insert_event_inner,
}
use previously_on.Continuation.Rollover.{
  AutomaticRolloverRequestV1, AutomaticRolloverResultV1, Answered, answer, Outside, operation_id_of,
  operation_event_id, failed, error, keyed_event,
}
use previously_on.Continuation.Rollover.Program.{
  Program, Query, Answer, finish, load_rows, insert_event, perform, attempt, now, get_task,
  repository_identity, projections, verified_context_pack_for_worktree, match_contracts, connect,
  start_thread, resume_thread, read_thread_in_worktree, set_thread_name, start_turn, shutdown,
}
use previously_on.Continuation.Rollover.Source.{Source, check_task}
use previously_on.Continuation.Rollover.Handoff.{prepare_handoff}
use previously_on.Continuation.Rollover.Execute.{
  execute_automatic_rollover, hand_over, record_failure,
}
use previously_on.Continuation.Rollover.Once.{
  World, Run, Reachable, Turn, RunStep, start_thread_once, threads_started, answered,
}
use previously_on.Continuation.Rollover.Returns.{working, no_fault, run}
use previously_on.Continuation.Rollover.Recorded.{IsRecorded, hand_over-IsRecorded}
use previously_on.Continuation.Rollover.Records.{append_operation_event}
use previously_on.EventStore.Unique.{has_event}

abbrev same_text : String → String
same_text s = s

abbrev outside : Outside
outside = record {
  patterns = record {
    private_key = same_text;
    authorization = same_text;
    assignment = same_text;
    cli_secret_flag = same_text;
    url_credentials = same_text;
    well_known_token = same_text;
    sensitive_path = same_text;
  };
  sha256_hex = λ s. concat ("digest of " ∷ s ∷ []);
  handoff_value = λ pack evaluation. some null;
  to_string = λ v. some "{}";
  evaluation_value = λ evaluation. null;
  time_value = λ t. null;
  parse_time = λ s. none;
  grouping_operation = λ v. none;
}

abbrev request : AutomaticRolloverRequestV1
request = record {
  schema_version = 1;
  repository_id = "r";
  task_id = "t";
  source_session_id = "s";
  source_event_id = "e";
  current_prompt = "go on";
}

abbrev task : TaskV1
task = record {
  schema_version = 1;
  id = "t";
  repository_id = "r";
  title = "Guard";
  goal = none;
  lifecycle = active;
  branch = none;
  created_at = 1;
  updated_at = 1;
}

abbrev prompt_event : EventEnvelopeV1
prompt_event = record {
  schema_version = 1;
  event_id = "e";
  dedupe_key = "e";
  source_id = "hook";
  repository_id = "r";
  session_id = "s";
  task_id = some "t";
  sequence = none;
  occurred_at = 5000;
  received_at = 5000;
  kind = user_prompt;
  payload = object (field "prompt" (string "go") (field "repository_path" (string "/r") end));
  coverage = default_coverage;
}

abbrev empty_pack : ContextPackV1
empty_pack = record {
  schema_version = 1;
  repository_id = "r";
  task_id = "t";
  generated_at = 1;
  token_budget = 1800;
  token_count = 1;
  goal = none;
  facts = [];
  unresolved_items = [];
  files = [];
  tests = [];
  temporal_revalidation = none;
  current_validation = none;
  coverage = default_coverage;
}

abbrev answer_to : (q : Query) → Answer q
answer_to now = 7
answer_to (get_task id) = some task
answer_to (repository_identity path) = record { id = "r"; root = "/r" }
answer_to projections = record { session_task = λ s. some "t"; fact_task = λ f. none }
answer_to (verified_context_pack_for_worktree id budget root) = empty_pack
answer_to (match_contracts root) = record {
  matches = record { relevant_contracts = []; summaries = []; matched_paths = []; warnings = [] };
  content_fingerprint = "f";
  prior = [];
}
answer_to connect = tt
answer_to (start_thread root model) = record { id = "thread"; session_id = "session" }
answer_to (resume_thread id) = record { id = "thread"; session_id = "session" }
answer_to (read_thread_in_worktree id root) = tt
answer_to (set_thread_name id name) = tt
answer_to (start_turn id root prompt model message) = "turn"
answer_to shutdown = tt

abbrev oracle : (q : Query) → Answered (Answer q)
oracle q = answer (answer_to q)

abbrev source : Source
source = record { root = "/r"; current_prompt = "go on"; model = none }

known :
    run outside oracle (prompt_event ∷ []) (check_task outside request)
    ≡ (answer task, prompt_event ∷ [])
unfolding run check_task attempt
known = refl

-- A rollover that has the machine to itself for up to `n` calls.
unfoldable advance :
    ℕ
    → String
    → World
    → Program AutomaticRolloverResultV1
    → World × Program AutomaticRolloverResultV1
advance zero operation w p = (w, p)
advance (suc n) operation w (finish r) = (w, finish r)
advance (suc n) operation w (load_rows k) = advance n operation w (k w.rows)
advance (suc n) operation w (insert_event event k) =
    let done = insert_event_inner outside.patterns working no_fault event w.rows in
    advance n operation (record w { rows = done.1 }) (k (answered "" done.0))
advance (suc n) operation w (perform q k) =
    advance n operation (record w { calls = (operation, q) ∷ w.calls }) (k (oracle q))

advance-Reachable :
    (n : ℕ) (operation : String) (w : World) (p : Program AutomaticRolloverResultV1)
    (others : List Run)
    → Reachable outside w (record { operation = operation; rest = p } ∷ others)
    → Reachable outside
        (advance n operation w p).0
        (record { operation = operation; rest = (advance n operation w p).1 } ∷ others)
unfolding advance
advance-Reachable zero operation w p others h = h
advance-Reachable (suc n) operation w (finish r) others h = h
advance-Reachable (suc n) operation w (load_rows k) others h =
    advance-Reachable n operation w (k w.rows) others
      (Reachable.turn _ _ _ _ h (Turn.here _ _ _ _ others (RunStep.load w operation k)))
advance-Reachable (suc n) operation w (insert_event event k) others h =
    let done = insert_event_inner outside.patterns working no_fault event w.rows in
    advance-Reachable n operation (record w { rows = done.1 }) (k (answered "" done.0)) others
      (Reachable.turn _ _ _ _ h
        (Turn.here _ _ _ _ others (RunStep.write w operation event k working no_fault "")))
advance-Reachable (suc n) operation w (perform q k) others h =
    advance-Reachable n operation (record w { calls = (operation, q) ∷ w.calls }) (k (oracle q))
      others
      (Reachable.turn _ _ _ _ h
        (Turn.here _ _ _ _ others (RunStep.call w operation q k (oracle q))))

abbrev before : World
before = record { rows = prompt_event ∷ []; calls = [] }

-- The first of two rollovers of the same prompt runs to its end.
abbrev after : World × Program AutomaticRolloverResultV1
after =
    advance 60 (operation_id_of outside request) before (execute_automatic_rollover outside request)

two_rollovers : Reachable outside after.0 (
    record { operation = operation_id_of outside request; rest = after.1 }
    ∷ record {
      operation = operation_id_of outside request;
      rest = execute_automatic_rollover outside request;
    }
    ∷ [])
two_rollovers =
    advance-Reachable 60 (operation_id_of outside request) before
      (execute_automatic_rollover outside request) _
      (Reachable.launch _ _ request
        (Reachable.launch _ _ request (Reachable.start (prompt_event ∷ []))))

start_thread_once_example :
    (threads_started (operation_id_of outside request) after.0.calls ≤ 1)
    × (1 ≤ threads_started (operation_id_of outside request) after.0.calls
        → has_event
            (operation_event_id outside (operation_id_of outside request) "pending")
            after.0.rows
          ≡ true)
start_thread_once_example =
    start_thread_once outside (operation_id_of outside request) after.0 _ two_rollovers

abbrev without_pack : (q : Query) → Answered (Answer q)
without_pack (verified_context_pack_for_worktree id budget root) = error "no pack"
without_pack q = answer (answer_to q)

abbrev no_pack_result : AutomaticRolloverResultV1
no_pack_result = record {
  schema_version = 1;
  operation_id = "op";
  status = failed;
  task_id = "t";
  task_title = "Guard";
  source_session_id = "s";
  new_thread_id = none;
  new_turn_id = none;
  started_at = none;
  message = "no pack";
  warnings = "The original prompt was not blocked and can continue in the source task." ∷ [];
}

no_pack :
    (run outside without_pack [] (hand_over outside request "op" task source none)).0
    ≡ answer no_pack_result
unfolding run attempt hand_over prepare_handoff record_failure append_operation_event
    insert_event_inner insert_event_tx ensure_event_write_allowed is_taken keyed_event cap_chars
    redact_text redact_excerpt char_count
no_pack = refl

-- In these tests the digest keeps its text, of which an id keeps 24 letters.
failed_started :
    operation_event_id outside "op" "failed" ≢ operation_event_id outside "op" "started"
unfolding operation_event_id deterministic_id take_chars
failed_started e =
    let clash : false ≡ true =
      (text_eq_iff (operation_event_id outside "op" "failed")
          (operation_event_id outside "op" "started")).1
        e in
    absurd (ground arith)

thread_failed :
    operation_event_id outside "op" "thread_created" ≢ operation_event_id outside "op" "failed"
unfolding operation_event_id deterministic_id take_chars
thread_failed e =
    let clash : false ≡ true =
      (text_eq_iff (operation_event_id outside "op" "thread_created")
          (operation_event_id outside "op" "failed")).1
        e in
    absurd (ground arith)

thread_started :
    operation_event_id outside "op" "thread_created" ≢ operation_event_id outside "op" "started"
unfolding operation_event_id deterministic_id take_chars
thread_started e =
    let clash : false ≡ true =
      (text_eq_iff (operation_event_id outside "op" "thread_created")
          (operation_event_id outside "op" "started")).1
        e in
    absurd (ground arith)

hand_over-IsRecorded_example :
    IsRecorded outside without_pack request "op"
      (run outside without_pack [] (hand_over outside request "op" task source none)).1
      no_pack_result
hand_over-IsRecorded_example =
    hand_over-IsRecorded outside without_pack request "op" task [] source none no_pack_result
      failed_started thread_failed thread_started tt no_pack
