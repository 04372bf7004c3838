-- ===== src/Continuation/Rollover/Source.antt =====
-- src/continuation.rs: the task of a rollover, the prompt that it starts from, and its earlier events.
use previously_on.Prelude.{
  String, Option, none, some, List, [], ◌∷◌, Bool, true, false, not, ◌||◌, ◌==◌, string_partial_eq,
  nat_partial_eq, option_partial_eq, find, filter, trim, text_is_empty, text_starts_with, concat,
  if◌then◌else◌,
}
use previously_on.Domain.Tasks.{TaskV1}
use previously_on.Json.{get_str}
use previously_on.Redaction.{redact_text}
use previously_on.EventStore.{EventEnvelopeV1, EventKind, user_prompt, list_session_events}
use previously_on.Continuation.Rollover.{
  AutomaticRolloverRequestV1, Outside, is_operation_event, list_task_events,
}
use previously_on.Continuation.Rollover.Program.{
  Program, ◌>>=◌, ◌>>◌, pure, bail_if, or_bail, ask, rows, get_task, repository_identity,
  projections,
}

-- The source of the rollover: the checkout, the scrubbed prompt and the model.
pub record Source : Type 0 where
  pub root : String
  pub current_prompt : String
  pub model : Option String

abbrev is_user_prompt : EventKind → Bool
is_user_prompt user_prompt = true
is_user_prompt _ = false

-- `filter(|value| !value.trim().is_empty())`.
abbrev non_blank : Option String → Option String
non_blank none = none
non_blank (some s) = if text_is_empty (trim s) then none else some s

module _ (o : Outside) (request : AutomaticRolloverRequestV1) where
  unfoldable pub check_task : Program TaskV1
  check_task = do
    found ← ask (get_task request.task_id)
    task ← or_bail found (concat ("task not found: " ∷ request.task_id ∷ []))
    bail_if (not (task.repository_id == request.repository_id))
        "automatic rollover task does not belong to the source repository"
    pure task

  unfoldable pub check_source : Program Source
  check_source = do
    loaded ← rows
    source ←
        or_bail
          (find (λ event. event.event_id == request.source_event_id)
            (list_session_events request.repository_id request.source_session_id loaded))
          "automatic rollover source prompt was not found"
    bail_if (not (is_user_prompt source.kind) || not (source.task_id == some request.task_id))
        "automatic rollover source must be a task-linked user prompt"
    path ←
        or_bail (get_str "repository_path" source.payload)
          "automatic rollover source omitted repository_path"
    repository ← ask (repository_identity path)
    bail_if (not (repository.id == request.repository_id))
        "automatic rollover source repository identity changed"
    excerpt ←
        or_bail
          (non_blank (elim (get_str "prompt" source.payload) [
            | none ↦ none
            | some prompt ↦ some (redact_text o.patterns prompt)
          ]))
          "automatic rollover source omitted the current prompt"
    let current_prompt = redact_text o.patterns request.current_prompt
    bail_if
        (text_is_empty (trim current_prompt)
          || not (text_starts_with current_prompt (trim excerpt)))
        "automatic rollover current prompt does not match its stored source excerpt"
    pure (record {
      root = repository.root;
      current_prompt = current_prompt;
      model = get_str "model" source.payload;
    })

module _ (o : Outside) (request : AutomaticRolloverRequestV1) (operation_id : String) where
  unfoldable pub operation_events : Program (List EventEnvelopeV1)
  operation_events = do
    loaded ← rows
    tables ← ask projections
    pure (
        filter (is_operation_event operation_id)
          (list_task_events o tables request.repository_id request.task_id loaded))
