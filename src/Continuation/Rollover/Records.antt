-- ===== src/Continuation/Rollover/Records.antt =====
-- src/continuation.rs: the events that a rollover writes.
use previously_on.Prelude.{
  String, [], ◌∷◌, string_partial_eq, nat_partial_eq, option_partial_eq, concat,
}
use previously_on.Domain.Tasks.{deterministic_id}
use previously_on.Json.{Fields, string, object, end, field, insert}
use previously_on.EventStore.{
  session_started, contract_evaluation_recorded, continuation_started, InsertOutcome,
}
use previously_on.Contracts.{ContractEvaluationV1}
use previously_on.Continuation.Rollover.{
  AutomaticRolloverRequestV1, Outside, operation_event_id, operation_payload, keyed_event,
}
use previously_on.Continuation.Rollover.Program.{Program, ◌>>=◌, ask, write, now}

module _ (o : Outside) (request : AutomaticRolloverRequestV1) (operation_id : String) where
  unfoldable pub append_operation_event : String → Fields → Program InsertOutcome
  append_operation_event status fields = do
    occurred_at ← ask now
    received_at ← ask now
    write (
        keyed_event (operation_event_id o operation_id status) request.task_id
          (concat ("automatic-rollover:" ∷ operation_id ∷ ":" ∷ status ∷ ":v1" ∷ []))
          request.repository_id request.source_session_id continuation_started occurred_at
          received_at (operation_payload request operation_id status fields))

  unfoldable pub append_handoff_contract_evaluation : ContractEvaluationV1 → Program InsertOutcome
  append_handoff_contract_evaluation evaluation = do
    received_at ← ask now
    write (
        keyed_event
          (deterministic_id o.sha256_hex "automatic-rollover-contract-evaluation"
            (operation_id ∷ evaluation.id ∷ []))
          request.task_id
          (concat (
            "automatic-rollover:" ∷ operation_id ∷ ":contract-evaluation:" ∷ evaluation.id ∷ ":v1"
            ∷ []))
          request.repository_id request.source_session_id contract_evaluation_recorded
          evaluation.evaluated_at received_at
          (object (field "contractEvaluation" (o.evaluation_value evaluation) end)))

  unfoldable pub link_new_session : String → String → String → Program InsertOutcome
  link_new_session root thread_id session_id = do
    occurred_at ← ask now
    received_at ← ask now
    write (
        keyed_event
          (deterministic_id o.sha256_hex "automatic-rollover-session-link"
            (operation_id ∷ session_id ∷ []))
          request.task_id (concat ("automatic-rollover:" ∷ operation_id ∷ ":session-link:v1" ∷ []))
          request.repository_id session_id session_started occurred_at received_at
          (object (
            insert "repository_path" (string root) (
              insert "source_thread_id" (string thread_id) (
                insert "thread_id" (string thread_id) (
                  insert "continuation_from_session_id" (string request.source_session_id)
                    (insert "automatic_rollover_operation_id" (string operation_id) end)))))))
