-- ===== src/Continuation/Rollover/Starts.antt =====
-- src/continuation.rs: a rollover that nothing stops starts the work in a new thread.
use previously_on.Prelude.{◌≡◌, String, some, string_partial_eq, option_partial_eq, nat_partial_eq}
use previously_on.Domain.Tasks.{TaskV1}
use previously_on.ContextPack.{ContextPackV1}
use previously_on.Contracts.{ContractEvaluationV1}
use previously_on.Continuation.Evidence.{evaluate_matched}
use previously_on.Continuation.Rollover.{
  AutomaticRolloverRequestV1, AutomaticRolloverResultV1, auto_rollover_token_budget, started,
  Answered, answer, Outside,
}
use previously_on.Continuation.Rollover.Program.{
  Program, AppServerThread, Query, Answer, now, start_thread, match_contracts,
  verified_context_pack_for_worktree,
}
use previously_on.Continuation.Rollover.Source.{Source}
use previously_on.Continuation.Rollover.Handoff.{build_handoff_prompt}
use previously_on.Continuation.Rollover.Returns.{Returns}

module _ (o : Outside) (oracle : (q : Query) → Answered (Answer q)) where
  -- Every call is answered.
  module _ (answers : (q : Query) → (a : Answer q) × (oracle q ≡ answer a))
      (request : AutomaticRolloverRequestV1) (operation_id : String) where
    -- The pack that the rollover reads.
    abbrev pub pack_read : Source → ContextPackV1
    pack_read source =
        (answers (
          verified_context_pack_for_worktree request.task_id auto_rollover_token_budget
            source.root)).0

    -- The evaluation of the contracts that match the checkout that the rollover reads.
    abbrev pub evaluation_read : Source → ContractEvaluationV1
    evaluation_read source =
        let found = (answers (match_contracts source.root)).0 in
        evaluate_matched o.sha256_hex (answers now).0 request.repository_id request.task_id
          found.matches found.content_fingerprint found.prior

    -- The prompt for this pack and this evaluation can be built.
    abbrev pub HasPrompt : Source → String → Type 0
    HasPrompt source prompt =
        build_handoff_prompt o source.current_prompt (pack_read source) (evaluation_read source)
        ≡ answer prompt

    module _ (task : TaskV1) where
      -- The work runs in this thread.
      abbrev pub IsStarted : String → AutomaticRolloverResultV1 → Type 0
      IsStarted thread_id result =
          (result.status ≡ started)
          × (result.new_thread_id ≡ some thread_id)
          × ((turn_id : String) × (result.new_turn_id ≡ some turn_id))

      module _ (source : Source) (prompt : String) (built : HasPrompt source prompt) where
        abbrev new_thread : AppServerThread
        new_thread = (answers (start_thread source.root source.model)).0
