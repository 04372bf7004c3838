-- ===== src/Continuation/Rollover/Honest.antt =====
-- src/continuation.rs: a handoff writes no row with the key of a record that is not that record.
use previously_on.Prelude.{
  ◌≡◌, ◌≢◌, refl, ℕ, String, Option, none, some, List, [], ◌∷◌, string_partial_eq,
  option_partial_eq, nat_partial_eq, sym,
}
use previously_on.Domain.Tasks.{TaskV1}
use previously_on.Json.{Value, Fields, get_str, get, insert, end}
use previously_on.EventStore.{EventEnvelopeV1, prepare_event}
use previously_on.Contracts.{ContractEvaluationV1}
use previously_on.Continuation.Rollover.{
  AutomaticRolloverRequestV1, Answered, answer, error, Outside, operation_event_id,
  operation_payload, keyed_event, auto_rollover_token_budget,
}
use previously_on.Continuation.Rollover.Program.{
  Program, AppServerThread, Query, Answer, attempt, or_return, or_bail, on_error, ◌>>=◌, ask, now,
  connect, start_thread, resume_thread, read_thread_in_worktree, set_thread_name, start_turn,
  shutdown, match_contracts, verified_context_pack_for_worktree, pure,
}
use previously_on.Continuation.Rollover.Source.{Source}
use previously_on.Continuation.Rollover.Records.{
  append_operation_event, append_handoff_contract_evaluation, link_new_session,
}
use previously_on.Continuation.Rollover.Handoff.{
  build_handoff_prompt, evaluate_contract_handoff, prepare_handoff,
}
use previously_on.Continuation.Rollover.Execute.{
  Opened, opened, ended, record_failure, keep_thread, open_thread, name_thread, record_started,
  run_turn, use_thread, hand_over,
}
use previously_on.Continuation.Rollover.Keys.{evaluation_key, link_key}
use previously_on.Continuation.Rollover.Writes.{
  other-IsHonest, own-IsHonest, operation_event, Writes, Writes-attempt, Writes-return, Writes-bind,
  Writes-ask, IsHonest,
}

module _ (o : Outside) (request : AutomaticRolloverRequestV1) (operation_id : String) where
  abbrev key_of : String → String
  key_of status = operation_event_id o operation_id status

  -- The keys of the records of three statuses differ.
  module _ (failed_started : key_of "failed" ≢ key_of "started")
      (thread_failed : key_of "thread_created" ≢ key_of "failed")
      (thread_started : key_of "thread_created" ≢ key_of "started") where
    -- As it is stored, the event is honest about both outcomes.
    abbrev pub IsStoredHonest : EventEnvelopeV1 → Type 0
    IsStoredHonest event =
        IsHonest o request operation_id "failed" (prepare_event o.patterns event)
        × IsHonest o request operation_id "started" (prepare_event o.patterns event)

    Writes-append_operation_event :
        (status : String) (fields : Fields)
        → ((t u : ℕ) → IsStoredHonest (operation_event o request operation_id status fields t u))
        → Writes IsStoredHonest (append_operation_event o request operation_id status fields)
    unfolding append_operation_event Writes
    Writes-append_operation_event status fields h =
        Writes-bind IsStoredHonest (ask now) _ (Writes-ask IsStoredHonest now) (λ t.
          Writes-bind IsStoredHonest (ask now) _ (Writes-ask IsStoredHonest now)
            (λ u. (h t u, λ r. tt)))

    Writes-append_failed :
        (thread message : Value)
        → Writes IsStoredHonest (
            append_operation_event o request operation_id "failed"
              (insert "new_thread_id" thread (insert "message" message end)))
    unfolding operation_payload insert keyed_event get
    Writes-append_failed thread message =
        let fields = insert "new_thread_id" thread (insert "message" message end) in
        Writes-append_operation_event "failed" fields (λ t u. (
          own-IsHonest o request operation_id "failed" fields t u refl refl,
          other-IsHonest o request operation_id "started" _
              (operation_event o request operation_id "failed" fields t u) refl refl failed_started,
        ))

    Writes-append_thread_created :
        (fields : Fields)
        → Writes IsStoredHonest
            (append_operation_event o request operation_id "thread_created" fields)
    unfolding keyed_event
    Writes-append_thread_created fields =
        Writes-append_operation_event "thread_created" fields (λ t u. (
          other-IsHonest o request operation_id "failed" _
              (operation_event o request operation_id "thread_created" fields t u) refl refl
              thread_failed,
          other-IsHonest o request operation_id "started" _
              (operation_event o request operation_id "thread_created" fields t u) refl refl
              thread_started,
        ))

    Writes-append_started :
        (thread turn started_at warnings : Value)
        → Writes IsStoredHonest (
            append_operation_event o request operation_id "started" (
              insert "new_thread_id" thread (
                insert "new_turn_id" turn
                  (insert "started_at" started_at (insert "warnings" warnings end)))))
    unfolding operation_payload insert keyed_event get
    Writes-append_started thread turn started_at warnings =
        let fields = insert "new_thread_id" thread (
          insert "new_turn_id" turn
            (insert "started_at" started_at (insert "warnings" warnings end))) in
        Writes-append_operation_event "started" fields (λ t u. (
          other-IsHonest o request operation_id "failed" _
              (operation_event o request operation_id "started" fields t u) refl refl
              (λ e. failed_started (sym e)),
          own-IsHonest o request operation_id "started" fields t u refl refl,
        ))

    IsStoredHonest-other :
        (id : String) (event : EventEnvelopeV1)
        → event.event_id ≡ id
        → event.dedupe_key ≡ id
        → ((status : String) → id ≢ key_of status)
        → IsStoredHonest event
    IsStoredHonest-other id event own own' apart = (
      other-IsHonest o request operation_id "failed" id event own own' (apart "failed"),
      other-IsHonest o request operation_id "started" id event own own' (apart "started"),
    )

    abbrev Safe : {A : Type 0} → Program A → Type 0
    Safe = Writes IsStoredHonest

    Safe-ask :
        {A : Type 0} (q : Query) (f : Answered (Answer q) → Program A)
        → ((r : Answered (Answer q)) → Safe (f r))
        → Safe (attempt (ask q) f)
    Safe-ask q f h = Writes-attempt IsStoredHonest (ask q) f (Writes-ask IsStoredHonest q) h

    Safe-read :
        {A : Type 0} (q : Query) (f : Answer q → Program A)
        → ((a : Answer q) → Safe (f a))
        → Safe (ask q >>= f)
    Safe-read q f h = Safe-ask q (or_return f) (Writes-return IsStoredHonest f h)

    Safe-append_handoff_contract_evaluation :
        (evaluation : ContractEvaluationV1)
        → Safe (append_handoff_contract_evaluation o request operation_id evaluation)
    unfolding append_handoff_contract_evaluation keyed_event Writes
    Safe-append_handoff_contract_evaluation evaluation = Safe-read now _ (λ t. (
      IsStoredHonest-other _ _ refl refl
          (evaluation_key o operation_id (operation_id ∷ evaluation.id ∷ [])),
      λ r. tt,
    ))

    Safe-link_new_session :
        (root thread_id session_id : String)
        → Safe (link_new_session o request operation_id root thread_id session_id)
    unfolding link_new_session keyed_event Writes
    Safe-link_new_session root thread_id session_id = Safe-read now _ (λ t. Safe-read now _ (λ u. (
      IsStoredHonest-other _ _ refl refl (link_key o operation_id (operation_id ∷ session_id ∷ [])),
      λ r. tt,
    )))

    Safe-evaluate_contract_handoff :
        (root : String) → Safe (evaluate_contract_handoff o request operation_id root)
    unfolding evaluate_contract_handoff Writes
    Safe-evaluate_contract_handoff root =
        Safe-read (match_contracts root) _ (λ found. Safe-read now _ (λ t. tt))

    Safe-prepare_handoff : (source : Source) → Safe (prepare_handoff o request operation_id source)
    unfolding prepare_handoff Writes attempt
    Safe-prepare_handoff source =
        let pack_query =
          verified_context_pack_for_worktree request.task_id auto_rollover_token_budget
            source.root in
        Safe-read pack_query _ (λ pack.
          Writes-bind IsStoredHonest (evaluate_contract_handoff o request operation_id source.root)
            _ (Safe-evaluate_contract_handoff source.root)
            (λ evaluation.
              Writes-return IsStoredHonest _
                (λ prompt.
                  Writes-bind IsStoredHonest
                    (append_handoff_contract_evaluation o request operation_id evaluation) _
                    (Safe-append_handoff_contract_evaluation evaluation) (λ outcome. tt))
                (build_handoff_prompt o source.current_prompt pack evaluation)))

    module _ (task : TaskV1) where
      Safe-record_failure :
          (thread_id : Option String) (words : String)
          → Safe (record_failure o request operation_id task thread_id words)
      unfolding record_failure Writes
      Safe-record_failure thread_id words =
          Writes-bind IsStoredHonest (append_operation_event o request operation_id "failed" _) _
            (Writes-append_failed _ _) (λ outcome. tt)

      Safe-ended :
          (thread_id : Option String) (words : String)
          → Safe (
              record_failure o request operation_id task thread_id words >>= λ result.
              pure (ended result))
      unfolding Writes
      Safe-ended thread_id words =
          Writes-bind IsStoredHonest (record_failure o request operation_id task thread_id words) _
            (Safe-record_failure thread_id words) (λ result. tt)

      Safe-on_error :
          {A B : Type 0} (g : String → Program B) (f : A → Program B)
          → ((words : String) → Safe (g words))
          → ((a : A) → Safe (f a))
          → (r : Answered A) → Safe (on_error g f r)
      Safe-on_error g f e k (answer a) = k a
      Safe-on_error g f e k (error words) = e words

      Safe-keep_thread :
          (r : Answered AppServerThread) → Safe (keep_thread o request operation_id task r)
      unfolding keep_thread Writes
      Safe-keep_thread (error words) = Safe-ended none words
      Safe-keep_thread (answer thread) =
          Writes-bind IsStoredHonest
            (append_operation_event o request operation_id "thread_created" _) _
            (Writes-append_thread_created _) (λ outcome. tt)

      Safe-open_thread :
          (source : Source) (thread_created : Option EventEnvelopeV1)
          → Safe (open_thread o request operation_id task source thread_created)
      unfolding open_thread Writes
      Safe-open_thread source none =
          Safe-ask (start_thread source.root source.model) _ Safe-keep_thread
      Safe-open_thread source (some event) =
          Writes-bind IsStoredHonest (or_bail (get_str "new_thread_id" event.payload) _) _
            (Safe-or_bail (get_str "new_thread_id" event.payload) _)
            (λ thread_id.
              Safe-ask (resume_thread thread_id) _
                (Safe-on_error _ _ (Safe-ended (some thread_id)) (λ thread. tt)))
        where
          Safe-or_bail : (found : Option String) (words : String) → Safe (or_bail found words)
          Safe-or_bail none words = tt
          Safe-or_bail (some s) words = tt

      Safe-name_thread :
          (thread_id : String) → Safe (name_thread o request operation_id task thread_id)
      unfolding name_thread Writes
      Safe-name_thread thread_id =
          Safe-ask (set_thread_name thread_id _) _ (Safe-on_error _ _ (λ words. tt) (λ a. tt))

      Safe-record_started :
          (thread_id : String) (warnings : List String) (turn_id : String)
          → Safe (record_started o request operation_id task thread_id warnings turn_id)
      unfolding record_started Writes
      Safe-record_started thread_id warnings turn_id = Safe-read now _ (λ t.
          Writes-bind IsStoredHonest (append_operation_event o request operation_id "started" _) _
            (Writes-append_started _ _ _ _) (λ outcome. Safe-ask shutdown _ (λ r. tt)))

      Safe-run_turn :
          (source : Source) (prompt thread_id session_id : String)
          → Safe (run_turn o request operation_id task source prompt thread_id session_id)
      unfolding run_turn
      Safe-run_turn source prompt thread_id session_id =
          let fail = Safe-record_failure (some thread_id) in
          Safe-ask (read_thread_in_worktree thread_id source.root) _ (
            Safe-on_error _ _ fail (λ read.
              Writes-bind IsStoredHonest
                (link_new_session o request operation_id source.root thread_id session_id) _
                (Safe-link_new_session source.root thread_id session_id)
                (λ linked.
                  Writes-bind IsStoredHonest (name_thread o request operation_id task thread_id) _
                    (Safe-name_thread thread_id)
                    (λ warnings.
                      Safe-ask (start_turn thread_id source.root prompt source.model operation_id) _
                        (Safe-on_error _ _ fail (Safe-record_started thread_id warnings))))))

      Safe-use_thread :
          (source : Source) (prompt : String) (state : Opened)
          → Safe (use_thread o request operation_id task source prompt state)
      unfolding use_thread Writes
      Safe-use_thread source prompt (ended result) = tt
      Safe-use_thread source prompt (opened thread_id session_id) =
          Safe-run_turn source prompt thread_id session_id

      -- All that a handoff writes is honest.
      pub Writes-hand_over :
          (source : Source) (thread_created : Option EventEnvelopeV1)
          → Writes IsStoredHonest (hand_over o request operation_id task source thread_created)
      unfolding hand_over
      Writes-hand_over source thread_created =
          Writes-attempt IsStoredHonest (prepare_handoff o request operation_id source) _
            (Safe-prepare_handoff source)
            (Safe-on_error _ _ (Safe-record_failure _) (λ prompt. Safe-ask connect _ (
              Safe-on_error _ _ (Safe-record_failure _) (λ connected.
                Writes-bind IsStoredHonest
                  (open_thread o request operation_id task source thread_created) _
                  (Safe-open_thread source thread_created) (Safe-use_thread source prompt)))))
