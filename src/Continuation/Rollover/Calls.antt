-- ===== src/Continuation/Rollover/Calls.antt =====
-- src/continuation.rs: which parts of a rollover ask the app server for a new thread.
use previously_on.Prelude.{
  ℕ, zero, suc, ◌+◌, ◌-◌, ◌≤◌, ◌≡◌, refl, arith, String, Option, none, some, List, [], ◌∷◌, Bool,
  true, false, ◌==◌, string_partial_eq, text_eq_iff, inl, inr, not, ◌&&◌, any, is_empty, Bool-cases,
  if◌then◌else◌,
}
use previously_on.Contracts.{ContractEvaluationV1}
use previously_on.Json.{Fields}
use previously_on.Domain.Tasks.{TaskV1}
use previously_on.EventStore.{EventEnvelopeV1}
use previously_on.Continuation.Rollover.{
  AutomaticRolloverRequestV1, Answered, answer, error, Outside,
}
use previously_on.Continuation.Rollover.Program.{
  Program, AppServerThread, Query, finish, load_rows, insert_event, perform, attempt, on_error,
  or_return, ◌>>=◌, bail_if, or_bail, ask, write, rows, start_thread,
}
use previously_on.Continuation.Rollover.Source.{Source, check_task, check_source, operation_events}
use previously_on.Continuation.Rollover.Records.{
  append_operation_event, append_handoff_contract_evaluation, link_new_session,
}
use previously_on.Continuation.Rollover.Handoff.{evaluate_contract_handoff, prepare_handoff}
use previously_on.Continuation.Rollover.Execute.{
  Opened, opened, ended, record_failure, name_thread, record_started, keep_thread, use_thread,
  open_thread, run_turn,
}

abbrev pub starts : Query → ℕ
starts (start_thread root model) = 1
starts _ = 0

-- The program asks for no new thread, whatever comes back.
unfoldable pub Plain : {A : Type 0} → Program A → Type 0
Plain (finish r) = Unit
Plain (load_rows k) = (loaded : _) → Plain (k loaded)
Plain (insert_event event k) = (outcome : _) → Plain (k outcome)
Plain (perform q k) = (starts q ≡ 0) × ((a : _) → Plain (k a))

pub Plain-finish : {A : Type 0} (r : Answered A) → Plain (finish r)
unfolding Plain
Plain-finish r = tt

pub Plain-rows : Plain rows
unfolding Plain
Plain-rows = λ loaded. tt

pub Plain-write : (event : EventEnvelopeV1) → Plain (write event)
unfolding Plain
Plain-write event = λ outcome. tt

pub Plain-ask : (q : Query) → starts q ≡ 0 → Plain (ask q)
unfolding Plain
Plain-ask q e = (e, λ a. tt)

pub Plain-attempt :
    {A B : Type 0} (p : Program A) (f : Answered A → Program B)
    → Plain p
    → ((a : Answered A) → Plain (f a))
    → Plain (attempt p f)
unfolding attempt Plain
Plain-attempt (finish r) f h k = k r
Plain-attempt (load_rows c) f h k = λ loaded. Plain-attempt (c loaded) f (h loaded) k
Plain-attempt (insert_event event c) f h k = λ outcome. Plain-attempt (c outcome) f (h outcome) k
Plain-attempt (perform q c) f h k = (h.0, λ a. Plain-attempt (c a) f (h.1 a) k)

pub Plain-return :
    {A B : Type 0} (f : A → Program B)
    → ((a : A) → Plain (f a))
    → (r : Answered A) → Plain (or_return f r)
Plain-return f h (answer a) = h a
Plain-return f h (error m) = Plain-finish (error m)

pub Plain-bind :
    {A B : Type 0} (p : Program A) (f : A → Program B)
    → Plain p
    → ((a : A) → Plain (f a))
    → Plain (p >>= f)
Plain-bind p f h k = Plain-attempt p (or_return f) h (Plain-return f k)

pub Plain-on_error :
    {A B : Type 0} (p : Program A) (g : String → Program B) (f : A → Program B)
    → Plain p
    → ((m : String) → Plain (g m))
    → ((a : A) → Plain (f a))
    → Plain (attempt p (on_error g f))
Plain-on_error p g f h e k =
    Plain-attempt p (on_error g f) h
      (λ r. elim r as (λ x. Plain (on_error g f x)) [ answer a ↦ k a | error m ↦ e m ])

pub Plain-or_bail : {A : Type 0} (x : Option A) (m : String) → Plain (or_bail x m)
Plain-or_bail none m = Plain-finish _
Plain-or_bail (some a) m = Plain-finish _

pub Plain-bail_if : (b : Bool) (m : String) → Plain (bail_if b m)
Plain-bail_if true m = Plain-finish _
Plain-bail_if false m = Plain-finish _

pub ruleset plain_rules = (
  Plain-finish, Plain-rows, Plain-write, Plain-ask, Plain-bind, Plain-or_bail, Plain-bail_if,
  Plain-on_error, refl,
)

module _ (o : Outside) (request : AutomaticRolloverRequestV1) where
  pub Plain-check_task : Plain (check_task o request)
  unfolding check_task
  Plain-check_task = search plain_rules

  pub Plain-check_source : Plain (check_source o request)
  unfolding check_source
  Plain-check_source = search (plain_rules) depth 30

module _ (o : Outside) (request : AutomaticRolloverRequestV1) (operation_id : String) where
  pub Plain-operation_events : Plain (operation_events o request operation_id)
  unfolding operation_events
  Plain-operation_events = search (plain_rules) depth 30

  pub Plain-append_operation_event :
      (status : String) (fields : Fields)
      → Plain (append_operation_event o request operation_id status fields)
  unfolding append_operation_event
  Plain-append_operation_event status fields = search (plain_rules) depth 30

  pub Plain-append_handoff_contract_evaluation :
      (evaluation : ContractEvaluationV1)
      → Plain (append_handoff_contract_evaluation o request operation_id evaluation)
  unfolding append_handoff_contract_evaluation
  Plain-append_handoff_contract_evaluation evaluation = search (plain_rules) depth 30

  pub Plain-link_new_session :
      (root thread_id session_id : String)
      → Plain (link_new_session o request operation_id root thread_id session_id)
  unfolding link_new_session
  Plain-link_new_session root thread_id session_id = search (plain_rules) depth 30

  pub Plain-evaluate_contract_handoff :
      (root : String) → Plain (evaluate_contract_handoff o request operation_id root)
  unfolding evaluate_contract_handoff
  Plain-evaluate_contract_handoff root = search (plain_rules) depth 30

  pub Plain-prepare_handoff :
      (source : Source) → Plain (prepare_handoff o request operation_id source)
  unfolding prepare_handoff
  Plain-prepare_handoff source =
      search
        (plain_rules, Plain-evaluate_contract_handoff, Plain-append_handoff_contract_evaluation)
        depth 30

  module _ (task : TaskV1) where
    pub Plain-record_failure :
        (thread_id : Option String) (words : String)
        → Plain (record_failure o request operation_id task thread_id words)
    unfolding record_failure
    Plain-record_failure thread_id words =
        search (plain_rules, Plain-append_operation_event) depth 30

    pub Plain-name_thread :
        (thread_id : String) → Plain (name_thread o request operation_id task thread_id)
    unfolding name_thread
    Plain-name_thread thread_id = search plain_rules depth 30

    pub Plain-record_started :
        (thread_id : String) (warnings : List String) (turn_id : String)
        → Plain (record_started o request operation_id task thread_id warnings turn_id)
    unfolding record_started
    Plain-record_started thread_id warnings turn_id =
        search (plain_rules, Plain-append_operation_event, Plain-attempt) depth 30

    pub Plain-run_turn :
        (source : Source) (prompt thread_id session_id : String)
        → Plain (run_turn o request operation_id task source prompt thread_id session_id)
    unfolding run_turn
    Plain-run_turn source prompt thread_id session_id =
        search
          (
            plain_rules, Plain-link_new_session, Plain-record_failure, Plain-name_thread,
            Plain-record_started,
          )
          depth 30

    pub Plain-open_thread :
        (source : Source) (event : EventEnvelopeV1)
        → Plain (open_thread o request operation_id task source (some event))
    unfolding open_thread
    Plain-open_thread source event = search (plain_rules, Plain-record_failure) depth 30

    pub Plain-keep_thread :
        (thread : Answered AppServerThread) → Plain (keep_thread o request operation_id task thread)
    unfolding keep_thread
    Plain-keep_thread (answer thread) = search (plain_rules, Plain-append_operation_event) depth 30
    Plain-keep_thread (error words) = search (plain_rules, Plain-record_failure) depth 30

    pub Plain-use_thread :
        (source : Source) (prompt : String) (state : Opened)
        → Plain (use_thread o request operation_id task source prompt state)
    unfolding use_thread
    Plain-use_thread source prompt (ended result) = Plain-finish (answer result)
    Plain-use_thread source prompt (opened thread_id session_id) =
        Plain-run_turn source prompt thread_id session_id
