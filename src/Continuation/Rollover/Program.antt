-- ===== src/Continuation/Rollover/Program.antt =====
-- src/continuation.rs: a rollover as a tree of the calls that it makes. Each call of the store or of
-- the app server is one step, and what comes back picks the subtree. So several rollovers, and other
-- writers of the store, can take turns between any two calls. A read of the table that fails ends the
-- rollover, as a kill does, and has no branch.
use previously_on.Prelude.{ℕ, String, Option, none, some, List, Bool, true, false}
use previously_on.Domain.Tasks.{TaskV1}
use previously_on.EventStore.{EventEnvelopeV1, InsertOutcome}
use previously_on.ContextPack.{ContextPackV1}
use previously_on.Contracts.{ContractMatchV1, ContractEvaluationV1}
use previously_on.Continuation.Rollover.{Answered, answer, error, Projections}

pub record RepositoryIdentity : Type 0 where
  pub id : String
  pub root : String

pub record AppServerThread : Type 0 where
  pub id : String
  pub session_id : String

-- What `evaluate_contract_handoff` reads before it evaluates.
pub record MatchedContracts : Type 0 where
  pub matches : ContractMatchV1
  pub content_fingerprint : String
  pub prior : List ContractEvaluationV1

-- The calls other than those that read and write events.
pub data Query : Type 0 where
  now : Query
  get_task : String → Query
  repository_identity : String → Query
  projections : Query
  verified_context_pack_for_worktree : String → ℕ → String → Query
  match_contracts : String → Query
  connect : Query
  start_thread : String → Option String → Query
  resume_thread : String → Query
  read_thread_in_worktree : String → String → Query
  set_thread_name : String → String → Query
  start_turn : String → String → String → Option String → String → Query
  shutdown : Query

abbrev pub Answer : Query → Type 0
Answer now = ℕ
Answer (get_task task_id) = Option TaskV1
Answer (repository_identity path) = RepositoryIdentity
Answer projections = Projections
Answer (verified_context_pack_for_worktree task_id budget root) = ContextPackV1
Answer (match_contracts root) = MatchedContracts
Answer connect = Unit
Answer (start_thread root model) = AppServerThread
Answer (resume_thread thread_id) = AppServerThread
Answer (read_thread_in_worktree thread_id root) = Unit
Answer (set_thread_name thread_id name) = Unit
Answer (start_turn thread_id root prompt model message_id) = String
Answer shutdown = Unit

pub data Program (A : Type 0) : Type 0 where
  finish : Answered A → Program A
  load_rows : (List EventEnvelopeV1 → Program A) → Program A
  insert_event : EventEnvelopeV1 → (Answered InsertOutcome → Program A) → Program A
  perform : (q : Query) → (Answered (Answer q) → Program A) → Program A

-- A `match` on what a call returns, an error included.
unfoldable pub attempt : {A B : Type 0} → Program A → (Answered A → Program B) → Program B
attempt (finish r) f = f r
attempt (load_rows k) f = load_rows (λ rows. attempt (k rows) f)
attempt (insert_event event k) f = insert_event event (λ outcome. attempt (k outcome) f)
attempt (perform q k) f = perform q (λ a. attempt (k a) f)

abbrev pub or_return : {A B : Type 0} → (A → Program B) → Answered A → Program B
or_return f (answer a) = f a
or_return f (error message) = finish (error message)

-- `match` with `Ok` and `Err`.
abbrev pub on_error :
    {A B : Type 0} → (String → Program B) → (A → Program B) → Answered A → Program B
on_error g f (answer a) = f a
on_error g f (error message) = g message

-- The operator `?`: an error is returned at once.
infixl 5 ◌>>=◌ ◌>>◌
abbrev pub ◌>>=◌ : {A B : Type 0} → Program A → (A → Program B) → Program B
m >>= f = attempt m (or_return f)

abbrev pub ◌>>◌ : {A B : Type 0} → Program A → Program B → Program B
m >> k = attempt m (or_return (λ _. k))

abbrev pub pure : {A : Type 0} → A → Program A
pure a = finish (answer a)

abbrev pub bail : {A : Type 0} → String → Program A
bail message = finish (error message)

abbrev pub bail_if : Bool → String → Program Unit
bail_if true message = bail message
bail_if false message = pure tt

-- `context`.
abbrev pub or_bail : {A : Type 0} → Option A → String → Program A
or_bail none message = bail message
or_bail (some a) message = pure a

abbrev pub ask : (q : Query) → Program (Answer q)
ask q = perform q finish

abbrev pub write : EventEnvelopeV1 → Program InsertOutcome
write event = insert_event event finish

abbrev pub rows : Program (List EventEnvelopeV1)
rows = load_rows (λ loaded. pure loaded)
