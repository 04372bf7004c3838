-- ===== src/Continuation/Rollover/Once.antt =====
-- src/continuation.rs: rollovers that run side by side, and other writers of the same store. Between
-- any two calls another process may take its turn. A process that dies is never picked again.
use previously_on.Prelude.{
  ℕ, ◌+◌, ◌-◌, ◌≤◌, ◌≡◌, refl, arith, subst, String, List, [], ◌∷◌, Bool, true, false, ◌==◌,
  string_partial_eq, text_eq_iff, inl, inr, Bool-cases, if◌then◌else◌,
}
use previously_on.EventStore.{
  EventEnvelopeV1, InsertOutcome, InsertFault, WriteIo, Written, written, failed, inserted,
  duplicate, insert_event_inner,
}
use previously_on.EventStore.Unique.{has_event, has_event-written}
use previously_on.Continuation.Rollover.{
  AutomaticRolloverRequestV1, AutomaticRolloverResultV1, Answered, answer, error, Outside,
  operation_id_of, operation_event_id,
}
use previously_on.Continuation.Rollover.Program.{
  Program, Query, Answer, load_rows, insert_event, perform,
}
use previously_on.Continuation.Rollover.Execute.{execute_automatic_rollover}
use previously_on.Continuation.Rollover.Calls.{starts}
use previously_on.Continuation.Rollover.Safe.{Safe, earned}
use previously_on.Continuation.Rollover.Claim.{Safe-execute_automatic_rollover}

-- The table of events, and the calls made so far, each with the operation it was made for.
pub record World : Type 0 where
  pub rows : List EventEnvelopeV1
  pub calls : List (String × Query)

pub record Run : Type 0 where
  pub operation : String
  pub rest : Program AutomaticRolloverResultV1

abbrev pub answered : String → Written → Answered InsertOutcome
answered words (written outcome) = answer outcome
answered words failed = error words

-- How often a new thread was asked for in the course of an operation.
abbrev pub threads_started : String → List (String × Query) → ℕ
threads_started operation [] = 0
threads_started operation ((own, call) ∷ calls) =
    (if own == operation then starts call else 0) + threads_started operation calls

abbrev present : String → List EventEnvelopeV1 → ℕ
present id rows = if has_event id rows then 1 else 0

module _ (o : Outside) where
  -- One call of a rollover, with what comes back.
  pub data RunStep : World → Run → World → Run → Type 0 where
    load :
        (w : World) (operation : String)
        (k : List EventEnvelopeV1 → Program AutomaticRolloverResultV1)
        → RunStep w
            (record { operation = operation; rest = load_rows k })
            w
            (record { operation = operation; rest = k w.rows })
    write :
        (w : World) (operation : String) (event : EventEnvelopeV1)
        (k : Answered InsertOutcome → Program AutomaticRolloverResultV1) (io : WriteIo)
        (fault : InsertFault) (words : String)
        → RunStep w
            (record { operation = operation; rest = insert_event event k })
            (record w { rows = (insert_event_inner o.patterns io fault event w.rows).1 })
            (record {
              operation = operation;
              rest = k (answered words (insert_event_inner o.patterns io fault event w.rows).0);
            })
    call :
        (w : World) (operation : String) (q : Query)
        (k : Answered (Answer q) → Program AutomaticRolloverResultV1) (a : Answered (Answer q))
        → RunStep w
            (record { operation = operation; rest = perform q k })
            (record w { calls = (operation, q) ∷ w.calls })
            (record { operation = operation; rest = k a })

  -- One of the rollovers under way makes a call.
  pub data Turn : World → List Run → World → List Run → Type 0 where
    here :
        (w w' : World) (r r' : Run) (runs : List Run)
        → RunStep w r w' r'
        → Turn w (r ∷ runs) w' (r' ∷ runs)
    there :
        (w w' : World) (r : Run) (runs runs' : List Run)
        → Turn w runs w' runs'
        → Turn w (r ∷ runs) w' (r ∷ runs')

  -- What can be reached from a store with any events in it.
  pub data Reachable : World → List Run → Type 0 where
    start : (rows : List EventEnvelopeV1) → Reachable (record { rows = rows; calls = [] }) []
    launch :
        (w : World) (runs : List Run) (request : AutomaticRolloverRequestV1)
        → Reachable w runs
        → Reachable w (
            record {
              operation = operation_id_of o request;
              rest = execute_automatic_rollover o request;
            }
            ∷ runs)
    turn :
        (w w' : World) (runs runs' : List Run)
        → Reachable w runs
        → Turn w runs w' runs'
        → Reachable w' runs'
    other_write :
        (w : World) (runs : List Run) (event : EventEnvelopeV1) (io : WriteIo) (fault : InsertFault)
        → Reachable w runs
        → Reachable
            (record w { rows = (insert_event_inner o.patterns io fault event w.rows).1 })
            runs

  module _ (operation : String) where
    abbrev pending : String
    pending = operation_event_id o operation "pending"

    grows :
        (before after : Bool) (event_id words : String) (result : Written)
        → (before ≡ true → after ≡ true)
        → (result ≡ written inserted → event_id ≡ pending → (before ≡ false) × (after ≡ true))
        → (if before then 1 else 0) + earned pending event_id (answered words result)
          ≤ (if after then 1 else 0)
    grows before after event_id words (written inserted) keeps new =
        ground (arith, keeps, new refl, text_eq_iff event_id pending)
    grows before after event_id words (written duplicate) keeps new = ground (arith, keeps)
    grows before after event_id words failed keeps new = ground (arith, keeps)

    present-grows :
        (io : WriteIo) (fault : InsertFault) (event : EventEnvelopeV1) (rows : List EventEnvelopeV1)
        (words : String)
        → present pending rows
            + earned pending event.event_id
                (answered words (insert_event_inner o.patterns io fault event rows).0)
          ≤ present pending (insert_event_inner o.patterns io fault event rows).1
    present-grows io fault event rows words =
        let facts = has_event-written o.patterns io fault event rows pending in
        grows _ _ event.event_id words (insert_event_inner o.patterns io fault event rows).0 facts.0
          facts.1

    -- The rollovers under way may ask for `n` new threads in the course of the operation.
    abbrev Holds : List Run → ℕ → Type 0
    Holds [] n = Unit
    Holds (r ∷ runs) n =
        (own : ℕ) × (others : ℕ) × (own + others ≡ n)
        × (r.operation ≡ operation → Safe pending own r.rest)
        × Holds runs others

    -- What has been asked for and what may still be asked for, `slack` included, is covered by the
    -- claim in the table.
    abbrev IsCovered : ℕ → World → List Run → Type 0
    IsCovered slack w runs =
        (n : ℕ) × Holds runs n
        × (threads_started operation w.calls + (n + slack) ≤ present pending w.rows)

    RunStep-IsCovered :
        (w w' : World) (r r' : Run) (own others : ℕ)
        → (r.operation ≡ operation → Safe pending own r.rest)
        → threads_started operation w.calls + (own + others) ≤ present pending w.rows
        → RunStep w r w' r'
        → (own' : ℕ) × (r'.operation ≡ operation → Safe pending own' r'.rest)
          × (threads_started operation w'.calls + (own' + others) ≤ present pending w'.rows)
    RunStep-IsCovered w w' r r' own others safe le (load _ op k) =
        (own, (λ same. safe same w.rows), le)
    RunStep-IsCovered w w' r r' own others safe le (write _ op event k io fault words) =
        let outcome = answered words (insert_event_inner o.patterns io fault event w.rows).0 in
        (
          own + earned pending event.event_id outcome,
          (λ same. safe same outcome),
          omega (arith, le, present-grows io fault event w.rows words),
        )
    RunStep-IsCovered w w' r r' own others safe le (call _ op q k a) =
        elim (Bool-cases (op == operation)) [
          | inl mine ↦
              let allowed = safe (ground (arith, mine, text_eq_iff op operation)) in
              (own - starts q, (λ same. allowed.1 a), rw mine (omega (arith, le, allowed.0)))
          | inr foreign ↦ (
            own,
            (λ same. absurd (ground (arith, foreign, same, text_eq_iff op operation))),
            rw foreign (omega (arith, le)),
          )
        ]

    Turn-IsCovered :
        (slack : ℕ) (w w' : World) (runs runs' : List Run)
        → Turn w runs w' runs'
        → IsCovered slack w runs
        → IsCovered slack w' runs'
    Turn-IsCovered slack w w' runs runs' (here _ _ r r' more step)
          (n, (own, others, sum, safe, rest), le) =
        let (own', safe', le') =
          RunStep-IsCovered w w' r r' own (others + slack) safe (omega (arith, sum, le)) step in
        (own' + others, (own', others, refl, safe', rest), omega (arith, le'))
    Turn-IsCovered slack w w' runs runs' (there _ _ r more more' step)
          (n, (own, others, sum, safe, rest), le) =
        let (others', rest', le') =
          Turn-IsCovered (own + slack) w w' more more' step
            (others, rest, omega (arith, sum, le)) in
        (own + others', (own, others', refl, safe, rest'), omega (arith, le'))

    Reachable-IsCovered : (w : World) (runs : List Run) → Reachable w runs → IsCovered 0 w runs
    Reachable-IsCovered w runs (start rows) = (0, tt, omega arith)
    Reachable-IsCovered w runs (launch _ before request h) =
        let (n, holds, le) = Reachable-IsCovered w before h in
        (
          n,
          (
            0,
            n,
            omega arith,
            (λ same.
                subst
                  (λ id.
                    Safe (operation_event_id o id "pending") 0
                      (execute_automatic_rollover o request))
                  same (Safe-execute_automatic_rollover o request)),
            holds,
          ),
          le,
        )
    Reachable-IsCovered w runs (turn u _ before _ h step) =
        Turn-IsCovered 0 u w before runs step (Reachable-IsCovered u before h)
    Reachable-IsCovered w runs (other_write u _ event io fault h) =
        let (n, holds, le) = Reachable-IsCovered u runs h in
        (n, holds, omega (arith, le, present-grows io fault event u.rows ""))

    -- However many rollovers of an operation run, side by side or one after another, with other
    -- writes of events between their calls and with calls that fail or never come back, a new thread
    -- is asked for at most once, and only after the claim of the operation is in the table.
    pub start_thread_once :
        (w : World) (runs : List Run)
        → Reachable w runs
        → (threads_started operation w.calls ≤ 1)
          × (1 ≤ threads_started operation w.calls → has_event pending w.rows ≡ true)
    start_thread_once w runs h =
        let (n, holds, le) = Reachable-IsCovered w runs h in
        (ground (arith, le), λ some_started. ground (arith, le))
