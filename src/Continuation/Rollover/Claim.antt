-- ===== src/Continuation/Rollover/Claim.antt =====
-- src/continuation.rs: a rollover asks for a thread only after its claim was new.
use previously_on.Prelude.{
  ℕ, ◌+◌, ◌-◌, ◌≤◌, ◌≡◌, refl, arith, String, Option, none, some, List, [], ◌∷◌, Bool, true, false,
  string_partial_eq, text_eq_iff,
}
use previously_on.Json.{Fields, end}
use previously_on.Domain.Tasks.{TaskV1}
use previously_on.EventStore.{EventEnvelopeV1, InsertOutcome, inserted, duplicate}
use previously_on.Continuation.Rollover.{
  AutomaticRolloverRequestV1, AutomaticRolloverResultV1, Answered, answer, error, Outside,
  validate_request, operation_id_of, operation_event_id, keyed_event, last_with,
}
use previously_on.Continuation.Rollover.Program.{
  finish, attempt, or_return, ◌>>=◌, pure, ask, now, connect,
}
use previously_on.Continuation.Rollover.Source.{Source, check_task, check_source, operation_events}
use previously_on.Continuation.Rollover.Records.{append_operation_event}
use previously_on.Continuation.Rollover.Handoff.{prepare_handoff}
use previously_on.Continuation.Rollover.Execute.{
  is_inserted, keep_thread, use_thread, open_thread, hand_over, claim, after_claim, settle,
  continue_operation, execute_automatic_rollover,
}
use previously_on.Continuation.Rollover.Calls.{
  Plain-finish, Plain-bind, Plain-check_task, Plain-check_source, Plain-operation_events,
  Plain-prepare_handoff, Plain-ask, Plain-record_failure, Plain-open_thread, Plain-keep_thread,
  Plain-use_thread,
}
use previously_on.Continuation.Rollover.Safe.{
  Safe, Earns, Earns-map, Safe-of_Plain, Safe-bind, Safe-more, Safe-on_error, Earns-attempt,
  Earns-return, Safe-Earns, earned,
}

module _ (o : Outside) (request : AutomaticRolloverRequestV1) (operation_id : String) where
  abbrev pub pending_id : String
  pending_id = operation_event_id o operation_id "pending"

  -- What a claim that succeeds allows.
  abbrev Claimed : ℕ → Answered Bool → Type 0
  Claimed n (answer true) = 1 ≤ n
  Claimed n r = Unit

  abbrev Wrote : ℕ → Answered InsertOutcome → Type 0
  Wrote n (answer inserted) = 1 ≤ n
  Wrote n r = Unit

  Wrote-earned :
      (n : ℕ) (id : String)
      → id ≡ pending_id
      → (outcome : Answered InsertOutcome) → Wrote (n + earned pending_id id outcome) outcome
  Wrote-earned n id own (answer inserted) = ground (arith, text_eq_iff id pending_id)
  Wrote-earned n id own (answer duplicate) = tt
  Wrote-earned n id own (error words) = tt

  append-Wrote :
      (n : ℕ) (fields : Fields)
      → Earns pending_id Wrote n (append_operation_event o request operation_id "pending" fields)
  unfolding append_operation_event keyed_event attempt
  append-Wrote n fields = Earns-attempt pending_id Wrote n (ask now) _ (
    refl,
    Earns-return pending_id Wrote n _ (λ words. tt)
        (λ t. Earns-attempt pending_id Wrote n (ask now) _ (
          refl,
          Earns-return pending_id Wrote n _ (λ words. tt) (λ u. Wrote-earned n pending_id refl),
        )),
  )

  module _ (task : TaskV1) where
    claim-Claimed :
        (n : ℕ) (existing : List EventEnvelopeV1)
        → Earns pending_id Claimed n (claim o request operation_id task existing)
    unfolding claim
    claim-Claimed n [] =
        Earns-attempt pending_id Claimed n
          (append_operation_event o request operation_id "pending" end) _
          (Earns-map pending_id Wrote _ claimed n
            (append_operation_event o request operation_id "pending" end) (append-Wrote n end))
      where
        claimed :
            (m : ℕ) (r : Answered InsertOutcome)
            → Wrote m r
            → Earns pending_id Claimed m (or_return (λ outcome. pure (is_inserted outcome)) r)
        claimed m (answer inserted) h = h
        claimed m (answer duplicate) h = tt
        claimed m (error words) h = tt
    claim-Claimed n (event ∷ existing) = tt

    Safe-open_thread :
        (n : ℕ) (source : Source) (prompt : String) (thread_created : Option EventEnvelopeV1)
        → (thread_created ≡ none → 1 ≤ n)
        → Safe pending_id n (
            open_thread o request operation_id task source thread_created
            >>= use_thread o request operation_id task source prompt)
    unfolding open_thread attempt
    Safe-open_thread n source prompt none may = (
      may refl,
      λ thread. Safe-of_Plain pending_id (n - 1) _ (
          Plain-bind (keep_thread o request operation_id task thread) _
            (Plain-keep_thread o request operation_id task thread)
            (Plain-use_thread o request operation_id task source prompt)),
    )
    Safe-open_thread n source prompt (some event) may = Safe-of_Plain pending_id n _ (
        Plain-bind (open_thread o request operation_id task source (some event)) _
          (Plain-open_thread o request operation_id task source event)
          (Plain-use_thread o request operation_id task source prompt))

    Safe-hand_over :
        (n : ℕ) (source : Source) (thread_created : Option EventEnvelopeV1)
        → (thread_created ≡ none → 1 ≤ n)
        → Safe pending_id n (hand_over o request operation_id task source thread_created)
    unfolding hand_over
    Safe-hand_over n source thread_created may =
        let fails = Plain-record_failure o request operation_id task _ in
        Safe-on_error pending_id n (prepare_handoff o request operation_id source) _ _
          (Plain-prepare_handoff o request operation_id source) fails
          (λ m prompt le.
            Safe-on_error pending_id m (ask connect) _ _ (Plain-ask connect refl) fails (λ k _ le'.
              Safe-open_thread k source prompt thread_created (λ fresh. omega (arith, may fresh))))

    Safe-after_claim :
        (n : ℕ) (source : Source) (thread_created : Option EventEnvelopeV1) (first_attempt : Bool)
        → (first_attempt ≡ true → 1 ≤ n)
        → Safe pending_id n
            (after_claim o request operation_id task source thread_created first_attempt)
    unfolding after_claim
    Safe-after_claim n source none false may = tt
    Safe-after_claim n source (some event) false may =
        Safe-hand_over n source (some event) (λ e. absurd (ground arith))
    Safe-after_claim n source thread_created true may =
        Safe-hand_over n source thread_created (λ e. may refl)

    Safe-claim :
        (source : Source) (existing : List EventEnvelopeV1)
        (thread_created : Option EventEnvelopeV1)
        → Safe pending_id 0 (
            claim o request operation_id task existing
            >>= after_claim o request operation_id task source thread_created)
    Safe-claim source existing thread_created =
        Safe-Earns pending_id 0 (claim o request operation_id task existing) _ (
          Earns-map pending_id Claimed _ claimed 0 (claim o request operation_id task existing)
            (claim-Claimed 0 existing))
      where
        claimed :
            (m : ℕ) (r : Answered Bool)
            → Claimed m r
            → Safe pending_id m
                (or_return (after_claim o request operation_id task source thread_created) r)
        claimed m (answer true) h = Safe-after_claim m source thread_created true (λ _. h)
        claimed m (answer false) h =
            Safe-after_claim m source thread_created false (λ e. absurd (ground arith))
        claimed m (error words) h = tt

    Safe-settle :
        (source : Source) (existing : List EventEnvelopeV1)
        (completed : Option AutomaticRolloverResultV1) (has_failed : Bool)
        → Safe pending_id 0
            (settle o request operation_id task source existing completed has_failed)
    unfolding settle
    Safe-settle source existing (some result) has_failed = tt
    Safe-settle source existing none true = tt
    Safe-settle source existing none false =
        Safe-claim source existing (last_with "thread_created" existing)

    Safe-continue_operation :
        (source : Source) (existing : List EventEnvelopeV1)
        → Safe pending_id 0 (continue_operation o request operation_id task source existing)
    unfolding continue_operation
    Safe-continue_operation source existing = Safe-settle source existing _ _

-- A rollover asks for a new thread at most once, and only after its own claim of the operation
-- was new.
pub Safe-execute_automatic_rollover :
    (o : Outside) (request : AutomaticRolloverRequestV1)
    → Safe
        (pending_id o request (operation_id_of o request))
        0
        (execute_automatic_rollover o request)
unfolding execute_automatic_rollover
Safe-execute_automatic_rollover o request =
    let id = operation_id_of o request in
    let pending = pending_id o request id in
    Safe-bind pending 0 (finish (validate_request request)) _
      (Plain-finish (validate_request request))
      (λ n _ _.
        Safe-bind pending n (check_task o request) _ (Plain-check_task o request) (λ n' task _.
          Safe-bind pending n' (check_source o request) _ (Plain-check_source o request)
            (λ m source _.
              Safe-bind pending m (operation_events o request id) _
                (Plain-operation_events o request id)
                (λ k existing _.
                  Safe-more pending 0 k (continue_operation o request id task source existing)
                    (omega arith) (Safe-continue_operation o request id task source existing)))))
