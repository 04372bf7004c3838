-- ===== src/Continuation/Rollover/Recorded.antt =====
-- src/continuation.rs: the outcome of a handoff is in the table before it is returned.
use previously_on.Prelude.{
  ◌≡◌, refl, subst, String, none, some, List, true, string_partial_eq, option_partial_eq,
  nat_partial_eq, any, arith, Option, ◌||◌, ◌==◌, All, All-map, Any, ◌≢◌,
}
use previously_on.Domain.Tasks.{TaskV1}
use previously_on.Json.{Fields, get_str}
use previously_on.EventStore.{
  EventEnvelopeV1, is_taken, InsertOutcome, Written, prepare_event, insert_event_inner, written,
}
use previously_on.Continuation.Rollover.{
  AutomaticRolloverRequestV1, AutomaticRolloverResultV1, started, Answered, answer, Outside,
  operation_event_id, keyed_event, failed, error,
}
use previously_on.Continuation.Rollover.Program.{
  Program, AppServerThread, Query, Answer, or_return, ◌>>=◌, now, connect, start_thread,
  read_thread_in_worktree, start_turn, shutdown, pure, or_bail, resume_thread, write,
}
use previously_on.Continuation.Rollover.Source.{Source}
use previously_on.Continuation.Rollover.Records.{append_operation_event, link_new_session}
use previously_on.Continuation.Rollover.Handoff.{prepare_handoff}
use previously_on.Continuation.Rollover.Execute.{
  Opened, opened, keep_thread, open_thread, use_thread, name_thread, record_started, run_turn,
  hand_over, record_failure, ended,
}
use previously_on.Continuation.Rollover.Returns.{key_taken, run, working, no_fault}
use previously_on.Continuation.Rollover.Once.{answered}
use previously_on.EventStore.Unique.{is_taken-written}
use previously_on.Continuation.Rollover.Leaves.{
  Leaves, Leaves-attempt, Leaves-map, Leaves-all, Leaves-finish, Leaves-return, Leaves-on_error,
  Leaves-ask,
}
use previously_on.Continuation.Rollover.Writes.{run-All, IsRecord, IsHonest, key_taken-IsRecord}
use previously_on.Continuation.Rollover.Honest.{Writes-hand_over}

module _ (o : Outside) (oracle : (q : Query) → Answered (Answer q)) where
  module _ (request : AutomaticRolloverRequestV1) (operation_id : String) where
    -- The record of a status is in the table once its write has answered.
    abbrev Noted : String → List EventEnvelopeV1 → Answered InsertOutcome → Type 0
    Noted status rows (answer outcome) =
        key_taken (operation_event_id o operation_id status) rows ≡ true
    Noted status rows (error words) = Unit

    noted :
        (status : String) (event : EventEnvelopeV1) (after : List EventEnvelopeV1)
        (result : Written)
        → event.event_id ≡ operation_event_id o operation_id status
        → event.dedupe_key ≡ operation_event_id o operation_id status
        → ((outcome : InsertOutcome) → result ≡ written outcome → is_taken event after ≡ true)
        → Noted status after (answered "" result)
    unfolding is_taken
    noted status event after (written outcome) id key taken =
        subst
          (λ k.
            any
              (λ row.
                row.event_id == k || row.dedupe_key == operation_event_id o operation_id status)
              after
            ≡ true)
          id
          (subst
            (λ k. any (λ row. row.event_id == event.event_id || row.dedupe_key == k) after ≡ true)
            key (taken outcome refl))
    noted status event after Written.failed id key taken = tt

    Leaves-write :
        (rows : List EventEnvelopeV1) (status : String) (event : EventEnvelopeV1)
        → event.event_id ≡ operation_event_id o operation_id status
        → event.dedupe_key ≡ operation_event_id o operation_id status
        → Leaves o oracle (Noted status) rows (write event)
    unfolding Leaves run prepare_event
    Leaves-write rows status event id key =
        noted status (prepare_event o.patterns event) _
          (insert_event_inner o.patterns working no_fault event rows).0 id key
          (λ outcome wrote. is_taken-written o.patterns working no_fault event rows outcome wrote)

    Leaves-append_operation_event :
        (rows : List EventEnvelopeV1) (status : String) (fields : Fields)
        → Leaves o oracle
            (Noted status)
            rows
            (append_operation_event o request operation_id status fields)
    unfolding append_operation_event keyed_event
    Leaves-append_operation_event rows status fields =
        Leaves-ask o oracle (Noted status) rows now _ (
          Leaves-return o oracle (Noted status) rows _ (λ words. tt)
            (λ t. Leaves-ask o oracle (Noted status) rows now _ (
              Leaves-return o oracle (Noted status) rows _ (λ words. tt)
                (λ u. Leaves-write rows status _ refl refl) (oracle now)))
            (oracle now))

    -- The key of the record of a result that says failed or started is taken.
    abbrev IsNoted : List EventEnvelopeV1 → AutomaticRolloverResultV1 → Type 0
    IsNoted rows result =
        (result.status ≡ failed
          → key_taken (operation_event_id o operation_id "failed") rows ≡ true)
        × (result.status ≡ started
            → key_taken (operation_event_id o operation_id "started") rows ≡ true)

    abbrev Recorded : List EventEnvelopeV1 → Answered AutomaticRolloverResultV1 → Type 0
    Recorded rows (answer result) = IsNoted rows result
    Recorded rows (error words) = Unit

    abbrev OpenedOrNoted : List EventEnvelopeV1 → Answered Opened → Type 0
    OpenedOrNoted rows (answer (ended result)) = IsNoted rows result
    OpenedOrNoted rows _ = Unit

    Leaves-Noted :
        (status : String) (later : List EventEnvelopeV1) (p : Program AutomaticRolloverResultV1)
        → (key_taken (operation_event_id o operation_id status) later ≡ true
            → Leaves o oracle Recorded later p)
        → (r : Answered InsertOutcome) → Noted status later r
        → Leaves o oracle Recorded later (or_return (λ _. p) r)
    Leaves-Noted status later p next (answer outcome) h = next h
    Leaves-Noted status later p next (error words) h =
        Leaves-finish o oracle Recorded later (error words) tt

    module _ (task : TaskV1) where
      Leaves-record_failure :
          (rows : List EventEnvelopeV1) (thread_id : Option String) (words : String)
          → Leaves o oracle Recorded rows
              (record_failure o request operation_id task thread_id words)
      unfolding record_failure
      Leaves-record_failure rows thread_id words =
          Leaves-attempt o oracle Recorded rows
            (append_operation_event o request operation_id "failed" _) _
            (Leaves-map o oracle (Noted "failed") _
              (λ later r.
                Leaves-Noted "failed" later _
                  (λ noted.
                    Leaves-finish o oracle Recorded later _
                      ((λ _. noted), λ e. absurd (ground arith)))
                  r)
              rows _ (Leaves-append_operation_event rows "failed" _))

      Leaves-record_started :
          (rows : List EventEnvelopeV1) (thread_id : String) (warnings : List String)
          (turn_id : String)
          → Leaves o oracle Recorded rows
              (record_started o request operation_id task thread_id warnings turn_id)
      unfolding record_started
      Leaves-record_started rows thread_id warnings turn_id =
          Leaves-ask o oracle Recorded rows now _ (
            Leaves-return o oracle Recorded rows _ (λ words. tt)
              (λ t.
                Leaves-attempt o oracle Recorded rows
                  (append_operation_event o request operation_id "started" _) _
                  (Leaves-map o oracle (Noted "started") _
                    (λ later r.
                      Leaves-Noted "started" later _
                        (λ noted. Leaves-ask o oracle Recorded later shutdown _ (
                          Leaves-finish o oracle Recorded later _
                            ((λ e. absurd (ground arith)), λ _. noted)))
                        r)
                    rows _ (Leaves-append_operation_event rows "started" _)))
              (oracle now))

      Leaves-run_turn :
          (rows : List EventEnvelopeV1) (source : Source) (prompt thread_id session_id : String)
          → Leaves o oracle Recorded rows
              (run_turn o request operation_id task source prompt thread_id session_id)
      unfolding run_turn
      Leaves-run_turn rows source prompt thread_id session_id =
          let reading = read_thread_in_worktree thread_id source.root in
          let turning = start_turn thread_id source.root prompt source.model operation_id in
          Leaves-ask o oracle Recorded rows reading _ (
            Leaves-on_error o oracle Recorded rows _ _ (Leaves-record_failure rows (some thread_id))
              (λ _.
                Leaves-attempt o oracle Recorded rows
                  (link_new_session o request operation_id source.root thread_id session_id) _
                  (Leaves-all o oracle _
                    (λ after.
                      Leaves-return o oracle Recorded after _ (λ words. tt)
                        (λ _.
                          Leaves-attempt o oracle Recorded after
                            (name_thread o request operation_id task thread_id) _
                            (Leaves-all o oracle _
                              (λ later.
                                Leaves-return o oracle Recorded later _ (λ words. tt)
                                  (λ warnings. Leaves-ask o oracle Recorded later turning _ (
                                    Leaves-on_error o oracle Recorded later _ _
                                      (Leaves-record_failure later (some thread_id))
                                      (λ turn_id.
                                        Leaves-record_started later thread_id warnings turn_id)
                                      (oracle turning))))
                              after _)))
                    rows _))
              (oracle reading))

      Leaves-use_thread :
          (rows : List EventEnvelopeV1) (source : Source) (prompt : String) (r : Answered Opened)
          → OpenedOrNoted rows r
          → Leaves o oracle Recorded rows
              (or_return (use_thread o request operation_id task source prompt) r)
      unfolding use_thread
      Leaves-use_thread rows source prompt (answer (ended result)) h =
          Leaves-finish o oracle Recorded rows (answer result) h
      Leaves-use_thread rows source prompt (answer (opened thread_id session_id)) h =
          Leaves-run_turn rows source prompt thread_id session_id
      Leaves-use_thread rows source prompt (error words) h =
          Leaves-finish o oracle Recorded rows (error words) tt

      Leaves-ended :
          (rows : List EventEnvelopeV1) (thread_id : Option String) (words : String)
          → Leaves o oracle OpenedOrNoted rows (
              record_failure o request operation_id task thread_id words >>= λ result.
              pure (ended result))
      Leaves-ended rows thread_id words =
          Leaves-attempt o oracle OpenedOrNoted rows
            (record_failure o request operation_id task thread_id words) _
            (Leaves-map o oracle Recorded _ after rows _
              (Leaves-record_failure rows thread_id words))
        where
          after :
              (later : List EventEnvelopeV1) (r : Answered AutomaticRolloverResultV1)
              → Recorded later r
              → Leaves o oracle OpenedOrNoted later (or_return (λ result. pure (ended result)) r)
          after later (answer result) h =
              Leaves-finish o oracle OpenedOrNoted later (answer (ended result)) h
          after later (error w) h = Leaves-finish o oracle OpenedOrNoted later (error w) tt

      Leaves-keep_thread :
          (rows : List EventEnvelopeV1) (r : Answered AppServerThread)
          → Leaves o oracle OpenedOrNoted rows (keep_thread o request operation_id task r)
      unfolding keep_thread
      Leaves-keep_thread rows (error words) = Leaves-ended rows none words
      Leaves-keep_thread rows (answer thread) =
          Leaves-attempt o oracle OpenedOrNoted rows
            (append_operation_event o request operation_id "thread_created" _) _
            (Leaves-all o oracle _
              (λ after.
                Leaves-return o oracle OpenedOrNoted after _ (λ words. tt)
                  (λ _.
                    Leaves-finish o oracle OpenedOrNoted after
                      (answer (opened thread.id thread.session_id)) tt))
              rows _)

      Leaves-open_thread :
          (rows : List EventEnvelopeV1) (source : Source) (thread_created : Option EventEnvelopeV1)
          → Leaves o oracle OpenedOrNoted rows
              (open_thread o request operation_id task source thread_created)
      unfolding open_thread
      Leaves-open_thread rows source none =
          let starting = start_thread source.root source.model in
          Leaves-ask o oracle OpenedOrNoted rows starting _
            (Leaves-keep_thread rows (oracle starting))
      Leaves-open_thread rows source (some event) =
          Leaves-attempt o oracle OpenedOrNoted rows
            (or_bail (get_str "new_thread_id" event.payload) _) _
            (Leaves-all o oracle _
              (λ after.
                Leaves-return o oracle OpenedOrNoted after _ (λ words. tt)
                  (λ thread_id.
                    Leaves-ask o oracle OpenedOrNoted after (resume_thread thread_id) _ (
                      Leaves-on_error o oracle OpenedOrNoted after _ _
                        (Leaves-ended after (some thread_id))
                        (λ thread.
                          Leaves-finish o oracle OpenedOrNoted after
                            (answer (opened thread.id thread.session_id)) tt)
                        (oracle (resume_thread thread_id)))))
              rows _)

      Leaves-hand_over :
          (rows : List EventEnvelopeV1) (source : Source) (thread_created : Option EventEnvelopeV1)
          → Leaves o oracle Recorded rows
              (hand_over o request operation_id task source thread_created)
      unfolding hand_over
      Leaves-hand_over rows source thread_created =
          Leaves-attempt o oracle Recorded rows (prepare_handoff o request operation_id source) _ (
            Leaves-all o oracle _
              (λ after.
                Leaves-on_error o oracle Recorded after _ _ (Leaves-record_failure after _)
                  (λ prompt. Leaves-ask o oracle Recorded after connect _ (
                    Leaves-on_error o oracle Recorded after _ _ (Leaves-record_failure after _)
                      (λ _.
                        Leaves-attempt o oracle Recorded after
                          (open_thread o request operation_id task source thread_created) _
                          (Leaves-map o oracle OpenedOrNoted _
                            (λ later r. Leaves-use_thread later source prompt r) after _
                            (Leaves-open_thread after source thread_created)))
                      (oracle connect))))
              rows _)

    -- Some row is the record of the failure, or of the start, that the result speaks of.
    abbrev pub IsRecorded : List EventEnvelopeV1 → AutomaticRolloverResultV1 → Type 0
    IsRecorded rows result =
        (result.status ≡ failed → Any (IsRecord o request operation_id "failed") rows)
        × (result.status ≡ started → Any (IsRecord o request operation_id "started") rows)

    IsNoted-IsRecorded :
        (rows : List EventEnvelopeV1) (result : AutomaticRolloverResultV1)
        → All
            (λ row.
              IsHonest o request operation_id "failed" row
              × IsHonest o request operation_id "started" row)
            rows
        → IsNoted rows result
        → IsRecorded rows result
    IsNoted-IsRecorded rows result honest noted = (
      λ e.
          key_taken-IsRecord o request operation_id "failed" rows
            (All-map (λ row h. h.0) rows honest) (noted.0 e),
      λ e.
          key_taken-IsRecord o request operation_id "started" rows
            (All-map (λ row h. h.1) rows honest) (noted.1 e),
    )

  -- A handoff that returns a result which says that the rollover has failed, or that it was started,
  -- has left in the table a row that is the record of that status: its event id is the one of this
  -- status of the operation, its kind is `ContinuationStarted`, its repository, session and task are
  -- those of the request, and its payload is the redaction of one that holds the status and the
  -- operation's id. This is for a store that works and any answers and errors of the other calls, and
  -- assumes that the ids of the three records of the operation (thread created, failed, started)
  -- differ, and that any row which is there before, with the id of one of the latter two as its event
  -- id or its dedupe key, is that record.
  pub hand_over-IsRecorded :
      (request : AutomaticRolloverRequestV1) (operation_id : String) (task : TaskV1)
      (rows : List EventEnvelopeV1) (source : Source) (thread_created : Option EventEnvelopeV1)
      (result : AutomaticRolloverResultV1)
      → operation_event_id o operation_id "failed" ≢ operation_event_id o operation_id "started"
      → operation_event_id o operation_id "thread_created"
        ≢ operation_event_id o operation_id "failed"
      → operation_event_id o operation_id "thread_created"
        ≢ operation_event_id o operation_id "started"
      → All
          (λ row.
            IsHonest o request operation_id "failed" row
            × IsHonest o request operation_id "started" row)
          rows
      → (run o oracle rows (hand_over o request operation_id task source thread_created)).0
        ≡ answer result
      → IsRecorded request operation_id
          (run o oracle rows (hand_over o request operation_id task source thread_created)).1
          result
  unfolding Leaves
  hand_over-IsRecorded request operation_id task rows source thread_created result failed_started
        thread_failed thread_started honest returned =
      let program = hand_over o request operation_id task source thread_created in
      IsNoted-IsRecorded request operation_id (run o oracle rows program).1 result
        (run-All o oracle
          (λ row.
            IsHonest o request operation_id "failed" row
            × IsHonest o request operation_id "started" row)
          rows program
          (Writes-hand_over o request operation_id failed_started thread_failed thread_started task
            source thread_created)
          honest)
        (subst (λ r. Recorded request operation_id (run o oracle rows program).1 r) returned
          (Leaves-hand_over request operation_id task rows source thread_created))
