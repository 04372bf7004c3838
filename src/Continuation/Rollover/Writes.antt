-- ===== src/Continuation/Rollover/Writes.antt =====
-- src/continuation.rs: the rows that a handoff may add to the table.
use previously_on.Prelude.{
  refl, ◌≡◌, ◌⊎◌, inl, inr, sym, subst, arith, String, some, List, [], ◌∷◌, All, Any, true, ◌==◌,
  string_partial_eq, option_partial_eq, nat_partial_eq, text_eq_iff, Bool-cases, ℕ, ◌≢◌, concat,
}
use previously_on.Json.{Value, get_str, Fields}
use previously_on.Redaction.Value.{redact_value}
use previously_on.EventStore.{
  EventEnvelopeV1, InsertOutcome, continuation_started, prepare_event, insert_event_inner,
}
use previously_on.EventStore.Unique.{insert_event_inner-Outcome}
use previously_on.Continuation.Rollover.{
  keyed_event, operation_payload, AutomaticRolloverRequestV1, Answered, answer, error, Outside,
  operation_event_id,
}
use previously_on.Continuation.Rollover.Program.{
  Program, Query, Answer, finish, load_rows, insert_event, perform, attempt, or_return, ◌>>=◌, ask,
}
use previously_on.Continuation.Rollover.Once.{answered}
use previously_on.Continuation.Rollover.Returns.{working, no_fault, key_taken, run}

-- Whatever the calls answer, `Q` holds of each event that the program writes.
unfoldable pub Writes : {A : Type 0} → (EventEnvelopeV1 → Type 0) → Program A → Type 0
Writes Q (finish r) = Unit
Writes Q (load_rows k) = (rows : List EventEnvelopeV1) → Writes Q (k rows)
Writes Q (insert_event event k) = Q event × ((r : Answered InsertOutcome) → Writes Q (k r))
Writes Q (perform q k) = (a : Answered (Answer q)) → Writes Q (k a)

module _ (Q : EventEnvelopeV1 → Type 0) where
  pub Writes-attempt :
      {A B : Type 0} (p : Program A) (f : Answered A → Program B)
      → Writes Q p
      → ((r : Answered A) → Writes Q (f r))
      → Writes Q (attempt p f)
  unfolding Writes attempt
  Writes-attempt (finish r) f h k = k r
  Writes-attempt (load_rows next) f h k = λ rows. Writes-attempt (next rows) f (h rows) k
  Writes-attempt (insert_event event next) f h k = (h.0, λ r. Writes-attempt (next r) f (h.1 r) k)
  Writes-attempt (perform q next) f h k = λ a. Writes-attempt (next a) f (h a) k

  pub Writes-return :
      {A B : Type 0} (f : A → Program B)
      → ((a : A) → Writes Q (f a))
      → (r : Answered A) → Writes Q (or_return f r)
  unfolding Writes
  Writes-return f h (answer a) = h a
  Writes-return f h (error words) = tt

  pub Writes-bind :
      {A B : Type 0} (p : Program A) (f : A → Program B)
      → Writes Q p
      → ((a : A) → Writes Q (f a))
      → Writes Q (p >>= f)
  Writes-bind p f h k = Writes-attempt p (or_return f) h (Writes-return f k)

  pub Writes-ask : (q : Query) → Writes Q (ask q)
  unfolding Writes
  Writes-ask q = λ a. tt

-- A table keeps what holds of its rows and of each event that is written, as it is stored.
pub run-All :
    (o : Outside) (oracle : (q : Query) → Answered (Answer q)) (P : EventEnvelopeV1 → Type 0)
    {A : Type 0} (rows : List EventEnvelopeV1) (p : Program A)
    → Writes (λ event. P (prepare_event o.patterns event)) p
    → All P rows
    → All P (run o oracle rows p).1
unfolding Writes run
run-All o oracle P rows (finish r) h k = k
run-All o oracle P rows (load_rows next) h k = run-All o oracle P rows (next rows) (h rows) k
run-All o oracle P rows (perform q next) h k =
    run-All o oracle P rows (next (oracle q)) (h (oracle q)) k
run-All o oracle P rows (insert_event event next) h k =
    let after = (insert_event_inner o.patterns working no_fault event rows).1 in
    let kept : All P after =
      elim (insert_event_inner-Outcome o.patterns working no_fault event rows) [
        | inl (same, _, _) ↦ subst (All P) (sym same) k
        | inr (more, _, _) ↦ subst (All P) (sym more) (h.0, k)
      ] in
    run-All o oracle P after
      (next (answered "" (insert_event_inner o.patterns working no_fault event rows).0)) (h.1 _)
      kept

module _ (o : Outside) (request : AutomaticRolloverRequestV1) (operation_id : String) where
  -- The row is the record of a status of the operation; its payload has been redacted.
  pub record IsRecord (status : String) (row : EventEnvelopeV1) : Type 0 where
    pub key : row.event_id ≡ operation_event_id o operation_id status
    pub kind : row.kind ≡ continuation_started
    pub repository : row.repository_id ≡ request.repository_id
    pub session : row.session_id ≡ request.source_session_id
    pub task : row.task_id ≡ some request.task_id
    pub payload :
        (v : Value) × (row.payload ≡ redact_value o.patterns v)
        × (get_str "status" v ≡ some status)
        × (get_str "operation_id" v ≡ some operation_id)

  -- A row with the key of the record of a status is that record.
  abbrev pub IsHonest : String → EventEnvelopeV1 → Type 0
  IsHonest status row =
      (row.event_id ≡ operation_event_id o operation_id status)
        ⊎ (row.dedupe_key ≡ operation_event_id o operation_id status)
      → IsRecord status row

  pub key_taken-IsRecord :
      (status : String) (rows : List EventEnvelopeV1)
      → All (IsHonest status) rows
      → key_taken (operation_event_id o operation_id status) rows ≡ true
      → Any (IsRecord status) rows
  key_taken-IsRecord status [] h taken = absurd (ground arith)
  key_taken-IsRecord status (row ∷ rows) h taken =
      let key = operation_event_id o operation_id status in
      elim (Bool-cases (row.event_id == key)) [
        | inl by_id ↦ inl (h.0 (inl ((text_eq_iff row.event_id key).0 by_id)))
        | inr other_id ↦ elim (Bool-cases (row.dedupe_key == key)) [
          | inl by_key ↦ inl (h.0 (inr ((text_eq_iff row.dedupe_key key).0 by_key)))
          | inr other_key ↦ inr (key_taken-IsRecord status rows h.1 (ground arith))
        ]
      ]

  -- An event under another key.
  pub other-IsHonest :
      (status id : String) (event : EventEnvelopeV1)
      → event.event_id ≡ id
      → event.dedupe_key ≡ id
      → id ≢ operation_event_id o operation_id status
      → IsHonest status (prepare_event o.patterns event)
  unfolding prepare_event
  other-IsHonest status id event own own' apart (inl same) = absurd (apart (ground arith))
  other-IsHonest status id event own own' apart (inr same) = absurd (apart (ground arith))

  abbrev pub operation_event : String → Fields → ℕ → ℕ → EventEnvelopeV1
  operation_event status fields occurred_at received_at =
      keyed_event (operation_event_id o operation_id status) request.task_id
        (concat ("automatic-rollover:" ∷ operation_id ∷ ":" ∷ status ∷ ":v1" ∷ []))
        request.repository_id request.source_session_id continuation_started occurred_at received_at
        (operation_payload request operation_id status fields)

  pub own-IsHonest :
      (status : String) (fields : Fields) (occurred_at received_at : ℕ)
      → get_str "status" (operation_payload request operation_id status fields) ≡ some status
      → get_str "operation_id" (operation_payload request operation_id status fields)
        ≡ some operation_id
      → IsHonest status
          (prepare_event o.patterns (operation_event status fields occurred_at received_at))
  unfolding prepare_event keyed_event
  own-IsHonest status fields occurred_at received_at named owned h = record {
    key = refl;
    kind = refl;
    repository = refl;
    session = refl;
    task = refl;
    payload = (_, refl, named, owned);
  }
