-- ===== src/Continuation/Rollover/Returns.antt =====
-- src/continuation.rs: a program that runs on its own, with a store that works.
use previously_on.Prelude.{
  ◌≡◌, refl, arith, subst, sym, ap, ◌∙◌, String, none, List, Bool, true, false, ◌==◌, ◌||◌, any,
  string_partial_eq, option_partial_eq, nat_partial_eq, inl, inr, Bool-cases,
}
use previously_on.Domain.{schema_version_v1}
use previously_on.EventStore.{
  EventEnvelopeV1, InsertFault, WriteIo, inserted, duplicate, insert_event_inner, insert_event_tx,
  prepare_event, is_taken, ensure_event_write_allowed,
}
use previously_on.Continuation.Rollover.{Answered, answer, Outside}
use previously_on.Continuation.Rollover.Program.{
  Program, Query, Answer, finish, load_rows, insert_event, perform, attempt, or_return, ◌>>=◌, pure,
  ask, write,
}
use previously_on.Continuation.Rollover.Once.{answered}

-- The locks, the files and SQLite do what they are asked.
abbrev pub working : WriteIo
working = record {
  locked = true;
  purged = false;
  journal_read = true;
  purging = none;
  opened = true;
  executed = true;
  projected = true;
  committed = true;
}

abbrev pub no_fault : InsertFault
no_fault = record { before_insert = false; before_commit = false; after_commit = false }

-- Some row has this text as its id or its dedupe key.
abbrev pub key_taken : String → List EventEnvelopeV1 → Bool
key_taken key = any (λ row. row.event_id == key || row.dedupe_key == key)

module _ (o : Outside) (oracle : (q : Query) → Answered (Answer q)) where
  -- A program on its own, with a store that works: what it returns, and the table after it.
  unfoldable pub run :
      {A : Type 0} → List EventEnvelopeV1 → Program A → Answered A × List EventEnvelopeV1
  run rows (finish r) = (r, rows)
  run rows (load_rows k) = run rows (k rows)
  run rows (insert_event event k) =
      run (insert_event_inner o.patterns working no_fault event rows).1
        (k (answered "" (insert_event_inner o.patterns working no_fault event rows).0))
  run rows (perform q k) = run rows (k (oracle q))

  pub run-attempt :
      {A B : Type 0} (rows : List EventEnvelopeV1) (p : Program A) (f : Answered A → Program B)
      → run rows (attempt p f) ≡ run (run rows p).1 (f (run rows p).0)
  unfolding run attempt
  run-attempt rows (finish r) f = refl
  run-attempt rows (load_rows k) f = run-attempt rows (k rows) f
  run-attempt rows (insert_event event k) f =
      run-attempt (insert_event_inner o.patterns working no_fault event rows).1
        (k (answered "" (insert_event_inner o.patterns working no_fault event rows).0)) f
  run-attempt rows (perform q k) f = run-attempt rows (k (oracle q)) f

  -- The program returns a result, and `P` holds of the table after it and the result.
  unfoldable pub Returns :
      {A : Type 0} → List EventEnvelopeV1 → Program A → (List EventEnvelopeV1 → A → Type 0) → Type 0
  Returns {A} rows p P = (a : A) × ((run rows p).0 ≡ answer a) × P (run rows p).1 a

  module _ {A B : Type 0} (P : List EventEnvelopeV1 → A → Type 0)
      (Q : List EventEnvelopeV1 → B → Type 0) where
    pub Returns-attempt :
        (rows : List EventEnvelopeV1) (p : Program A) (f : Answered A → Program B)
        → Returns rows p P
        → ((after : List EventEnvelopeV1) (a : A) → P after a → Returns after (f (answer a)) Q)
        → Returns rows (attempt p f) Q
    unfolding Returns
    Returns-attempt rows p f (a, gave, holds) next =
        let (b, gave', holds') = next (run rows p).1 a holds in
        (
          b,
          ap (λ s. s.0) (run-attempt rows p f)
              ∙ ap (λ r. (run (run rows p).1 (f r)).0) gave
              ∙ gave',
          subst (λ s. Q s b)
              (sym (
                ap (λ s. s.1) (run-attempt rows p f) ∙ ap (λ r. (run (run rows p).1 (f r)).1) gave))
              holds',
        )

  pub Returns-map :
      {A : Type 0} (P Q : List EventEnvelopeV1 → A → Type 0)
      → ((after : List EventEnvelopeV1) (a : A) → P after a → Q after a)
      → (rows : List EventEnvelopeV1) (p : Program A) → Returns rows p P
      → Returns rows p Q
  unfolding Returns
  Returns-map P Q f rows p (a, gave, holds) = (a, gave, f _ a holds)

  pub Returns-pure :
      {A : Type 0} (P : List EventEnvelopeV1 → A → Type 0) (rows : List EventEnvelopeV1) (a : A)
      → P rows a
      → Returns rows (pure a) P
  unfolding Returns run
  Returns-pure P rows a h = (a, refl, h)

  pub Returns-read :
      {B : Type 0} (Q : List EventEnvelopeV1 → B → Type 0) (q : Query) (rows : List EventEnvelopeV1)
      (a : Answer q) (f : Answered (Answer q) → Program B)
      → oracle q ≡ answer a
      → Returns rows (f (answer a)) Q
      → Returns rows (attempt (ask q) f) Q
  unfolding Returns run attempt
  Returns-read Q q rows a f gave h = subst (λ r. Returns rows (f r) Q) (sym gave) h

  -- A write of an event of this schema answers, and a new event is called new.
  pub Returns-write :
      (rows : List EventEnvelopeV1) (event : EventEnvelopeV1)
      → event.schema_version ≡ schema_version_v1
      → Returns rows
          (write event)
          (λ after outcome. is_taken event rows ≡ false → outcome ≡ inserted)
  unfolding Returns run insert_event_inner insert_event_tx ensure_event_write_allowed prepare_event
      is_taken
  Returns-write rows event version = elim (Bool-cases (is_taken event rows)) [
    | inl old ↦ rw (version, old) (duplicate, refl, λ new. absurd (ground (arith, old, new)))
    | inr new ↦ rw (version, new) (inserted, refl, λ _. refl)
  ]

  -- A program that is known to leave the table as it is, before the rest.
  pub Returns-after :
      {A B : Type 0} (Q : List EventEnvelopeV1 → B → Type 0) (rows : List EventEnvelopeV1)
      (p : Program A) (a : A) (f : A → Program B)
      → run rows p ≡ (answer a, rows)
      → Returns rows (f a) Q
      → Returns rows (p >>= f) Q
  unfolding Returns
  Returns-after Q rows p a f gave (b, gave', holds) =
      let whole = run-attempt rows p (or_return f) ∙ ap (λ s. run s.1 (or_return f s.0)) gave in
      (b, ap (λ s. s.0) whole ∙ gave', subst (λ s. Q s.1 b) (sym whole) holds)

  pub Returns-finish :
      {A B : Type 0} (Q : List EventEnvelopeV1 → B → Type 0) (rows : List EventEnvelopeV1)
      (r : Answered A) (a : A) (f : A → Program B)
      → r ≡ answer a
      → Returns rows (f a) Q
      → Returns rows (finish r >>= f) Q
  unfolding attempt
  Returns-finish Q rows r a f gave h = subst (λ x. Returns rows (or_return f x) Q) (sym gave) h
