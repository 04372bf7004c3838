-- ===== src/Continuation/Rollover/Leaves.antt =====
-- src/continuation.rs: the table that a program leaves, and what it returns, errors included.
use previously_on.Prelude.{
  subst, sym, String, List, string_partial_eq, option_partial_eq, nat_partial_eq,
}
use previously_on.EventStore.{EventEnvelopeV1}
use previously_on.Continuation.Rollover.{Answered, answer, Outside, error}
use previously_on.Continuation.Rollover.Program.{
  Program, Query, Answer, or_return, ask, attempt, finish, on_error,
}
use previously_on.Continuation.Rollover.Returns.{run, run-attempt}

module _ (o : Outside) (oracle : (q : Query) → Answered (Answer q)) where
  -- `P` holds of the table after the program, and of what it returns.
  unfoldable pub Leaves :
      {A : Type 0}
      → (List EventEnvelopeV1 → Answered A → Type 0)
      → List EventEnvelopeV1
      → Program A
      → Type 0
  Leaves P rows p = P (run o oracle rows p).1 (run o oracle rows p).0

  pub Leaves-attempt :
      {A B : Type 0} (Q : List EventEnvelopeV1 → Answered B → Type 0) (rows : List EventEnvelopeV1)
      (p : Program A) (f : Answered A → Program B)
      → Leaves (λ after r. Leaves Q after (f r)) rows p
      → Leaves Q rows (attempt p f)
  unfolding Leaves
  Leaves-attempt Q rows p f h = subst (λ s. Q s.1 s.0) (sym (run-attempt o oracle rows p f)) h

  pub Leaves-map :
      {A : Type 0} (P Q : List EventEnvelopeV1 → Answered A → Type 0)
      → ((after : List EventEnvelopeV1) (r : Answered A) → P after r → Q after r)
      → (rows : List EventEnvelopeV1) (p : Program A) → Leaves P rows p
      → Leaves Q rows p
  unfolding Leaves
  Leaves-map P Q f rows p h = f _ _ h

  pub Leaves-all :
      {A : Type 0} (P : List EventEnvelopeV1 → Answered A → Type 0)
      → ((after : List EventEnvelopeV1) (r : Answered A) → P after r)
      → (rows : List EventEnvelopeV1) (p : Program A) → Leaves P rows p
  unfolding Leaves
  Leaves-all P f rows p = f _ _

  pub Leaves-finish :
      {A : Type 0} (P : List EventEnvelopeV1 → Answered A → Type 0) (rows : List EventEnvelopeV1)
      (r : Answered A)
      → P rows r
      → Leaves P rows (finish r)
  unfolding Leaves run
  Leaves-finish P rows r h = h

  pub Leaves-return :
      {A B : Type 0} (Q : List EventEnvelopeV1 → Answered B → Type 0) (rows : List EventEnvelopeV1)
      (f : A → Program B)
      → ((words : String) → Q rows (error words))
      → ((a : A) → Leaves Q rows (f a))
      → (r : Answered A) → Leaves Q rows (or_return f r)
  Leaves-return Q rows f e k (answer a) = k a
  Leaves-return Q rows f e k (error words) = Leaves-finish Q rows (error words) (e words)

  pub Leaves-on_error :
      {A B : Type 0} (Q : List EventEnvelopeV1 → Answered B → Type 0) (rows : List EventEnvelopeV1)
      (g : String → Program B) (f : A → Program B)
      → ((words : String) → Leaves Q rows (g words))
      → ((a : A) → Leaves Q rows (f a))
      → (r : Answered A) → Leaves Q rows (on_error g f r)
  Leaves-on_error Q rows g f e k (answer a) = k a
  Leaves-on_error Q rows g f e k (error words) = e words

  pub Leaves-ask :
      {B : Type 0} (Q : List EventEnvelopeV1 → Answered B → Type 0) (rows : List EventEnvelopeV1)
      (q : Query) (f : Answered (Answer q) → Program B)
      → Leaves Q rows (f (oracle q))
      → Leaves Q rows (attempt (ask q) f)
  unfolding Leaves run attempt
  Leaves-ask Q rows q f h = h
