-- ===== src/Continuation/Rollover/Safe.antt =====
-- src/continuation.rs: a rollover asks for a new thread only after its own claim was new.
use previously_on.Prelude.{
  ℕ, ◌+◌, ◌-◌, ◌≤◌, ◌≡◌, subst, arith, String, ◌==◌, string_partial_eq, if◌then◌else◌,
}
use previously_on.EventStore.{InsertOutcome, inserted}
use previously_on.Continuation.Rollover.{Answered, answer, error}
use previously_on.Continuation.Rollover.Program.{
  Program, finish, load_rows, insert_event, perform, attempt, on_error, or_return, ◌>>=◌,
}
use previously_on.Continuation.Rollover.Calls.{starts, Plain}

module _ (pending : String) where
  -- One call for a new thread is earned by the write that finds the claim of the operation new.
  abbrev pub earned : String → Answered InsertOutcome → ℕ
  earned event_id (answer inserted) = if event_id == pending then 1 else 0
  earned event_id _ = 0

  -- The program asks for a new thread no more often than it may: `n` times, and once for what it
  -- earns on the way.
  abbrev pub Safe : {A : Type 0} → ℕ → Program A → Type 0
  Safe n (finish r) = Unit
  Safe n (load_rows k) = (loaded : _) → Safe n (k loaded)
  Safe n (insert_event event k) =
      (outcome : _) → Safe (n + earned event.event_id outcome) (k outcome)
  Safe n (perform q k) = (starts q ≤ n) × ((a : _) → Safe (n - starts q) (k a))

  pub Safe-attempt :
      {A B : Type 0} (n : ℕ) (p : Program A) (f : Answered A → Program B)
      → Plain p
      → ((m : ℕ) (a : Answered A) → n ≤ m → Safe m (f a))
      → Safe n (attempt p f)
  unfolding attempt Plain
  Safe-attempt n (finish r) f h k = k n r (omega arith)
  Safe-attempt n (load_rows c) f h k = λ loaded. Safe-attempt n (c loaded) f (h loaded) k
  Safe-attempt n (insert_event event c) f h k = λ outcome.
      Safe-attempt (n + earned event.event_id outcome) (c outcome) f (h outcome)
        (λ m a le. k m a (omega arith))
  Safe-attempt n (perform q c) f h k = (
    omega (arith, h.0),
    λ a. Safe-attempt (n - starts q) (c a) f (h.1 a) (λ m b le. k m b (omega (arith, h.0))),
  )

  pub Safe-more : {A : Type 0} (n m : ℕ) (p : Program A) → n ≤ m → Safe n p → Safe m p
  Safe-more n m (finish r) le h = tt
  Safe-more n m (load_rows c) le h = λ loaded. Safe-more n m (c loaded) le (h loaded)
  Safe-more n m (insert_event event c) le h = λ outcome.
      Safe-more (n + earned event.event_id outcome) (m + earned event.event_id outcome) (c outcome)
        (omega arith) (h outcome)
  Safe-more n m (perform q c) le h =
      (omega (arith, h.0), λ a. Safe-more (n - starts q) (m - starts q) (c a) (omega arith) (h.1 a))

  pub Safe-of_Plain : {A : Type 0} (n : ℕ) (p : Program A) → Plain p → Safe n p
  unfolding Plain
  Safe-of_Plain n (finish r) h = tt
  Safe-of_Plain n (load_rows c) h = λ loaded. Safe-of_Plain n (c loaded) (h loaded)
  Safe-of_Plain n (insert_event event c) h =
      λ outcome. Safe-of_Plain (n + earned event.event_id outcome) (c outcome) (h outcome)
  Safe-of_Plain n (perform q c) h =
      (omega (arith, h.0), λ a. Safe-of_Plain (n - starts q) (c a) (h.1 a))

  pub Safe-return :
      {A B : Type 0} (n : ℕ) (f : A → Program B)
      → ((a : A) → Safe n (f a))
      → (r : Answered A) → Safe n (or_return f r)
  Safe-return n f h (answer a) = h a
  Safe-return n f h (error m) = tt

  pub Safe-bind :
      {A B : Type 0} (n : ℕ) (p : Program A) (f : A → Program B)
      → Plain p
      → ((m : ℕ) (a : A) → n ≤ m → Safe m (f a))
      → Safe n (p >>= f)
  Safe-bind n p f h k =
      Safe-attempt n p (or_return f) h (λ m r le. Safe-return m f (λ a. k m a le) r)

  pub Safe-on_error :
      {A B : Type 0} (n : ℕ) (p : Program A) (g : String → Program B) (f : A → Program B)
      → Plain p
      → ((m : String) → Plain (g m))
      → ((m : ℕ) (a : A) → n ≤ m → Safe m (f a))
      → Safe n (attempt p (on_error g f))
  Safe-on_error n p g f h e k = Safe-attempt n p (on_error g f) h (λ m r le. go m le r)
    where
      go : (m : ℕ) → n ≤ m → (r : _) → Safe m (on_error g f r)
      go m le (answer a) = k m a le
      go m le (error words) = Safe-of_Plain m (g words) (e words)

  -- The program asks for no new thread, and `Q` holds of what it may then ask for, and of its result.
  abbrev pub Earns : {A : Type 0} → (ℕ → Answered A → Type 0) → ℕ → Program A → Type 0
  Earns Q n (finish r) = Q n r
  Earns Q n (load_rows k) = (loaded : _) → Earns Q n (k loaded)
  Earns Q n (insert_event event k) =
      (outcome : _) → Earns Q (n + earned event.event_id outcome) (k outcome)
  Earns Q n (perform q k) = (starts q ≡ 0) × ((a : _) → Earns Q n (k a))

  pub Earns-map :
      {A : Type 0} (Q R : ℕ → Answered A → Type 0)
      → ((m : ℕ) (r : Answered A) → Q m r → R m r)
      → (n : ℕ) (p : Program A) → Earns Q n p
      → Earns R n p
  Earns-map Q R f n (finish r) h = f n r h
  Earns-map Q R f n (load_rows c) h = λ loaded. Earns-map Q R f n (c loaded) (h loaded)
  Earns-map Q R f n (insert_event event c) h =
      λ outcome. Earns-map Q R f (n + earned event.event_id outcome) (c outcome) (h outcome)
  Earns-map Q R f n (perform q c) h = (h.0, λ a. Earns-map Q R f n (c a) (h.1 a))

  pub Earns-attempt :
      {A B : Type 0} (Q : ℕ → Answered B → Type 0) (n : ℕ) (p : Program A)
      (f : Answered A → Program B)
      → Earns (λ m r. Earns Q m (f r)) n p
      → Earns Q n (attempt p f)
  unfolding attempt
  Earns-attempt Q n (finish r) f h = h
  Earns-attempt Q n (load_rows c) f h = λ loaded. Earns-attempt Q n (c loaded) f (h loaded)
  Earns-attempt Q n (insert_event event c) f h =
      λ outcome. Earns-attempt Q (n + earned event.event_id outcome) (c outcome) f (h outcome)
  Earns-attempt Q n (perform q c) f h = (h.0, λ a. Earns-attempt Q n (c a) f (h.1 a))

  pub Earns-return :
      {A B : Type 0} (Q : ℕ → Answered B → Type 0) (n : ℕ) (f : A → Program B)
      → ((words : String) → Q n (error words))
      → ((a : A) → Earns Q n (f a))
      → (r : Answered A) → Earns Q n (or_return f r)
  Earns-return Q n f e k (answer a) = k a
  Earns-return Q n f e k (error words) = e words

  pub Safe-Earns :
      {A B : Type 0} (n : ℕ) (p : Program A) (f : Answered A → Program B)
      → Earns (λ m r. Safe m (f r)) n p
      → Safe n (attempt p f)
  unfolding attempt
  Safe-Earns n (finish r) f h = h
  Safe-Earns n (load_rows c) f h = λ loaded. Safe-Earns n (c loaded) f (h loaded)
  Safe-Earns n (insert_event event c) f h =
      λ outcome. Safe-Earns (n + earned event.event_id outcome) (c outcome) f (h outcome)
  Safe-Earns n (perform q c) f h = (
    omega (arith, h.0),
    λ a.
        Safe-Earns (n - starts q) (c a) f
          (subst (λ m. Earns (λ m r. Safe m (f r)) m (c a)) (omega (arith, h.0)) (h.1 a)),
  )
