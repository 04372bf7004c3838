-- ===== src/EventStore/Unique.antt =====
-- src/store.rs: the keys of the events stay unique, and an event is new once.
use previously_on.Prelude.{
  subst, sym, String, List, [], ◌∷◌, Bool, true, false, ◌≡◌, refl, arith, ◌==◌, ◌⊎◌, inl, inr, ◌≢◌,
  string_partial_eq, text_eq_iff, any, option_partial_eq, nat_partial_eq, All,
}
use previously_on.Redaction.{Patterns}
use previously_on.EventStore.{
  EventEnvelopeV1, InsertOutcome, InsertFault, WriteIo, Written, written, inserted, commit,
  duplicate, prepare_event, is_taken, insert_event_tx, insert_event_inner,
}

-- An event with this id is in the table.
unfoldable pub has_event : String → List EventEnvelopeV1 → Bool
has_event id = any (λ row. row.event_id == id)

-- Both keys of the other row differ.
abbrev pub HasOtherKeys : EventEnvelopeV1 → EventEnvelopeV1 → Type 0
HasOtherKeys row other = (other.event_id ≢ row.event_id) × (other.dedupe_key ≢ row.dedupe_key)

-- No two rows share their event id, and no two their dedupe key.
abbrev pub IsUnique : List EventEnvelopeV1 → Type 0
IsUnique [] = Unit
IsUnique (row ∷ rows) = All (HasOtherKeys row) rows × IsUnique rows

is_taken-HasOtherKeys :
    (event : EventEnvelopeV1) (rows : List EventEnvelopeV1)
    → is_taken event rows ≡ false
    → All (HasOtherKeys event) rows
unfolding is_taken
is_taken-HasOtherKeys event [] h = tt
is_taken-HasOtherKeys event (row ∷ rows) h = (
  (
    ground (arith, text_eq_iff row.event_id event.event_id),
    ground (arith, text_eq_iff row.dedupe_key event.dedupe_key),
  ),
  is_taken-HasOtherKeys event rows (ground arith),
)

-- What a write may leave behind: the same rows, or the event on top of them.
abbrev pub Outcome :
    EventEnvelopeV1 → List EventEnvelopeV1 → Written × List EventEnvelopeV1 → Type 0
Outcome event rows (result, after) =
    ((after ≡ rows)
      × (result ≢ written inserted)
      × (result ≡ written duplicate → is_taken event rows ≡ true))
    ⊎ ((after ≡ event ∷ rows) × (is_taken event rows ≡ false) × (result ≢ written duplicate))

insert_event_tx-Outcome :
    (io : WriteIo) (event : EventEnvelopeV1) (rows : List EventEnvelopeV1)
    → Outcome event rows (insert_event_tx io event rows)
unfolding insert_event_tx
insert_event_tx-Outcome io event rows = ground arith

commit-Outcome :
    (io : WriteIo) (fault : InsertFault) (event : EventEnvelopeV1) (rows : List EventEnvelopeV1)
    (w : Written × List EventEnvelopeV1)
    → Outcome event rows w
    → Outcome event rows (commit io fault rows w)
commit-Outcome io fault event rows w h = ground arith

pub insert_event_inner-Outcome :
    (p : Patterns) (io : WriteIo) (fault : InsertFault) (event : EventEnvelopeV1)
    (rows : List EventEnvelopeV1)
    → Outcome (prepare_event p event) rows (insert_event_inner p io fault event rows)
unfolding insert_event_inner
insert_event_inner-Outcome p io fault event rows =
    ground (arith, insert_event_tx-Outcome io (prepare_event p event) rows)

-- If no two rows of the table share their event id and no two their dedupe key, then so it is after
-- a write of any event, whatever fails on the way.
pub insert_event_inner-IsUnique :
    (p : Patterns) (io : WriteIo) (fault : InsertFault) (event : EventEnvelopeV1)
    (rows : List EventEnvelopeV1)
    → IsUnique rows
    → IsUnique (insert_event_inner p io fault event rows).1
insert_event_inner-IsUnique p io fault event rows h =
    elim (insert_event_inner-Outcome p io fault event rows) [
      | inl (same, _, _) ↦ subst IsUnique (sym same) h
      | inr (more, free, _) ↦
          subst IsUnique (sym more) (is_taken-HasOtherKeys (prepare_event p event) rows free, h)
    ]

is_taken_self :
    (event : EventEnvelopeV1) (rows : List EventEnvelopeV1) → is_taken event (event ∷ rows) ≡ true
unfolding is_taken
is_taken_self event rows = ground (arith, text_eq_iff event.event_id event.event_id)

-- After a write that has answered, the keys of the event are taken.
pub is_taken-written :
    (p : Patterns) (io : WriteIo) (fault : InsertFault) (event : EventEnvelopeV1)
    (rows : List EventEnvelopeV1) (outcome : InsertOutcome)
    → (insert_event_inner p io fault event rows).0 ≡ written outcome
    → is_taken (prepare_event p event) (insert_event_inner p io fault event rows).1 ≡ true
is_taken-written p io fault event rows inserted answered =
    elim (insert_event_inner-Outcome p io fault event rows) [
      | inr (more, _, _) ↦ rw more (is_taken_self (prepare_event p event) rows)
      | inl (_, old, _) ↦ absurd (old answered)
    ]
is_taken-written p io fault event rows duplicate answered =
    elim (insert_event_inner-Outcome p io fault event rows) [
      | inr (_, _, new) ↦ absurd (new answered)
      | inl (same, _, taken) ↦ rw same (taken answered)
    ]

-- A write of an event whose keys are taken changes nothing, and does not say that it is new.
taken-keeps :
    (p : Patterns) (io : WriteIo) (fault : InsertFault) (event : EventEnvelopeV1)
    (rows : List EventEnvelopeV1)
    → is_taken (prepare_event p event) rows ≡ true
    → ((insert_event_inner p io fault event rows).1 ≡ rows)
      × ((insert_event_inner p io fault event rows).0 ≢ written inserted)
taken-keeps p io fault event rows taken = elim (insert_event_inner-Outcome p io fault event rows) [
  | inl (same, old, _) ↦ (same, old)
  | inr (more, free, _) ↦ absurd (ground (arith, taken, free))
]

-- A write can be repeated: once it has answered, the same event leaves the table as it is, and is
-- not called new again, whatever fails during the second call.
pub insert_event_inner_again :
    (p : Patterns) (io io' : WriteIo) (fault fault' : InsertFault) (event : EventEnvelopeV1)
    (rows : List EventEnvelopeV1) (outcome : InsertOutcome)
    → (insert_event_inner p io fault event rows).0 ≡ written outcome
    → let after = (insert_event_inner p io fault event rows).1 in
      ((insert_event_inner p io' fault' event after).1 ≡ after)
      × ((insert_event_inner p io' fault' event after).0 ≢ written inserted)
insert_event_inner_again p io io' fault fault' event rows outcome answered =
    taken-keeps p io' fault' event (insert_event_inner p io fault event rows).1
      (is_taken-written p io fault event rows outcome answered)

has_event-free :
    (event : EventEnvelopeV1) (rows : List EventEnvelopeV1)
    → is_taken event rows ≡ false
    → has_event event.event_id rows ≡ false
unfolding is_taken has_event
has_event-free event [] h = refl
has_event-free event (row ∷ rows) h = ground (arith, has_event-free event rows)

-- Only a write of an event with this id makes the id appear, and then it calls the event new only
-- if the id was not there.
pub has_event-written :
    (p : Patterns) (io : WriteIo) (fault : InsertFault) (event : EventEnvelopeV1)
    (rows : List EventEnvelopeV1) (id : String)
    → let (result, after) = insert_event_inner p io fault event rows in
      (has_event id rows ≡ true → has_event id after ≡ true)
      × (result ≡ written inserted
          → event.event_id ≡ id
          → (has_event id rows ≡ false) × (has_event id after ≡ true))
unfolding has_event prepare_event
has_event-written p io fault event rows id =
    elim (insert_event_inner-Outcome p io fault event rows) [
      | inl (same, old, _) ↦ rw same ((λ there. there), λ new. absurd (old new))
      | inr (more, free, _) ↦
          let fresh = has_event-free (prepare_event p event) rows free in
          rw more (
            (λ there. ground (arith, there)),
            λ new own. ground (arith, own, fresh, text_eq_iff event.event_id id),
          )
    ]
