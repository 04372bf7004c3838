-- ===== src/EventStore/Order.antt =====
-- src/store/projection.rs: the order in which events are replayed.
use mathlib.Core.List.{Permᴰ}
use previously_on.Prelude.{
  ℕ, String, List, [], ◌∷◌, map, filter, Bool, ◌≡◌, refl, sym, ap, ◌∙◌, arith, compare, Ordering,
  then_cmp, flip, text_cmp, text_cmp-eq, text_cmp-IsOrder, IsOrder, compare-IsOrder, by_key-IsOrder,
  then_cmp-IsOrder, insert_sorted, place, sort_by, insert_sorted_comm, if◌then◌else◌, Bool-cases,
  inl, inr, ◌==◌, string_partial_eq,
}
use previously_on.Contracts.Evaluation.{timestamp_micros}
use previously_on.EventStore.{
  EventEnvelopeV1, ℤ, pos, negsuc, int_cmp, sequence_or_max, event_order, load_events,
}

-- What the order looks at: the time, the number in the sequence, and the id.
abbrev pub event_key : EventEnvelopeV1 → ℕ × (ℤ × String)
event_key event =
    (timestamp_micros event.occurred_at, (sequence_or_max event.sequence, event.event_id))

abbrev key_order : ℕ × (ℤ × String) → ℕ × (ℤ × String) → Ordering
key_order a b = then_cmp (compare a.0 b.0) (then_cmp (int_cmp a.1.0 b.1.0) (text_cmp a.1.1 b.1.1))

int_cmp-IsOrder : IsOrder int_cmp
int_cmp-IsOrder = record { flips = flips; alike = alike; lt_trans = lt_trans }
  where
    flips : (a b : ℤ) → int_cmp b a ≡ flip (int_cmp a b)
    flips (pos m) (pos n) = ground arith
    flips (pos m) (negsuc n) = refl
    flips (negsuc m) (pos n) = refl
    flips (negsuc m) (negsuc n) = ground arith

    alike : (a b c : ℤ) → int_cmp a b ≡ Ordering.eq → int_cmp a c ≡ int_cmp b c
    alike (pos m) (pos n) (pos k) h = ground arith
    alike (pos m) (pos n) (negsuc k) h = refl
    alike (pos m) (negsuc n) c h = absurd (ground arith)
    alike (negsuc m) (pos n) c h = absurd (ground arith)
    alike (negsuc m) (negsuc n) (pos k) h = refl
    alike (negsuc m) (negsuc n) (negsuc k) h = ground arith

    lt_trans :
        (a b c : ℤ)
        → int_cmp a b ≡ Ordering.lt
        → int_cmp b c ≡ Ordering.lt
        → int_cmp a c ≡ Ordering.lt
    lt_trans (pos m) (pos n) (pos k) h g = ground arith
    lt_trans (negsuc m) b (pos k) h g = refl
    lt_trans (negsuc m) (negsuc n) (negsuc k) h g = ground arith
    lt_trans (pos m) (pos n) (negsuc k) h g = absurd (ground arith)
    lt_trans (pos m) (negsuc n) c h g = absurd (ground arith)
    lt_trans (negsuc m) (pos n) (negsuc k) h g = absurd (ground arith)

int_cmp-eq : (a b : ℤ) → int_cmp a b ≡ Ordering.eq → a ≡ b
int_cmp-eq (pos m) (pos n) h = ap pos (ground arith)
int_cmp-eq (pos m) (negsuc n) h = absurd (ground arith)
int_cmp-eq (negsuc m) (pos n) h = absurd (ground arith)
int_cmp-eq (negsuc m) (negsuc n) h = ap negsuc (ground arith)

key_order-IsOrder : IsOrder key_order
key_order-IsOrder = then_cmp-IsOrder (by_key-IsOrder (λ k. k.0) compare-IsOrder) (
    then_cmp-IsOrder (by_key-IsOrder (λ k. k.1.0) int_cmp-IsOrder)
      (by_key-IsOrder (λ k. k.1.1) text_cmp-IsOrder))

key_order-eq : (a b : ℕ × (ℤ × String)) → key_order a b ≡ Ordering.eq → a ≡ b
key_order-eq (m, (i, s)) (n, (j, t)) h =
    let times : m ≡ n = ground (arith, h) in
    let numbers : i ≡ j = int_cmp-eq i j (ground (arith, h)) in
    let ids : s ≡ t = text_cmp-eq s t (ground (arith, h)) in cc

map-place :
    (o : Ordering) (x y : EventEnvelopeV1) (ys rest : List EventEnvelopeV1)
    → map event_key (place o x y ys rest)
      ≡ place o (event_key x) (event_key y) (map event_key ys) (map event_key rest)
unfolding place
map-place Ordering.lt x y ys rest = refl
map-place Ordering.eq x y ys rest = refl
map-place Ordering.gt x y ys rest = refl

map-insert_sorted :
    (event : EventEnvelopeV1) (events : List EventEnvelopeV1)
    → map event_key (insert_sorted event_order event events)
      ≡ insert_sorted key_order (event_key event) (map event_key events)
unfolding insert_sorted event_order
map-insert_sorted event [] = refl
map-insert_sorted event (other ∷ events) =
    map-place (event_order event other) event other events (insert_sorted event_order event events)
    ∙ ap
        (λ r.
          place (event_order event other) (event_key event) (event_key other) (map event_key events)
            r)
        (map-insert_sorted event events)

-- The keys of the events of a repository, sorted, for any list of rows.
sorted_keys : (EventEnvelopeV1 → Bool) → List EventEnvelopeV1 → List (ℕ × (ℤ × String))
sorted_keys p rows = map event_key (sort_by event_order (filter p rows))

sorted_keys-cons :
    (p : EventEnvelopeV1 → Bool) (row : EventEnvelopeV1) (rows : List EventEnvelopeV1)
    → sorted_keys p (row ∷ rows) ≡ (
        if p row
        then insert_sorted key_order (event_key row) (sorted_keys p rows)
        else sorted_keys p rows)
unfolding sorted_keys sort_by
sorted_keys-cons p row rows = elim (Bool-cases (p row)) [
  | inl kept ↦ rw kept (map-insert_sorted row (sort_by event_order (filter p rows)))
  | inr dropped ↦ rw dropped refl
]

sorted_keys-swap :
    (p : EventEnvelopeV1 → Bool) (a b : EventEnvelopeV1) (rows : List EventEnvelopeV1)
    → sorted_keys p (a ∷ b ∷ rows) ≡ sorted_keys p (b ∷ a ∷ rows)
sorted_keys-swap p a b rows =
    let ab = sorted_keys-cons p a (b ∷ rows) in
    let b_first = sorted_keys-cons p b rows in
    let ba = sorted_keys-cons p b (a ∷ rows) in
    let a_first = sorted_keys-cons p a rows in
    let comm =
      insert_sorted_comm key_order-IsOrder key_order-eq (event_key a) (event_key b)
        (sorted_keys p rows) in
    elim (Bool-cases (p a)) [
      | inl yes_a ↦ elim (Bool-cases (p b)) [
        | inl yes_b ↦ ground (arith, ab, b_first, ba, a_first, comm)
        | inr no_b ↦ ground (arith, ab, b_first, ba, a_first)
      ]
      | inr no_a ↦ elim (Bool-cases (p b)) [
        | inl yes_b ↦ ground (arith, ab, b_first, ba, a_first)
        | inr no_b ↦ ground (arith, ab, b_first, ba, a_first)
      ]
    ]

sorted_keys-Perm :
    (p : EventEnvelopeV1 → Bool) {rows rows' : List EventEnvelopeV1}
    → Permᴰ rows rows'
    → sorted_keys p rows ≡ sorted_keys p rows'
sorted_keys-Perm p Permᴰ.nil = refl
sorted_keys-Perm p (Permᴰ.cons {a} {b} {l₁ = l} {l₂ = m} e h) =
    sorted_keys-cons p a l
    ∙ ap (λ r. if p a then insert_sorted key_order (event_key a) r else r) (sorted_keys-Perm p h)
    ∙ sym (sorted_keys-cons p a m)
    ∙ ap (λ x. sorted_keys p (x ∷ m)) e
sorted_keys-Perm p (Permᴰ.swap {a} {b} {l = l} e f) = rw (e, f) (sorted_keys-swap p _ _ l)
sorted_keys-Perm p (Permᴰ.trans h k) = sorted_keys-Perm p h ∙ sorted_keys-Perm p k

-- The replay does not depend on the order in which events were written: two tables with the same
-- rows, in whatever order, give events of a repository with the same times, sequence numbers and ids,
-- one after another.
pub load_events-Perm :
    (repository_id : String) (rows rows' : List EventEnvelopeV1)
    → Permᴰ rows rows'
    → map event_key (load_events repository_id rows)
      ≡ map event_key (load_events repository_id rows')
unfolding load_events sorted_keys
load_events-Perm repository_id rows rows' h =
    sorted_keys-Perm (λ event. event.repository_id == repository_id) h
