-- ===== src/Redaction/Value/Keys.antt =====
-- src/redaction.rs: the names of the fields that the scrubber writes.
use previously_on.Prelude.{
  ℕ, ◌+◌, ◌*◌, ◌≤◌, String, List, ◌∷◌, ◌++◌, true, false, ◌≡◌, ◌⊎◌, inl, inr, refl, sym, ◌∙◌, subst,
  arith, ◌==◌, string_partial_eq, text_eq_iff, contains, length, length-append, Bool-cases,
}
use previously_on.Redaction.{Patterns, redact_text}
use previously_on.Json.{Value, Fields, end, field, keys, insert, object}
use previously_on.Redaction.Value.{field_value, redact_value, free_key, output_key, redact_fields}
use previously_on.Redaction.Value.Names.{
  limit, contains-append, keys-insert_new, contains-insert, free_key-index-le, free_key_fresh,
}

-- No key stands twice, as in a map.
abbrev pub IsDistinct : Fields → Type 0
IsDistinct end = Unit
IsDistinct (field k v rest) = (contains (keys rest) k ≡ false) × IsDistinct rest

-- The index for the next name may grow by `step` for each field.
room : ℕ → Fields → ℕ
room step end = 0
room step (field k v rest) = step + room step rest

room-eq : (step : ℕ) (fields : Fields) → room step fields ≡ length (keys fields) * step
unfolding room
room-eq step end = omega arith
room-eq step (field k v rest) = grind (arith, room-eq step rest)

module _ (p : Patterns) where
  output_key-index-le :
      (taken_in taken_out : List String) (index : ℕ) (key : String)
      → (output_key p taken_in taken_out index key).1
        ≤ index + (length taken_in + length taken_out) + 1
  unfolding output_key
  output_key-index-le taken_in taken_out index key = elim (Bool-cases (redact_text p key == key)) [
    | inl kept ↦ rw kept (omega arith)
    | inr changed ↦ rw changed (
        omega (
          arith,
          length-append taken_in taken_out,
          free_key-index-le (length (taken_in ++ taken_out)) index (taken_in ++ taken_out),
        ))
  ]

  -- The name is that of the field, or it is in neither list.
  output_key_fresh :
      (taken_in taken_out : List String) (index : ℕ) (key : String)
      → index + (length taken_in + length taken_out) ≤ limit
      → let name = (output_key p taken_in taken_out index key).0 in
        (name ≡ key) ⊎ ((contains taken_in name ≡ false) × (contains taken_out name ≡ false))
  unfolding output_key
  output_key_fresh taken_in taken_out index key small =
      elim (Bool-cases (redact_text p key == key)) [
        | inl kept ↦ rw kept (inl refl)
        | inr changed ↦
            let taken = taken_in ++ taken_out in
            let fresh =
              free_key_fresh (length taken) index taken taken (omega arith)
                (omega (arith, length-append taken_in taken_out)) (λ j above there. there) in
            rw changed (
              inr (
                ground (
                  arith,
                  contains-append taken_in taken_out (free_key (length taken) index taken).0,
                  fresh,
                )))
      ]

  -- What holds between two rounds of the loop.
  record Between (taken : List String) (rest : Fields) (index : ℕ) (output : Fields) : Type 0 where
    distinct : IsDistinct rest
    named : (s : String) → contains (keys rest) s ≡ true → contains taken s ≡ true
    absent : (s : String) → contains (keys rest) s ≡ true → contains (keys output) s ≡ false
    count : length (keys output) + length (keys rest) ≤ length taken
    small : index + room (2 * length taken + 1) rest ≤ limit

  Between-step :
      (taken : List String) (key : String) (v w : Value) (rest : Fields) (index : ℕ)
      (output : Fields)
      → Between taken (field key v rest) index output
      → let (name, next) = output_key p taken (keys output) index key in
        (contains (keys output) name ≡ false) × Between taken rest next (insert name w output)
  unfolding room
  Between-step taken key v w rest index output h =
      let (name, next) = output_key p taken (keys output) index key in
      let fresh =
        output_key_fresh taken (keys output) index key (omega (arith, h.small, h.count)) in
      let here : contains (key ∷ keys rest) key ≡ true = ground (arith, text_eq_iff key key) in
      let new : contains (keys output) name ≡ false = elim fresh [
        | inl same ↦ subst (λ s. contains (keys output) s ≡ false) (sym same) (h.absent key here)
        | inr apart ↦ apart.1
      ] in
      let longer = keys-insert_new name w output new in
      (
        new,
        record {
          distinct = h.distinct.1;
          named = λ s e. h.named s (ground arith);
          absent = λ s e. elim (Bool-cases (contains (keys (insert name w output)) s)) [
            | inr free ↦ free
            | inl there ↦ elim (contains-insert name s w output there) [
              | inr old ↦ absurd (ground (arith, h.absent s (ground arith)))
              | inl same ↦ elim fresh [
                | inl kept ↦
                    let clash : key ≡ s = sym kept ∙ same in
                    absurd (ground (arith, h.distinct.0, clash))
                | inr apart ↦
                    let known = h.named s (ground arith) in
                    let unknown : contains taken s ≡ false =
                      subst (λ t. contains taken t ≡ false) same apart.0 in
                    absurd (ground (arith, known, unknown))
              ]
            ]
          ];
          count = omega (arith, longer, h.count);
          small =
              omega (arith, h.small, h.count, output_key-index-le taken (keys output) index key);
        },
      )

  redact_fields-length :
      (taken : List String) (rest : Fields) (index : ℕ) (output : Fields)
      → Between taken rest index output
      → length (keys (redact_fields p taken rest index output))
        ≡ length (keys rest) + length (keys output)
  unfolding redact_fields
  redact_fields-length taken end index output h = omega arith
  redact_fields-length taken (field key v rest) index output h =
      let w = field_value p key v (redact_value p v) in
      let (name, next) = output_key p taken (keys output) index key in
      let (new, between) = Between-step taken key v w rest index output h in
      omega (
        arith,
        keys-insert_new name w output new,
        redact_fields-length taken rest next (insert name w output) between,
      )

  -- Redaction keeps every field of an object with distinct keys: the output has as many. The object
  -- may have up to some 46,000 fields, so that the index of fresh names does not saturate.
  pub redact_value-length :
      (fields : Fields)
      → IsDistinct fields
      → length (keys fields) * (2 * length (keys fields) + 1) ≤ limit
      → (output : Fields) × (redact_value p (object fields) ≡ object output)
        × (length (keys output) ≡ length (keys fields))
  unfolding redact_value
  redact_value-length fields distinct small = (
    redact_fields p (keys fields) fields 0 end,
    refl,
    redact_fields-length (keys fields) fields 0 end (record {
      distinct = distinct;
      named = λ s e. e;
      absent = λ s e. refl;
      count = omega arith;
      small = omega (arith, room-eq (2 * length (keys fields) + 1) fields, small);
    })
        ∙ omega arith,
  )
