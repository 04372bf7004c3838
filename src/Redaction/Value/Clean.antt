-- ===== src/Redaction/Value/Clean.antt =====
-- src/redaction.rs: what the scrubber makes of each text and each field of a value.
use previously_on.Prelude.{
  ℕ, zero, suc, String, List, ◌++◌, true, false, ◌≡◌, ◌≢◌, ◌⊎◌, inl, inr, refl, arith, ◌==◌,
  string_partial_eq, text_eq_iff, contains, length, Bool-cases, text_cmp, Ordering,
}
use previously_on.Redaction.{Patterns, redact_text, redact_excerpt, redacted_marker}
use previously_on.Json.{
  Value, Items, Fields, null, boolean, number, string, array, object, nil, item, end, field, keys,
  insert,
}
use previously_on.Redaction.Value.{
  redact_value, redact_items, redact_fields, field_value, output_key, free_key, candidate_key,
  next_index, is_sensitive_key, eq_ignore_ascii_case, str_or_default,
}

-- `P` holds of each field.
abbrev pub AllFields : (String → Value → Type 0) → Fields → Type 0
AllFields P end = Unit
AllFields P (field key v rest) = P key v × AllFields P rest

AllFields-insert :
    (P : String → Value → Type 0) (key : String) (v : Value) (fields : Fields)
    → P key v
    → AllFields P fields
    → AllFields P (insert key v fields)
unfolding insert
AllFields-insert P key v end h k = (h, tt)
AllFields-insert P key v (field other w rest) h k =
    elim (text_cmp key other)
      as (λ o. AllFields P (elim o [
        | Ordering.lt ↦ field key v (field other w rest)
        | Ordering.eq ↦ field key v rest
        | Ordering.gt ↦ field other w (insert key v rest)
      ])) [
        | Ordering.lt ↦ (h, k)
        | Ordering.eq ↦ (h, k.1)
        | Ordering.gt ↦ (k.0, AllFields-insert P key v rest h k.1)
      ]

module _ (p : Patterns) where
  -- A key that the patterns leave alone stays; another becomes a `[REDACTED_KEY_n]`.
  abbrev pub IsNameOf : String → String → Type 0
  IsNameOf key name =
      ((redact_text p key ≡ key) × (name ≡ key))
      ⊎ ((redact_text p key ≢ key) × ((n : ℕ) × (name ≡ candidate_key n)))

  unfoldable mutual
    -- The second value is a redaction of the first.
    pub IsRedaction : Value → Value → Type 0
    IsRedaction null w = w ≡ null
    IsRedaction (boolean b) w = w ≡ boolean b
    IsRedaction (number n) w = w ≡ number n
    IsRedaction (string s) w = w ≡ string (redact_text p s)
    IsRedaction (array items) w = (output : Items) × (w ≡ array output) × AreRedactions items output
    IsRedaction (object fields) w =
        (output : Fields) × (w ≡ object output) × AllFields (IsFieldOf fields) output

    pub AreRedactions : Items → Items → Type 0
    AreRedactions nil output = output ≡ nil
    AreRedactions (item v rest) output =
        (w : Value) × (more : Items) × (output ≡ item w more)
        × IsRedaction v w
        × AreRedactions rest more

    -- The field comes from one of these: the marker from a sensitive one, the capped redaction of its
    -- text from one called `excerpt`, and the redaction of its value from another.
    pub IsFieldOf : Fields → String → Value → Type 0
    IsFieldOf end name w = ⊥
    IsFieldOf (field key v rest) name w =
        (IsNameOf key name
          × ((is_sensitive_key key ≡ true) × (w ≡ string redacted_marker)
              ⊎ ((is_sensitive_key key ≡ false)
                  × ((eq_ignore_ascii_case key "excerpt" ≡ true)
                        × (w ≡ string (redact_excerpt p (str_or_default v)))
                      ⊎ (eq_ignore_ascii_case key "excerpt" ≡ false) × IsRedaction v w))))
        ⊎ IsFieldOf rest name w

  free_key-candidate :
      (fuel index : ℕ) (taken : List String)
      → (n : ℕ) × ((free_key fuel index taken).0 ≡ candidate_key n)
  unfolding free_key
  free_key-candidate zero index taken = (index, refl)
  free_key-candidate (suc fuel) index taken =
      elim (Bool-cases (contains taken (candidate_key index))) [
        | inl there ↦ rw (there, free_key) (free_key-candidate fuel (next_index index) taken)
        | inr free ↦ rw (free, free_key) (index, refl)
      ]

  output_key-IsNameOf :
      (taken_in taken_out : List String) (index : ℕ) (key : String)
      → IsNameOf key (output_key p taken_in taken_out index key).0
  unfolding output_key
  output_key-IsNameOf taken_in taken_out index key = elim (Bool-cases (redact_text p key == key)) [
    | inl kept ↦ rw (kept, output_key) (inl ((text_eq_iff (redact_text p key) key).0 kept, refl))
    | inr changed ↦
        rw (changed, output_key)
          (inr (
            (λ same. ground (arith, changed, text_eq_iff (redact_text p key) key)),
            free_key-candidate (length (taken_in ++ taken_out)) index (taken_in ++ taken_out),
          ))
  ]

  field_value-IsFieldOf :
      (key name : String) (v inner : Value) (rest : Fields)
      → IsNameOf key name
      → IsRedaction v inner
      → IsFieldOf (field key v rest) name (field_value p key v inner)
  unfolding field_value IsFieldOf
  field_value-IsFieldOf key name v inner rest named h = elim (Bool-cases (is_sensitive_key key)) [
    | inl secret ↦ rw (secret, field_value) (inl (named, inl (refl, refl)))
    | inr open_key ↦ elim (Bool-cases (eq_ignore_ascii_case key "excerpt")) [
      | inl excerpt ↦
          rw (open_key, excerpt, field_value) (inl (named, inr (refl, inl (refl, refl))))
      | inr other ↦ rw (open_key, other, field_value) (inl (named, inr (refl, inr (refl, h))))
    ]
  ]

  mutual
    unfolding redact_value redact_items redact_fields IsRedaction AreRedactions IsFieldOf

    value-IsRedaction : (v : Value) → IsRedaction v (redact_value p v)
    value-IsRedaction null = refl
    value-IsRedaction (boolean b) = refl
    value-IsRedaction (number n) = refl
    value-IsRedaction (string s) = refl
    value-IsRedaction (array items) = (redact_items p items, refl, items-AreRedactions items)
    value-IsRedaction (object fields) = (
      redact_fields p (keys fields) fields 0 end,
      refl,
      fields-IsFieldOf (keys fields) fields fields (λ name w h. h) 0 end tt,
    )

    items-AreRedactions : (items : Items) → AreRedactions items (redact_items p items)
    items-AreRedactions nil = refl
    items-AreRedactions (item v rest) =
        (redact_value p v, redact_items p rest, refl, value-IsRedaction v, items-AreRedactions rest)

    fields-IsFieldOf :
        (taken : List String) (whole fields : Fields)
        → ((name : String) (w : Value) → IsFieldOf fields name w → IsFieldOf whole name w)
        → (index : ℕ) (output : Fields) → AllFields (IsFieldOf whole) output
        → AllFields (IsFieldOf whole) (redact_fields p taken fields index output)
    fields-IsFieldOf taken whole end from index output h = h
    fields-IsFieldOf taken whole (field key v rest) from index output h =
        let written = field_value p key v (redact_value p v) in
        let (name, next) = output_key p taken (keys output) index key in
        fields-IsFieldOf taken whole rest (λ other w k. from other w (inr k)) next
          (insert name written output)
          (AllFields-insert (IsFieldOf whole) name written output
            (from name written (
              field_value-IsFieldOf key name v (redact_value p v) rest
                (output_key-IsNameOf taken (keys output) index key) (value-IsRedaction v)))
            h)

  -- Redaction leaves null, Booleans and numbers, puts a text through the patterns, and redacts an
  -- array item by item, in order. Each field of a redacted object comes from a field of the old one:
  -- under the same key if the patterns leave that alone, and otherwise under a name
  -- [REDACTED_KEY_n]; and its value is the marker if the old key is sensitive, or else the text
  -- through the patterns and then capped (of what is no text, the empty one) if the old key is
  -- `excerpt`, in any case of its letters, or else the redaction of the old value.
  pub redact_value-IsRedaction : (v : Value) → IsRedaction v (redact_value p v)
  redact_value-IsRedaction v = value-IsRedaction v
