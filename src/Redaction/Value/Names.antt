-- ===== src/Redaction/Value/Names.antt =====
-- src/redaction.rs: the search for a name that is not taken.
use previously_on.Prelude.{
  ℕ, zero, suc, ◌+◌, ◌≤◌, String, List, [], ◌∷◌, ◌++◌, true, false, ◌≡◌, ◌≢◌, ◌⊎◌, inl, inr, refl,
  sym, ap, ◌∙◌, arith, ◌||◌, ◌==◌, string_partial_eq, text_eq_iff, contains, length, concat,
  decimal, decimal-inj, codes, codes-append, Bool-cases, text_cmp-eq, if◌then◌else◌,
}
use text.Mathlib.TextEquality.{codes_equal}
use previously_on.Json.{Value, Fields, end, field, keys, insert}
use previously_on.Redaction.Value.{candidate_key, next_index, free_key}

-- A list without the first occurrence of a text.
erase : String → List String → List String
erase s [] = []
erase s (x ∷ xs) = let rest = erase s xs in if x == s then xs else x ∷ rest

length-erase :
    (s : String) (xs : List String) → contains xs s ≡ true → length xs ≡ suc (length (erase s xs))
unfolding erase
length-erase s [] h = absurd (ground arith)
length-erase s (x ∷ xs) h = ground (arith, length-erase s xs)

contains-erase :
    (s t : String) (xs : List String)
    → t ≢ s
    → contains xs t ≡ true
    → contains (erase s xs) t ≡ true
unfolding erase
contains-erase s t [] ne h = h
contains-erase s t (x ∷ xs) ne h =
    ground (arith, text_eq_iff x s, text_eq_iff x t, contains-erase s t xs)

tail : List ℕ → List ℕ
tail [] = []
tail (c ∷ cs) = cs

-- Without the last code point.
front : List ℕ → List ℕ
front [] = []
front (c ∷ []) = []
front (c ∷ d ∷ cs) = c ∷ front (d ∷ cs)

front-snoc : (xs : List ℕ) (c : ℕ) → front (xs ++ c ∷ []) ≡ xs
unfolding front
front-snoc [] c = refl
front-snoc (x ∷ []) c = refl
front-snoc (x ∷ y ∷ xs) c = ap (λ r. x ∷ r) (front-snoc (y ∷ xs) c)

append-inj : (xs ys zs : List ℕ) → xs ++ ys ≡ xs ++ zs → ys ≡ zs
unfolding tail
append-inj [] ys zs h = h
append-inj (x ∷ xs) ys zs h = append-inj xs ys zs (ap tail h)

codes-inj : (s t : String) → codes s ≡ codes t → s ≡ t
codes-inj String.[] String.[] h = refl
codes-inj String.[] (String.◌∷◌ d t) h = absurd (ground arith)
codes-inj (String.◌∷◌ c s) String.[] h = absurd (ground arith)
codes-inj (String.◌∷◌ c s) (String.◌∷◌ d t) h =
    let same : c ≡ d = codes_equal c d (ground arith) in
    let rest : s ≡ t = codes-inj s t (ground arith) in cc

candidate_key-codes :
    (n : ℕ) → codes (candidate_key n) ≡ codes "[REDACTED_KEY_" ++ (codes (decimal n) ++ b']' ∷ [])
candidate_key-codes n =
    codes-append "[REDACTED_KEY_" (concat (decimal n ∷ "]" ∷ []))
    ∙ ap (λ l. codes "[REDACTED_KEY_" ++ l) (codes-append (decimal n) (concat ("]" ∷ [])))

pub candidate_key-inj : (m n : ℕ) → candidate_key m ≡ candidate_key n → m ≡ n
candidate_key-inj m n h = decimal-inj m n (
    codes-inj (decimal m) (decimal n) (
      sym (front-snoc (codes (decimal m)) b']')
      ∙ ap front (
          append-inj (codes "[REDACTED_KEY_") (codes (decimal m) ++ b']' ∷ [])
            (codes (decimal n) ++ b']' ∷ [])
            (sym (candidate_key-codes m) ∙ ap codes h ∙ candidate_key-codes n))
      ∙ front-snoc (codes (decimal n)) b']'))

abbrev pub limit : ℕ
limit = 4294967295

-- As long as the names that are left in the way are no more than the rounds, a free one is found.
pub free_key_fresh :
    (fuel index : ℕ) (taken remaining : List String)
    → length remaining ≤ fuel
    → index + fuel ≤ limit
    → ((j : ℕ)
        → index ≤ j
        → contains taken (candidate_key j) ≡ true
        → contains remaining (candidate_key j) ≡ true)
    → contains taken (free_key fuel index taken).0 ≡ false
unfolding free_key
free_key_fresh zero index taken [] few small covered =
    elim (Bool-cases (contains taken (candidate_key index))) [
      | inl there ↦ absurd (ground (arith, covered index (omega arith) there))
      | inr free ↦ free
    ]
free_key_fresh zero index taken (r ∷ remaining) few small covered = absurd (omega arith)
free_key_fresh (suc fuel) index taken remaining few small covered =
    elim (Bool-cases (contains taken (candidate_key index))) [
      | inl there ↦
          let here = covered index (omega arith) there in
          let next : next_index index ≡ index + 1 = omega arith in
          rw there (
            free_key_fresh fuel (next_index index) taken (erase (candidate_key index) remaining)
              (omega (arith, length-erase (candidate_key index) remaining here))
              (omega (arith, next))
              (λ j above in_taken.
                contains-erase (candidate_key index) (candidate_key j) remaining
                  (λ same. absurd (omega (arith, next, candidate_key-inj j index same)))
                  (covered j (omega (arith, next)) in_taken)))
      | inr free ↦ rw free free
    ]

pub contains-append :
    (xs ys : List String) (s : String) → contains (xs ++ ys) s ≡ (contains xs s || contains ys s)
contains-append [] ys s = refl
contains-append (x ∷ xs) ys s = ground (arith, contains-append xs ys s)

pub keys-insert_new :
    (key : String) (v : Value) (output : Fields)
    → contains (keys output) key ≡ false
    → length (keys (insert key v output)) ≡ suc (length (keys output))
unfolding insert
keys-insert_new key v end h = refl
keys-insert_new key v (field k w rest) h =
    ground (arith, text_cmp-eq key k, text_eq_iff k key, keys-insert_new key v rest)

pub contains-insert :
    (key s : String) (v : Value) (output : Fields)
    → contains (keys (insert key v output)) s ≡ true
    → (key ≡ s) ⊎ (contains (keys output) s ≡ true)
unfolding insert
contains-insert key s v end h = ground (arith, text_eq_iff key s)
contains-insert key s v (field k w rest) h =
    ground
      (arith, text_cmp-eq key k, text_eq_iff key s, text_eq_iff k s, contains-insert key s v rest)

pub free_key-index-le :
    (fuel index : ℕ) (taken : List String) → (free_key fuel index taken).1 ≤ index + fuel + 1
unfolding free_key
free_key-index-le zero index taken = omega arith
free_key-index-le (suc fuel) index taken =
    elim (Bool-cases (contains taken (candidate_key index))) [
      | inl there ↦ rw there (omega (arith, free_key-index-le fuel (next_index index) taken))
      | inr free ↦ rw free (omega arith)
    ]
