-- ===== src/Git/NameStatus.antt =====
-- src/git.rs: what git prints for changed files is read back.
use previously_on.Prelude.{
  ℕ, String, none, some, List, [], ◌∷◌, ◌++◌, map, filter, true, false, not, ◌≡◌, refl, ap, ◌∙◌,
  arith, nat_eq, is_empty, all, Bool-cases, inl, inr, All,
}
use previously_on.Domain.{
  added, modified, deleted, renamed, copied, type_changed, unmerged, FileChangeV1,
}
use previously_on.Git.{normalize_path, split_at_zero, observed, parse_fields, parse_name_status}

-- What git reports: a file under its path, or, with a score, a file that came from another path.
pub data Entry : Type 0 where
  addition modification deletion type_change conflict : String → Entry
  renaming copying : String → String → String → Entry

-- The fields that git prints for an entry; the letter of a rename or a copy has its score behind it,
-- which may be any text.
abbrev pub printed : Entry → List String
printed (addition path) = "A" ∷ path ∷ []
printed (modification path) = "M" ∷ path ∷ []
printed (deletion path) = "D" ∷ path ∷ []
printed (type_change path) = "T" ∷ path ∷ []
printed (conflict path) = "U" ∷ path ∷ []
printed (renaming score from to) = String.◌∷◌ "R" score ∷ from ∷ to ∷ []
printed (copying score from to) = String.◌∷◌ "C" score ∷ from ∷ to ∷ []

-- The change that an entry reports.
abbrev pub change_of : Entry → FileChangeV1
change_of (addition path) = observed added none path
change_of (modification path) = observed modified none path
change_of (deletion path) = observed deleted none path
change_of (type_change path) = observed type_changed none path
change_of (conflict path) = observed unmerged none path
change_of (renaming score from to) = observed renamed (some from) to
change_of (copying score from to) = observed copied (some from) to

-- The paths are as `normalize_path` leaves them.
abbrev pub IsNormal : Entry → Type 0
IsNormal (renaming score from to) = (normalize_path from ≡ from) × (normalize_path to ≡ to)
IsNormal (copying score from to) = (normalize_path from ≡ from) × (normalize_path to ≡ to)
IsNormal (addition path) = normalize_path path ≡ path
IsNormal (modification path) = normalize_path path ≡ path
IsNormal (deletion path) = normalize_path path ≡ path
IsNormal (type_change path) = normalize_path path ≡ path
IsNormal (conflict path) = normalize_path path ≡ path

abbrev pub all_printed : List Entry → List String
all_printed [] = []
all_printed (entry ∷ entries) = printed entry ++ all_printed entries

parse_fields-printed :
    (entry : Entry) (fields : List String)
    → IsNormal entry
    → parse_fields (printed entry ++ fields) ≡ change_of entry ∷ parse_fields fields
unfolding parse_fields
parse_fields-printed (addition path) [] h = ap (λ p. observed added none p ∷ []) h
parse_fields-printed (addition path) (f ∷ fs) h =
    ap (λ p. observed added none p ∷ parse_fields (f ∷ fs)) h
parse_fields-printed (modification path) [] h = ap (λ p. observed modified none p ∷ []) h
parse_fields-printed (modification path) (f ∷ fs) h =
    ap (λ p. observed modified none p ∷ parse_fields (f ∷ fs)) h
parse_fields-printed (deletion path) [] h = ap (λ p. observed deleted none p ∷ []) h
parse_fields-printed (deletion path) (f ∷ fs) h =
    ap (λ p. observed deleted none p ∷ parse_fields (f ∷ fs)) h
parse_fields-printed (type_change path) [] h = ap (λ p. observed type_changed none p ∷ []) h
parse_fields-printed (type_change path) (f ∷ fs) h =
    ap (λ p. observed type_changed none p ∷ parse_fields (f ∷ fs)) h
parse_fields-printed (conflict path) [] h = ap (λ p. observed unmerged none p ∷ []) h
parse_fields-printed (conflict path) (f ∷ fs) h =
    ap (λ p. observed unmerged none p ∷ parse_fields (f ∷ fs)) h
parse_fields-printed (renaming score from to) [] h = cc
parse_fields-printed (renaming score from to) (f ∷ fs) h = cc
parse_fields-printed (copying score from to) [] h = cc
parse_fields-printed (copying score from to) (f ∷ fs) h = cc

parse_fields-all_printed :
    (entries : List Entry)
    → All IsNormal entries
    → parse_fields (all_printed entries) ≡ map change_of entries
unfolding parse_fields
parse_fields-all_printed [] h = refl
parse_fields-all_printed (entry ∷ entries) h =
    parse_fields-printed entry (all_printed entries) h.0
    ∙ ap (λ l. change_of entry ∷ l) (parse_fields-all_printed entries h.1)

split_cons :
    (bytes : List ℕ)
    → (field : List ℕ) × (fields : List (List ℕ)) × (split_at_zero bytes ≡ field ∷ fields)
unfolding split_at_zero
split_cons [] = ([], [], refl)
split_cons (byte ∷ bytes) =
    let (field, fields, e) = split_cons bytes in
    elim (Bool-cases (nat_eq byte 0)) [
      | inl zero_byte ↦ ([], field ∷ fields, rw (e, zero_byte) refl)
      | inr other ↦ (byte ∷ field, fields, rw (e, other) refl)
    ]

-- A field without a zero byte, and the zero byte after it, are split off.
split_at_zero-field :
    (field bytes : List ℕ)
    → all (λ byte. not (nat_eq byte 0)) field ≡ true
    → split_at_zero (field ++ 0 ∷ bytes) ≡ field ∷ split_at_zero bytes
unfolding split_at_zero
split_at_zero-field [] bytes h = let (field, fields, e) = split_cons bytes in rw e refl
split_at_zero-field (byte ∷ field) bytes h =
    let rest = split_at_zero-field field bytes (ground (arith, h)) in
    let other : nat_eq byte 0 ≡ false = ground (arith, h) in rw (rest, other) refl

module _ (from_utf8_lossy : List ℕ → String) (encode : String → List ℕ) where
  -- The bytes of a field are not empty and hold no zero byte, and they can be decoded.
  abbrev pub IsField : String → Type 0
  IsField s =
      (is_empty (encode s) ≡ false)
      × (all (λ byte. not (nat_eq byte 0)) (encode s) ≡ true)
      × (from_utf8_lossy (encode s) ≡ s)

  -- Each field, and a zero byte after it.
  abbrev pub written : List String → List ℕ
  written [] = []
  written (s ∷ ss) = encode s ++ 0 ∷ written ss

  written-read :
      (fields : List String)
      → All IsField fields
      → map from_utf8_lossy
          (filter (λ field. not (is_empty field)) (split_at_zero (written fields)))
        ≡ fields
  unfolding split_at_zero
  written-read [] h = refl
  written-read (s ∷ ss) h =
      let parts = split_at_zero-field (encode s) (written ss) h.0.1 in
      ap (λ l. map from_utf8_lossy (filter (λ field. not (is_empty field)) l)) parts
      ∙ rw (h.0.0, h.0.2) (ap (λ l. s ∷ l) (written-read ss h.1))

  -- What git prints for changed files is read back, entry by entry: with normal paths, and fields that
  -- are not empty, hold no zero byte and can be decoded, the parser gives the change of each entry, in
  -- their order, whatever score stands behind the letter of a rename or a copy.
  pub parse_name_status-printed :
      (entries : List Entry)
      → All IsNormal entries
      → All IsField (all_printed entries)
      → parse_name_status from_utf8_lossy (written (all_printed entries)) ≡ map change_of entries
  unfolding parse_name_status
  parse_name_status-printed entries normal fit =
      ap parse_fields (written-read (all_printed entries) fit)
      ∙ parse_fields-all_printed entries normal
