-- ===== src/Contracts/Match/Merged.antt =====
-- src/contracts.rs: the merge of two hunks of one file, and the tokens that they hold.
use mathlib.Core.List.{append_assoc, append-nil}
use previously_on.Prelude.{
  codes-append, ℕ, String, Option, none, some, List, [], ◌∷◌, ◌++◌, Bool, true, false, ◌≡◌, ◌≢◌,
  ◌⊎◌, inl, inr, refl, sym, ap, ◌∙◌, arith, any, codes, concat, text_is_empty, All, Bool-cases,
  if◌then◌else◌,
}
use previously_on.Contracts.{ChangedHunkV1, available, unavailable}
use previously_on.Contracts.Token.{
  first, is_identifier_character, is_boundary, contains_literal_token,
}
use previously_on.Contracts.Token.Exact.{
  last_of, IsIdentifier, StandsAlone, contains_literal_token_lem,
}
use previously_on.Contracts.Match.Relevant.{may_hold}
use previously_on.Contracts.Match.Hunks.{merge_available, merge_changed_hunks}

codes-joined :
    (left right : String)
    → codes (concat (left ∷ "\n" ∷ right ∷ [])) ≡ codes left ++ b'\n' ∷ codes right
codes-joined left right =
    codes-append left (concat ("\n" ∷ right ∷ []))
    ∙ ap (λ l. codes left ++ l)
        (codes-append "\n" (concat (right ∷ []))
          ∙ ap (λ l. b'\n' ∷ l) (codes-append right "" ∙ append-nil (codes right)))

no_place : (pre symbol post : List ℕ) → [] ≡ pre ++ (symbol ++ post) → symbol ≡ []
no_place [] [] post h = refl
no_place [] (s ∷ symbol) post h = absurd (ground arith)
no_place (c ∷ pre) symbol post h = absurd (ground arith)

last_of-append :
    (before : Option ℕ) (xs ys : List ℕ)
    → last_of before (xs ++ ys) ≡ last_of (last_of before xs) ys
last_of-append before [] ys = refl
last_of-append before (x ∷ xs) ys = last_of-append (some x) xs ys

module _ (is_alphanumeric : ℕ → Bool) (newline_apart : is_alphanumeric b'\n' ≡ false) where
  newline-boundary : is_boundary is_alphanumeric (some b'\n') ≡ true
  unfolding is_identifier_character
  newline-boundary = ground arith

  first-append :
      (post rest : List ℕ)
      → is_boundary is_alphanumeric (first post) ≡ true
      → is_boundary is_alphanumeric (first (post ++ b'\n' ∷ rest)) ≡ true
  first-append [] rest h = newline-boundary
  first-append (c ∷ post) rest h = h

  last_of-newline :
      (pre : List ℕ)
      → is_boundary is_alphanumeric (last_of none pre) ≡ true
      → is_boundary is_alphanumeric (last_of (some b'\n') pre) ≡ true
  last_of-newline [] h = newline-boundary
  last_of-newline (c ∷ pre) h = h

  StandsAlone-left :
      (left right symbol : List ℕ)
      → StandsAlone is_alphanumeric none left symbol
      → StandsAlone is_alphanumeric none (left ++ b'\n' ∷ right) symbol
  StandsAlone-left left right symbol (pre, post, split, before, after) = (
    pre,
    post ++ b'\n' ∷ right,
    ap (λ l. l ++ b'\n' ∷ right) split
        ∙ append_assoc pre (symbol ++ post) (b'\n' ∷ right)
        ∙ ap (λ l. pre ++ l) (append_assoc symbol post (b'\n' ∷ right)),
    before,
    first-append post right after,
  )

  StandsAlone-right :
      (left right symbol : List ℕ)
      → StandsAlone is_alphanumeric none right symbol
      → StandsAlone is_alphanumeric none (left ++ b'\n' ∷ right) symbol
  StandsAlone-right left right symbol (pre, post, split, before, after) = (
    left ++ b'\n' ∷ pre,
    post,
    ap (λ l. left ++ b'\n' ∷ l) split ∙ sym (append_assoc left (b'\n' ∷ pre) (symbol ++ post)),
    rw (last_of-append none left (b'\n' ∷ pre)) (last_of-newline pre before),
    after,
  )

  -- A symbol that the search knows how to find: it is not empty, and of identifier characters.
  abbrev pub IsToken : String → Type 0
  IsToken symbol = (codes symbol ≢ []) × IsIdentifier is_alphanumeric (codes symbol)

  -- The test of the matcher for one symbol.
  abbrev holds_symbol : String → String → Bool
  holds_symbol symbol hunk = contains_literal_token is_alphanumeric (codes hunk) (codes symbol)

  module _ (symbol : String) (token : IsToken symbol) where
    StandsAlone-holds :
        (hunk : String)
        → holds_symbol symbol hunk ≡ true
        → StandsAlone is_alphanumeric none (codes hunk) (codes symbol)
    StandsAlone-holds hunk =
        (contains_literal_token_lem is_alphanumeric (codes hunk) (codes symbol) token.0 token.1).0

    holds-StandsAlone :
        (hunk : String) (text : List ℕ)
        → codes hunk ≡ text
        → StandsAlone is_alphanumeric none text (codes symbol)
        → holds_symbol symbol hunk ≡ true
    holds-StandsAlone hunk text same h =
        (contains_literal_token_lem is_alphanumeric (codes hunk) (codes symbol) token.0 token.1).1
          (rw same h)

    not_in_empty : holds_symbol symbol "" ≡ true → ⊥
    not_in_empty h =
        let (pre, post, split, before, after) = StandsAlone-holds "" h in
        token.0 (no_place pre (codes symbol) post split)

    -- What one of two hunks holds, the merged hunk holds.
    holds-merged :
        (left right : String)
        → (holds_symbol symbol left ≡ true) ⊎ (holds_symbol symbol right ≡ true)
        → (merged : String) → merge_available left right ≡ available merged
        → holds_symbol symbol merged ≡ true
    unfolding merge_available
    holds-merged String.[] right (inl h) merged e = absurd (not_in_empty h)
    holds-merged String.[] right (inr h) merged e = ground arith
    holds-merged (String.◌∷◌ c s) String.[] (inl h) merged e = ground arith
    holds-merged (String.◌∷◌ c s) String.[] (inr h) merged e = absurd (not_in_empty h)
    holds-merged (String.◌∷◌ c s) (String.◌∷◌ d t) h merged e =
        let left = String.◌∷◌ c s in
        let right = String.◌∷◌ d t in
        let same : concat (left ∷ "\n" ∷ right ∷ []) ≡ merged = ground arith in
        rw (sym same) (elim h [
          | inl l ↦
              holds-StandsAlone (concat (left ∷ "\n" ∷ right ∷ [])) _ (codes-joined left right) (
                StandsAlone-left (codes left) (codes right) (codes symbol)
                  (StandsAlone-holds left l))
          | inr r ↦
              holds-StandsAlone (concat (left ∷ "\n" ∷ right ∷ [])) _ (codes-joined left right) (
                StandsAlone-right (codes left) (codes right) (codes symbol)
                  (StandsAlone-holds right r))
        ])

  merged_text : String → String → String
  merged_text left right =
      if text_is_empty left
      then right
      else if text_is_empty right
      then left
      else concat (left ∷ "\n" ∷ right ∷ [])

  merge_available-eq :
      (left right : String) → merge_available left right ≡ available (merged_text left right)
  unfolding merge_available merged_text
  merge_available-eq left right = refl

  any-merged :
      (symbols : List String) (left right : String)
      → All IsToken symbols
      → (any (λ s. holds_symbol s left) symbols ≡ true)
        ⊎ (any (λ s. holds_symbol s right) symbols ≡ true)
      → any (λ s. holds_symbol s (merged_text left right)) symbols ≡ true
  any-merged [] left right tokens (inl h) = h
  any-merged [] left right tokens (inr h) = h
  any-merged (symbol ∷ symbols) left right tokens h = elim (Bool-cases (holds_symbol symbol left)) [
    | inl here ↦ ground (arith, step symbol tokens.0 (inl here))
    | inr not_left ↦ elim (Bool-cases (holds_symbol symbol right)) [
      | inl here ↦ ground (arith, step symbol tokens.0 (inr here))
      | inr not_right ↦
          ground (arith, any-merged symbols left right tokens.1 (later h not_left not_right))
    ]
  ]
    where
      later :
          (any (λ s. holds_symbol s left) (symbol ∷ symbols) ≡ true)
            ⊎ (any (λ s. holds_symbol s right) (symbol ∷ symbols) ≡ true)
          → holds_symbol symbol left ≡ false
          → holds_symbol symbol right ≡ false
          → (any (λ s. holds_symbol s left) symbols ≡ true)
            ⊎ (any (λ s. holds_symbol s right) symbols ≡ true)
      later (inl k) a b = inl (ground arith)
      later (inr k) a b = inr (ground arith)

      step :
          (s : String)
          → IsToken s
          → (holds_symbol s left ≡ true) ⊎ (holds_symbol s right ≡ true)
          → holds_symbol s (merged_text left right) ≡ true
      step s token k =
          holds-merged s token left right k (merged_text left right) (merge_available-eq left right)

  -- Where all symbols are tokens and a newline is not alphanumeric, what one of two hunks may hold of
  -- them, the merged hunk may hold too: a merge loses no match.
  pub merge_changed_hunks_lem :
      (symbols : List String) (left right : ChangedHunkV1)
      → All IsToken symbols
      → (may_hold is_alphanumeric symbols left ≡ true)
        ⊎ (may_hold is_alphanumeric symbols right ≡ true)
      → may_hold is_alphanumeric symbols (merge_changed_hunks left right) ≡ true
  unfolding merge_changed_hunks
  merge_changed_hunks_lem symbols (available left) (available right) tokens h =
      rw (merge_available-eq left right) (any-merged symbols left right tokens h)
  merge_changed_hunks_lem symbols (available left) (unavailable reason) tokens h = refl
  merge_changed_hunks_lem symbols (unavailable reason) (available right) tokens h = refl
  merge_changed_hunks_lem symbols (unavailable left) (unavailable right) tokens h = refl
