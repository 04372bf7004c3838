-- ===== src/Contracts/Token/Exact.antt =====
-- src/contracts.rs: places in a text where a token stands on its own, and the token search.
use previously_on.Prelude.{
  begins, ℕ, zero, suc, ◌-◌, Option, none, some, List, [], ◌∷◌, ◌++◌, Bool, true, ◌≡◌, ◌≢◌, ◌↔◌,
  refl, ◌⊎◌, inl, inr, ◌||◌, length, All, arith, Bool-cases, ap, sym, subst,
}
use previously_on.Contracts.Token.{
  drop, first, is_identifier_character, is_boundary, stands_at, next_skip, search_token,
  contains_literal_token,
}

begins-split :
    (symbol text : List ℕ) → begins symbol text ≡ true → text ≡ symbol ++ drop (length symbol) text
begins-split [] text h = refl
begins-split (s ∷ symbol) [] h = ground arith
begins-split (s ∷ symbol) (c ∷ text) h = ground (arith, begins-split symbol text)

begins-append : (symbol rest : List ℕ) → begins symbol (symbol ++ rest) ≡ true
begins-append [] rest = refl
begins-append (s ∷ symbol) rest = ground (arith, begins-append symbol rest)

drop-append : (symbol rest : List ℕ) → drop (length symbol) (symbol ++ rest) ≡ rest
drop-append [] rest = refl
drop-append (s ∷ symbol) rest = drop-append symbol rest

or-cases : (a b : Bool) → (a || b) ≡ true → (a ≡ true) ⊎ (b ≡ true)
or-cases a b h = ground arith

or-true : (a b : Bool) → b ≡ true → (a || b) ≡ true
or-true a b h = ground arith

-- The last code point before a place: that of `pre`, or what stood before it.
abbrev pub last_of : Option ℕ → List ℕ → Option ℕ
last_of before [] = before
last_of before (c ∷ pre) = last_of (some c) pre

module _ (is_alphanumeric : ℕ → Bool) where
  -- All characters are identifier characters.
  abbrev pub IsIdentifier : List ℕ → Type 0
  IsIdentifier = All (λ c. is_identifier_character is_alphanumeric c ≡ true)

  -- The symbol stands in the text, with no identifier character on either side.
  abbrev pub StandsAlone : Option ℕ → List ℕ → List ℕ → Type 0
  StandsAlone before text symbol =
      (pre : List ℕ) × (post : List ℕ) × (text ≡ pre ++ (symbol ++ post))
      × (is_boundary is_alphanumeric (last_of before pre) ≡ true)
      × (is_boundary is_alphanumeric (first post) ≡ true)

  search_token_sound :
      (symbol : List ℕ) (skip : ℕ) (before : Option ℕ) (text : List ℕ)
      → search_token is_alphanumeric symbol skip before text ≡ true
      → StandsAlone before text symbol
  unfolding search_token
  search_token_sound symbol (suc skip) before [] h = absurd (ground arith)
  search_token_sound symbol (suc skip) before (c ∷ text) h =
      let (pre, post, split, left, right) = search_token_sound symbol skip (some c) text h in
      (c ∷ pre, post, ap (λ r. c ∷ r) split, left, right)
  search_token_sound [] zero before [] h = ([], [], refl, h, refl)
  search_token_sound (s ∷ symbol) zero before [] h = absurd (ground arith)
  search_token_sound symbol zero before (c ∷ text) h =
      elim (or-cases (stands_at is_alphanumeric symbol before (c ∷ text))
        (search_token is_alphanumeric symbol (next_skip is_alphanumeric symbol (c ∷ text)) (some c)
          text)
        h) [
          | inl hit ↦ (
            [],
            drop (length symbol) (c ∷ text),
            begins-split symbol (c ∷ text) (ground arith),
            ground arith,
            ground arith,
          )
          | inr later ↦
              let (pre, post, split, left, right) =
                search_token_sound symbol (next_skip is_alphanumeric symbol (c ∷ text)) (some c)
                  text later in
              (c ∷ pre, post, ap (λ r. c ∷ r) split, left, right)
        ]

  -- The `skip` characters ahead, and the one before them, are identifier characters.
  abbrev Inside : ℕ → Option ℕ → List ℕ → Type 0
  Inside zero before text = Unit
  Inside (suc skip) none text = ⊥
  Inside (suc skip) (some b) [] = is_identifier_character is_alphanumeric b ≡ true
  Inside (suc skip) (some b) (c ∷ text) =
      (is_identifier_character is_alphanumeric b ≡ true) × Inside skip (some c) text

  Inside-begins :
      (b : ℕ) (symbol text : List ℕ)
      → is_identifier_character is_alphanumeric b ≡ true
      → IsIdentifier symbol
      → begins symbol text ≡ true
      → Inside (length symbol) (some b) text
  Inside-begins b [] text hb h e = tt
  Inside-begins b (s ∷ symbol) [] hb h e = hb
  Inside-begins b (s ∷ symbol) (c ∷ text) hb h e =
      let same : s ≡ c = ground arith in
      (
        hb,
        Inside-begins c symbol text
            (subst (λ n. is_identifier_character is_alphanumeric n ≡ true) same h.0) h.1
            (ground arith),
      )

  Inside-next_skip :
      (s : ℕ) (symbol : List ℕ) (x : ℕ) (text : List ℕ)
      → IsIdentifier (s ∷ symbol)
      → Inside (next_skip is_alphanumeric (s ∷ symbol) (x ∷ text)) (some x) text
  Inside-next_skip s symbol x text ident = elim (Bool-cases (begins (s ∷ symbol) (x ∷ text))) [
    | inl hit ↦
        let same : s ≡ x = ground arith in
        let less : suc (length symbol) - 1 ≡ length symbol = omega arith in
        rw (hit, next_skip)
          (subst (λ n. Inside n (some x) text) (sym less)
            (Inside-begins x symbol text
              (subst (λ n. is_identifier_character is_alphanumeric n ≡ true) same ident.0) ident.1
              (ground arith)))
    | inr miss ↦ rw (miss, next_skip) tt
  ]

  search_token_complete :
      (s : ℕ) (symbol post : List ℕ)
      → IsIdentifier (s ∷ symbol)
      → is_boundary is_alphanumeric (first post) ≡ true
      → (pre : List ℕ) (skip : ℕ) (before : Option ℕ)
      → Inside skip before (pre ++ ((s ∷ symbol) ++ post))
      → is_boundary is_alphanumeric (last_of before pre) ≡ true
      → search_token is_alphanumeric (s ∷ symbol) skip before (pre ++ ((s ∷ symbol) ++ post)) ≡ true
  unfolding search_token
  search_token_complete s symbol post ident right [] zero before inside left =
      ground (arith, begins-append symbol post, drop-append symbol post)
  search_token_complete s symbol post ident right [] (suc skip) none inside left = absurd inside
  search_token_complete s symbol post ident right [] (suc skip) (some b) inside left = ground arith
  search_token_complete s symbol post ident right (x ∷ pre) (suc skip) none inside left =
      absurd inside
  search_token_complete s symbol post ident right (x ∷ pre) (suc skip) (some b) inside left =
      search_token_complete s symbol post ident right pre skip (some x) inside.1 left
  search_token_complete s symbol post ident right (x ∷ pre) zero before inside left =
      let text = pre ++ ((s ∷ symbol) ++ post) in
      or-true (stands_at is_alphanumeric (s ∷ symbol) before (x ∷ text))
        (search_token is_alphanumeric (s ∷ symbol)
          (next_skip is_alphanumeric (s ∷ symbol) (x ∷ text)) (some x) text)
        (search_token_complete s symbol post ident right pre
          (next_skip is_alphanumeric (s ∷ symbol) (x ∷ text)) (some x)
          (Inside-next_skip s symbol x text ident) left)

  -- For a symbol that is not empty and has identifier characters alone, the search succeeds exactly
  -- if the symbol stands somewhere in the text with no identifier character on either side.
  pub contains_literal_token_lem :
      (text symbol : List ℕ)
      → symbol ≢ []
      → IsIdentifier symbol
      → (contains_literal_token is_alphanumeric text symbol ≡ true) ↔ StandsAlone none text symbol
  unfolding contains_literal_token
  contains_literal_token_lem text [] some_symbol ident = absurd (some_symbol refl)
  contains_literal_token_lem text (s ∷ symbol) some_symbol ident = (
    search_token_sound (s ∷ symbol) 0 none text,
    λ h.
        subst (λ t. search_token is_alphanumeric (s ∷ symbol) 0 none t ≡ true) (sym h.2)
          (search_token_complete s symbol h.1 ident h.4 h.0 0 none tt h.3),
  )
