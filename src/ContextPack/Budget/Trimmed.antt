-- ===== src/ContextPack/Budget/Trimmed.antt =====
-- src/context_pack.rs: packs that are cut down in the order of the `pop`s of `build`.
use previously_on.Prelude.{
  sym, subst, length, All, ◌≤◌, ◌≡◌, ◌≢◌, refl, some, List, [], ◌∷◌, pop, arith,
}
use previously_on.ContextPack.{ContextPackV1}
use previously_on.ContextPack.Budget.{drop_one}

module _ {A : Type 0} where
  -- `xs` is the beginning of `ys`.
  unfoldable pub IsFront : List A → List A → Type 0
  IsFront [] ys = Unit
  IsFront (x ∷ xs) [] = ⊥
  IsFront (x ∷ xs) (y ∷ ys) = (x ≡ y) × IsFront xs ys

  pub IsFront-refl : (xs : List A) → IsFront xs xs
  unfolding IsFront
  IsFront-refl [] = tt
  IsFront-refl (x ∷ xs) = (refl, IsFront-refl xs)

  pub IsFront-pop : (xs ys : List A) → IsFront xs (pop ys) → IsFront xs ys
  unfolding IsFront
  IsFront-pop [] ys h = tt
  IsFront-pop (x ∷ xs) [] h = h
  IsFront-pop (x ∷ xs) (y ∷ []) h = absurd h
  IsFront-pop (x ∷ xs) (y ∷ z ∷ zs) h = (h.0, IsFront-pop xs (z ∷ zs) h.1)

  pub IsFront-nil : (xs ys : List A) → IsFront xs ys → ys ≡ [] → xs ≡ []
  unfolding IsFront
  IsFront-nil [] ys h e = refl
  IsFront-nil (x ∷ xs) [] h e = absurd h
  IsFront-nil (x ∷ xs) (y ∷ ys) h e = cc

  pub IsFront-length-le : (xs ys : List A) → IsFront xs ys → length xs ≤ length ys
  unfolding IsFront
  IsFront-length-le [] ys h = omega arith
  IsFront-length-le (x ∷ xs) [] h = absurd h
  IsFront-length-le (x ∷ xs) (y ∷ ys) h = omega (arith, IsFront-length-le xs ys h.1)

  pub All-IsFront : (P : A → Type 0) (xs ys : List A) → IsFront xs ys → All P ys → All P xs
  unfolding IsFront
  All-IsFront P [] ys h a = tt
  All-IsFront P (x ∷ xs) [] h a = absurd h
  All-IsFront P (x ∷ xs) (y ∷ ys) h a = (subst P (sym h.0) a.0, All-IsFront P xs ys h.1 a.1)

-- `q` is `p` with items taken off the ends of its lists, none of a list while one before it has any.
pub record IsTrimmed (p q : ContextPackV1) : Type 0 where
  pub tests_front : IsFront q.tests p.tests
  pub files_front : IsFront q.files p.files
  pub unresolved_front : IsFront q.unresolved_items p.unresolved_items
  pub facts_front : IsFront q.facts p.facts
  pub files_kept : q.tests ≢ [] → q.files ≡ p.files
  pub unresolved_kept : (q.tests ≢ []) → q.unresolved_items ≡ p.unresolved_items
  pub facts_kept : (q.tests ≢ []) → q.facts ≡ p.facts
  pub unresolved_kept_by_files : q.files ≢ [] → q.unresolved_items ≡ p.unresolved_items
  pub facts_kept_by_files : q.files ≢ [] → q.facts ≡ p.facts
  pub facts_kept_by_unresolved : q.unresolved_items ≢ [] → q.facts ≡ p.facts
  pub others : q ≡ record p {
    tests = q.tests;
    files = q.files;
    unresolved_items = q.unresolved_items;
    facts = q.facts;
    token_count = q.token_count;
  }

module _ (p q : ContextPackV1) where
  pub IsTrimmed-recount : q ≡ record p { token_count = q.token_count } → IsTrimmed p q
  IsTrimmed-recount e = ground (
    arith,
    IsFront-refl p.tests,
    IsFront-refl p.files,
    IsFront-refl p.unresolved_items,
    IsFront-refl p.facts,
  )

  pub IsTrimmed-drop_one : (r : ContextPackV1) → drop_one p ≡ some r → IsTrimmed r q → IsTrimmed p q
  unfolding drop_one
  IsTrimmed-drop_one r e h = ground (
    arith,
    IsFront-pop q.tests p.tests,
    IsFront-pop q.files p.files,
    IsFront-pop q.unresolved_items p.unresolved_items,
    IsFront-pop q.facts p.facts,
    IsFront-nil q.tests r.tests,
    IsFront-nil q.files r.files,
    IsFront-nil q.unresolved_items r.unresolved_items,
  )

  pub IsTrimmed-of_recount :
      (r : ContextPackV1)
      → r ≡ record p { token_count = r.token_count }
      → IsTrimmed r q
      → IsTrimmed p q
  IsTrimmed-of_recount r e h = ground arith
