-- ===== src/Contracts/Token.antt =====
-- src/contracts.rs: the search for a literal token in a hunk. Texts are lists of code points, and
-- `char::is_alphanumeric`, a table of Unicode, is a parameter.
pub mod Exact
use previously_on.Prelude.{
  begins, ℕ, zero, suc, ◌-◌, Option, none, some, List, [], ◌∷◌, ◌++◌, Bool, true, false, not, ◌&&◌,
  ◌||◌, nat_eq, length, is_empty, if◌then◌else◌,
}

-- What stands behind the first `n` code points.
abbrev pub drop : ℕ → List ℕ → List ℕ
drop zero text = text
drop (suc n) [] = []
drop (suc n) (c ∷ text) = drop n text

abbrev pub first : List ℕ → Option ℕ
first [] = none
first (c ∷ text) = some c

module _ (is_alphanumeric : ℕ → Bool) where
  unfoldable pub is_identifier_character : ℕ → Bool
  is_identifier_character character = nat_eq character b'_' || is_alphanumeric character

  -- Nothing, or no identifier character.
  abbrev pub is_boundary : Option ℕ → Bool
  is_boundary none = true
  is_boundary (some c) = not (is_identifier_character c)

  -- A match at the head of the text that has a boundary on either side.
  abbrev pub stands_at : List ℕ → Option ℕ → List ℕ → Bool
  stands_at symbol before text =
      begins symbol text && (is_boundary before && is_boundary (first (drop (length symbol) text)))

  -- How many characters behind the head start no match: the rest of a match at the head.
  abbrev pub next_skip : List ℕ → List ℕ → ℕ
  next_skip symbol text = if begins symbol text then length symbol - 1 else 0

  -- `match_indices(symbol).any(…)` from a place in the text: `before` is the character in front of
  -- it, and `skip` characters start no match.
  unfoldable pub search_token : List ℕ → ℕ → Option ℕ → List ℕ → Bool
  unfolding is_identifier_character
  search_token symbol (suc skip) before [] = false
  search_token symbol (suc skip) before (c ∷ text) = search_token symbol skip (some c) text
  search_token symbol zero before [] = is_empty symbol && is_boundary before
  search_token symbol zero before (c ∷ text) =
      stands_at symbol before (c ∷ text)
      || search_token symbol (next_skip symbol (c ∷ text)) (some c) text

  unfoldable pub contains_literal_token : List ℕ → List ℕ → Bool
  unfolding search_token
  contains_literal_token text symbol = search_token symbol 0 none text
