-- ===== src/Contracts/Match/Hunks.antt =====
-- src/contracts.rs: the merge of the hunks of one file, and matching without hunks.
use mathlib.Core.List.{Sublistᴰ}
use mathlib.Core.List.Sublistᴰ.{slnil, cons, cons-cons}
use previously_on.Prelude.{
  ℕ, String, List, Bool-cases, inl, inr, [], ◌∷◌, map, Bool, true, ◌≡◌, refl, filter, any, arith,
  concat, text_is_empty, if◌then◌else◌,
}
use previously_on.Domain.{FileChangeV1}
use previously_on.Contracts.{
  RegressionContractV1, ImpactSelectorGroupV1, ContractChangedFileV1, ChangedHunkV1, available,
  unavailable,
}
use previously_on.Contracts.Match.{
  is_active, match_contracts_for_changes, match_contracts_for_file_changes,
}
use previously_on.Contracts.Match.Relevant.{touches, is_relevant, match_contracts_lem}

unfoldable pub merge_available : String → String → ChangedHunkV1
merge_available left right = available (
    if text_is_empty left
    then right
    else if text_is_empty right
    then left
    else concat (left ∷ "\n" ∷ right ∷ []))

unfoldable pub merge_changed_hunks : ChangedHunkV1 → ChangedHunkV1 → ChangedHunkV1
merge_changed_hunks (available left) (available right) = merge_available left right
merge_changed_hunks (unavailable left) (unavailable right) =
    unavailable (concat (left ∷ "; " ∷ right ∷ []))
merge_changed_hunks (unavailable reason) (available right) = unavailable reason
merge_changed_hunks (available left) (unavailable reason) = unavailable reason

Sublist-filter {ℓ} :
    {A : Type ℓ} (p q : A → Bool)
    → ((x : A) → p x ≡ true → q x ≡ true)
    → (xs : List A) → Sublistᴰ (filter p xs) (filter q xs)
Sublist-filter p q h [] = slnil
Sublist-filter p q h (x ∷ xs) = elim (Bool-cases (p x)) [
  | inl hit ↦ rw (hit, h x hit) (cons-cons refl (Sublist-filter p q h xs))
  | inr miss ↦ elim (Bool-cases (q x)) [
    | inl more ↦ rw (miss, more) (cons (Sublist-filter p q h xs))
    | inr none ↦ rw (miss, none) (Sublist-filter p q h xs)
  ]
]

any_mono {ℓ} :
    {A : Type ℓ} (p q : A → Bool)
    → ((x : A) → p x ≡ true → q x ≡ true)
    → (xs : List A) → any p xs ≡ true
    → any q xs ≡ true
any_mono p q h [] e = e
any_mono p q h (x ∷ xs) e = ground (arith, h x, any_mono p q h xs)

-- A changed file with the hunk that was read for it.
abbrev pub with_hunk : (FileChangeV1 → ChangedHunkV1) → FileChangeV1 → ContractChangedFileV1
with_hunk hunk file = record {
  path = file.path;
  previous_path = file.previous_path;
  changed_hunk = hunk file;
}

module _ (is_alphanumeric : ℕ → Bool) (hunk : FileChangeV1 → ChangedHunkV1) where
  abbrev no_hunk : FileChangeV1 → ChangedHunkV1
  no_hunk file = unavailable "changed hunk is unavailable from hook file metadata"

  any-touches :
      (group : ImpactSelectorGroupV1) (files : List FileChangeV1)
      → any (touches is_alphanumeric group) (map (with_hunk hunk) files) ≡ true
      → any (touches is_alphanumeric group) (map (with_hunk no_hunk) files) ≡ true
  any-touches group [] h = h
  any-touches group (file ∷ files) h = ground (arith, any-touches group files)

  -- Whatever the hunks of the changed files hold, a match by paths alone selects every contract
  -- that the match with these hunks selects, in the same order.
  pub match_contracts_conservative :
      (contracts : List RegressionContractV1) (files : List FileChangeV1)
      → Sublistᴰ
          (match_contracts_for_changes is_alphanumeric contracts
            (map (with_hunk hunk) files)).relevant_contracts
          (match_contracts_for_file_changes is_alphanumeric contracts files).relevant_contracts
  unfolding match_contracts_for_file_changes
  match_contracts_conservative contracts files =
      rw
        (
          (match_contracts_lem is_alphanumeric (map (with_hunk hunk) files) contracts).0,
          (match_contracts_lem is_alphanumeric (map (with_hunk no_hunk) files) contracts).0,
        )
        (Sublist-filter (is_relevant is_alphanumeric (map (with_hunk hunk) files))
          (is_relevant is_alphanumeric (map (with_hunk no_hunk) files))
          (λ contract. any_mono _ _ (λ group. any-touches group files) contract.impact_selectors)
          (filter (λ contract. is_active contract.status) contracts))
