-- ===== src/Contracts/Match/Relevant.antt =====
-- src/contracts.rs: the contracts that a change touches, against the loops of the matcher.
use mathlib.Core.List.{append_assoc, append-nil}
use previously_on.Prelude.{
  ℕ, suc, String, Option, none, some, List, [], ◌∷◌, ◌++◌, Bool, true, false, ◌&&◌, ◌||◌, ◌≡◌, refl,
  sym, ap, ◌∙◌, is_empty, find, filter, any, codes, sort_dedup, arith, Bool-cases, Option-cases,
  inl, inr, if◌then◌else◌,
}
use previously_on.Contracts.{
  RegressionContractV1, ImpactSelectorGroupV1, ContractChangedFileV1, ChangedHunkV1, available,
  unavailable, RelevantContractV1, ContractMatchV1,
}
use previously_on.Contracts.Token.{contains_literal_token}
use previously_on.Contracts.Match.{
  path_matches, is_active, paths_of, Found, inspect_hunk, inspect_change, inspect_changes,
  inspect_groups, inspect_contract, match_contract, match_loop, match_contracts_for_changes,
}

abbrev is_found {ℓ} : {A : Type ℓ} → Option A → Bool
is_found none = false
is_found (some a) = true

is_found-find {ℓ} : {A : Type ℓ} (p : A → Bool) (xs : List A) → is_found (find p xs) ≡ any p xs
is_found-find p [] = refl
is_found-find p (x ∷ xs) = ground (arith, is_found-find p xs)

or_assoc : (a b c : Bool) → ((a || b) || c) ≡ (a || (b || c))
or_assoc a b c = ground arith

or_false : (a : Bool) → (a || false) ≡ a
or_false a = ground arith

push {ℓ} :
    {A : Type ℓ} (b : Bool) (x : A) (xs ys : List A)
    → (if b then xs ++ x ∷ [] else xs) ++ ys ≡ xs ++ (if b then x ∷ ys else ys)
push true x xs ys = append_assoc xs (x ∷ []) ys
push false x xs ys = refl

module _ (is_alphanumeric : ℕ → Bool) where
  -- A hunk that is there holds one of the symbols, or it is not there.
  abbrev pub may_hold : List String → ChangedHunkV1 → Bool
  may_hold symbols (available hunk) =
      any (λ symbol. contains_literal_token is_alphanumeric (codes hunk) (codes symbol)) symbols
  may_hold symbols (unavailable reason) = true

  -- The change has a path that the selector matches, and may hold a symbol if there are any.
  abbrev pub touches : ImpactSelectorGroupV1 → ContractChangedFileV1 → Bool
  touches group change =
      any (path_matches group.path) (paths_of change)
      && (is_empty group.symbols || may_hold group.symbols change.changed_hunk)

  abbrev pub is_relevant : List ContractChangedFileV1 → RegressionContractV1 → Bool
  is_relevant changes contract =
      any (λ group. any (touches group) changes) contract.impact_selectors

  matched-inspect_hunk :
      (id : String) (i : ℕ) (symbols : List String) (path : String) (hunk : ChangedHunkV1)
      (found : Found)
      → (inspect_hunk is_alphanumeric id i symbols path hunk found).matched
        ≡ (found.matched || may_hold symbols hunk)
  unfolding inspect_hunk
  matched-inspect_hunk id i symbols path (available hunk) found = ground (
    arith,
    is_found-find (λ symbol. contains_literal_token is_alphanumeric (codes hunk) (codes symbol))
        symbols,
  )
  matched-inspect_hunk id i symbols path (unavailable reason) found = ground arith

  matched-inspect_change :
      (id : String) (i : ℕ) (group : ImpactSelectorGroupV1) (change : ContractChangedFileV1)
      (found : Found)
      → (inspect_change is_alphanumeric id i group change found).matched
        ≡ (found.matched || touches group change)
  unfolding inspect_change
  matched-inspect_change id i group change found =
      elim (Option-cases (find (path_matches group.path) (paths_of change))) [
        | inl e ↦ ground (arith, is_found-find (path_matches group.path) (paths_of change))
        | inr (path, e) ↦ ground (
          arith,
          is_found-find (path_matches group.path) (paths_of change),
          matched-inspect_hunk id i group.symbols path change.changed_hunk found,
        )
      ]

  matched-inspect_changes :
      (id : String) (i : ℕ) (group : ImpactSelectorGroupV1) (changes : List ContractChangedFileV1)
      (found : Found)
      → (inspect_changes is_alphanumeric id i group changes found).matched
        ≡ (found.matched || any (touches group) changes)
  unfolding inspect_changes
  matched-inspect_changes id i group [] found = sym (or_false found.matched)
  matched-inspect_changes id i group (change ∷ changes) found =
      matched-inspect_changes id i group changes
        (inspect_change is_alphanumeric id i group change found)
      ∙ (ap (λ b. b || any (touches group) changes) (matched-inspect_change id i group change found)
          ∙ or_assoc found.matched (touches group change) (any (touches group) changes))

  matched-inspect_groups :
      (id : String) (i : ℕ) (groups : List ImpactSelectorGroupV1)
      (changes : List ContractChangedFileV1) (found : Found)
      → (inspect_groups is_alphanumeric id i groups changes found).matched
        ≡ (found.matched || any (λ group. any (touches group) changes) groups)
  unfolding inspect_groups
  matched-inspect_groups id i [] changes found = sym (or_false found.matched)
  matched-inspect_groups id i (group ∷ groups) changes found =
      matched-inspect_groups id (suc i) groups changes
        (inspect_changes is_alphanumeric id i group changes found)
      ∙ (ap (λ b. b || any (λ g. any (touches g) changes) groups)
            (matched-inspect_changes id i group changes found)
          ∙ or_assoc found.matched (any (touches group) changes)
              (any (λ g. any (touches g) changes) groups))

  matched-inspect_contract :
      (changes : List ContractChangedFileV1) (contract : RegressionContractV1)
      (warnings : List String)
      → (inspect_contract is_alphanumeric changes contract warnings).matched
        ≡ is_relevant changes contract
  unfolding inspect_contract
  matched-inspect_contract changes contract warnings =
      matched-inspect_groups contract.id 0 contract.impact_selectors changes
        (record { matched = false; paths = []; reasons = []; warnings = warnings })

  module _ (changes : List ContractChangedFileV1) where
    -- The summary stands beside its contract.
    abbrev pub Summarises : RelevantContractV1 → RegressionContractV1 → Type 0
    Summarises summary contract =
        (summary.id ≡ contract.id)
        × (summary.title ≡ contract.title)
        × (summary.invariant ≡ contract.invariant)

    abbrev pub AllSummarise : List RelevantContractV1 → List RegressionContractV1 → Type 0
    AllSummarise [] [] = Unit
    AllSummarise [] (contract ∷ contracts) = ⊥
    AllSummarise (summary ∷ summaries) [] = ⊥
    AllSummarise (summary ∷ summaries) (contract ∷ contracts) =
        Summarises summary contract × AllSummarise summaries contracts

    AllSummarise-append :
        (summaries : List RelevantContractV1) (contracts : List RegressionContractV1)
        (summary : RelevantContractV1) (contract : RegressionContractV1)
        → AllSummarise summaries contracts
        → Summarises summary contract
        → AllSummarise (summaries ++ summary ∷ []) (contracts ++ contract ∷ [])
    AllSummarise-append [] [] summary contract h k = (k, tt)
    AllSummarise-append [] (c ∷ cs) summary contract h k = absurd h
    AllSummarise-append (s ∷ ss) [] summary contract h k = absurd h
    AllSummarise-append (s ∷ ss) (c ∷ cs) summary contract h k =
        (h.0, AllSummarise-append ss cs summary contract h.1 k)

    relevant-match_contract :
        (contract : RegressionContractV1) (acc : ContractMatchV1)
        → (match_contract is_alphanumeric changes contract acc).relevant_contracts ≡ (
            if is_relevant changes contract
            then acc.relevant_contracts ++ contract ∷ []
            else acc.relevant_contracts)
    unfolding match_contract
    relevant-match_contract contract acc =
        ground (arith, matched-inspect_contract changes contract acc.warnings)

    relevant-match_loop :
        (contracts : List RegressionContractV1) (acc : ContractMatchV1)
        → (match_loop is_alphanumeric changes contracts acc).relevant_contracts
          ≡ acc.relevant_contracts ++ filter (is_relevant changes) contracts
    unfolding match_loop
    relevant-match_loop [] acc = sym (append-nil acc.relevant_contracts)
    relevant-match_loop (contract ∷ contracts) acc =
        relevant-match_loop contracts (match_contract is_alphanumeric changes contract acc)
        ∙ (ap (λ r. r ++ filter (is_relevant changes) contracts)
              (relevant-match_contract contract acc)
            ∙ push (is_relevant changes contract) contract acc.relevant_contracts
                (filter (is_relevant changes) contracts))

    AllSummarise-match_contract :
        (contract : RegressionContractV1) (acc : ContractMatchV1)
        → AllSummarise acc.summaries acc.relevant_contracts
        → AllSummarise
            (match_contract is_alphanumeric changes contract acc).summaries
            (match_contract is_alphanumeric changes contract acc).relevant_contracts
    unfolding match_contract
    AllSummarise-match_contract contract acc h =
        elim (Bool-cases (inspect_contract is_alphanumeric changes contract acc.warnings).matched) [
          | inl hit ↦ rw hit (
              AllSummarise-append acc.summaries acc.relevant_contracts
                (record {
                  id = contract.id;
                  title = contract.title;
                  invariant = contract.invariant;
                  match_reasons =
                      sort_dedup
                        (inspect_contract is_alphanumeric changes contract acc.warnings).reasons;
                })
                contract h (refl, refl, refl))
          | inr miss ↦ rw miss h
        ]

    AllSummarise-match_loop :
        (contracts : List RegressionContractV1) (acc : ContractMatchV1)
        → AllSummarise acc.summaries acc.relevant_contracts
        → AllSummarise
            (match_loop is_alphanumeric changes contracts acc).summaries
            (match_loop is_alphanumeric changes contracts acc).relevant_contracts
    unfolding match_loop
    AllSummarise-match_loop [] acc h = h
    AllSummarise-match_loop (contract ∷ contracts) acc h =
        AllSummarise-match_loop contracts (match_contract is_alphanumeric changes contract acc)
          (AllSummarise-match_contract contract acc h)

    -- The matcher selects the active contracts that have a selector group that some change touches,
    -- in the order given, and its summaries are of these contracts, in the same order. A change
    -- touches a group if the selector matches its path or previous path, and the group has no
    -- symbols, or the hunk holds one of them as a literal token, or the hunk is not available.
    pub match_contracts_lem :
        (contracts : List RegressionContractV1)
        → let result = match_contracts_for_changes is_alphanumeric contracts changes in
          (result.relevant_contracts
            ≡ filter
                (is_relevant changes)
                (filter (λ contract. is_active contract.status) contracts))
          × AllSummarise result.summaries result.relevant_contracts
    unfolding match_contracts_for_changes
    match_contracts_lem contracts =
        let actives = filter (λ contract. is_active contract.status) contracts in
        let none_yet : ContractMatchV1 = record {
          relevant_contracts = [];
          summaries = [];
          matched_paths = [];
          warnings = [];
        } in
        (relevant-match_loop actives none_yet, AllSummarise-match_loop actives none_yet tt)
