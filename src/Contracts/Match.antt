-- ===== src/Contracts/Match.antt =====
-- src/contracts.rs: which contracts a set of changed files touches, and why. A set of the code is
-- gathered as a list and put in order where the code turns it into a `Vec`.
pub mod Relevant
pub mod Hunks
pub mod Merged
use previously_on.Prelude.{
  ℕ, suc, ◌+◌, String, Option, none, some, List, [], ◌∷◌, ◌++◌, map, Bool, true, false, ◌&&◌, ◌==◌,
  string_partial_eq, is_empty, find, filter, codes, concat, decimal, sort_dedup, text_starts_with,
  if◌then◌else◌,
}
use previously_on.Domain.{FileChangeV1}
use previously_on.Contracts.{
  RegressionContractV1, ContractStatusV1, active, superseded, PathSelectorKindV1, exact, prefix,
  ImpactPathSelectorV1, ImpactSelectorGroupV1, ContractChangedFileV1, ChangedHunkV1, available,
  unavailable, RelevantContractV1, ContractMatchV1,
}
use previously_on.Contracts.Token.{contains_literal_token}

kind_matches : PathSelectorKindV1 → String → String → Bool
kind_matches exact value candidate = candidate == value
kind_matches prefix value candidate = text_starts_with candidate value

unfoldable pub path_matches : ImpactPathSelectorV1 → String → Bool
unfolding kind_matches
path_matches selector candidate = kind_matches selector.kind selector.value candidate

abbrev pub is_active : ContractStatusV1 → Bool
is_active active = true
is_active superseded = false

-- The path and the previous path, if there is one.
abbrev pub paths_of : ContractChangedFileV1 → List String
paths_of change = change.path ∷ (elim change.previous_path [ none ↦ [] | some path ↦ path ∷ [] ])

-- What the loops over groups and changes have found for one contract.
pub record Found : Type 0 where
  pub matched : Bool
  pub paths : List String
  pub reasons : List String
  pub warnings : List String

group_label : ℕ → String
group_label group_index = concat ("impactSelectors[" ∷ decimal group_index ∷ "] path " ∷ [])

module _ (is_alphanumeric : ℕ → Bool) where
  -- The rest of a round, once a path has matched.
  inspect_hunk : String → ℕ → List String → String → ChangedHunkV1 → Found → Found
  unfolding group_label
  inspect_hunk contract_id group_index symbols path (available hunk) found =
      elim (find (λ symbol. contains_literal_token is_alphanumeric (codes hunk) (codes symbol))
        symbols) [
          | none ↦ found
          | some symbol ↦ record {
            matched = true;
            paths = path ∷ found.paths;
            reasons =
                concat (
                  group_label group_index
                  ∷ "`"
                  ∷ path
                  ∷ "` and literal symbol `"
                  ∷ symbol
                  ∷ "` matched"
                  ∷ [])
                ∷ found.reasons;
            warnings = found.warnings;
          }
        ]
  inspect_hunk contract_id group_index symbols path (unavailable reason) found = record {
    matched = true;
    paths = path ∷ found.paths;
    reasons =
        concat
          (group_label group_index ∷ "matched `" ∷ path ∷ "`; symbol inspection unavailable" ∷ [])
        ∷ found.reasons;
    warnings =
        concat (
          "Contract `" ∷ contract_id ∷ "` treated `" ∷ path ∷ "` as relevant conservatively: "
          ∷ reason ∷ [])
        ∷ found.warnings;
  }

  -- One round of the loop over changes.
  inspect_change : String → ℕ → ImpactSelectorGroupV1 → ContractChangedFileV1 → Found → Found
  unfolding inspect_hunk group_label
  inspect_change contract_id group_index group change found =
      elim (find (path_matches group.path) (paths_of change)) [
        | none ↦ found
        | some path ↦
            if is_empty group.symbols
            then record {
              matched = true;
              paths = path ∷ found.paths;
              reasons =
                  concat (group_label group_index ∷ "matched `" ∷ path ∷ "`" ∷ []) ∷ found.reasons;
              warnings = found.warnings;
            }
            else inspect_hunk contract_id group_index group.symbols path change.changed_hunk found
      ]

  inspect_changes : String → ℕ → ImpactSelectorGroupV1 → List ContractChangedFileV1 → Found → Found
  unfolding inspect_change
  inspect_changes contract_id group_index group [] found = found
  inspect_changes contract_id group_index group (change ∷ changes) found =
      inspect_changes contract_id group_index group changes
        (inspect_change contract_id group_index group change found)

  inspect_groups :
      String → ℕ → List ImpactSelectorGroupV1 → List ContractChangedFileV1 → Found → Found
  unfolding inspect_changes
  inspect_groups contract_id group_index [] changes found = found
  inspect_groups contract_id group_index (group ∷ groups) changes found =
      inspect_groups contract_id (suc group_index) groups changes
        (inspect_changes contract_id group_index group changes found)

  -- The warnings are gathered over all contracts, and the rest anew for each.
  inspect_contract : List ContractChangedFileV1 → RegressionContractV1 → List String → Found
  unfolding inspect_groups
  inspect_contract changes contract warnings =
      inspect_groups contract.id 0 contract.impact_selectors changes
        (record { matched = false; paths = []; reasons = []; warnings = warnings })

  -- One round of the loop over contracts.
  match_contract :
      List ContractChangedFileV1 → RegressionContractV1 → ContractMatchV1 → ContractMatchV1
  unfolding inspect_contract
  match_contract changes contract acc =
      let found = inspect_contract changes contract acc.warnings in
      if found.matched
      then record {
        relevant_contracts = acc.relevant_contracts ++ contract ∷ [];
        summaries =
            acc.summaries
            ++ record {
              id = contract.id;
              title = contract.title;
              invariant = contract.invariant;
              match_reasons = sort_dedup found.reasons;
            }
              ∷ [];
        matched_paths = acc.matched_paths ++ found.paths;
        warnings = found.warnings;
      }
      else record acc { warnings = found.warnings }

  match_loop :
      List ContractChangedFileV1 → List RegressionContractV1 → ContractMatchV1 → ContractMatchV1
  unfolding match_contract
  match_loop changes [] acc = acc
  match_loop changes (contract ∷ contracts) acc =
      match_loop changes contracts (match_contract changes contract acc)

  unfoldable pub match_contracts_for_changes :
      List RegressionContractV1 → List ContractChangedFileV1 → ContractMatchV1
  unfolding match_loop
  match_contracts_for_changes contracts changes =
      let acc =
        match_loop changes (filter (λ contract. is_active contract.status) contracts)
          (record { relevant_contracts = []; summaries = []; matched_paths = []; warnings = [] }) in
      record acc {
        matched_paths = sort_dedup acc.matched_paths;
        warnings = sort_dedup acc.warnings;
      }

  unfoldable pub match_contracts_for_file_changes :
      List RegressionContractV1 → List FileChangeV1 → ContractMatchV1
  unfolding match_contracts_for_changes
  match_contracts_for_file_changes contracts changes = match_contracts_for_changes contracts (
      map
        (λ (change : FileChangeV1). record {
          path = change.path;
          previous_path = change.previous_path;
          changed_hunk = unavailable "changed hunk is unavailable from hook file metadata";
        })
        changes)
