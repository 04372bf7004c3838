-- ===== src/Contracts/Validate.antt =====
-- src/contracts.rs: the validation of contracts, one by one and as they are loaded together. The
-- parser of UUIDs is a parameter: it gives the canonical form of a text that is one.
pub mod Loaded
mod Tests
use previously_on.Prelude.{
  ℕ, zero, suc, String, Option, none, some, List, [], ◌∷◌, ◌++◌, map, flat_map, Bool, true, false,
  not, ◌&&◌, ◌||◌, nat_eq, leb, ◌==◌, string_partial_eq, nat_partial_eq, option_partial_eq,
  option_eq, list_eq, any, all, length, is_empty, contains, codes, concat, is_whitespace,
  if◌then◌else◌, PartialEq,
}
use previously_on.Redaction.{Patterns}
use previously_on.Domain.{schema_version_v1}
use previously_on.RepositoryPath.{validated_repository_relative_path}
use previously_on.Contracts.{
  RegressionContractV1, ContractStatusV1, active, superseded, ImpactSelectorGroupV1,
  ImpactPathSelectorV1, PathSelectorKindV1, exact, prefix, RequiredTestV1,
}
use previously_on.Contracts.Checked.{
  Checked, ok, err, in_turn, bail_if, validate_nonempty, validate_secret_free, unsupported_schema,
  not_a_uuid, not_canonical, no_selectors, invalid_selector, invalid_symbol, no_tests,
  duplicate_test, not_a_digest, duplicate_contract, wrong_file_name, active_superseded,
  no_replacement, own_replacement, bad_replacement,
}
use previously_on.Contracts.RequiredTest.{validate_required_test}

-- `trim_end_matches('/')`.
trim_end_slashes : List ℕ → List ℕ
trim_end_slashes [] = []
trim_end_slashes (c ∷ path) =
    let rest = trim_end_slashes path in if is_empty rest && nat_eq c b'/' then [] else c ∷ rest

of_kind : PathSelectorKindV1 → List ℕ → List ℕ
of_kind prefix value = trim_end_slashes value
of_kind exact value = value

-- What of a selector has to be a path of the repository.
unfoldable pub validation_value : ImpactPathSelectorV1 → List ℕ
unfolding of_kind trim_end_slashes
validation_value selector = of_kind selector.kind (codes selector.value)

-- The path is accepted, and in this spelling.
unfoldable pub is_repository_path : List ℕ → Bool
is_repository_path value = elim (validated_repository_relative_path value) [
  | none ↦ false
  | some valid ↦ list_eq valid value
]

is_ascii_hexdigit : ℕ → Bool
is_ascii_hexdigit c =
    (leb b'0' c && leb c b'9') || (leb b'A' c && leb c b'F') || (leb b'a' c && leb c b'f')

-- The number of bytes is that of characters if all are of ASCII, and it is wrong too if not.
unfoldable pub validate_git_sha : String → String → ℕ → Checked
unfolding is_ascii_hexdigit
validate_git_sha name value digits =
    bail_if
      (not (nat_eq (length (codes value)) digits) || not (all is_ascii_hexdigit (codes value)))
      (not_a_digest name digits)

abbrev symbol_checks : Patterns → RegressionContractV1 → String → List Checked
symbol_checks p contract symbol =
    validate_nonempty "symbol" symbol
    ∷ validate_secret_free p "impactSelectors.symbols" symbol
    ∷ bail_if (any is_whitespace (codes symbol) || any (nat_eq 0) (codes symbol))
        (invalid_symbol contract.id symbol)
    ∷ []

-- The checks of the selector groups, from an index on.
abbrev pub group_checks :
    Patterns → RegressionContractV1 → ℕ → List ImpactSelectorGroupV1 → List Checked
group_checks p contract group_index [] = []
group_checks p contract group_index (group ∷ groups) =
    validate_secret_free p "impactSelectors.path.value" group.path.value
    ∷ bail_if
        (is_empty (validation_value group.path)
          || not (is_repository_path (validation_value group.path)))
        (invalid_selector contract.id group_index group.path.value)
    ∷ (flat_map (symbol_checks p contract) group.symbols
        ++ group_checks p contract (suc group_index) groups)

-- The checks of the required tests; `seen` holds the ids of those before.
abbrev pub required_test_checks :
    Patterns → RegressionContractV1 → List String → List RequiredTestV1 → List Checked
required_test_checks p contract seen [] = []
required_test_checks p contract seen (test ∷ tests) =
    validate_required_test p test
    ∷ bail_if (contains seen test.id) (duplicate_test contract.id test.id)
    ∷ required_test_checks p contract (test.id ∷ seen) tests

module _ (p : Patterns) (parse_uuid : String → Option String) where
  -- The id is a UUID, and in canonical form.
  abbrev pub id_checks : String → Option String → List Checked
  id_checks id none = err (not_a_uuid id) ∷ []
  id_checks id (some canonical) = bail_if (not (canonical == id)) (not_canonical id) ∷ []

  abbrev pub contract_checks : RegressionContractV1 → List Checked
  contract_checks contract =
      bail_if (not (contract.schema_version == schema_version_v1))
        (unsupported_schema contract.id contract.schema_version)
      ∷ in_turn (id_checks contract.id (parse_uuid contract.id))
      ∷ validate_nonempty "title" contract.title
      ∷ validate_nonempty "invariant" contract.invariant
      ∷ validate_secret_free p "title" contract.title
      ∷ validate_secret_free p "invariant" contract.invariant
      ∷ bail_if (is_empty contract.impact_selectors) (no_selectors contract.id)
      ∷ in_turn (group_checks p contract 0 contract.impact_selectors)
      ∷ bail_if (is_empty contract.required_tests) (no_tests contract.id)
      ∷ in_turn (required_test_checks p contract [] contract.required_tests)
      ∷ validate_git_sha "fixedAtCommit" contract.origin.fixed_at_commit 40
      ∷ validate_git_sha "evidenceSha256" contract.origin.evidence_sha256 64
      ∷ []

  unfoldable pub validate_contract : RegressionContractV1 → Checked
  validate_contract contract = in_turn (contract_checks contract)

-- A contract and the name of the file that it was read from.
pub record LoadedContract : Type 0 where
  pub file_name : String
  pub contract : RegressionContractV1

module _ (p : Patterns) (parse_uuid : String → Option String) where
  -- The first loop: each contract on its own, and no id twice.
  abbrev pub unique_checks : List String → List LoadedContract → List Checked
  unique_checks seen [] = []
  unique_checks seen (item ∷ items) =
      validate_contract p parse_uuid item.contract
      ∷ bail_if (contains seen item.contract.id) (duplicate_contract item.contract.id)
      ∷ unique_checks (item.contract.id ∷ seen) items

  abbrev pub file_check : LoadedContract → Checked
  file_check item =
      bail_if (not (item.file_name == concat (item.contract.id ∷ ".json" ∷ [])))
        (wrong_file_name item.file_name item.contract.id)

  abbrev uuid_check : String → Option String → Checked
  uuid_check id none = err (bad_replacement id)
  uuid_check id (some canonical) = ok

  -- The last loop, by the status and the replacement.
  abbrev pub replacement_check : String → ContractStatusV1 → Option String → Checked
  replacement_check id active none = ok
  replacement_check id active (some replacement) = err (active_superseded id)
  replacement_check id superseded none = err (no_replacement id)
  replacement_check id superseded (some replacement) = in_turn (
      bail_if (replacement == id) (own_replacement id)
      ∷ uuid_check id (parse_uuid replacement)
      ∷ [])

  unfoldable pub validate_loaded_contracts : List LoadedContract → Checked
  validate_loaded_contracts loaded = in_turn (
      in_turn (unique_checks [] loaded)
      ∷ in_turn (map file_check loaded)
      ∷ in_turn (
          map
            (λ (item : LoadedContract).
              replacement_check item.contract.id item.contract.status item.contract.superseded_by)
            loaded)
      ∷ [])
