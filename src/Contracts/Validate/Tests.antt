-- ===== src/Contracts/Validate/Tests.antt =====
-- src/contracts.rs: one contract in its file.
use mathlib.Core.List.{flat_map}
use previously_on.Prelude.{
  String, Option, some, none, List, [], ◌∷◌, ◌≡◌, refl, All, concat, if◌then◌else◌, ◌==◌,
  string_partial_eq, trim, segments, is_one_of, to_ascii_lowercase, is_whitespace,
}
use previously_on.Redaction.{Patterns, redact_text}
use previously_on.RepositoryPath.{validated_repository_relative_path, is_sensitive_path, join_slash}
use previously_on.Contracts.Argv.{
  argv_contains_sensitive_data, contains_text, gives_flag, interpreter_of,
  interpreter_uses_inline_evaluation, is_inline, scan_arguments, is_option,
  is_shell_short_option_cluster, looks_like_environment_assignment,
}
use previously_on.Contracts.RequiredTest.{
  validate_required_test, leaves_repository, program_name, validate_relative_directory,
}
use previously_on.Contracts.{RegressionContractV1, active, prefix}
use previously_on.Contracts.Checked.{ok, in_turn, bail_if, validate_nonempty, validate_secret_free}
use previously_on.Contracts.Validate.{
  LoadedContract, validation_value, is_repository_path, validate_git_sha, validate_contract,
  validate_loaded_contracts,
}
use previously_on.Contracts.Validate.Loaded.{
  IsValid, Distinct, IsReplaced, validate_loaded_contracts_lem,
}

-- No text of the example holds a secret.
abbrev patterns : Patterns
patterns = record {
  private_key = λ s. s;
  authorization = λ s. s;
  assignment = λ s. s;
  cli_secret_flag = λ s. s;
  url_credentials = λ s. s;
  well_known_token = λ s. s;
  sensitive_path = λ s. s;
}

-- One UUID is known.
abbrev parse_uuid : String → Option String
parse_uuid id = if id == "67e55044-10b1-426f-9247-bb680e5fe0c8" then some id else none

abbrev contract : RegressionContractV1
contract = record {
  schema_version = 1;
  id = "67e55044-10b1-426f-9247-bb680e5fe0c8";
  title = "guard";
  invariant = "the guard stays";
  status = active;
  superseded_by = none;
  impact_selectors =
      record { path = record { kind = prefix; value = "src/" }; symbols = "fit" ∷ [] } ∷ [];
  required_tests =
      record {
        id = "t";
        name = "unit";
        program = "cargo";
        args = "test" ∷ [];
        working_directory = ".";
        timeout_seconds = 60;
      }
      ∷ [];
  origin = record {
    fixed_at_commit = "0123456789abcdef0123456789abcdef01234567";
    recorded_at = 1;
    evidence_sha256 = "0123456789abcdef0123456789abcdef0123456789abcdef0123456789abcdef";
  };
}

abbrev loaded : List LoadedContract
loaded =
    record { file_name = "67e55044-10b1-426f-9247-bb680e5fe0c8.json"; contract = contract } ∷ []

contract-valid : validate_contract patterns parse_uuid contract ≡ ok
unfolding validate_contract in_turn bail_if validate_nonempty validate_secret_free redact_text trim
    validation_value is_repository_path validated_repository_relative_path is_sensitive_path
    join_slash segments is_one_of to_ascii_lowercase is_whitespace validate_required_test
    argv_contains_sensitive_data contains_text gives_flag interpreter_of
    interpreter_uses_inline_evaluation is_inline scan_arguments is_option
    is_shell_short_option_cluster leaves_repository program_name looks_like_environment_assignment
    validate_relative_directory validate_git_sha flat_map
contract-valid = refl

loaded-valid : validate_loaded_contracts patterns parse_uuid loaded ≡ ok
unfolding validate_loaded_contracts validate_contract in_turn bail_if validate_nonempty
    validate_secret_free redact_text trim validation_value is_repository_path
    validated_repository_relative_path is_sensitive_path join_slash segments is_one_of
    to_ascii_lowercase is_whitespace validate_required_test argv_contains_sensitive_data
    contains_text gives_flag interpreter_of interpreter_uses_inline_evaluation is_inline
    scan_arguments is_option is_shell_short_option_cluster leaves_repository program_name
    looks_like_environment_assignment validate_relative_directory validate_git_sha flat_map
loaded-valid = refl

validate_loaded_contracts_lem_example :
    All (λ (item : LoadedContract). IsValid patterns parse_uuid item.contract) loaded
    × Distinct (λ (item : LoadedContract). item.contract.id) loaded
    × All
        (λ (item : LoadedContract). item.file_name ≡ concat (item.contract.id ∷ ".json" ∷ []))
        loaded
    × All
        (λ (item : LoadedContract).
          IsReplaced parse_uuid item.contract.id item.contract.status item.contract.superseded_by)
        loaded
validate_loaded_contracts_lem_example =
    validate_loaded_contracts_lem patterns parse_uuid loaded loaded-valid
