-- ===== src/Contracts/Tests.antt =====
-- src/contracts.rs: one contract on `src/` with a symbol, one superseded contract, and a change.
use mathlib.Core.List.{Sublistᴰ}
use previously_on.Prelude.{
  ℕ, none, some, List, [], ◌∷◌, map, Bool, true, false, ◌≡◌, ◌≢◌, ◌↔◌, refl, filter, leb, ◌&&◌,
  codes, String, trim, segments, to_ascii_lowercase, inl, All,
}
use previously_on.Domain.{FileChangeV1, modified, modified_by}
use previously_on.Contracts.{
  RegressionContractV1, active, superseded, prefix, RequiredTestV1, ContractChangedFileV1,
  ChangedHunkV1, available,
}
use previously_on.Contracts.Token.{contains_literal_token, is_identifier_character}
use previously_on.Contracts.Token.Exact.{IsIdentifier, StandsAlone, contains_literal_token_lem}
use previously_on.Contracts.Checked.{
  ok, err, directory_outside, in_turn, bail_if, validate_nonempty, validate_secret_free,
}
use previously_on.Redaction.{Patterns, redact_text}
use previously_on.Contracts.Argv.{
  Interpreter, interpreter_of, interpreter_uses_inline_evaluation, argv_contains_sensitive_data,
  looks_like_environment_assignment, scan_arguments, is_inline, gives_flag,
  is_shell_short_option_cluster, is_option,
}
use previously_on.Contracts.Argv.Inline.{GivesCode, interpreter_uses_inline_evaluation_lem}
use previously_on.Contracts.RequiredTest.{
  validate_required_test, leaves_repository, program_name, validate_relative_directory,
}
use previously_on.Contracts.Match.{
  is_active, path_matches, match_contracts_for_changes, match_contracts_for_file_changes,
}
use previously_on.Contracts.Match.Relevant.{
  is_relevant, AllSummarise, match_contracts_lem, may_hold,
}
use previously_on.Contracts.Match.Hunks.{
  merge_changed_hunks, with_hunk, match_contracts_conservative,
}
use previously_on.Contracts.Match.Merged.{IsToken, merge_changed_hunks_lem}

-- The small letters alone.
abbrev pub is_letter : ℕ → Bool
is_letter c = leb b'a' c && leb c b'z'

abbrev guard_test : RequiredTestV1
guard_test = record {
  id = "t";
  name = "unit";
  program = "cargo";
  args = "test" ∷ [];
  working_directory = ".";
  timeout_seconds = 60;
}

abbrev pub guard : RegressionContractV1
guard = record {
  schema_version = 1;
  id = "c1";
  title = "guard";
  invariant = "the guard stays";
  status = active;
  superseded_by = none;
  impact_selectors =
      record { path = record { kind = prefix; value = "src/" }; symbols = "fit" ∷ [] } ∷ [];
  required_tests = guard_test ∷ [];
  origin = record { fixed_at_commit = "abc"; recorded_at = 1; evidence_sha256 = "00" };
}

abbrev contracts : List RegressionContractV1
contracts = guard ∷ record guard { id = "c2"; status = superseded } ∷ []

abbrev change : ContractChangedFileV1
change = record { path = "src/a.rs"; previous_path = none; changed_hunk = available "fn fit()" }

abbrev file : FileChangeV1
file = record {
  schema_version = 1;
  repository_id = "repo";
  session_id = "session";
  task_id = some "task";
  path = "src/a.rs";
  previous_path = none;
  status = modified;
  additions = none;
  deletions = none;
  attribution = modified_by;
  before_head = none;
  after_head = none;
}

abbrev fit_symbol : List ℕ
fit_symbol = b'f' ∷ b'i' ∷ b't' ∷ []

fit-IsIdentifier : IsIdentifier is_letter fit_symbol
unfolding is_identifier_character
fit-IsIdentifier = (refl, (refl, (refl, tt)))

fit-nonempty : fit_symbol ≢ []
fit-nonempty h = cc

-- The longer word does not count.
token_test :
    contains_literal_token is_letter (codes "fits fit()") (codes "fit") ≡ true
    × contains_literal_token is_letter (codes "fits _fit") (codes "fit") ≡ false
unfolding contains_literal_token
token_test = (refl, refl)

contains_literal_token_lem_example :
    (contains_literal_token is_letter (codes "fits fit()") fit_symbol ≡ true)
    ↔ StandsAlone is_letter none (codes "fits fit()") fit_symbol
contains_literal_token_lem_example =
    contains_literal_token_lem is_letter (codes "fits fit()") fit_symbol fit-nonempty
      fit-IsIdentifier

match_contracts_test :
    (match_contracts_for_changes is_letter contracts (change ∷ [])).relevant_contracts ≡ guard ∷ []
unfolding match_contracts_for_changes contains_literal_token path_matches
match_contracts_test = refl

match_contracts_lem_example :
    let result = match_contracts_for_changes is_letter contracts (change ∷ []) in
    (result.relevant_contracts
      ≡ filter
          (is_relevant is_letter (change ∷ []))
          (filter (λ contract. is_active contract.status) contracts))
    × AllSummarise is_letter (change ∷ []) result.summaries result.relevant_contracts
match_contracts_lem_example = match_contracts_lem is_letter (change ∷ []) contracts

abbrev read_hunk : FileChangeV1 → ChangedHunkV1
read_hunk changed = available "fn other()"

match_contracts_conservative_example :
    Sublistᴰ
      (match_contracts_for_changes is_letter contracts
        (map (with_hunk read_hunk) (file ∷ []))).relevant_contracts
      (match_contracts_for_file_changes is_letter contracts (file ∷ [])).relevant_contracts
match_contracts_conservative_example =
    match_contracts_conservative is_letter read_hunk contracts (file ∷ [])

-- No text of the example holds a secret.
abbrev patterns : Patterns
patterns = record {
  private_key = λ s. s;
  authorization = λ s. s;
  assignment = λ s. s;
  cli_secret_flag = λ s. s;
  url_credentials = λ s. s;
  well_known_token = λ s. s;
  sensitive_path = λ s. s;
}

guard_test-valid : validate_required_test patterns guard_test ≡ ok
unfolding validate_required_test in_turn bail_if argv_contains_sensitive_data redact_text
    validate_nonempty trim validate_secret_free leaves_repository segments
    interpreter_uses_inline_evaluation interpreter_of to_ascii_lowercase program_name
    looks_like_environment_assignment validate_relative_directory
guard_test-valid = refl

-- The path leaves the repository.
outside_test :
    validate_required_test patterns (record guard_test { working_directory = "a/../.." })
    ≡ err directory_outside
unfolding validate_required_test in_turn bail_if argv_contains_sensitive_data redact_text
    validate_nonempty trim validate_secret_free leaves_repository segments
    interpreter_uses_inline_evaluation interpreter_of to_ascii_lowercase program_name
    looks_like_environment_assignment validate_relative_directory
outside_test = refl

-- Code is found behind an option with its value, and not among other letters of one word, except for
-- a shell.
inline_test :
    interpreter_uses_inline_evaluation (codes "Bash") ("-o" ∷ "errexit" ∷ "-xc" ∷ "ls" ∷ []) ≡ true
    × interpreter_uses_inline_evaluation (codes "python3") ("-Bc" ∷ "pass" ∷ []) ≡ false
unfolding interpreter_uses_inline_evaluation interpreter_of to_ascii_lowercase scan_arguments
    is_inline gives_flag is_shell_short_option_cluster is_option
inline_test = (refl, refl)

abbrev shell_args : List String
shell_args = "-o" ∷ "errexit" ∷ "-c" ∷ "ls" ∷ []

interpreter_uses_inline_evaluation_lem_example :
    (interpreter_uses_inline_evaluation (codes "bash") shell_args ≡ true) ↔ (
      (interpreter : Interpreter) × (interpreter_of (to_ascii_lowercase (codes "bash"))
        ≡ some interpreter)
      × GivesCode (to_ascii_lowercase (codes "bash")) interpreter false shell_args)
interpreter_uses_inline_evaluation_lem_example =
    interpreter_uses_inline_evaluation_lem (codes "bash") shell_args

is_letter-newline : is_letter b'\n' ≡ false
is_letter-newline = refl

fit_tokens : All (IsToken is_letter is_letter-newline) ("fit" ∷ [])
fit_tokens = ((fit-nonempty, fit-IsIdentifier), tt)

hunk_holds : may_hold is_letter ("fit" ∷ []) (available "a fit") ≡ true
unfolding contains_literal_token
hunk_holds = refl

merge_changed_hunks_lem_example :
    may_hold is_letter ("fit" ∷ []) (merge_changed_hunks (available "a fit") (available "b")) ≡ true
merge_changed_hunks_lem_example =
    merge_changed_hunks_lem is_letter is_letter-newline ("fit" ∷ []) (available "a fit")
      (available "b") fit_tokens (inl hunk_holds)
