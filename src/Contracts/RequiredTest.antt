-- ===== src/Contracts/RequiredTest.antt =====
-- src/contracts.rs: the validation of a required test, with its errors in the order of the checks.
-- Paths are those of Unix, where a path has no prefix.
pub mod Accepted
use previously_on.Prelude.{
  begins, segments, ℕ, String, Option, none, some, List, [], ◌∷◌, Bool, true, false, not, ◌&&◌,
  ◌||◌, nat_eq, leb, ◌==◌, string_partial_eq, nat_partial_eq, list_eq, any, filter, is_empty, codes,
  trim, text_is_empty, is_whitespace, if◌then◌else◌,
}
use previously_on.Redaction.{Patterns, redact_text}
use previously_on.Contracts.{RequiredTestV1}
use previously_on.Contracts.Checked.{
  Checked, in_turn, bail_if, validate_nonempty, validate_secret_free, sensitive_argv,
  nul_or_whitespace, program_outside, inline_evaluation, environment_assignment, directory_outside,
  timeout_out_of_range,
}
use previously_on.Contracts.Argv.{
  argv_contains_sensitive_data, interpreter_uses_inline_evaluation,
  looks_like_environment_assignment, max_test_timeout_seconds,
}

-- The path is absolute, or has a component `..`.
unfoldable pub leaves_repository : List ℕ → Bool
leaves_repository path =
    begins (codes "/") path || any (λ segment. list_eq segment (codes "..")) (segments path)

last_of : List (List ℕ) → Option (List ℕ)
last_of [] = none
last_of (segment ∷ []) = some segment
last_of (segment ∷ next ∷ rest) = last_of (next ∷ rest)

-- `file_name()`: the last component, unless it is `..`; empty components and `.` do not count.
file_name : List ℕ → Option (List ℕ)
unfolding last_of segments
file_name path =
    elim (last_of (
      filter (λ segment. not (is_empty segment) && not (list_eq segment (codes ".")))
        (segments path))) [
          | none ↦ none
          | some segment ↦ if list_eq segment (codes "..") then none else some segment
        ]

-- The name that decides which interpreter runs.
unfoldable pub program_name : String → List ℕ
unfolding file_name
program_name program = elim (file_name (codes program)) [ none ↦ codes program | some name ↦ name ]

abbrev pub directory_checks : String → List Checked
directory_checks path =
    validate_nonempty "requiredTests.workingDirectory" path
    ∷ bail_if (leaves_repository (codes path)) directory_outside
    ∷ []

unfoldable pub validate_relative_directory : String → Checked
validate_relative_directory path = in_turn (directory_checks path)

abbrev pub test_checks : Patterns → RequiredTestV1 → List Checked
test_checks p test =
    bail_if (argv_contains_sensitive_data p test.program test.args) sensitive_argv
    ∷ validate_nonempty "requiredTests.id" test.id
    ∷ validate_nonempty "requiredTests.name" test.name
    ∷ validate_nonempty "requiredTests.program" test.program
    ∷ validate_secret_free p "requiredTests.id" test.id
    ∷ validate_secret_free p "requiredTests.name" test.name
    ∷ validate_secret_free p "requiredTests.program" test.program
    ∷ validate_secret_free p "requiredTests.workingDirectory" test.working_directory
    ∷ bail_if
        (any (nat_eq 0) (codes test.program)
          || any is_whitespace (codes test.program)
          || any (λ arg. any (nat_eq 0) (codes arg)) test.args)
        nul_or_whitespace
    ∷ bail_if (leaves_repository (codes test.program)) program_outside
    ∷ bail_if (interpreter_uses_inline_evaluation (program_name test.program) test.args)
        inline_evaluation
    ∷ bail_if
        (list_eq (program_name test.program) (codes "env")
          || looks_like_environment_assignment test.program
          || any looks_like_environment_assignment test.args)
        environment_assignment
    ∷ validate_relative_directory test.working_directory
    ∷ bail_if
        (not (leb 1 test.timeout_seconds && leb test.timeout_seconds max_test_timeout_seconds))
        (timeout_out_of_range test.id)
    ∷ []

unfoldable pub validate_required_test : Patterns → RequiredTestV1 → Checked
validate_required_test p test = in_turn (test_checks p test)
