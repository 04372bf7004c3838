-- ===== src/Contracts/Evaluation.antt =====
-- src/contracts.rs: the evaluation of the tests that matched contracts require. SHA-256, in
-- hexadecimal, and the clock are parameters.
use Prim.Native.Nat.{◌/◌}
use previously_on.Prelude.{
  ℕ, String, Option, none, some, List, [], ◌∷◌, map, Bool, true, false, ◌≡◌, ◌↔◌, refl, arith,
  All-append, ◌==◌, string_partial_eq, concat, decimal, take_chars, all, All, if◌then◌else◌, ◌++◌,
}
use previously_on.Domain.{schema_version_v1}
use previously_on.Contracts.{
  RegressionContractV1, RequiredTestV1, RequiredTestEvaluationV1, RequiredTestStateV1, passed,
  missing, stale, ContractReadinessV1, ready, contract_blocked, ContractMatchV1,
  ContractEvaluationV1,
}

abbrev pub is_passed : RequiredTestStateV1 → Bool
is_passed passed = true
is_passed _ = false

unfoldable pub readiness_for_tests : List RequiredTestEvaluationV1 → ContractReadinessV1
readiness_for_tests tests =
    if all (λ test. is_passed test.state) tests then ready else contract_blocked

unfoldable pub freshness_from_success : String → Option String → RequiredTestStateV1
freshness_from_success current none = missing
freshness_from_success current (some success) = if success == current then passed else stale

-- `timestamp_micros()`.
abbrev pub timestamp_micros : ℕ → ℕ
timestamp_micros time = time / 1000

abbrev unwrap_or_default : Option String → String
unwrap_or_default none = ""
unwrap_or_default (some s) = s

evaluation_id : (String → String) → String → Option String → String → ℕ → String
evaluation_id sha256_hex repository_id task_id fingerprint evaluated_at = concat (
    "evaluation-"
    ∷ take_chars 24 (
        sha256_hex (
          concat (
            repository_id
            ∷ "\0"
            ∷ unwrap_or_default task_id
            ∷ "\0"
            ∷ fingerprint
            ∷ "\0"
            ∷ decimal (timestamp_micros evaluated_at)
            ∷ "\0"
            ∷ [])))
    ∷ [])

unfoldable pub required_test : RegressionContractV1 → RequiredTestV1 → RequiredTestEvaluationV1
required_test contract test = record {
  contract_id = contract.id;
  test_id = test.id;
  name = test.name;
  program = test.program;
  args = test.args;
  working_directory = test.working_directory;
  timeout_seconds = test.timeout_seconds;
  state = missing;
  detail = none;
}

unfoldable pub required_tests_of : List RegressionContractV1 → List RequiredTestEvaluationV1
unfolding required_test
required_tests_of [] = []
required_tests_of (contract ∷ contracts) =
    map (required_test contract) contract.required_tests ++ required_tests_of contracts

unfoldable pub evaluation_from_match :
    (String → String)
    → ℕ
    → String
    → Option String
    → ContractMatchV1
    → String
    → Bool
    → ContractEvaluationV1
unfolding required_tests_of evaluation_id
evaluation_from_match sha256_hex now repository_id task_id matches fingerprint issued =
    let required_tests = required_tests_of matches.relevant_contracts in
    record {
      schema_version = schema_version_v1;
      id = evaluation_id sha256_hex repository_id task_id fingerprint now;
      repository_id = repository_id;
      task_id = task_id;
      readiness = readiness_for_tests required_tests;
      evaluated_at = now;
      relevant_contracts = matches.summaries;
      required_tests = required_tests;
      warnings = matches.warnings;
      content_fingerprint = fingerprint;
      continuation_issued = issued;
      base = none;
      head = none;
      merge_base = none;
    }

pub all-All {ℓ} :
    {A : Type ℓ} (p : A → Bool) (xs : List A) → (all p xs ≡ true) ↔ All (λ x. p x ≡ true) xs
all-All p [] = (λ h. tt, λ h. refl)
all-All p (x ∷ xs) = (
  λ h. (ground arith, (all-All p xs).0 (ground arith)),
  λ h. ground (arith, (all-All p xs).1 h.1),
)

-- Readiness is that every required test has passed.
pub readiness-ready :
    (tests : List RequiredTestEvaluationV1)
    → (readiness_for_tests tests ≡ ready) ↔ All (λ test. is_passed test.state ≡ true) tests
unfolding readiness_for_tests
readiness-ready tests = (
  λ h. (all-All (λ (test : RequiredTestEvaluationV1). is_passed test.state) tests).0 (ground arith),
  λ h.
      ground
        (arith, (all-All (λ (test : RequiredTestEvaluationV1). is_passed test.state) tests).1 h),
)

abbrev pub IsMissing : RequiredTestEvaluationV1 → Type 0
IsMissing test = test.state ≡ missing

IsMissing-required :
    (contract : RegressionContractV1) (tests : List RequiredTestV1)
    → All IsMissing (map (required_test contract) tests)
unfolding required_test
IsMissing-required contract [] = tt
IsMissing-required contract (test ∷ tests) = (refl, IsMissing-required contract tests)

pub required_tests_of-IsMissing :
    (contracts : List RegressionContractV1) → All IsMissing (required_tests_of contracts)
unfolding required_tests_of
required_tests_of-IsMissing [] = tt
required_tests_of-IsMissing (contract ∷ contracts) =
    All-append IsMissing (map (required_test contract) contract.required_tests)
      (required_tests_of contracts) (IsMissing-required contract contract.required_tests)
      (required_tests_of-IsMissing contracts)
