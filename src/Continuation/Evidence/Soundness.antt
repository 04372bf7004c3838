-- ===== src/Continuation/Evidence/Soundness.antt =====
-- src/continuation.rs: the evidence behind the readiness of a handoff.
use previously_on.Prelude.{
  ℕ, String, Option, none, some, List, [], ◌∷◌, map, true, false, ◌≡◌, ap, ◌∙◌, inl, inr, subst,
  arith, text_eq_iff, option_eq_iff, list_eq_iff, string_partial_eq, find, find_sound, Any, Any-map,
  All, All-of_append, All-map, All-of_map, All-both, Option-cases, Bool-cases,
}
use previously_on.Contracts.{
  RequiredTestEvaluationV1, RequiredTestStateV1, passed, missing, ContractMatchV1,
  ContractEvaluationV1, ready, RegressionContractV1, RequiredTestV1,
}
use previously_on.Contracts.Evaluation.{
  is_passed, readiness-ready, evaluation_from_match, required_tests_of, IsMissing,
  required_tests_of-IsMissing, required_test,
}
use previously_on.Continuation.Evidence.{
  same_required_test, is_current, decided_test, same_fingerprint, apply_to_test,
  apply_prior_test_evidence, evaluate_matched,
}

-- The same command of the same contract.
pub record IsSameTest (left right : RequiredTestEvaluationV1) : Type 0 where
  pub contract_id : left.contract_id ≡ right.contract_id
  pub test_id : left.test_id ≡ right.test_id
  pub program : left.program ≡ right.program
  pub args : left.args ≡ right.args
  pub working_directory : left.working_directory ≡ right.working_directory

same_required_test-IsSameTest :
    (left right : RequiredTestEvaluationV1)
    → same_required_test left right ≡ true
    → IsSameTest left right
unfolding same_required_test
same_required_test-IsSameTest left right h = ground (
  arith,
  text_eq_iff left.contract_id right.contract_id,
  text_eq_iff left.test_id right.test_id,
  text_eq_iff left.program right.program,
  list_eq_iff left.args right.args,
  text_eq_iff left.working_directory right.working_directory,
)

-- An evaluation of this repository, task and content.
pub record IsCurrent (repository_id : String) (task_id : Option String) (fingerprint : String)
    (previous : ContractEvaluationV1) : Type 0 where
  pub same_repository : previous.repository_id ≡ repository_id
  pub same_task : previous.task_id ≡ task_id
  pub same_content : previous.content_fingerprint ≡ fingerprint

is_current-IsCurrent :
    (e previous : ContractEvaluationV1)
    → is_current e previous ≡ true
    → IsCurrent e.repository_id e.task_id e.content_fingerprint previous
unfolding is_current
is_current-IsCurrent e previous h = ground (
  arith,
  text_eq_iff previous.repository_id e.repository_id,
  option_eq_iff previous.task_id e.task_id,
  text_eq_iff previous.content_fingerprint e.content_fingerprint,
)

-- Some earlier evaluation of this content holds the test in the given state.
abbrev pub HasEvidence :
    String
    → Option String
    → String
    → List ContractEvaluationV1
    → RequiredTestStateV1
    → RequiredTestEvaluationV1
    → Type 0
HasEvidence repository_id task_id fingerprint prior outcome required =
    Any
      (λ previous.
        IsCurrent repository_id task_id fingerprint previous
        × Any (λ test. IsSameTest test required × (test.state ≡ outcome)) previous.required_tests)
      prior

decided_sound :
    (required test : RequiredTestEvaluationV1) (tests : List RequiredTestEvaluationV1)
    → decided_test (find (λ t. same_required_test t required) tests) ≡ some test
    → Any (λ t. IsSameTest t required × (t.state ≡ test.state)) tests
decided_sound required test tests h =
    elim (Option-cases (find (λ t. same_required_test t required) tests)) [
      | inl nothing ↦ absurd (ground arith)
      | inr (t, found) ↦
          Any-map (λ u. (u ≡ t) × (same_required_test u required ≡ true))
            (λ u. IsSameTest u required × (u.state ≡ test.state))
            (λ u k. (same_required_test-IsSameTest u required k.1, ground arith)) tests
            (find_sound (λ u. same_required_test u required) tests t found)
    ]

same_fingerprint_sound :
    (evaluation : ContractEvaluationV1) (prior : List ContractEvaluationV1)
    (required test : RequiredTestEvaluationV1)
    → same_fingerprint evaluation prior required ≡ some test
    → HasEvidence evaluation.repository_id evaluation.task_id evaluation.content_fingerprint prior
        test.state required
unfolding same_fingerprint
same_fingerprint_sound evaluation [] required test h = absurd (ground arith)
same_fingerprint_sound evaluation (previous ∷ prior) required test h =
    elim (Bool-cases (is_current evaluation previous)) [
      | inr other ↦ inr (same_fingerprint_sound evaluation prior required test (ground arith))
      | inl current ↦
          elim (Option-cases
            (decided_test (find (λ t. same_required_test t required) previous.required_tests))) [
              | inl nothing ↦ inr (
                  same_fingerprint_sound evaluation prior required test
                    (rw (current, nothing) at h))
              | inr (t, found) ↦
                  let same : t ≡ test = ground arith in
                  inl (
                    is_current-IsCurrent evaluation previous current,
                    decided_sound required test previous.required_tests (found ∙ ap some same),
                  )
            ]
    ]

module _ (evaluation : ContractEvaluationV1) (prior : List ContractEvaluationV1)
    (required : RequiredTestEvaluationV1) where
  abbrev Evidence : RequiredTestStateV1 → RequiredTestEvaluationV1 → Type 0
  Evidence =
      HasEvidence evaluation.repository_id evaluation.task_id evaluation.content_fingerprint prior

  apply_to_test-not_found :
      required.state ≡ missing
      → same_fingerprint evaluation prior required ≡ none
      → is_passed (apply_to_test evaluation prior required).state ≡ false
  unfolding apply_to_test
  apply_to_test-not_found untested nothing = ground arith

  apply_to_test-found :
      (test : RequiredTestEvaluationV1)
      → same_fingerprint evaluation prior required ≡ some test
      → (apply_to_test evaluation prior required).state ≡ test.state
  unfolding apply_to_test
  apply_to_test-found test found = ground arith

  -- A test that has passed after the loop, and was missing before, has evidence.
  apply_to_test_sound :
      required.state ≡ missing
      → is_passed (apply_to_test evaluation prior required).state ≡ true
      → Evidence passed required
  apply_to_test_sound untested h =
      elim (Option-cases (same_fingerprint evaluation prior required)) [
        | inl nothing ↦ absurd (ground (arith, apply_to_test-not_found untested nothing))
        | inr (test, found) ↦
            let result = apply_to_test-found test found in
            let decided : test.state ≡ passed = ground arith in
            subst (λ outcome. Evidence outcome required) decided
              (same_fingerprint_sound evaluation prior required test found)
      ]

-- A test is a run of a test of a contract: the same command in the same directory, under the ids
-- of both.
pub record IsRunOf (contract : RegressionContractV1) (test : RequiredTestV1)
    (done : RequiredTestEvaluationV1) : Type 0 where
  pub contract_id : done.contract_id ≡ contract.id
  pub test_id : done.test_id ≡ test.id
  pub program : done.program ≡ test.program
  pub args : done.args ≡ test.args
  pub working_directory : done.working_directory ≡ test.working_directory

-- Some earlier evaluation of this content holds a run of the test that has passed.
abbrev pub HasPassed :
    String
    → Option String
    → String
    → List ContractEvaluationV1
    → RegressionContractV1
    → RequiredTestV1
    → Type 0
HasPassed repository_id task_id fingerprint prior contract test =
    Any
      (λ previous.
        IsCurrent repository_id task_id fingerprint previous
        × Any (λ done. IsRunOf contract test done × (done.state ≡ passed)) previous.required_tests)
      prior

IsSameTest-IsRunOf :
    (contract : RegressionContractV1) (test : RequiredTestV1) (done : RequiredTestEvaluationV1)
    → IsSameTest done (required_test contract test)
    → IsRunOf contract test done
unfolding required_test
IsSameTest-IsRunOf contract test done h = record {
  contract_id = h.contract_id;
  test_id = h.test_id;
  program = h.program;
  args = h.args;
  working_directory = h.working_directory;
}

module _ (repository_id : String) (task_id : Option String) (fingerprint : String)
    (prior : List ContractEvaluationV1) where
  abbrev Evident : RequiredTestEvaluationV1 → Type 0
  Evident = HasEvidence repository_id task_id fingerprint prior passed

  HasEvidence-HasPassed :
      (contract : RegressionContractV1) (test : RequiredTestV1)
      → Evident (required_test contract test)
      → HasPassed repository_id task_id fingerprint prior contract test
  HasEvidence-HasPassed contract test =
      Any-map _ _
        (λ previous h. (
          h.0,
          Any-map _ _ (λ done k. (IsSameTest-IsRunOf contract test done k.0, k.1))
              previous.required_tests h.1,
        ))
        prior

  All-HasPassed :
      (contract : RegressionContractV1) (tests : List RequiredTestV1)
      → All Evident (map (required_test contract) tests)
      → All (HasPassed repository_id task_id fingerprint prior contract) tests
  All-HasPassed contract tests h =
      All-map (HasEvidence-HasPassed contract) tests
        (All-of_map Evident (required_test contract) tests h)

  required_tests_of-HasPassed :
      (contracts : List RegressionContractV1)
      → All Evident (required_tests_of contracts)
      → All
          (λ contract.
            All
              (HasPassed repository_id task_id fingerprint prior contract)
              contract.required_tests)
          contracts
  unfolding required_tests_of
  required_tests_of-HasPassed [] h = tt
  required_tests_of-HasPassed (contract ∷ contracts) h =
      let (own, others) =
        All-of_append Evident (map (required_test contract) contract.required_tests) _ h in
      (
        All-HasPassed contract contract.required_tests own,
        required_tests_of-HasPassed contracts others,
      )

-- If the handoff is ready, then for each matched contract and each test that the contract requires,
-- some earlier evaluation of the same repository and task with the same content fingerprint holds a
-- test that has passed, with the ids of the contract and the test, and with the program, the
-- arguments and the working directory of the test.
pub evaluate_matched-ready :
    (sha256_hex : String → String) (now : ℕ) (repository_id task_id : String)
    (matches : ContractMatchV1) (fingerprint : String) (prior : List ContractEvaluationV1)
    → (evaluate_matched sha256_hex now repository_id task_id matches fingerprint prior).readiness
      ≡ ready
    → All
        (λ contract.
          All
            (HasPassed repository_id (some task_id) fingerprint prior contract)
            contract.required_tests)
        matches.relevant_contracts
unfolding evaluate_matched apply_prior_test_evidence evaluation_from_match
evaluate_matched-ready sha256_hex now repository_id task_id matches fingerprint prior h =
    let e =
      evaluation_from_match sha256_hex now repository_id (some task_id) matches fingerprint false in
    let tests = required_tests_of matches.relevant_contracts in
    required_tests_of-HasPassed repository_id (some task_id) fingerprint prior
      matches.relevant_contracts
      (All-map (λ test k. apply_to_test_sound e prior test k.0 k.1) tests
        (All-both IsMissing (λ test. is_passed (apply_to_test e prior test).state ≡ true) tests
          (required_tests_of-IsMissing matches.relevant_contracts)
          (All-of_map (λ (test : RequiredTestEvaluationV1). is_passed test.state ≡ true)
            (apply_to_test e prior) tests
            ((readiness-ready (map (apply_to_test e prior) tests)).0 h))))
