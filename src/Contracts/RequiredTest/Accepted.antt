-- ===== src/Contracts/RequiredTest/Accepted.antt =====
-- src/contracts.rs: required tests that pass `validate_required_test`.
use previously_on.Prelude.{
  begins, segments, ℕ, String, ◌≤◌, List, ◌∷◌, Bool, false, not, ◌&&◌, ◌||◌, ◌≡◌, ◌≢◌, arith,
  nat_eq, leb, any, codes, All, All-map, text_eq_iff, list_eq, list_eq_iff, ◌==◌, string_partial_eq,
  nat_partial_eq, is_whitespace, nat_eq_iff,
}
use previously_on.Redaction.{Patterns, redact_text, redacted_marker}
use previously_on.Contracts.{RequiredTestV1}
use previously_on.Contracts.Argv.{
  argv_contains_sensitive_data, contains_text, interpreter_uses_inline_evaluation,
  looks_like_environment_assignment, max_test_timeout_seconds, join_words,
}
use previously_on.Contracts.Checked.{ok, in_turn-ok, bail_if-ok, any-false}
use previously_on.Contracts.RequiredTest.{
  test_checks, directory_checks, leaves_repository, program_name, validate_relative_directory,
  validate_required_test,
}

-- The path is relative, and none of its components is `..`.
pub record StaysInside (path : String) : Type 0 where
  pub relative : begins (codes "/") (codes path) ≡ false
  pub no_parent : All (λ segment. segment ≢ codes "..") (segments (codes path))

leaves_repository-StaysInside :
    (path : String) → leaves_repository (codes path) ≡ false → StaysInside path
unfolding leaves_repository
leaves_repository-StaysInside path h = record {
  relative = ground arith;
  no_parent =
      All-map (λ segment e. ground (arith, list_eq_iff segment (codes "..")))
        (segments (codes path))
        (any-false (λ segment. list_eq segment (codes "..")) (segments (codes path))
          (ground arith));
}

module _ (p : Patterns) where
  -- The redaction has nothing to take out of the text, and the text shows no earlier redaction.
  abbrev pub IsClean : String → Type 0
  IsClean value =
      (redact_text p value ≡ value) × (contains_text (codes redacted_marker) (codes value) ≡ false)

  pub record IsAccepted (test : RequiredTestV1) : Type 0 where
    pub clean_argv : All IsClean (test.program ∷ test.args)
    pub clean_line :
        redact_text p (join_words (test.program ∷ test.args))
        ≡ join_words (test.program ∷ test.args)
    pub program_inside : StaysInside test.program
    pub directory_inside : StaysInside test.working_directory
    pub no_inline_code :
        interpreter_uses_inline_evaluation (program_name test.program) test.args ≡ false
    pub no_env : program_name test.program ≢ codes "env"
    pub no_assignment :
        All (λ word. looks_like_environment_assignment word ≡ false) (test.program ∷ test.args)
    pub no_nul : All (λ word. All (λ c. c ≢ 0) (codes word)) (test.program ∷ test.args)
    pub timeout : (1 ≤ test.timeout_seconds) × (test.timeout_seconds ≤ max_test_timeout_seconds)

  IsClean-words :
      (program : String) (args : List String)
      → argv_contains_sensitive_data p program args ≡ false
      → All IsClean (program ∷ args)
        × (redact_text p (join_words (program ∷ args)) ≡ join_words (program ∷ args))
  unfolding argv_contains_sensitive_data
  IsClean-words program args h =
      let whole = join_words (program ∷ args) in
      let suspect : String → Bool = λ value.
        contains_text (codes redacted_marker) (codes value) || not (redact_text p value == value) in
      (
        All-map (λ value e. ground (arith, text_eq_iff (redact_text p value) value))
            (program ∷ args) (any-false suspect (program ∷ args) (ground arith)),
        ground (arith, text_eq_iff (redact_text p whole) whole),
      )

  no_nul_words :
      (words : List String)
      → any (λ word. any (nat_eq 0) (codes word)) words ≡ false
      → All (λ word. All (λ c. c ≢ 0) (codes word)) words
  no_nul_words words h =
      All-map
        (λ word e.
          All-map (λ c k z. ground (arith, nat_eq_iff 0 c)) (codes word)
            (any-false (nat_eq 0) (codes word) e))
        words (any-false (λ word. any (nat_eq 0) (codes word)) words h)

  or_false_split : (a b c : Bool) → (a || b || c) ≡ false → (a ≡ false) × ((b || c) ≡ false)
  or_false_split a b c h = ground arith

  drop_middle : (a b c : Bool) → (a || b || c) ≡ false → (a || c) ≡ false
  drop_middle a b c h = ground arith

  not_named : (name other : List ℕ) → list_eq name other ≡ false → name ≢ other
  not_named name other h = ground (arith, list_eq_iff name other)

  in_range :
      (n : ℕ)
      → not (leb 1 n && leb n max_test_timeout_seconds) ≡ false
      → (1 ≤ n) × (n ≤ max_test_timeout_seconds)
  in_range n h = ground arith

  -- What a required test has that passes its validation.
  pub validate_required_test-IsAccepted :
      (test : RequiredTestV1) → validate_required_test p test ≡ ok → IsAccepted test
  unfolding validate_required_test validate_relative_directory
  validate_required_test-IsAccepted test h =
      let (
        argv,
        (
          id,
          (
            name,
            (
              program,
              (
                secret_id,
                (
                  secret_name,
                  (
                    secret_program,
                    (
                      secret_directory,
                      (characters, (inside, (safe, (variables, (directory, (time, done)))))),
                    ),
                  ),
                ),
              ),
            ),
          ),
        ),
      ) =
        in_turn-ok (test_checks p test) h in
      let (there, (within, done_there)) =
        in_turn-ok (directory_checks test.working_directory) directory in
      let (words, line) = IsClean-words test.program test.args (bail_if-ok _ _ argv) in
      let (no_env, no_assignment) = or_false_split _ _ _ (bail_if-ok _ _ variables) in
      record {
        clean_argv = words;
        clean_line = line;
        program_inside = leaves_repository-StaysInside test.program (bail_if-ok _ _ inside);
        directory_inside =
            leaves_repository-StaysInside test.working_directory (bail_if-ok _ _ within);
        no_inline_code = bail_if-ok _ _ safe;
        no_env = not_named (program_name test.program) (codes "env") no_env;
        no_assignment =
            any-false looks_like_environment_assignment (test.program ∷ test.args) no_assignment;
        no_nul = no_nul_words (test.program ∷ test.args) (
            drop_middle (any (nat_eq 0) (codes test.program))
              (any is_whitespace (codes test.program))
              (any (λ arg. any (nat_eq 0) (codes arg)) test.args) (bail_if-ok _ _ characters));
        timeout = in_range test.timeout_seconds (bail_if-ok _ _ time);
      }
