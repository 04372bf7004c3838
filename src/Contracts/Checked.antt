-- ===== src/Contracts/Checked.antt =====
-- src/contracts.rs: checks that end in success or in the first error, as `?` and `bail!` make them.
use previously_on.Prelude.{
  ℕ, String, List, [], ◌∷◌, Bool, true, false, not, ◌≡◌, refl, ◌==◌, string_partial_eq, trim,
  text_is_empty, any, All, arith,
}
use previously_on.Redaction.{Patterns, redact_text}

pub data ValidationError : Type 0 where
  sensitive_argv : ValidationError
  empty_field : String → ValidationError
  sensitive_field : String → ValidationError
  nul_or_whitespace : ValidationError
  program_outside : ValidationError
  inline_evaluation : ValidationError
  environment_assignment : ValidationError
  directory_outside : ValidationError
  timeout_out_of_range : String → ValidationError
  unsupported_schema : String → ℕ → ValidationError
  not_a_uuid : String → ValidationError
  not_canonical : String → ValidationError
  no_selectors : String → ValidationError
  invalid_selector : String → ℕ → String → ValidationError
  invalid_symbol : String → String → ValidationError
  no_tests : String → ValidationError
  duplicate_test : String → String → ValidationError
  not_a_digest : String → ℕ → ValidationError
  duplicate_contract : String → ValidationError
  wrong_file_name : String → String → ValidationError
  active_superseded : String → ValidationError
  no_replacement : String → ValidationError
  own_replacement : String → ValidationError
  bad_replacement : String → ValidationError

pub data Checked : Type 0 where
  ok : Checked
  err : ValidationError → Checked

-- Checks in a row, each with `?` behind it.
unfoldable pub in_turn : List Checked → Checked
in_turn [] = ok
in_turn (ok ∷ checks) = in_turn checks
in_turn (err e ∷ checks) = err e

-- `if condition { bail!(…) }`.
unfoldable pub bail_if : Bool → ValidationError → Checked
bail_if true e = err e
bail_if false e = ok

unfoldable pub validate_nonempty : String → String → Checked
unfolding bail_if
validate_nonempty name value = bail_if (text_is_empty (trim value)) (empty_field name)

unfoldable pub validate_secret_free : Patterns → String → String → Checked
unfolding bail_if
validate_secret_free p field value =
    bail_if (not (redact_text p value == value)) (sensitive_field field)

pub in_turn-ok : (checks : List Checked) → in_turn checks ≡ ok → All (λ check. check ≡ ok) checks
unfolding in_turn
in_turn-ok [] h = tt
in_turn-ok (ok ∷ checks) h = (refl, in_turn-ok checks h)
in_turn-ok (err e ∷ checks) h = absurd (ground arith)

pub bail_if-ok : (b : Bool) (e : ValidationError) → bail_if b e ≡ ok → b ≡ false
unfolding bail_if
bail_if-ok true e h = absurd (ground arith)
bail_if-ok false e h = refl

pub any-false {ℓ} :
    {A : Type ℓ} (p : A → Bool) (xs : List A) → any p xs ≡ false → All (λ x. p x ≡ false) xs
any-false p [] h = tt
any-false p (x ∷ xs) h = (ground arith, any-false p xs (ground arith))
