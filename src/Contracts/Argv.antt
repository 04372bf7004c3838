-- ===== src/Contracts/Argv.antt =====
-- src/contracts.rs: which commands a contract may require. Texts are lists of code points where the
-- code looks at characters. Paths are those of Unix: a component is what stands between slashes.
pub mod Inline
use previously_on.Prelude.{
  begins, to_ascii_lowercase, is_one_of, ℕ, zero, suc, String, Option, none, some, List, [], ◌∷◌,
  map, Bool, true, false, not, ◌&&◌, ◌||◌, nat_eq, ltb, leb, ◌==◌, string_partial_eq,
  nat_partial_eq, list_eq, any, all, filter, is_empty, contains, codes, concat, trim, text_is_empty,
  is_whitespace, if◌then◌else◌, ◌+◌,
}
use previously_on.Redaction.{Patterns, redact_text, redacted_marker}
use previously_on.Contracts.{RequiredTestV1}

abbrev pub max_test_timeout_seconds : ℕ
max_test_timeout_seconds = 3600

-- `str::contains` of a text: it begins at some place.
unfoldable pub contains_text : List ℕ → List ℕ → Bool
contains_text sub [] = is_empty sub
contains_text sub (c ∷ text) = begins sub (c ∷ text) || contains_text sub text

-- The words of a command line with a space between them.
abbrev pub join_words : List String → String
join_words [] = ""
join_words (word ∷ []) = word
join_words (word ∷ next ∷ words) = concat (word ∷ " " ∷ join_words (next ∷ words) ∷ [])

unfoldable pub argv_contains_sensitive_data : Patterns → String → List String → Bool
unfolding contains_text
argv_contains_sensitive_data p program args =
    any
      (λ value.
        contains_text (codes redacted_marker) (codes value) || not (redact_text p value == value))
      (program ∷ args)
    || not (redact_text p (join_words (program ∷ args)) == join_words (program ∷ args))

-- The flags that take code, and the options that take a value.
pub record Interpreter : Type 0 where
  pub inline_flags : List String
  pub options_with_values : List String

abbrev pub shells : List String
shells = "sh" ∷ "dash" ∷ "bash" ∷ "zsh" ∷ "ksh" ∷ "fish" ∷ []

unfoldable pub interpreter_of : List ℕ → Option Interpreter
unfolding is_one_of
interpreter_of name =
    if is_one_of name shells
    then some (record {
      inline_flags = "-c" ∷ "--command" ∷ [];
      options_with_values = "-o" ∷ "+o" ∷ "-O" ∷ "+O" ∷ "--rcfile" ∷ "--init-file" ∷ [];
    })
    else if begins (codes "python") name
    then some (record {
      inline_flags = "-c" ∷ [];
      options_with_values = "-W" ∷ "-X" ∷ "--check-hash-based-pycs" ∷ [];
    })
    else if is_one_of name ("node" ∷ "nodejs" ∷ [])
    then some (record {
      inline_flags = "-e" ∷ "--eval" ∷ [];
      options_with_values = "-r" ∷ "--require" ∷ "--loader" ∷ "--import" ∷ [];
    })
    else if is_one_of name ("ruby" ∷ "perl" ∷ [])
    then some (record { inline_flags = "-e" ∷ []; options_with_values = [] })
    else if is_one_of name ("php" ∷ [])
    then some (record { inline_flags = "-r" ∷ []; options_with_values = [] })
    else if is_one_of name ("powershell" ∷ "pwsh" ∷ [])
    then some (record {
      inline_flags = "-command" ∷ "--command" ∷ "-encodedcommand" ∷ [];
      options_with_values = [];
    })
    else none

-- The flag itself, or the flag with `=` behind it.
unfoldable pub gives_flag : String → String → Bool
gives_flag argument flag =
    argument == flag || begins (codes (concat (flag ∷ "=" ∷ []))) (codes argument)

unfoldable pub is_shell_short_option_cluster : List ℕ → String → Bool
unfolding is_one_of
is_shell_short_option_cluster program_name argument =
    is_one_of program_name shells
    && begins (codes "-") (codes argument)
    && not (begins (codes "--") (codes argument))
    && any (nat_eq b'c') (codes argument)

unfoldable pub is_option : String → Bool
is_option argument = begins (codes "-") (codes argument) || begins (codes "+") (codes argument)

module _ (name : List ℕ) (interpreter : Interpreter) where
  -- The argument gives code to the interpreter.
  unfoldable pub is_inline : String → Bool
  is_inline argument =
      any (gives_flag argument) interpreter.inline_flags
      || is_shell_short_option_cluster name argument

  -- The `while` loop, from an argument; `skip` is set where the argument is an option's value.
  unfoldable pub scan_arguments : Bool → List String → Bool
  scan_arguments skip [] = false
  scan_arguments true (value ∷ args) = scan_arguments false args
  scan_arguments false (argument ∷ args) =
      let behind_value = scan_arguments true args in
      let next = scan_arguments false args in
      if argument == "--"
      then false
      else if is_inline argument
      then true
      else if contains interpreter.options_with_values argument
      then behind_value
      else if is_option argument
      then next
      else false

unfoldable pub interpreter_uses_inline_evaluation : List ℕ → List String → Bool
interpreter_uses_inline_evaluation program_name args =
    let normalized = to_ascii_lowercase program_name in
    elim (interpreter_of normalized) [
      | none ↦ false
      | some interpreter ↦ scan_arguments normalized interpreter false args
    ]

-- `split_once('=')`: what stands before the first one.
before_equals : List ℕ → Option (List ℕ)
before_equals [] = none
before_equals (c ∷ text) =
    let rest = before_equals text in
    if nat_eq c b'=' then some [] else (elim rest [ none ↦ none | some name ↦ some (c ∷ name) ])

is_ascii_alphabetic : ℕ → Bool
is_ascii_alphabetic c = (leb b'A' c && leb c b'Z') || (leb b'a' c && leb c b'z')

-- The characters of a name, from an index on.
is_variable_name : ℕ → List ℕ → Bool
unfolding is_ascii_alphabetic
is_variable_name index [] = true
is_variable_name index (c ∷ name) =
    (nat_eq c b'_' || is_ascii_alphabetic c || (ltb 0 index && (leb b'0' c && leb c b'9')))
    && is_variable_name (suc index) name

unfoldable pub looks_like_environment_assignment : String → Bool
unfolding before_equals is_variable_name
looks_like_environment_assignment value = elim (before_equals (codes value)) [
  | none ↦ false
  | some name ↦ not (is_empty name) && is_variable_name 0 name
]
