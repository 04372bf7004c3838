-- ===== src/Contracts/Argv/Inline.antt =====
-- src/contracts.rs: code on the command line of an interpreter.
use previously_on.Prelude.{
  to_ascii_lowercase, String, some, Option-cases, List, [], ◌∷◌, ◌++◌, Bool, true, false, ◌≡◌, ◌≢◌,
  ◌↔◌, ◌⊎◌, inl, inr, refl, ap, sym, subst, arith, Bool-cases, contains, string_partial_eq,
  text_eq_iff, ℕ, Any, any, begins, codes, concat, nat_eq,
}
use previously_on.Contracts.Argv.{
  Interpreter, interpreter_of, interpreter_uses_inline_evaluation, is_inline, is_option,
  scan_arguments, gives_flag, is_shell_short_option_cluster, is_one_of, shells,
}

-- The flag itself, or a text that begins with the flag and `=`.
abbrev pub IsFlagged : String → String → Type 0
IsFlagged argument flag =
    (argument ≡ flag) ⊎ (begins (codes (concat (flag ∷ "=" ∷ []))) (codes argument) ≡ true)

any-IsFlagged :
    (argument : String) (flags : List String)
    → (any (gives_flag argument) flags ≡ true) ↔ Any (IsFlagged argument) flags
unfolding gives_flag
any-IsFlagged argument [] = (λ h. absurd (ground arith), λ h. absurd h)
any-IsFlagged argument (flag ∷ flags) =
    ground (arith, text_eq_iff argument flag, any-IsFlagged argument flags)

module _ (name : List ℕ) (interpreter : Interpreter) where
  -- An inline flag of the interpreter, or, for a shell, a word that begins with `-` but not with `--`
  -- and holds a `c`.
  abbrev pub IsInline : String → Type 0
  IsInline argument =
      Any (IsFlagged argument) interpreter.inline_flags
      ⊎ (is_one_of name shells ≡ true)
        × (begins (codes "-") (codes argument) ≡ true)
        × (begins (codes "--") (codes argument) ≡ false)
        × (any (nat_eq b'c') (codes argument) ≡ true)

  is_inline-IsInline :
      (argument : String) → (is_inline name interpreter argument ≡ true) ↔ IsInline argument
  unfolding is_inline is_shell_short_option_cluster
  is_inline-IsInline argument = ground (arith, any-IsFlagged argument interpreter.inline_flags)

  -- The scan walks over all of these arguments: each is an option and no inline one, with its value
  -- behind it if it takes one. After `true`, a value comes first.
  abbrev pub Passes : Bool → List String → Type 0
  Passes true [] = ⊥
  Passes false [] = Unit
  Passes true (value ∷ args) = Passes false args
  Passes false (argument ∷ args) =
      (argument ≢ "--")
      × ¬ IsInline argument
      × ((contains interpreter.options_with_values argument ≡ true) × Passes true args
          ⊎ (contains interpreter.options_with_values argument ≡ false)
            × (is_option argument ≡ true)
            × Passes false args)

  -- Some argument is inline, and all before it are passed over.
  abbrev pub GivesCode : Bool → List String → Type 0
  GivesCode skip args =
      (passed : List String) × (argument : String) × (rest : List String) × (args
        ≡ passed ++ argument ∷ rest)
      × Passes skip passed
      × (argument ≢ "--")
      × IsInline argument

  GivesCode-value :
      (value : String) (args : List String) → GivesCode false args → GivesCode true (value ∷ args)
  GivesCode-value value args (passed, argument, rest, split, passes, other, code) =
      (value ∷ passed, argument, rest, ap (λ r. value ∷ r) split, passes, other, code)

  GivesCode-pass :
      (argument : String) (args : List String) (skip : Bool)
      → ((passed : List String) → Passes skip passed → Passes false (argument ∷ passed))
      → GivesCode skip args
      → GivesCode false (argument ∷ args)
  GivesCode-pass argument args skip pass (passed, found, rest, split, passes, other, code) = (
    argument ∷ passed,
    found,
    rest,
    ap (λ r. argument ∷ r) split,
    pass passed passes,
    other,
    code,
  )

  not-IsInline :
      (argument : String) → is_inline name interpreter argument ≡ false → ¬ IsInline argument
  not-IsInline argument e code = ground (arith, e, (is_inline-IsInline argument).1 code)

  is_inline-not-IsInline :
      (argument : String) → ¬ IsInline argument → is_inline name interpreter argument ≡ false
  is_inline-not-IsInline argument safe = elim (Bool-cases (is_inline name interpreter argument)) [
    | inl code ↦ absurd (safe ((is_inline-IsInline argument).0 code))
    | inr e ↦ e
  ]

  scan_arguments_sound :
      (skip : Bool) (args : List String)
      → scan_arguments name interpreter skip args ≡ true
      → GivesCode skip args
  unfolding scan_arguments
  scan_arguments_sound true [] h = absurd (ground arith)
  scan_arguments_sound false [] h = absurd (ground arith)
  scan_arguments_sound true (value ∷ args) h =
      GivesCode-value value args (scan_arguments_sound false args h)
  scan_arguments_sound false (argument ∷ args) h =
      let other : argument ≢ "--" = ground (arith, text_eq_iff argument "--") in
      elim (Bool-cases (is_inline name interpreter argument)) [
        | inl code ↦ ([], argument, args, refl, tt, other, (is_inline-IsInline argument).0 code)
        | inr plain_word ↦
            let safe = not-IsInline argument plain_word in
            elim (Bool-cases (contains interpreter.options_with_values argument)) [
              | inl takes ↦
                  GivesCode-pass argument args true
                    (λ passed passes. (other, safe, inl (takes, passes)))
                    (scan_arguments_sound true args (ground arith))
              | inr plain ↦
                  let option : is_option argument ≡ true = ground arith in
                  GivesCode-pass argument args false
                    (λ passed passes. (other, safe, inr (plain, option, passes)))
                    (scan_arguments_sound false args (ground arith))
            ]
      ]

  scan_arguments_complete :
      (argument : String) (rest : List String)
      → argument ≢ "--"
      → IsInline argument
      → (skip : Bool) (passed : List String) → Passes skip passed
      → scan_arguments name interpreter skip (passed ++ argument ∷ rest) ≡ true
  unfolding scan_arguments
  scan_arguments_complete argument rest other code true [] passes = absurd passes
  scan_arguments_complete argument rest other code false [] passes =
      ground (arith, text_eq_iff argument "--", (is_inline-IsInline argument).1 code)
  scan_arguments_complete argument rest other code true (value ∷ passed) passes =
      scan_arguments_complete argument rest other code false passed passes
  scan_arguments_complete argument rest other code false (a ∷ passed)
        (ordinary, safe, inl (takes, passes)) =
      ground (
        arith,
        text_eq_iff a "--",
        is_inline-not-IsInline a safe,
        scan_arguments_complete argument rest other code true passed passes,
      )
  scan_arguments_complete argument rest other code false (a ∷ passed)
        (ordinary, safe, inr (plain, option, passes)) =
      ground (
        arith,
        text_eq_iff a "--",
        is_inline-not-IsInline a safe,
        scan_arguments_complete argument rest other code false passed passes,
      )

  scan_arguments_lem :
      (args : List String)
      → (scan_arguments name interpreter false args ≡ true) ↔ GivesCode false args
  scan_arguments_lem args = (
    scan_arguments_sound false args,
    λ (passed, argument, rest, split, passes, other, code).
        subst (λ l. scan_arguments name interpreter false l ≡ true) (sym split)
          (scan_arguments_complete argument rest other code false passed passes),
  )

-- The check finds code on the command line exactly if the program's name, in small letters, is in
-- the code's table of interpreters, and the arguments hold one other than `--` that is an inline flag
-- of the table, alone or with `=` behind it, or, for a shell, a word that begins with `-` but not with
-- `--` and holds a `c`; and each argument before that one is the value of an option that takes one,
-- or else an option that is not `--` and none of these.
pub interpreter_uses_inline_evaluation_lem :
    (program_name : List ℕ) (args : List String)
    → (interpreter_uses_inline_evaluation program_name args ≡ true) ↔ (
        (interpreter : Interpreter) × (interpreter_of (to_ascii_lowercase program_name)
          ≡ some interpreter)
        × GivesCode (to_ascii_lowercase program_name) interpreter false args)
unfolding interpreter_uses_inline_evaluation
interpreter_uses_inline_evaluation_lem program_name args =
    let name = to_ascii_lowercase program_name in
    elim (Option-cases (interpreter_of name)) [
      | inl nothing ↦ rw nothing (λ h. absurd (ground arith), λ h. absurd (ground arith))
      | inr (interpreter, known) ↦ (
        λ h. (interpreter, known, (scan_arguments_lem name interpreter args).0 (ground arith)),
        λ (other, same, code). ground (arith, (scan_arguments_lem name other args).1 code),
      )
    ]
