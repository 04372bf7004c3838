-- ===== src/Git/Tests.antt =====
-- src/git.rs: the name and status output for a changed and a renamed file.
use previously_on.Prelude.{
  ℕ, String, List, [], ◌∷◌, map, ◌≡◌, refl, if◌then◌else◌, codes, list_eq, nat_partial_eq, trim,
  trim_start, trim_end, is_whitespace,
}
use previously_on.Git.{parse_name_status, parse_fields, normalize_path}
use previously_on.Git.NameStatus.{
  Entry, modification, renaming, all_printed, change_of, written, parse_name_status-printed,
}

-- A decoder of the texts of this test.
abbrev decode_one_of : List String → List ℕ → String
decode_one_of [] bytes = "?"
decode_one_of (s ∷ ss) bytes =
    let rest = decode_one_of ss bytes in if list_eq bytes (codes s) then s else rest

abbrev decode : List ℕ → String
decode = decode_one_of ("M" ∷ "R087" ∷ "a.rs" ∷ "src/b.rs" ∷ "src/c.rs" ∷ [])

abbrev entries : List Entry
entries = modification "a.rs" ∷ renaming "087" "src/b.rs" "src/c.rs" ∷ []

normal_a : normalize_path "a.rs" ≡ "a.rs"
unfolding normalize_path trim trim_start trim_end is_whitespace
normal_a = refl

normal_b : normalize_path "src/b.rs" ≡ "src/b.rs"
unfolding normalize_path trim trim_start trim_end is_whitespace
normal_b = refl

normal_c : normalize_path "src/c.rs" ≡ "src/c.rs"
unfolding normalize_path trim trim_start trim_end is_whitespace
normal_c = refl

parse_name_status-printed_example :
    parse_name_status decode (written decode codes (all_printed entries)) ≡ map change_of entries
parse_name_status-printed_example =
    parse_name_status-printed decode codes entries (normal_a, ((normal_b, normal_c), tt))
      (
        (refl, refl, refl),
        ((refl, refl, refl), ((refl, refl, refl), ((refl, refl, refl), ((refl, refl, refl), tt)))),
      )

-- A rename without its second path is left out.
rename_cut_short : parse_fields ("R100" ∷ "src/b.rs" ∷ []) ≡ []
unfolding parse_fields
rename_cut_short = refl
