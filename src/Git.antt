-- ===== src/Git.antt =====
-- src/git.rs: the parser of `git diff --name-status -z`. The decoder of bytes that may not be UTF-8
-- belongs to the standard library: it is a parameter.
pub mod NameStatus
mod Tests
use Prim.Native.Char.{code}
use previously_on.Prelude.{
  ℕ, String, Option, none, some, List, [], ◌∷◌, map, filter, Bool, true, false, not, ◌&&◌, nat_eq,
  is_empty, trim, if◌then◌else◌,
}
use previously_on.Domain.{
  schema_version_v1, ChangeStatus, added, modified, deleted, renamed, copied, type_changed,
  unmerged, unknown, observed_changed_in, FileChangeV1,
}

-- `replace('\\', "/")`.
abbrev forward : String → String
forward String.[] = ""
forward (String.◌∷◌ c s) =
    let rest = forward s in if nat_eq (code c) 92 then String.◌∷◌ "/" rest else String.◌∷◌ c rest

-- `trim_start_matches("./")`.
abbrev without_dots : String → String
without_dots String.[] = ""
without_dots (String.◌∷◌ c String.[]) = String.◌∷◌ c ""
without_dots (String.◌∷◌ c (String.◌∷◌ d s)) =
    let rest = without_dots s in
    if nat_eq (code c) b'.' && nat_eq (code d) b'/' then rest else String.◌∷◌ c (String.◌∷◌ d s)

unfoldable pub normalize_path : String → String
normalize_path path = without_dots (forward (trim path))

-- `split(|byte| *byte == 0)`.
unfoldable pub split_at_zero : List ℕ → List (List ℕ)
split_at_zero [] = [] ∷ []
split_at_zero (byte ∷ bytes) = elim (split_at_zero bytes) [
  | [] ↦ []
  | field ∷ fields ↦ if nat_eq byte 0 then [] ∷ field ∷ fields else (byte ∷ field) ∷ fields
]

-- `code.chars().next().unwrap_or('?')`.
abbrev status_code : String → ℕ
status_code String.[] = b'?'
status_code (String.◌∷◌ c s) = code c

abbrev status_of_code : ℕ → ChangeStatus
status_of_code c =
    if nat_eq c b'R'
    then renamed
    else if nat_eq c b'C'
    then copied
    else if nat_eq c b'A'
    then added
    else if nat_eq c b'M'
    then modified
    else if nat_eq c b'D'
    then deleted
    else if nat_eq c b'T'
    then type_changed
    else if nat_eq c b'U'
    then unmerged
    else unknown

-- A rename and a copy have two paths.
abbrev has_two_paths : ChangeStatus → Bool
has_two_paths renamed = true
has_two_paths copied = true
has_two_paths _ = false

abbrev pub observed : ChangeStatus → Option String → String → FileChangeV1
observed status previous_path path = record {
  schema_version = schema_version_v1;
  repository_id = "";
  session_id = "";
  task_id = none;
  path = path;
  previous_path = previous_path;
  status = status;
  additions = none;
  deletions = none;
  attribution = observed_changed_in;
  before_head = none;
  after_head = none;
}

-- The loop over the fields.
unfoldable pub parse_fields : List String → List FileChangeV1
parse_fields [] = []
parse_fields (letter ∷ []) = []
parse_fields (letter ∷ first_path ∷ []) =
    let status = status_of_code (status_code letter) in
    if has_two_paths status then [] else observed status none (normalize_path first_path) ∷ []
parse_fields (letter ∷ first_path ∷ second_path ∷ fields) =
    let status = status_of_code (status_code letter) in
    let after_one = parse_fields (second_path ∷ fields) in
    let after_two = parse_fields fields in
    if has_two_paths status
    then observed status (some (normalize_path first_path)) (normalize_path second_path) ∷ after_two
    else observed status none (normalize_path first_path) ∷ after_one

unfoldable pub parse_name_status : (List ℕ → String) → List ℕ → List FileChangeV1
unfolding split_at_zero parse_fields
parse_name_status from_utf8_lossy output =
    parse_fields
      (map from_utf8_lossy (filter (λ field. not (is_empty field)) (split_at_zero output)))
