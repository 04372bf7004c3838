-- ===== src/RepositoryPath.antt =====
-- src/git.rs and src/redaction.rs: which paths of a repository the service will name. Paths are
-- lists of code points.
pub mod Valid
mod Tests
use previously_on.Prelude.{
  ℕ, Option, none, some, List, [], ◌∷◌, ◌++◌, map, Bool, true, false, not, ◌&&◌, ◌||◌, nat_eq, ltb,
  nat_partial_eq, list_eq, any, is_empty, codes, begins, segments, is_one_of, to_ascii_lowercase,
  String, if◌then◌else◌,
}

-- `replace('\\', "/")`.
abbrev pub forward_slashes : List ℕ → List ℕ
forward_slashes = map (λ c. if nat_eq c b'\\' then b'/' else c)

sensitive_names : List String
sensitive_names =
    "credentials" ∷ "credentials.json" ∷ "credentials.yaml" ∷ "credentials.yml" ∷ "credentials.toml"
    ∷ "credentials.ini" ∷ "credential" ∷ "credential.json" ∷ "credential.yaml" ∷ "credential.yml"
    ∷ "credential.toml" ∷ "credential.ini" ∷ "secrets" ∷ "secrets.json" ∷ "secrets.yaml"
    ∷ "secrets.yml" ∷ "secrets.toml" ∷ "secrets.ini" ∷ "secret" ∷ "secret.json" ∷ "secret.yaml"
    ∷ "secret.yml" ∷ "secret.toml" ∷ "secret.ini" ∷ []

key_names : List String
key_names = "id_rsa" ∷ "id_rsa.pub" ∷ "id_dsa" ∷ "id_dsa.pub" ∷ "id_ed25519" ∷ "id_ed25519.pub" ∷ []

-- One component, in small letters.
is_sensitive_component : List ℕ → Bool
unfolding sensitive_names key_names
is_sensitive_component component =
    begins (codes ".env") component
    || is_one_of component sensitive_names
    || is_one_of component key_names

unfoldable pub is_sensitive_path : List ℕ → Bool
unfolding is_sensitive_component
is_sensitive_path path =
    any (λ component. is_sensitive_component (to_ascii_lowercase component))
      (segments (forward_slashes path))

ends_with_slash : List ℕ → Bool
ends_with_slash [] = false
ends_with_slash (c ∷ []) = nat_eq c b'/'
ends_with_slash (c ∷ d ∷ path) = ends_with_slash (d ∷ path)

-- `as_bytes().get(1) == Some(&b':')`: the second byte, which belongs to the first character if that
-- is not of ASCII.
has_drive : List ℕ → Bool
has_drive [] = false
has_drive (c ∷ []) = false
has_drive (c ∷ d ∷ path) = ltb c 128 && nat_eq d b':'

-- Empty, `.` or `..`.
abbrev pub is_special : List ℕ → Bool
is_special component =
    is_empty component || list_eq component (codes ".") || list_eq component (codes "..")

-- `join("/")`.
unfoldable pub join_slash : List (List ℕ) → List ℕ
join_slash [] = []
join_slash (component ∷ []) = component
join_slash (component ∷ next ∷ rest) = component ++ b'/' ∷ join_slash (next ∷ rest)

unfoldable pub validated_repository_relative_path : List ℕ → Option (List ℕ)
unfolding ends_with_slash has_drive
validated_repository_relative_path path =
    let normalized = forward_slashes path in
    let components = segments normalized in
    if any (nat_eq 0) path
    then none
    else if is_empty normalized
        || begins (codes "/") normalized
        || ends_with_slash normalized
        || has_drive normalized
    then none
    else if any is_special components || is_sensitive_path normalized
    then none
    else some (join_slash components)
