-- ===== src/RepositoryPath/Valid.antt =====
-- src/git.rs: paths that `validated_repository_relative_path` accepts.
use previously_on.Prelude.{
  ℕ, some, List, [], ◌∷◌, false, ◌≡◌, ◌≢◌, refl, ap, ◌∙◌, if◌then◌else◌, arith, nat_eq,
  nat_partial_eq, any, list_eq_iff, codes, begins, segments, All, All-map,
}
use previously_on.Contracts.Checked.{any-false}
use previously_on.RepositoryPath.{
  forward_slashes, is_sensitive_path, is_special, join_slash, validated_repository_relative_path,
}

segments-ne-nil : (path : List ℕ) → segments path ≢ []
unfolding segments
segments-ne-nil [] h = ground arith
segments-ne-nil (c ∷ path) h = ground (arith, segments-ne-nil path)

join_slash-cons :
    (c : ℕ) (segment : List ℕ) (rest : List (List ℕ))
    → join_slash ((c ∷ segment) ∷ rest) ≡ c ∷ join_slash (segment ∷ rest)
unfolding join_slash
join_slash-cons c segment [] = refl
join_slash-cons c segment (next ∷ rest) = refl

-- What is cut at the slashes and joined again is as it was.
join_slash-segments : (path : List ℕ) → join_slash (segments path) ≡ path
unfolding segments join_slash
join_slash-segments [] = refl
join_slash-segments (c ∷ path) =
    join (segments path) (segments-ne-nil path) ∙ ap (λ r. c ∷ r) (join_slash-segments path)
  where
    join :
        (rest : List (List ℕ))
        → rest ≢ []
        → join_slash (elim rest [
          | [] ↦ []
          | segment ∷ others ↦
              if nat_eq c b'/' then [] ∷ segment ∷ others else (c ∷ segment) ∷ others
        ])
          ≡ c ∷ join_slash rest
    join [] some_segment = absurd (some_segment refl)
    join (segment ∷ others) some_segment = ground (arith, join_slash-cons c segment others)

forward_slashes-twice :
    (path : List ℕ) → forward_slashes (forward_slashes path) ≡ forward_slashes path
forward_slashes-twice [] = refl
forward_slashes-twice (c ∷ path) = ground (arith, forward_slashes-twice path)

nul-forward_slashes : (path : List ℕ) → any (nat_eq 0) (forward_slashes path) ≡ any (nat_eq 0) path
nul-forward_slashes [] = refl
nul-forward_slashes (c ∷ path) = ground (arith, nul-forward_slashes path)

-- The spelling of a path inside the repository.
pub record IsInside (path : List ℕ) : Type 0 where
  pub relative : begins (codes "/") path ≡ false
  pub ordinary :
      All
        (λ component. (component ≢ []) × (component ≢ codes ".") × (component ≢ codes ".."))
        (segments path)
  pub no_nul : All (λ c. nat_eq 0 c ≡ false) path
  pub not_sensitive : is_sensitive_path path ≡ false

validated-eq :
    (path valid : List ℕ)
    → validated_repository_relative_path path ≡ some valid
    → valid ≡ forward_slashes path
unfolding validated_repository_relative_path
validated-eq path valid h = ground (arith, join_slash-segments (forward_slashes path))

validated-IsInside :
    (path valid : List ℕ)
    → valid ≡ forward_slashes path
    → validated_repository_relative_path path ≡ some valid
    → IsInside valid
unfolding validated_repository_relative_path is_sensitive_path
validated-IsInside path valid same h = rw same (record {
  relative = ground arith;
  ordinary =
      All-map
        (λ component e. (
          ground arith,
          ground (arith, list_eq_iff component (codes ".")),
          ground (arith, list_eq_iff component (codes "..")),
        ))
        (segments (forward_slashes path))
        (any-false is_special (segments (forward_slashes path)) (ground arith));
  no_nul = any-false (nat_eq 0) (forward_slashes path) (ground (arith, nul-forward_slashes path));
  not_sensitive = ground (arith, forward_slashes-twice path);
})

validated_twice :
    (path valid : List ℕ)
    → valid ≡ forward_slashes path
    → validated_repository_relative_path path ≡ some valid
    → validated_repository_relative_path valid ≡ some valid
unfolding validated_repository_relative_path is_sensitive_path
validated_twice path valid same h = rw same (
    ground (
      arith,
      forward_slashes-twice path,
      nul-forward_slashes path,
      join_slash-segments (forward_slashes path),
    ))

-- A path that is accepted is the path given with its backslashes turned, it is relative, none of its
-- components is empty, `.` or `..`, it has no NUL and names nothing secret, and it is accepted again
-- as it stands.
pub validated_repository_relative_path_lem :
    (path valid : List ℕ)
    → validated_repository_relative_path path ≡ some valid
    → (valid ≡ forward_slashes path)
      × IsInside valid
      × (validated_repository_relative_path valid ≡ some valid)
validated_repository_relative_path_lem path valid h =
    let same = validated-eq path valid h in
    (same, validated-IsInside path valid same h, validated_twice path valid same h)
