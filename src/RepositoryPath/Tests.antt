-- ===== src/RepositoryPath/Tests.antt =====
-- src/git.rs: paths with backslashes, with a parent, and with a secret's name.
use previously_on.Prelude.{some, none, ◌≡◌, refl, codes, segments, is_one_of, to_ascii_lowercase}
use previously_on.RepositoryPath.{
  forward_slashes, is_sensitive_path, join_slash, validated_repository_relative_path,
}
use previously_on.RepositoryPath.Valid.{IsInside, validated_repository_relative_path_lem}

turned_test : validated_repository_relative_path (codes "src\\a.rs") ≡ some (codes "src/a.rs")
unfolding validated_repository_relative_path is_sensitive_path join_slash segments is_one_of
    to_ascii_lowercase
turned_test = refl

parent_test :
    validated_repository_relative_path (codes "src/../a.rs") ≡ none
    × validated_repository_relative_path (codes "a/.ENV") ≡ none
    × validated_repository_relative_path (codes "c:/a") ≡ none
unfolding validated_repository_relative_path is_sensitive_path join_slash segments is_one_of
    to_ascii_lowercase
parent_test = (refl, refl, refl)

validated_repository_relative_path_lem_example :
    (codes "src/a.rs" ≡ forward_slashes (codes "src\\a.rs"))
    × IsInside (codes "src/a.rs")
    × (validated_repository_relative_path (codes "src/a.rs") ≡ some (codes "src/a.rs"))
validated_repository_relative_path_lem_example =
    validated_repository_relative_path_lem (codes "src\\a.rs") (codes "src/a.rs") turned_test
