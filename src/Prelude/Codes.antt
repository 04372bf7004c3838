-- ===== src/Prelude/Codes.antt =====
-- Operations of `str` on code points: prefixes, small letters, and the parts between slashes.
use Prim.Native.Nat.{ℕ, ◌+◌}
use Prim.Native.String.{String}
use mathlib.Core.Bool.{Bool, true, false, ◌&&◌}
use mathlib.Core.List.{List, [], ◌∷◌, map}
use previously_on.Prelude.Tests.{if◌then◌else◌, leb, nat_eq, nat_partial_eq}
use previously_on.Prelude.Lists.{any, list_eq}
use previously_on.Prelude.Text.{codes}

-- `starts_with`, on code points.
abbrev pub begins : List ℕ → List ℕ → Bool
begins [] text = true
begins (s ∷ symbol) [] = false
begins (s ∷ symbol) (c ∷ text) = nat_eq s c && begins symbol text

-- `to_ascii_lowercase`.
unfoldable pub to_ascii_lowercase : List ℕ → List ℕ
to_ascii_lowercase = map (λ c. if leb b'A' c && leb c b'Z' then c + 32 else c)

-- A `match` on one of several names.
unfoldable pub is_one_of : List ℕ → List String → Bool
is_one_of name names = any (λ s. list_eq name (codes s)) names

-- `split('/')`.
unfoldable pub segments : List ℕ → List (List ℕ)
segments [] = [] ∷ []
segments (c ∷ text) = elim (segments text) [
  | [] ↦ []
  | segment ∷ rest ↦ if nat_eq c b'/' then [] ∷ segment ∷ rest else (c ∷ segment) ∷ rest
]
