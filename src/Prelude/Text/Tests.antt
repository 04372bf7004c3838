-- ===== src/Prelude/Text/Tests.antt =====
-- Numbers, whitespace and characters of small texts.
use mathlib.Core.Path.{◌≡◌, refl}
use previously_on.Prelude.Text.{char_count, trim, decimal}

decimal_test : decimal 2047 ≡ "2047"
unfolding decimal
decimal_test = refl

trim_test : trim "  a b \n" ≡ "a b"
unfolding trim
trim_test = refl

nul_test : char_count "\0" ≡ 1
unfolding char_count
nul_test = refl
