-- ===== src/Prelude/Decimal.antt =====
-- A number can be read back from the text that `format!` prints of it.
use Prim.Native.Char.{code}
use Prim.Native.Nat.{ℕ, zero, suc, ◌+◌, ◌-◌, ◌*◌, ◌/◌, ◌%◌, ◌<◌}
use Prim.Native.String.{String, ◌++◌ as str_append}
use Prim.Native.String.append
use mathlib.Core.Path.{◌≡◌, refl, sym, ap, ◌∙◌}
use mathlib.Core.Logic.{inl, inr}
use mathlib.Core.List.{List, [], ◌∷◌, ◌++◌}
use native.Mathlib.Omega.{arith}
use previously_on.Prelude.Tests.{ltb, Bool-cases}
use previously_on.Prelude.Text.{codes, decimal, decimal_from, digit}

pub codes-append : (s t : String) → codes (str_append s t) ≡ codes s ++ codes t
codes-append String.[] t = ap codes (append.nil t)
codes-append (String.◌∷◌ c s) t =
    ap codes (append.cons c s t) ∙ ap (λ r. code c ∷ r) (codes-append s t)

-- The value of digits, after those read so far.
read_from : ℕ → List ℕ → ℕ
read_from acc [] = acc
read_from acc (c ∷ cs) = read_from (acc * 10 + (c - 48)) cs

read_from-append :
    (acc : ℕ) (xs ys : List ℕ) → read_from acc (xs ++ ys) ≡ read_from (read_from acc xs) ys
unfolding read_from
read_from-append acc [] ys = refl
read_from-append acc (x ∷ xs) ys = read_from-append (acc * 10 + (x - 48)) xs ys

read_from-digit : (acc n : ℕ) → n < 10 → read_from acc (codes (digit n)) ≡ acc * 10 + n
unfolding read_from digit
read_from-digit acc zero h = refl
read_from-digit acc (suc zero) h = refl
read_from-digit acc (suc (suc zero)) h = refl
read_from-digit acc (suc (suc (suc zero))) h = refl
read_from-digit acc (suc (suc (suc (suc zero)))) h = refl
read_from-digit acc (suc (suc (suc (suc (suc zero))))) h = refl
read_from-digit acc (suc (suc (suc (suc (suc (suc zero)))))) h = refl
read_from-digit acc (suc (suc (suc (suc (suc (suc (suc zero))))))) h = refl
read_from-digit acc (suc (suc (suc (suc (suc (suc (suc (suc zero)))))))) h = refl
read_from-digit acc (suc (suc (suc (suc (suc (suc (suc (suc (suc n))))))))) h = omega arith

read_from-decimal_from : (fuel n : ℕ) → n < fuel → read_from 0 (codes (decimal_from fuel n)) ≡ n
unfolding decimal_from
read_from-decimal_from zero n h = absurd (omega arith)
read_from-decimal_from (suc fuel) n h = elim (Bool-cases (ltb n 10)) [
  | inl small ↦ rw small (omega (arith, read_from-digit 0 n (ground arith)))
  | inr large ↦
      rw (large, codes-append (decimal_from fuel (n / 10)) (digit (n % 10)))
        (read_from-append 0 (codes (decimal_from fuel (n / 10))) (codes (digit (n % 10)))
          ∙ read_from-digit (read_from 0 (codes (decimal_from fuel (n / 10)))) (n % 10)
              (omega arith)
          ∙ omega (arith, read_from-decimal_from fuel (n / 10) (ground arith)))
]

pub decimal-inj : (m n : ℕ) → decimal m ≡ decimal n → m ≡ n
unfolding decimal
decimal-inj m n h =
    sym (read_from-decimal_from (suc m) m (omega arith))
    ∙ ap (λ s. read_from 0 (codes s)) h
    ∙ read_from-decimal_from (suc n) n (omega arith)
