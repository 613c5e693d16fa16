-- ===== src/Base/Int.antt =====
-- Python's integers, under the library's names and over the native numbers.
use Prim.Native.Nat.{ℕ, zero, suc, ◌+◌, ◌/◌}
use Prim.Native.String.{String}
use Prim.Native.Char.{code}
use mathlib.Core.Option
use mathlib.Core.Option.{Option, none, some}
use mathlib.Core.Path.{◌≡◌, refl}
use mathlib.Core.Bool.{Bool, true, false}
use underlying_analyzer_rebo.Base.Tests.{leb, nat_eq, if◌then◌else◌}
use underlying_analyzer_rebo.Base.Text.{show_nat, ◌⧺◌, parse_digits, strip}

-- `negsuc n` is -(n + 1).
pub data ℤ : Type 0 where
  pos : ℕ → ℤ
  negsuc : ℕ → ℤ

abbrev pub pos_part : ℤ → ℕ
pos_part (pos n) = n
pos_part (negsuc n) = 0

abbrev pub neg_part : ℤ → ℕ
neg_part (pos n) = 0
neg_part (negsuc n) = suc n

abbrev pub leb_ℤ : ℤ → ℤ → Bool
leb_ℤ a b = leb (pos_part a + neg_part b) (pos_part b + neg_part a)

abbrev pub eq_ℤ : ℤ → ℤ → Bool
eq_ℤ a b = nat_eq (pos_part a + neg_part b) (pos_part b + neg_part a)

abbrev pub neg : ℤ → ℤ
neg (pos zero) = pos zero
neg (pos (suc n)) = negsuc n
neg (negsuc n) = pos (suc n)

abbrev pub is_zero : ℤ → Bool
is_zero (pos zero) = true
is_zero _ = false

-- `int(x / d)` for a positive `d`: rounding is towards zero.
unfoldable pub truncate : ℤ → ℕ → ℤ
truncate (pos n) d = pos (n / d)
truncate (negsuc n) d = neg (pos (suc n / d))

unfoldable pub show_int : ℤ → String
show_int (pos n) = show_nat n
show_int (negsuc n) = "-" ⧺ show_nat (suc n)

-- `int(s)`: an optional sign and digits; `none` is `ValueError`.
unfoldable pub signed : String → Option ℤ
signed String.[] = none
signed (String.◌∷◌ c s) =
    if nat_eq (code c) b'-'
    then Option.map (λ n. neg (pos n)) (parse_digits s)
    else if nat_eq (code c) b'+'
    then Option.map pos (parse_digits s)
    else Option.map pos (parse_digits (String.◌∷◌ c s))

unfoldable pub parse_int : String → Option ℤ
unfolding signed
parse_int s = signed (strip s)

show_int_runs : show_int (negsuc 32699) ≡ "-32700"
unfolding show_int show_nat
show_int_runs = refl

parse_int_runs : parse_int " -12 " ≡ some (negsuc 11)
unfolding parse_int parse_digits strip
parse_int_runs = refl
