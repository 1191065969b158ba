-- ===== src/Prelude/Decimal.antt =====
-- Numbers in decimal, as `format!` prints them.
pub mod Parse
use Prim.Native.Nat.{ℕ, zero, suc, ◌/◌, ◌%◌}
use Prim.Native.String.{String}
use mathlib.Core.Path.{◌≡◌, refl}
use servarr_operator.Prelude.Tests.{ltb, eqb, if◌then◌else◌}
use servarr_operator.Prelude.Texts.{◌⧺◌}
use servarr_operator.Prelude.Int.{ℤ, pos, negsuc}

digit : ℕ → String
digit n =
    if eqb n 0
    then "0"
    else if eqb n 1
    then "1"
    else if eqb n 2
    then "2"
    else if eqb n 3
    then "3"
    else if eqb n 4
    then "4"
    else if eqb n 5
    then "5"
    else if eqb n 6
    then "6"
    else if eqb n 7
    then "7"
    else if eqb n 8
    then "8"
    else "9"

-- The fuel is at least the number of digits.
digits : ℕ → ℕ → String → String
digits zero n acc = acc
digits (suc fuel) n acc =
    let rest = digits fuel (n / 10) (digit (n % 10) ⧺ acc) in
    if ltb n 10 then digit n ⧺ acc else rest

unfoldable pub show : ℕ → String
unfolding digits digit ◌⧺◌
show n = digits (suc n) n ""

unfoldable pub show_int : ℤ → String
unfolding show
show_int (pos n) = show n
show_int (negsuc n) = "-" ⧺ show (suc n)

show_tests : show 0 ≡ "0"
unfolding show
show_tests = refl

show_test_many : show 65535 ≡ "65535"
unfolding show
show_test_many = refl
