-- ===== src/Base/Decimal.antt =====
-- `std::to_string` of an integer.
use Prim.Native.Nat.{ℕ, zero, suc, ◌/◌, ◌%◌}
use Prim.Native.String.{String, ◌++◌}
use mathlib.Core.Bool.{true, false}
use direct_link.Base.Tests.{ltb, ◌==◌, if◌then◌else◌}
use direct_link.Base.Int.{ℤ, pos, negsuc}

digit : ℕ → String
digit n =
    if n == 0
    then "0"
    else if n == 1
    then "1"
    else if n == 2
    then "2"
    else if n == 3
    then "3"
    else if n == 4
    then "4"
    else if n == 5
    then "5"
    else if n == 6
    then "6"
    else if n == 7
    then "7"
    else if n == 8
    then "8"
    else "9"

-- On fuel: one round for each digit.
decimal : ℕ → ℕ → String
unfolding digit
decimal zero n = ""
decimal (suc k) n = elim (ltb n 10) [
  | true ↦ digit n
  | false ↦ decimal k (n / 10) ++ digit (n % 10)
]

-- Twenty rounds print every 64-bit number.
unfoldable pub to_string : ℤ → String
unfolding decimal
to_string (pos n) = decimal 20 n
to_string (negsuc n) = "-" ++ decimal 20 (suc n)
