-- ===== src/Base/Decimal.antt =====
-- The decimal text of an unsigned integer, as Rust's `to_string` and `{}` print it.
use Prim.Native.Nat.{ℕ, zero, suc, ◌/◌, ◌%◌}
use Prim.Native.String.{String, ◌++◌}
use mathlib.Core.Path.{◌≡◌, refl}
use id2203_project.Base.Tests.{ltb, ◌==◌, id_key, if◌then◌else◌}

digit : ℕ → String
digit d =
    if d == 0
    then "0"
    else if d == 1
    then "1"
    else if d == 2
    then "2"
    else if d == 3
    then "3"
    else if d == 4
    then "4"
    else if d == 5
    then "5"
    else if d == 6
    then "6"
    else if d == 7
    then "7"
    else if d == 8
    then "8"
    else "9"

decimal_loop : ℕ → ℕ → String → String
unfolding digit
decimal_loop zero n acc = acc
decimal_loop (suc fuel) n acc =
    let acc' = digit (n % 10) ++ acc in
    let rest = decimal_loop fuel (n / 10) acc' in if ltb n 10 then acc' else rest

-- A number has fewer digits than `n + 1`.
unfoldable pub decimal : ℕ → String
unfolding decimal_loop
decimal n = decimal_loop (suc n) n ""

decimal_2203 : decimal 2203 ≡ "2203"
unfolding decimal
decimal_2203 = refl
