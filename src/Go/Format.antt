-- ===== src/Go/Format.antt =====
-- `%d` of a number that is not negative.
use undermoon_operator_old.Common.{
  ℕ, zero, suc, ◌/◌, ◌%◌, String, ◌<>◌, ◌≡◌, refl, ltb, eqb, if◌then◌else◌,
}

unfoldable pub digit : ℕ → String
digit d =
    if eqb d 0
    then "0"
    else if eqb d 1
    then "1"
    else if eqb d 2
    then "2"
    else if eqb d 3
    then "3"
    else if eqb d 4
    then "4"
    else if eqb d 5
    then "5"
    else if eqb d 6
    then "6"
    else if eqb d 7
    then "7"
    else if eqb d 8
    then "8"
    else "9"

-- The digits, on fuel above the number: each round divides by ten.
unfoldable pub digits : ℕ → ℕ → String
unfolding digit
digits zero n = ""
digits (suc fuel) n =
    let rest = digits fuel (n / 10) in if ltb n 10 then digit n else rest <> digit (n % 10)

unfoldable pub format_nat : ℕ → String
unfolding digits
format_nat n = digits (suc n) n

port_text : format_nat 7799 ≡ "7799"
unfolding format_nat
port_text = refl
