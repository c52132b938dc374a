-- ===== src/Go/ParseInt.antt =====
-- `strconv.ParseInt(s, 10, 64)`, and `s[strings.LastIndex(s, "-")+1:]`.
use Prim.Native.Char.{Char, code}
use undermoon_operator_old.Common.{
  ℕ, ◌+◌, ◌-◌, ◌*◌, ◌^◌, String, Bool, true, false, ◌&&◌, Option, none, some, ◌≡◌, refl, leb, ltb,
  eqb, if◌then◌else◌,
}
use undermoon_operator_old.Common.Int.{ℤ, pos, negsuc}

-- The value that `ParseInt` returns beside its error is used where the error is only logged: 0
-- for a syntax error, and the nearest bound for a number out of range.
pub data Parsed : Type 0 where
  value : ℤ → Parsed
  syntax_error : Parsed
  range_error : ℤ → Parsed

-- What `ParseUint` returns: an overflow is reported at the digit that brings it, whatever follows.
pub data Magnitude : Type 0 where
  read : ℕ → Magnitude
  bad overflow : Magnitude

-- The digits behind those read so far.
unfoldable pub scan : ℕ → String → Magnitude
scan n String.[] = read n
scan n (String.◌∷◌ c s) =
    let m = n * 10 + (code c - b'0') in
    let rest = scan m s in
    if leb b'0' (code c) && leb (code c) b'9'
    then (if ltb m (2 ^ 64) then rest else overflow)
    else bad

-- A text with no digit is an error.
unfoldable pub magnitude : String → Magnitude
unfolding scan
magnitude String.[] = bad
magnitude (String.◌∷◌ c s) = scan 0 (String.◌∷◌ c s)

abbrev in_range : Bool → Magnitude → Parsed
in_range negative bad = syntax_error
in_range false overflow = range_error (pos (2 ^ 63 - 1))
in_range true overflow = range_error (negsuc (2 ^ 63 - 1))
in_range false (read n) = if ltb n (2 ^ 63) then value (pos n) else range_error (pos (2 ^ 63 - 1))
in_range true (read n) =
    if eqb n 0
    then value (pos 0)
    else if leb n (2 ^ 63)
    then value (negsuc (n - 1))
    else range_error (negsuc (2 ^ 63 - 1))

unfoldable pub parse_int : String → Parsed
unfolding magnitude
parse_int String.[] = syntax_error
parse_int (String.◌∷◌ c s) =
    if eqb (code c) b'-'
    then in_range true (magnitude s)
    else if eqb (code c) b'+'
    then in_range false (magnitude s)
    else in_range false (magnitude (String.◌∷◌ c s))

-- What `ParseInt` returns as a number, whatever its error.
abbrev pub number : Parsed → ℤ
number (value z) = z
number syntax_error = pos 0
number (range_error z) = z

abbrev later : Option String → Char → String → Option String
later (some t) c s = some t
later none c s = if eqb (code c) b'-' then some s else none

-- What stands behind the last dash, if there is one.
unfoldable pub behind_dash : String → Option String
behind_dash String.[] = none
behind_dash (String.◌∷◌ c s) = later (behind_dash s) c s

-- `LastIndex` is -1 where there is no dash, and the slice is then the whole text.
unfoldable pub after_last_dash : String → String
unfolding behind_dash
after_last_dash s = elim (behind_dash s) [ none ↦ s | some t ↦ t ]

pod_ordinal : parse_int (after_last_dash "my-cluster-stg-ss-12") ≡ value (pos 12)
unfolding parse_int after_last_dash
pod_ordinal = refl

too_large : parse_int "9223372036854775808" ≡ range_error (pos (2 ^ 63 - 1))
unfolding parse_int
too_large = refl

malformed : parse_int "-1x" ≡ syntax_error
unfolding parse_int
malformed = refl

overflow_first : parse_int "99999999999999999999x" ≡ range_error (pos (2 ^ 63 - 1))
unfolding parse_int
overflow_first = refl
