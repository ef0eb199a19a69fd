-- ===== src/Value/Number.antt =====
-- value.go: the canonical spelling of a decimal number.
use statecharts.Base.{
  ℕ, suc, ◌+◌, ◌-◌, ◌*◌, Bool, true, false, ◌&&◌, ◌||◌, if◌then◌else◌, [], ◌∷◌, ◌++◌, Option, none,
  some, leb, ltb, ◌==◌, length,
}
use statecharts.Base.Bytes.{Bytes, codes, decimal}
use statecharts.Base.Options.{◌>>=◌, ◌>>◌, require}
use statecharts.Identifier.{is_nil}

-- `isDecimalDigit`
abbrev pub is_decimal_digit : ℕ → Bool
is_decimal_digit c = leb b'0' c && leb c b'9'

-- `for position < len(input) && isDecimalDigit(input[position])`: the digits, and the rest.
unfoldable pub span_digits : Bytes → Bytes × Bytes
span_digits [] = ([], [])
span_digits (c ∷ cs) =
    let (ds, rest) = span_digits cs in if is_decimal_digit c then (c ∷ ds, rest) else ([], c ∷ cs)

-- `big.Int.SetString(s, 10)` of digits.
abbrev pub digits_value : ℕ → Bytes → ℕ
digits_value acc [] = acc
digits_value acc (c ∷ cs) = digits_value (acc * 10 + (c - b'0')) cs

abbrev pub starts_with_digit : Bytes → Bool
starts_with_digit [] = false
starts_with_digit (c ∷ cs) = is_decimal_digit c

-- The sign, and the rest.
unfoldable pub parse_sign : Bytes → Bool × Bytes
parse_sign [] = (false, [])
parse_sign (c ∷ cs) = if c == b'-' then (true, cs) else (false, c ∷ cs)

-- The integer digits, and the rest.
unfoldable pub parse_integer : Bytes → Option (Bytes × Bytes)
unfolding span_digits
parse_integer [] = none
parse_integer (c ∷ cs) =
    if c == b'0'
    then (if starts_with_digit cs then none else some (c ∷ [], cs))
    else if is_decimal_digit c
    then some (span_digits (c ∷ cs))
    else none

-- The fraction digits, and the rest.
unfoldable pub parse_fraction : Bytes → Option (Bytes × Bytes)
unfolding span_digits
parse_fraction [] = some ([], [])
parse_fraction (c ∷ cs) =
    if c == b'.'
    then (if is_nil (span_digits cs).0 then none else some (span_digits cs))
    else some ([], c ∷ cs)

-- Whether the exponent is negative, and the rest.
unfoldable pub parse_exponent_sign : Bytes → Bool × Bytes
parse_exponent_sign [] = (false, [])
parse_exponent_sign (c ∷ cs) =
    if (c == b'+') || (c == b'-') then (c == b'-', cs) else (false, c ∷ cs)

-- An exponent with its sign, and the rest.
unfoldable pub parse_exponent : Bytes → Option ((Bool × ℕ) × Bytes)
unfolding span_digits parse_exponent_sign
parse_exponent [] = some ((false, 0), [])
parse_exponent (c ∷ cs) =
    let (negative, after) = parse_exponent_sign cs in
    let (ds, rest) = span_digits after in
    if (c == b'e') || (c == b'E')
    then (if is_nil ds then none else some ((negative, digits_value 0 ds), rest))
    else some ((false, 0), c ∷ cs)

unfoldable pub trim_zeros : Bytes → Bytes
trim_zeros [] = []
trim_zeros (c ∷ cs) = if c == b'0' then trim_zeros cs else c ∷ cs

-- The digits without the zeros at their end, and the number of those.
unfoldable pub trim_trailing_zeros : Bytes → Bytes × ℕ
trim_trailing_zeros [] = ([], 0)
trim_trailing_zeros (c ∷ cs) =
    let (ds, n) = trim_trailing_zeros cs in
    if is_nil ds && (c == b'0') then ([], suc n) else (c ∷ ds, n)

-- The exponent `up - down`, which is left out when it is 0: `exponent.String()`.
unfoldable pub exponent_suffix : ℕ → ℕ → Bytes
exponent_suffix up down =
    if up == down
    then []
    else if ltb down up
    then codes "e" ++ decimal (up - down)
    else codes "e-" ++ decimal (down - up)

abbrev pub minus : Bool → Bytes
minus negative = if negative then codes "-" else []

-- The part of `canonicalNumber` after the parsing.
unfoldable pub print_canonical : Bool → Bytes → Bytes → Bool × ℕ → Bytes
unfolding trim_zeros trim_trailing_zeros exponent_suffix
print_canonical negative integer fraction (exponent_negative, e) =
    let digits = trim_zeros (integer ++ fraction) in
    let (kept, zeros) = trim_trailing_zeros digits in
    let up = if exponent_negative then 0 else e in
    let down = if exponent_negative then e else 0 in
    if is_nil digits
    then codes "0"
    else minus negative ++ (kept ++ exponent_suffix (up + zeros) (down + length fraction))

-- `canonicalNumber`, whose error is `none`.
unfoldable pub canonical_number : Bytes → Option Bytes
unfolding parse_sign parse_integer parse_fraction parse_exponent print_canonical
canonical_number input = do
  let signed = parse_sign input
  integer ← parse_integer signed.1
  fraction ← parse_fraction integer.1
  exponent ← parse_exponent fraction.1
  require (is_nil exponent.1)
  some (print_canonical signed.0 integer.0 fraction.0 exponent.0)
