-- ===== src/Times.antt =====
-- src/misc.cpp: `dotime`, the reader of times, over `convertTo<int>` and `stringify` of include/services.h.
pub mod Units
mod Tests
use anope.Base.{
  ℕ, zero, suc, ◌+◌, ◌*◌, ◌/◌, ◌%◌, Bool, true, false, ◌&&◌, Option, none, some, [], ◌∷◌, ◌++◌,
  Bytes, ltb, ◌==◌, if◌then◌else◌,
}
use anope.Base.Int.{ℤ, pos, negsuc}
use anope.Text.{is_empty}
use anope.Numbers.{is_digit, skip_spaces, read_digits, up_to_newline}

-- The digits of a number, `stringify`; there are fewer digits than rounds.
unfoldable pub decimal : ℕ → ℕ → Bytes
decimal zero n = []
decimal (suc rounds) n =
    let front = decimal rounds (n / 10) in
    if ltb n 10 then (b'0' + n) ∷ [] else front ++ (b'0' + n % 10) ∷ []

unfoldable pub stringify : ℕ → Bytes
stringify n = decimal (suc n) n

-- The sign and the digits of an `int`, with the text behind them; `none` where there are no digits or the
-- number is out of range.
unfoldable pub int_digits : Bool → Bytes → Option (Bool × ℕ × Bytes)
int_digits minus [] = none
int_digits minus (c ∷ s) =
    let (n, rest) = read_digits 0 (c ∷ s) in
    if is_digit c && ltb n (if minus then 2147483649 else 2147483648)
    then some (minus, n, rest)
    else none

unfoldable pub sign_int : Bytes → Option (Bool × ℕ × Bytes)
sign_int [] = none
sign_int (c ∷ s) =
    if c == b'-'
    then int_digits true s
    else if c == b'+'
    then int_digits false s
    else int_digits false (c ∷ s)

-- `convertTo<int>(s, end, false)`; `none` is the exception.
unfoldable pub convert_int : Bytes → Option (Bool × ℕ × Bytes)
convert_int s = elim (sign_int (skip_spaces s)) [
  | none ↦ none
  | some (minus, n, rest) ↦ some (minus, n, up_to_newline rest)
]

unfoldable pub unit_seconds : ℕ → Option ℕ
unit_seconds c =
    if c == b's'
    then some 1
    else if c == b'm'
    then some 60
    else if c == b'h'
    then some 3600
    else if c == b'd'
    then some 86400
    else if c == b'w'
    then some 604800
    else if c == b'y'
    then some 31536000
    else none

unfoldable pub signed : Bool → ℕ → ℤ
signed minus zero = pos 0
signed minus (suc n) = if minus then negsuc n else pos (suc n)

-- The product in an `int`; `none` is an overflow, which is undefined.
unfoldable pub scaled : Bool → ℕ → Option ℕ → Option ℤ
scaled minus n none = some (negsuc 0)
scaled minus n (some m) =
    if ltb (n * m) (if minus then 2147483649 else 2147483648)
    then some (signed minus (n * m))
    else none

unfoldable pub with_unit : Option (Bool × ℕ × Bytes) → Option ℤ
with_unit none = some (pos 0)
with_unit (some (minus, n, [])) = some (pos 0)
with_unit (some (minus, n, c ∷ end)) = scaled minus n (unit_seconds c)

unfoldable pub dotime : Bytes → Option ℤ
dotime s = if is_empty s then some (negsuc 0) else with_unit (convert_int s)
