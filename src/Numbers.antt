-- ===== src/Numbers.antt =====
-- src/misc.cpp, class `NumberList`, over `convert` of include/services.h: the numbers of a list such as
-- `2,5-7`, and the callbacks on them. `std::set<unsigned>` is the list of its members in order. A range
-- is counted through on a number of rounds.
pub mod Ranges
pub mod Positions
mod Tests
use anope.Base.{
  ℕ, zero, suc, ◌+◌, ◌-◌, ◌*◌, ◌%◌, Bool, true, false, ◌&&◌, ◌||◌, Option, none, some, List, [],
  ◌∷◌, Bytes, ltb, leb, ◌==◌, if◌then◌else◌, take, drop,
}
use anope.Text.{is_empty, find}
use anope.Tokens.{tokens}

-- An `unsigned`.
unfoldable pub u32 : ℕ → ℕ
u32 n = n % 4294967296

unfoldable pub is_digit : ℕ → Bool
is_digit c = leb b'0' c && leb c b'9'

unfoldable pub skip_spaces : Bytes → Bytes
skip_spaces [] = []
skip_spaces (c ∷ s) =
    let rest = skip_spaces s in if c == 32 || leb 9 c && leb c 13 then rest else c ∷ s

-- The value of the digits at the front, and what is behind them.
unfoldable pub read_digits : ℕ → Bytes → ℕ × Bytes
read_digits n [] = (n, [])
read_digits n (c ∷ s) =
    let rest = read_digits (n * 10 + (c - b'0')) s in if is_digit c then rest else (n, c ∷ s)

-- Digits behind a sign; a value that an `unsigned` does not hold fails, and a minus wraps around.
unfoldable pub signed_digits : Bool → Bytes → Option (ℕ × Bytes)
signed_digits minus [] = none
signed_digits minus (c ∷ s) =
    let (n, rest) = read_digits 0 (c ∷ s) in
    if is_digit c
    then (if leb 4294967296 n then none else some (if minus then u32 (4294967296 - n) else n, rest))
    else none

unfoldable pub sign_then : Bytes → Option (ℕ × Bytes)
sign_then [] = none
sign_then (c ∷ s) =
    if c == b'-'
    then signed_digits true s
    else if c == b'+'
    then signed_digits false s
    else signed_digits false (c ∷ s)

-- `istringstream >> unsigned`, with the text that is left.
unfoldable pub read_unsigned : Bytes → Option (ℕ × Bytes)
read_unsigned s = sign_then (skip_spaces s)

-- `getline`.
unfoldable pub up_to_newline : Bytes → Bytes
up_to_newline [] = []
up_to_newline (c ∷ s) = let rest = up_to_newline s in if c == 10 then [] else c ∷ rest

-- `convertTo<unsigned>(s, leftover, false)`; `none` is the exception.
unfoldable pub convert_to : Bytes → Option (ℕ × Bytes)
convert_to s = elim (read_unsigned s) [
  | none ↦ none
  | some (n, rest) ↦ some (n, up_to_newline rest)
]

unfoldable pub insert_number : ℕ → List ℕ → List ℕ
insert_number n [] = n ∷ []
insert_number n (m ∷ ms) =
    let rest = insert_number n ms in
    if ltb n m then n ∷ m ∷ ms else if n == m then m ∷ ms else m ∷ rest

-- What the constructor ends with. `unfinished` is a range that the rounds were too few for.
pub data Listed : Type 0 where
  listed : List ℕ → Listed
  invalid thrown unfinished : Listed

-- `for (unsigned i = num1; i <= num2; ++i) numbers.insert(i);`
unfoldable pub insert_range : ℕ → ℕ → ℕ → List ℕ → Listed
insert_range zero i last numbers = unfinished
insert_range (suc rounds) i last numbers =
    let rest = insert_range rounds (u32 (i + 1)) last (insert_number i numbers) in
    if leb i last then rest else listed numbers

module _ (rounds : ℕ) (invalid_range : Bool) where
  -- A token that is no number or range: does `InvalidRange` go on?
  unfoldable pub bad_token : List ℕ → Listed
  bad_token numbers = if invalid_range then listed numbers else invalid

  -- The token, with the position of its dash.
  unfoldable pub add_token : Bytes → Option ℕ → List ℕ → Listed
  add_token token none numbers = elim (convert_to token) [
    | none ↦ thrown
    | some (num, error) ↦
        if is_empty error then listed (insert_number num numbers) else bad_token numbers
  ]
  add_token token (some t) numbers = elim (convert_to (take t token)) [
    | none ↦ thrown
    | some (num1, error) ↦ elim (convert_to (drop (suc t) token)) [
      | none ↦ thrown
      | some (num2, error2) ↦
          if is_empty error && is_empty error2
          then insert_range rounds num1 num2 numbers
          else bad_token numbers
    ]
  ]

  unfoldable pub add_tokens : List Bytes → List ℕ → Listed
  add_tokens [] numbers = listed numbers
  add_tokens (token ∷ ts) numbers = elim (add_token token (find b'-' token) numbers) [
    | listed numbers' ↦ add_tokens ts numbers'
    | invalid ↦ invalid
    | thrown ↦ thrown
    | unfinished ↦ unfinished
  ]

  -- The first token of the loop is the whole list where there is none, or an empty one.
  unfoldable pub loop_tokens : Bytes → List Bytes → List Bytes
  loop_tokens list [] = list ∷ []
  loop_tokens list (token ∷ ts) = if is_empty token then list ∷ ts else token ∷ ts

  -- The constructor.
  unfoldable pub number_list : Bytes → Listed
  number_list list = add_tokens (loop_tokens list (tokens b',' list)) []

module _ {S : Type 0} (handle_number : ℕ → S → S) where
  -- The callbacks in the order of the numbers, and in the opposite one.
  unfoldable pub handle_up : List ℕ → S → S
  handle_up [] s = s
  handle_up (n ∷ ns) s = handle_up ns (handle_number n s)

  unfoldable pub handle_down : List ℕ → S → S
  handle_down [] s = s
  handle_down (n ∷ ns) s = handle_number n (handle_down ns s)

  -- `Process` of a list that is valid.
  unfoldable pub process : Bool → List ℕ → S → S
  process desc numbers s = if desc then handle_down numbers s else handle_up numbers s
