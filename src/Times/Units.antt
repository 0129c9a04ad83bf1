-- ===== src/Times/Units.antt =====
-- A number that is written out, with a unit or without.
use anope.Base.{
  ℕ, zero, suc, ◌+◌, ◌*◌, ◌/◌, ◌%◌, ◌<◌, ◌≡◌, refl, sym, ap, ◌∙◌, inl, inr, Bool, true, false, not,
  ◌&&◌, Option, none, some, [], ◌∷◌, ◌++◌, append-nil, append_assoc, arith, Bytes, ltb, ◌==◌,
  if◌then◌else◌, Bool-cases, dec_lt,
}
use anope.Base.Int.{pos}
use anope.Text.{is_empty}
use anope.Numbers.{is_digit, skip_spaces, read_digits, up_to_newline}
use anope.Times.{
  decimal, stringify, int_digits, sign_int, convert_int, unit_seconds, signed, scaled, with_unit,
  dotime,
}

-- Not a digit, and no newline.
unfoldable pub ends_number : Bytes → Bool
ends_number [] = true
ends_number (c ∷ s) = not (is_digit c) && not (c == 10)

digit_lem : (n : ℕ) → n < 10 → is_digit (b'0' + n) ≡ true
unfolding is_digit
digit_lem n lt = ground (arith, lt)

read_digit :
    (n d : ℕ) (rest : Bytes)
    → d < 10
    → read_digits n ((b'0' + d) ∷ rest) ≡ read_digits (n * 10 + d) rest
unfolding read_digits
read_digit n d rest lt = rw (digit_lem d lt) (ap (λ x. read_digits (n * 10 + x) rest) (omega arith))

read_decimal :
    (rounds n : ℕ) (rest : Bytes)
    → n < rounds
    → read_digits 0 (decimal rounds n ++ rest) ≡ read_digits n rest
unfolding decimal
read_decimal zero n rest lt = absurd (omega arith)
read_decimal (suc rounds) n rest lt = elim (dec_lt n 10) [
  | yes small ↦
      let test : ltb n 10 ≡ true = ground (arith, small) in
      rw test (read_digit 0 n rest small ∙ ap (λ x. read_digits x rest) (omega arith))
  | no large ↦
      let test : ltb n 10 ≡ false = ground (arith, large) in
      rw test (
        ap (read_digits 0) (append_assoc (decimal rounds (n / 10)) ((b'0' + n % 10) ∷ []) rest)
        ∙ (read_decimal rounds (n / 10) ((b'0' + n % 10) ∷ rest) (omega (arith, lt, large))
            ∙ (read_digit (n / 10) (n % 10) rest (omega arith)
                ∙ ap (λ x. read_digits x rest) (omega arith))))
]

-- The first digit.
decimal_head :
    (rounds n : ℕ)
    → n < rounds
    → (c : ℕ) × (t : Bytes) × (decimal rounds n ≡ c ∷ t) × (is_digit c ≡ true)
unfolding decimal
decimal_head zero n lt = absurd (omega arith)
decimal_head (suc rounds) n lt = elim (dec_lt n 10) [
  | yes small ↦
      let test : ltb n 10 ≡ true = ground (arith, small) in
      (b'0' + n, [], rw test refl, digit_lem n small)
  | no large ↦
      let test : ltb n 10 ≡ false = ground (arith, large) in
      let (c, t, e, d) = decimal_head rounds (n / 10) (omega (arith, lt, large)) in
      (c, t ++ (b'0' + n % 10) ∷ [], rw test (ap (λ s. s ++ (b'0' + n % 10) ∷ []) e), d)
]

number_ends : (n : ℕ) (rest : Bytes) → ends_number rest ≡ true → read_digits n rest ≡ (n, rest)
unfolding read_digits ends_number
number_ends n [] e = refl
number_ends n (c ∷ rest) e = elim (Bool-cases (is_digit c)) [
  | inl d ↦ absurd (ground (arith, e, d))
  | inr d ↦ rw d refl
]

no_space : (c : ℕ) (t : Bytes) → is_digit c ≡ true → skip_spaces (c ∷ t) ≡ c ∷ t
unfolding skip_spaces is_digit
no_space c t d = ground (arith, d)

no_sign : (c : ℕ) (t : Bytes) → is_digit c ≡ true → sign_int (c ∷ t) ≡ int_digits false (c ∷ t)
unfolding sign_int is_digit
no_sign c t d = ground (arith, d)

digits_lem :
    (c n : ℕ) (t rest : Bytes)
    → is_digit c ≡ true
    → n < 2147483648
    → read_digits 0 (c ∷ t) ≡ (n, rest)
    → int_digits false (c ∷ t) ≡ some (false, n, rest)
unfolding int_digits
digits_lem c n t rest d small e =
    let test : ltb n 2147483648 ≡ true = ground (arith, small) in
    ap
      (λ (r : ℕ × Bytes). if is_digit c && ltb r.0 2147483648 then some (false, r.0, r.1) else none)
      e
    ∙ rw (d, test) refl

-- What `convertTo<int>` makes of the number and the text behind it.
int_of : Option (Bool × ℕ × Bytes) → Option (Bool × ℕ × Bytes)
int_of none = none
int_of (some (minus, n, rest)) = some (minus, n, up_to_newline rest)

dotime_number :
    (n : ℕ) (rest : Bytes)
    → n < 2147483648
    → ends_number rest ≡ true
    → dotime (stringify n ++ rest) ≡ with_unit (some (false, n, up_to_newline rest))
unfolding dotime convert_int stringify is_empty int_of
dotime_number n rest small ends =
    let (c, t, e, d) = decimal_head (suc n) n (omega arith) in
    let here : decimal (suc n) n ++ rest ≡ c ∷ (t ++ rest) = ap (λ s. s ++ rest) e in
    let run : read_digits 0 (c ∷ (t ++ rest)) ≡ (n, rest) =
      ap (read_digits 0) (sym here)
      ∙ (read_decimal (suc n) n rest (omega arith) ∙ number_ends n rest ends) in
    let read : sign_int (skip_spaces (c ∷ (t ++ rest))) ≡ some (false, n, rest) =
      ap sign_int (no_space c (t ++ rest) d)
      ∙ (no_sign c (t ++ rest) d ∙ digits_lem c n (t ++ rest) rest d small run) in
    ap dotime here ∙ ap (λ o. with_unit (int_of o)) read

unit_ends : (c m : ℕ) (rest : Bytes) → unit_seconds c ≡ some m → ends_number (c ∷ rest) ≡ true
unfolding unit_seconds ends_number is_digit
unit_ends c m rest e = ground (arith, e)

newline_behind :
    (c m : ℕ) (rest : Bytes)
    → unit_seconds c ≡ some m
    → up_to_newline (c ∷ rest) ≡ c ∷ up_to_newline rest
unfolding unit_seconds up_to_newline
newline_behind c m rest e = ground (arith, e)

signed_lem : (n : ℕ) → signed false n ≡ pos n
unfolding signed
signed_lem zero = refl
signed_lem (suc n) = refl

scaled_lem : (n m : ℕ) → n * m < 2147483648 → scaled false n (some m) ≡ some (pos (n * m))
unfolding scaled
scaled_lem n m lt =
    let test : ltb (n * m) 2147483648 ≡ true = ground (arith, lt) in
    rw test (ap some (signed_lem (n * m)))

-- A unit and its length.
pub data InSeconds : ℕ → ℕ → Type 0 where
  in_seconds : InSeconds b's' 1
  in_minutes : InSeconds b'm' 60
  in_hours : InSeconds b'h' 3600
  in_days : InSeconds b'd' 86400
  in_weeks : InSeconds b'w' 604800
  in_years : InSeconds b'y' 31536000

unit_seconds_lem : {c m : ℕ} → InSeconds c m → unit_seconds c ≡ some m
unfolding unit_seconds
unit_seconds_lem in_seconds = refl
unit_seconds_lem in_minutes = refl
unit_seconds_lem in_hours = refl
unit_seconds_lem in_days = refl
unit_seconds_lem in_weeks = refl
unit_seconds_lem in_years = refl

-- A number that is written out with a unit behind it (s, m, h, d, w or y, of 1, 60, 3600, 86400, 604800 and
-- 31536000 seconds), whatever follows, is the time of so many units in seconds, where that and the number are
-- below 2^31. The number alone is the time 0.
pub dotime-stringify :
    {m c : ℕ} (n : ℕ) (rest : Bytes)
    → InSeconds c m
    → n < 2147483648
    → n * m < 2147483648
    → (dotime (stringify n ++ c ∷ rest) ≡ some (pos (n * m)))
      × (dotime (stringify n) ≡ some (pos 0))
unfolding with_unit up_to_newline ends_number
dotime-stringify {m} {c} n rest is_unit small lt =
    let unit = unit_seconds_lem is_unit in
    (
      dotime_number n (c ∷ rest) small (unit_ends c m rest unit)
          ∙ (ap (λ s. with_unit (some (false, n, s))) (newline_behind c m rest unit)
              ∙ (ap (scaled false n) unit ∙ scaled_lem n m lt)),
      ap dotime (sym (append-nil (stringify n))) ∙ dotime_number n [] small refl,
    )
