-- ===== src/Times/Tests.antt =====
-- Times that are read.
use anope.Base.{◌≡◌, refl, none, some, ◌∷◌, ◌++◌, arith, codes}
use anope.Base.Int.{pos, negsuc}
use anope.Text.{is_empty}
use anope.Numbers.{is_digit, skip_spaces, read_digits, up_to_newline}
use anope.Times.{
  stringify, int_digits, sign_int, convert_int, unit_seconds, signed, scaled, with_unit, dotime,
}
use anope.Times.Units.{dotime-stringify, in_days}

one_day : dotime (codes "1d") ≡ some (pos 86400)
unfolding dotime with_unit convert_int sign_int int_digits scaled signed unit_seconds is_empty
    is_digit skip_spaces read_digits up_to_newline
one_day = refl

past : dotime (codes "-2m") ≡ some (negsuc 119)
unfolding dotime with_unit convert_int sign_int int_digits scaled signed unit_seconds is_empty
    is_digit skip_spaces read_digits up_to_newline
past = refl

too_many_years : dotime (codes "69y") ≡ none
unfolding dotime with_unit convert_int sign_int int_digits scaled signed unit_seconds is_empty
    is_digit skip_spaces read_digits up_to_newline
too_many_years = refl

no_unit : dotime (codes "1x") ≡ some (negsuc 0)
unfolding dotime with_unit convert_int sign_int int_digits scaled signed unit_seconds is_empty
    is_digit skip_spaces read_digits up_to_newline
no_unit = refl

dotime-stringify_example :
    (dotime (stringify 30 ++ (b'd' ∷ codes "ays")) ≡ some (pos 2592000))
    × (dotime (stringify 30) ≡ some (pos 0))
dotime-stringify_example = dotime-stringify 30 (codes "ays") in_days (omega arith) (omega arith)
