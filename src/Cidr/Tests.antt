-- ===== src/Cidr/Tests.antt =====
-- Tests of `cidr` (src/sockets.cpp), and its theorems at concrete ranges.
use anope.Base.{◌≡◌, refl, true, none, some, [], ◌∷◌, arith, codes}
use anope.Text.{find_last}
use anope.Cidr.{
  inet, Address, Range, convert_exception, make, match, is_digit, digits_and_dots, digits_from,
  to_unsigned, same_family,
}
use anope.Cidr.Match.{match_high_bit}

abbrev local_net : Range
local_net = record {
  addr = record { family = inet; bytes = 10 ∷ 0 ∷ 0 ∷ 0 ∷ [] };
  ip = codes "10.0.0.0";
  len = 8;
}

abbrev peer : Address
peer = record { family = inet; bytes = 10 ∷ 128 ∷ 2 ∷ 3 ∷ [] }

bad_length : make (λ fam ip. none) (codes "10.0.0.0/1.5") ≡ convert_exception
unfolding make find_last digits_and_dots is_digit to_unsigned digits_from
bad_length = refl

match_high_bit_example : match (record local_net { len = 9 }) peer ≡ some true
unfolding same_family
match_high_bit_example =
    match_high_bit (record local_net { len = 9 }) peer (10 ∷ []) (0 ∷ 0 ∷ []) (2 ∷ 3 ∷ []) 0
      (omega arith) refl refl (omega arith) refl refl
