-- ===== src/Numbers/Tests.antt =====
-- Lists of numbers.
use anope.Base.{ℕ, ◌≡◌, refl, true, ◌&&◌, ◌||◌, List, [], ◌∷◌, arith, codes, leb}
use anope.Text.{is_empty, find, shift}
use anope.Tokens.{tokens, trim_end, tokens_loop}
use anope.Numbers.{
  number_list, listed, thrown, unfinished, insert_range, u32, is_digit, skip_spaces, read_digits,
  signed_digits, sign_then, read_unsigned, up_to_newline, convert_to, insert_number, bad_token,
  add_token, add_tokens, loop_tokens,
}
use anope.Numbers.Ranges.{insert_range_lem, has_number, Increasing}

in_order : number_list 10 true (codes "7,2-4,3") ≡ listed (2 ∷ 3 ∷ 4 ∷ 7 ∷ [])
unfolding number_list add_tokens loop_tokens tokens tokens_loop is_empty trim_end add_token find
    shift convert_to read_unsigned sign_then skip_spaces signed_digits is_digit read_digits
    up_to_newline insert_number insert_range u32 bad_token
in_order = refl

left_over : number_list 10 true (codes "7x,2") ≡ listed (2 ∷ [])
unfolding number_list add_tokens loop_tokens tokens tokens_loop is_empty trim_end add_token find
    shift convert_to read_unsigned sign_then skip_spaces signed_digits is_digit read_digits
    up_to_newline insert_number insert_range u32 bad_token
left_over = refl

open_range : number_list 10 true (codes "3-") ≡ thrown
unfolding number_list add_tokens loop_tokens tokens tokens_loop is_empty trim_end add_token find
    shift convert_to read_unsigned sign_then skip_spaces signed_digits is_digit read_digits
    up_to_newline insert_number insert_range u32 bad_token
open_range = refl

insert_range_example :
    ((ns : List ℕ) × (insert_range 5 2 4 (9 ∷ []) ≡ listed ns)
      × ((k : ℕ) → has_number k ns ≡ (leb 2 k && leb k 4 || has_number k (9 ∷ [])))
      × Increasing ns)
    × (insert_range 1000 2 4294967295 (9 ∷ []) ≡ unfinished)
insert_range_example =
    insert_range_lem 4 5 2 (9 ∷ []) 1000 (omega arith) (omega arith) (omega arith) (omega arith)
      (tt, tt)
