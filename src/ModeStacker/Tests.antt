-- ===== src/ModeStacker/Tests.antt =====
-- The mode stacker on concrete changes.
use anope.Base.{◌≡◌, refl, true, false, none, List, [], ◌∷◌, ◌++◌, arith, codes, ◌==◌}
use anope.Text.{equals_cs}
use anope.ModeLocks.{mode_regular, mode_list, mode_param}
use anope.ModeStacker.{
  Mode, StackerInfo, is_param, is_same, on_list, erase_same, add_to, add_mode, spaced, build_step,
  build_loop, drop_sign, build_adds, build_dels, last_string, build_mode_strings, no_changes,
  find_by_char, add_known,
}
use anope.ModeStacker.Read.{letters}
use anope.ModeStacker.Strings.{Says, build_mode_strings-Says}
use anope.ModeStacker.Lost.{param_lost}
use anope.ModeStacker.View.{View, Request}

abbrev key_mode : Mode
key_mode = record { place = 1; name = 5; mode_char = b'k'; type = mode_param }

abbrev ban_mode : Mode
ban_mode = record { place = 2; name = 2; mode_char = b'b'; type = mode_list }

abbrev moderated : Mode
moderated = record { place = 3; name = 9; mode_char = b'm'; type = mode_regular }

abbrev secret : Mode
secret = record { place = 4; name = 17; mode_char = b's'; type = mode_regular }

abbrev stacked : StackerInfo
stacked = record {
  add_modes = (moderated, []) ∷ (ban_mode, codes "a!*@*") ∷ (ban_mode, codes "b!*@*") ∷ [];
  del_modes = (key_mode, codes "old") ∷ [];
  bi = none;
}

stacked_strings : build_mode_strings 2 stacked ≡ codes "+mb a!*@*" ∷ codes "+b-k b!*@* old" ∷ []
unfolding build_mode_strings build_dels build_adds build_loop build_step drop_sign last_string
    spaced
stacked_strings = refl

cancelled :
    (add_mode ban_mode false (codes "x") (add_mode ban_mode true (codes "x") no_changes)).add_modes
    ≡ []
unfolding add_mode add_to erase_same on_list is_same is_param equals_cs
cancelled = refl

known_once : (add_known 50 moderated (record { modes = moderated ∷ []; generic = 0 })).0 ≡ false
unfolding add_known find_by_char
known_once = refl

build_mode_strings-Says_example :
    Says 2
      (letters true stacked.add_modes ++ letters false stacked.del_modes)
      (build_mode_strings 2 stacked)
build_mode_strings-Says_example =
    build_mode_strings-Says 2 stacked (omega arith)
      ((refl, refl, refl), ((refl, refl, refl), ((refl, refl, refl), tt))) ((refl, refl, refl), tt)

abbrev server : View
server q y = q == 3

abbrev requests : List Request
requests =
    record { mode = moderated; status = false } ∷ record { mode = secret; status = true } ∷ []

abbrev others : StackerInfo
others = record {
  add_modes = (moderated, []) ∷ (ban_mode, codes "a!*@*") ∷ [];
  del_modes = (secret, []) ∷ [];
  bi = none;
}

param_lost_example :
    add_mode key_mode true (codes "new") (add_mode key_mode false (codes "old") others) ≡ others
unfolding is_param
param_lost_example =
    param_lost key_mode (codes "old") (codes "new") others refl
      ((λ e. omega (arith, e)), ((λ e. omega (arith, e)), tt)) ((λ e. omega (arith, e)), tt)
