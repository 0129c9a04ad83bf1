-- ===== src/Users/Modes/Tests.antt =====
-- User modes that are set, read and shown.
use anope.Base.{
  ℕ, ◌≡◌, refl, Bool, true, false, ◌||◌, none, some, List, [], ◌∷◌, arith, codes, ◌==◌,
}
use anope.Text.{is_empty, equals_cs}
use anope.Tokens.{get_token, get_token_loop, trim_end}
use anope.Numbers.{u32}
use anope.ModeLocks.{mode_regular, mode_param}
use anope.ModeStacker.{
  Mode, is_param, find_by_char, find_by_name, is_same, on_list, erase_same, add_to, add_mode,
  spaced, build_step, build_loop, drop_sign, build_adds, build_dels, last_string,
  build_mode_strings, change_info, stacker_add, sent, process_modes,
}
use anope.ChanModes.{is_some}
use anope.Users.Modes.{
  Moded, put_flag, insert_param, set_mode_internal, remove_mode_internal, behind_change, param_of,
  change_step, change_loop, read_modes, internal_change, set_modes_internal, get_modes_loop,
  get_modes, set_modes, set_mode, remove_mode, asked_change,
}
use anope.Users.Modes.Known.{AreKnown}
use anope.Users.Modes.Asked.{set_modes-set_modes_internal}
use anope.Users.Modes.Report.{set_modes_internal-get_modes}

abbrev listed : List Mode
listed =
    record { place = 1; name = 18; mode_char = b'o'; type = mode_regular }
    ∷ record { place = 2; name = 2; mode_char = b'B'; type = mode_regular }
    ∷ record { place = 3; name = 22; mode_char = b's'; type = mode_param }
    ∷ []

listed-AreKnown : AreKnown listed
unfolding find_by_char
listed-AreKnown = (
  refl,
  (λ e. omega (arith, e)),
  (λ e. omega (arith, e)),
  (λ e. omega (arith, e)),
  (
    refl,
    (λ e. omega (arith, e)),
    (λ e. omega (arith, e)),
    (λ e. omega (arith, e)),
    (refl, (λ e. omega (arith, e)), (λ e. omega (arith, e)), (λ e. omega (arith, e)), tt),
  ),
)

abbrev no_modes : Moded
no_modes = record { modes = λ i. false; params = λ i. none; vhost = []; opcnt = 0; calls = [] }

-- A second text for a mode with a parameter leaves the first one.
first_param_stays :
    (set_modes_internal listed
        (codes "+s x")
        (set_modes_internal listed (codes "+s c") no_modes)).params
      22
    ≡ some (codes "c")
unfolding set_modes_internal read_modes get_token get_token_loop trim_end change_step change_loop
    find_by_char param_of is_param internal_change behind_change set_mode_internal insert_param
    is_empty
first_param_stays = refl

-- Operators are counted by text, and there are -1 of them.
opers_lost : (set_modes_internal listed (codes "+o-oo") no_modes).opcnt ≡ 4294967295
unfolding set_modes_internal read_modes get_token get_token_loop trim_end change_step change_loop
    find_by_char param_of is_param internal_change behind_change set_mode_internal
    remove_mode_internal u32 is_empty
opers_lost = refl

abbrev oper_flags : ℕ → Bool
oper_flags i = i == 18 || i == 22

letters_shown : get_modes listed oper_flags ≡ codes "os"
unfolding get_modes get_modes_loop find_by_name
letters_shown = refl

set_modes_internal-get_modes_example :
    let w' = set_modes_internal listed (b'+' ∷ get_modes listed oper_flags) no_modes in
    (w'.modes 22 ≡ true)
    × (w'.opcnt ≡ u32 1)
    × (w'.params ≡ no_modes.params)
    × (w'.vhost ≡ no_modes.vhost)
unfolding find_by_name is_some
set_modes_internal-get_modes_example =
    set_modes_internal-get_modes listed oper_flags no_modes 22 listed-AreKnown

set_modes-set_modes_internal_example :
    let w' = (set_modes none 4 listed (codes "+oB-o") (no_modes, [])).0 in
    (w'.modes 2 ≡ (set_modes_internal listed (codes "+oB-o") no_modes).modes 2)
    × (w'.opcnt ≡ 0)
    × (w'.vhost ≡ [])
set_modes-set_modes_internal_example =
    set_modes-set_modes_internal none 4 listed (codes "+oB-o") no_modes [] 2

-- What is asked of the server: a change that is taken back at once is not sent.
asked :
    (process_modes 12 (set_modes none 4 listed (codes "+oB-o") (no_modes, [])).1).0
    ≡ (none, 4, codes "+B") ∷ []
unfolding set_modes set_modes_internal read_modes get_token get_token_loop trim_end change_step
    change_loop find_by_char param_of is_param asked_change set_mode remove_mode set_mode_internal
    put_flag remove_mode_internal is_empty stacker_add change_info add_mode add_to erase_same
    on_list is_same equals_cs process_modes sent build_mode_strings build_dels build_adds build_loop
    build_step drop_sign last_string spaced
asked = refl
