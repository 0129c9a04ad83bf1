-- ===== src/ChanModes/Tests.antt =====
-- Modes of concrete channels.
use anope.Base.{◌≡◌, refl, true, false, none, some, [], ◌∷◌, codes}
use anope.Text.{is_empty}
use anope.ModeLocks.{ModeLock, is_regular, find_from, up_to, get_mode_list, get_mlock}
use anope.ModeStacker.{no_changes}
use anope.ChanModes.{
  Channel, Rules, find_mode, erase_mode, insert_mode, is_some, is_list, put_mode, mark_perm,
  set_against, set_internal, change_internal,
}
use anope.ChanModes.Locked.{regular_mode, locked_regular}
use anope.ChanModes.LockedParam.{param_mode, locked_param}

abbrev rules : Rules
rules = record {
  stops = λ s m p. false;
  is_valid = λ m p. true;
  minus_no_arg = λ m. false;
  registered = none;
  perm_name = 99;
}

abbrev no_m : ModeLock
no_m = record { set = false; name = 4; param = []; setter = codes "op"; created = 1 }

abbrev key_lock : ModeLock
key_lock = record { set = true; name = 5; param = codes "right"; setter = codes "op"; created = 1 }

abbrev channel : Channel
channel = record {
  modes = [];
  ci = some (no_m ∷ key_lock ∷ []);
  persist = false;
  ci_persist = false;
  no_users = false;
  stack = no_changes;
  deleted = false;
}

abbrev free_channel : Channel
free_channel = record channel { ci = none }

no_lock :
    elim (change_internal rules 1 true (regular_mode 1 4 109) [] true free_channel) [
      | none ↦ []
      | some c ↦ c.modes
    ]
    ≡ (4, []) ∷ []
unfolding change_internal set_internal put_mode mark_perm set_against is_list is_regular is_empty
    insert_mode erase_mode
no_lock = refl

locked_regular_example :
    (c' : Channel) × (change_internal rules 2 true (regular_mode 1 4 109) [] true channel ≡ some c')
    × (is_some (find_mode 4 c'.modes) ≡ no_m.set)
unfolding get_mlock get_mode_list find_from up_to is_empty
locked_regular_example =
    locked_regular rules 1 4 109 (no_m ∷ key_lock ∷ []) no_m true channel (refl, refl, refl) refl
      refl

locked_param_example :
    (c' : Channel) × (change_internal rules 2 true (param_mode 2 5 107) (codes "wrong") true channel
      ≡ some c')
    × (find_mode 5 c'.modes ≡ some (codes "right"))
unfolding get_mlock get_mode_list find_from up_to is_empty
locked_param_example =
    locked_param rules 2 5 107 (no_m ∷ key_lock ∷ []) key_lock (codes "wrong") channel
      (refl, refl, refl) (refl, refl, refl) refl refl refl refl refl refl
