-- ===== src/ChanModes/LockedParam.antt =====
-- The parameter that a lock asks for is the one that the channel has.
use anope.Base.{
  ℕ, ◌≡◌, refl, ap, ◌∙◌, inl, inr, true, false, some, List, [], arith, Bytes, Bool-cases,
}
use anope.Text.{is_empty, equals_cs}
use anope.Text.Order.{equals_cs_iff}
use anope.ModeLocks.{ModeLock, mode_param, is_regular, get_mlock, same}
use anope.ModeStacker.{Mode, is_param, add_mode}
use anope.ChanModes.{
  Channel, Rules, find_mode, is_list, put_mode, Change, is_set, set_mode, enforce_set, set_internal,
  change_internal,
}
use anope.ChanModes.Locked.{IsPlain, with_mode, set_internal-lock, find-insert-erase}

abbrev pub param_mode : ℕ → ℕ → ℕ → Mode
param_mode place name mode_char = record {
  place = place;
  name = name;
  mode_char = mode_char;
  type = mode_param;
}

module _ (rules : Rules) (place name mode_char : ℕ) (locks : List ModeLock) (ml : ModeLock) where
  -- One call with a parameter, down to what the lock does.
  set_param_once :
      (rest : Change) (param : Bytes) (c : Channel)
      → IsPlain rules (param_mode place name mode_char) param
      → is_empty param ≡ false
      → get_mlock name [] locks ≡ some ml
      → c.ci ≡ some locks
      → set_internal rules rest (param_mode place name mode_char) param true c
        ≡ enforce_set rules rest (param_mode place name mode_char) param ml (with_mode name param c)
  unfolding put_mode is_list is_regular is_param
  set_param_once rest param c plain full lock reg =
      set_internal-lock rules rest (param_mode place name mode_char) param locks ml c plain
        (rw full refl) reg lock

  -- The parameter is as the lock asks.
  right_param :
      (rest : Change) (param : Bytes) (c : Channel)
      → ml.set ≡ true
      → is_empty ml.param ≡ false
      → find_mode name c.modes ≡ some ml.param
      → enforce_set rules rest (param_mode place name mode_char) param ml c ≡ some c
  unfolding enforce_set
  right_param rest param c on full e =
      rw (e, enforce_set, on, full, (equals_cs_iff ml.param ml.param).1 refl) refl

  wrong_param-set :
      (rest : Change) (param : Bytes) (c : Channel)
      → ml.set ≡ true
      → equals_cs param ml.param ≡ false
      → find_mode name c.modes ≡ some param
      → enforce_set rules rest (param_mode place name mode_char) param ml c
        ≡ set_mode rules rest (param_mode place name mode_char) ml.param true c
  unfolding enforce_set
  wrong_param-set rest param c on ne e = rw (e, enforce_set, on, ne) (ground arith)

  is_set_other :
      (param : Bytes) (c : Channel)
      → rules.is_valid (param_mode place name mode_char) ml.param ≡ true
      → equals_cs param ml.param ≡ false
      → find_mode name c.modes ≡ some param
      → is_set rules (param_mode place name mode_char) ml.param c ≡ false
  unfolding is_set
  is_set_other param c valid ne e = rw (e, is_set, valid, ne) refl

  set_mode-other :
      (rest : Change) (param : Bytes) (c : Channel)
      → rules.is_valid (param_mode place name mode_char) ml.param ≡ true
      → equals_cs param ml.param ≡ false
      → find_mode name c.modes ≡ some param
      → set_mode rules rest (param_mode place name mode_char) ml.param true c
        ≡ rest true
            (param_mode place name mode_char)
            ml.param
            true
            (record c { stack = add_mode (param_mode place name mode_char) true ml.param c.stack })
  unfolding set_mode
  set_mode-other rest param c valid ne e = rw (is_set_other param c valid ne e) refl

-- If a registered channel has a lock that sets a parameter mode, with a parameter that is valid and not
-- empty, then setting the mode to any parameter that is not empty, with the locks enforced, ends within two
-- calls, and the channel has the parameter of the lock. No module stops the changes, and the mode is not that of
-- persistent channels.
pub locked_param :
    (rules : Rules) (place name mode_char : ℕ) (locks : List ModeLock) (ml : ModeLock)
    (param : Bytes) (c : Channel)
    → IsPlain rules (param_mode place name mode_char) param
    → IsPlain rules (param_mode place name mode_char) ml.param
    → rules.is_valid (param_mode place name mode_char) ml.param ≡ true
    → is_empty param ≡ false
    → is_empty ml.param ≡ false
    → ml.set ≡ true
    → get_mlock name [] locks ≡ some ml
    → c.ci ≡ some locks
    → (c' : Channel) × (change_internal rules 2 true (param_mode place name mode_char) param true c
        ≡ some c')
      × (find_mode name c'.modes ≡ some ml.param)
unfolding change_internal
locked_param rules place name mode_char locks ml param c plain plain' valid full full' on lock reg =
    let first =
      set_param_once rules place name mode_char locks ml (change_internal rules 1) param c plain
        full lock reg in
    elim (Bool-cases (equals_cs param ml.param)) [
      | inl same ↦
          let found =
            find-insert-erase name param c.modes
            ∙ ap some ((equals_cs_iff param ml.param).0 same) in
          (
            with_mode name param c,
            first
                ∙ right_param rules place name mode_char locks ml (change_internal rules 1) param
                    (with_mode name param c) on full' found,
            found,
          )
      | inr ne ↦
          let found = find-insert-erase name param c.modes in
          let c1 = record (with_mode name param c) {
            stack = add_mode (param_mode place name mode_char) true ml.param c.stack;
          } in
          let found' = find-insert-erase name ml.param c1.modes in
          (
            with_mode name ml.param c1,
            first
                ∙ (wrong_param-set rules place name mode_char locks ml (change_internal rules 1)
                      param (with_mode name param c) on ne found
                    ∙ (set_mode-other rules place name mode_char locks ml (change_internal rules 1)
                          param (with_mode name param c) valid ne found
                        ∙ (set_param_once rules place name mode_char locks ml
                              (change_internal rules 0) ml.param c1 plain' full' lock reg
                            ∙ right_param rules place name mode_char locks ml
                                (change_internal rules 0) ml.param (with_mode name ml.param c1) on
                                full' found'))),
            found',
          )
    ]
