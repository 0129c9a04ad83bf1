-- ===== src/ChanModes/Locked.antt =====
-- The calls end, and the channel obeys its mode locks behind them.
use anope.Base.{
  ℕ, ◌≡◌, refl, sym, ap, ◌∙◌, inl, inr, Bool, true, false, not, ◌&&◌, Option, none, some, List, [],
  ◌∷◌, arith, Bytes, ltb, ◌==◌, if◌then◌else◌, ==_self, Bool-cases,
}
use anope.Text.{is_empty}
use anope.Text.{is_empty}
use anope.ModeLocks.{ModeLock, mode_regular, is_regular, get_mlock}
use anope.ModeStacker.{Mode, is_param, add_mode}
use anope.ChanModes.{
  Channel, ModeList, Rules, find_mode, erase_mode, insert_mode, is_list, put_mode, mark_perm,
  Change, enforce_set, set_internal, drop_mode, enforce_unset, remove_internal, set_against,
  unset_against, is_some, has_mode, is_set, is_unset, set_mode, real_param, remove_mode,
  change_internal,
}

pub find-insert-erase :
    (name : ℕ) (p : Bytes) (ms : ModeList)
    → find_mode name (insert_mode name p (erase_mode name ms)) ≡ some p
unfolding find_mode insert_mode erase_mode
find-insert-erase name p [] = ground arith
find-insert-erase name p ((n, q) ∷ ms) = elim (Bool-cases (n == name)) [
  | inl e ↦ rw e (find-insert-erase name p ms)
  | inr e ↦ elim (Bool-cases (ltb name n)) [
    | inl l ↦ rw (e, l, find_mode, ==_self name) refl
    | inr l ↦ rw (e, l, find_mode, e) (find-insert-erase name p ms)
  ]
]

find-erase : (name : ℕ) (ms : ModeList) → find_mode name (erase_mode name ms) ≡ none
unfolding find_mode erase_mode
find-erase name [] = refl
find-erase name ((n, q) ∷ ms) = elim (Bool-cases (n == name)) [
  | inl e ↦ rw e (find-erase name ms)
  | inr e ↦ rw (e, find_mode, e) (find-erase name ms)
]

abbrev pub regular_mode : ℕ → ℕ → ℕ → Mode
regular_mode place name mode_char = record {
  place = place;
  name = name;
  mode_char = mode_char;
  type = mode_regular;
}

abbrev pub with_mode : ℕ → Bytes → Channel → Channel
with_mode name param c = record c { modes = insert_mode name param (erase_mode name c.modes) }

abbrev less_mode : ℕ → Channel → Channel
less_mode name c = record c { modes = erase_mode name c.modes }

-- The mode is not that of persistent channels, and no module stops the change.
abbrev pub IsPlain : Rules → Mode → Bytes → Type 0
IsPlain rules m param =
    ((m.name == rules.perm_name) ≡ false)
    × (rules.stops true m param ≡ false)
    × (rules.stops false m param ≡ false)

module _ (rules : Rules) (rest : Change) (m : Mode) (param : Bytes) (locks : List ModeLock)
    (ml : ModeLock) (c : Channel) where
  plain_mark :
      (status : Bool) → (m.name == rules.perm_name) ≡ false → mark_perm rules status m c ≡ c
  unfolding mark_perm
  plain_mark status np = rw np refl

  set_opened :
      get_mlock m.name (if is_param m.type then [] else param) locks ≡ some ml
      → set_against rules rest m param (some locks) c ≡ enforce_set rules rest m param ml c
  unfolding set_against
  set_opened lock = rw (lock, set_against) refl

  unset_opened :
      get_mlock m.name param locks ≡ some ml
      → unset_against rules rest m param (some locks) c ≡ enforce_unset rules rest m ml c
  unfolding unset_against
  unset_opened lock = rw (lock, unset_against) refl

module _ (rules : Rules) (rest : Change) (m : Mode) (param : Bytes) (locks : List ModeLock)
    (ml : ModeLock) (c : Channel) where
  -- A change of a plain mode that may be made comes down to what its lock does.
  pub set_internal-lock :
      IsPlain rules m param
      → is_empty param && not (is_regular m.type) ≡ false
      → (put_mode m param c).ci ≡ some locks
      → get_mlock m.name (if is_param m.type then [] else param) locks ≡ some ml
      → set_internal rules rest m param true c
        ≡ enforce_set rules rest m param ml (put_mode m param c)
  unfolding set_internal
  set_internal-lock (np, go, gone) full reg lock =
      rw (full, go, plain_mark rules rest m param locks ml (put_mode m param c) true np)
        (ap (λ o. set_against rules rest m param o (put_mode m param c)) reg
          ∙ set_opened rules rest m param locks ml (put_mode m param c) lock)

  remove_internal-lock :
      IsPlain rules m param
      → (drop_mode m param c).ci ≡ some locks
      → get_mlock m.name param locks ≡ some ml
      → remove_internal rules rest m param true c
        ≡ enforce_unset rules rest m ml (drop_mode m param c)
  unfolding remove_internal
  remove_internal-lock (np, go, gone) reg lock =
      rw (np, gone, plain_mark rules rest m param locks ml (drop_mode m param c) false np)
        (ap (λ o. unset_against rules rest m param o (drop_mode m param c)) reg
          ∙ unset_opened rules rest m param locks ml (drop_mode m param c) lock)

module _ (rules : Rules) (rest : Change) (place name mode_char : ℕ) (c : Channel) where
  set_mode-absent :
      find_mode name c.modes ≡ none
      → set_mode rules rest (regular_mode place name mode_char) [] true c
        ≡ rest true
            (regular_mode place name mode_char)
            []
            true
            (record c { stack = add_mode (regular_mode place name mode_char) true [] c.stack })
  unfolding set_mode is_set has_mode is_some is_empty find_mode
  set_mode-absent e = rw (absent e) refl
    where
      absent : find_mode name c.modes ≡ none → has_mode name [] c ≡ false
      absent e = ap is_some e

  remove_mode-present :
      find_mode name c.modes ≡ some []
      → remove_mode rules rest (regular_mode place name mode_char) [] true c
        ≡ rest false
            (regular_mode place name mode_char)
            []
            true
            (record c { stack = add_mode (regular_mode place name mode_char) false [] c.stack })
  unfolding remove_mode is_unset real_param has_mode is_some is_empty find_mode
  remove_mode-present e = rw (present e) refl
    where
      present : find_mode name c.modes ≡ some [] → has_mode name [] c ≡ true
      present e = ap is_some e

  enforce_unset_off :
      (ml : ModeLock)
      → ml.set ≡ false
      → enforce_unset rules rest (regular_mode place name mode_char) ml c ≡ some c
  unfolding enforce_unset
  enforce_unset_off ml off = rw off refl

  enforce_unset_on :
      (ml : ModeLock)
      → ml.set ≡ true
      → enforce_unset rules rest (regular_mode place name mode_char) ml c
        ≡ set_mode rules rest (regular_mode place name mode_char) [] true c
  unfolding enforce_unset
  enforce_unset_on ml on = rw on refl

  enforce_set_on :
      (ml : ModeLock)
      → ml.set ≡ true
      → enforce_set rules rest (regular_mode place name mode_char) [] ml c ≡ some c
  unfolding enforce_set
  enforce_set_on ml on = rw on refl

  enforce_set_off :
      (ml : ModeLock)
      → ml.set ≡ false
      → enforce_set rules rest (regular_mode place name mode_char) [] ml c
        ≡ remove_mode rules rest (regular_mode place name mode_char) [] true c
  unfolding enforce_set
  enforce_set_off ml off = rw off refl

module _ (rules : Rules) (place name mode_char : ℕ) (locks : List ModeLock) (ml : ModeLock)
    (plain : IsPlain rules (regular_mode place name mode_char) [])
    (lock : get_mlock name [] locks ≡ some ml) where
  -- One call, where the lock is not against it or against it.
  set_once :
      (rest : Change) (c : Channel)
      → c.ci ≡ some locks
      → set_internal rules rest (regular_mode place name mode_char) [] true c
        ≡ enforce_set rules rest (regular_mode place name mode_char) [] ml (with_mode name [] c)
  unfolding put_mode is_list is_regular is_param is_empty
  set_once rest c reg =
      set_internal-lock rules rest (regular_mode place name mode_char) [] locks ml c plain refl reg
        lock

  unset_once :
      (rest : Change) (c : Channel)
      → c.ci ≡ some locks
      → remove_internal rules rest (regular_mode place name mode_char) [] true c
        ≡ enforce_unset rules rest (regular_mode place name mode_char) ml (less_mode name c)
  unfolding drop_mode is_list
  unset_once rest c reg =
      remove_internal-lock rules rest (regular_mode place name mode_char) [] locks ml c plain reg
        lock

  abbrev Obeys : Option Channel → Type 0
  Obeys r = (c' : Channel) × (r ≡ some c') × (is_some (find_mode name c'.modes) ≡ ml.set)

  set-Obeys :
      (c : Channel)
      → c.ci ≡ some locks
      → Obeys (change_internal rules 2 true (regular_mode place name mode_char) [] true c)
  unfolding change_internal is_some
  set-Obeys c reg = elim (Bool-cases ml.set) [
    | inl on ↦ (
      with_mode name [] c,
      set_once (change_internal rules 1) c reg
          ∙ enforce_set_on rules (change_internal rules 1) place name mode_char
              (with_mode name [] c) ml on,
      ap is_some (find-insert-erase name [] c.modes) ∙ sym on,
    )
    | inr off ↦
        let c1 = record (with_mode name [] c) {
          stack = add_mode (regular_mode place name mode_char) false [] c.stack;
        } in
        (
          less_mode name c1,
          set_once (change_internal rules 1) c reg
              ∙ (enforce_set_off rules (change_internal rules 1) place name mode_char
                    (with_mode name [] c) ml off
                  ∙ (remove_mode-present rules (change_internal rules 1) place name mode_char
                        (with_mode name [] c) (find-insert-erase name [] c.modes)
                      ∙ (unset_once (change_internal rules 0) c1 reg
                          ∙ enforce_unset_off rules (change_internal rules 0) place name mode_char
                              (less_mode name c1) ml off))),
          ap is_some (find-erase name c1.modes) ∙ sym off,
        )
  ]

  unset-Obeys :
      (c : Channel)
      → c.ci ≡ some locks
      → Obeys (change_internal rules 2 false (regular_mode place name mode_char) [] true c)
  unfolding change_internal is_some
  unset-Obeys c reg = elim (Bool-cases ml.set) [
    | inr off ↦ (
      less_mode name c,
      unset_once (change_internal rules 1) c reg
          ∙ enforce_unset_off rules (change_internal rules 1) place name mode_char
              (less_mode name c) ml off,
      ap is_some (find-erase name c.modes) ∙ sym off,
    )
    | inl on ↦
        let c1 = record (less_mode name c) {
          stack = add_mode (regular_mode place name mode_char) true [] c.stack;
        } in
        (
          with_mode name [] c1,
          unset_once (change_internal rules 1) c reg
              ∙ (enforce_unset_on rules (change_internal rules 1) place name mode_char
                    (less_mode name c) ml on
                  ∙ (set_mode-absent rules (change_internal rules 1) place name mode_char
                        (less_mode name c) (find-erase name c.modes)
                      ∙ (set_once (change_internal rules 0) c1 reg
                          ∙ enforce_set_on rules (change_internal rules 0) place name mode_char
                              (with_mode name [] c1) ml on))),
          ap is_some (find-insert-erase name [] c1.modes) ∙ sym on,
        )
  ]

-- If a registered channel has a lock on a regular mode, which no module protects and which is not that of
-- persistent channels, then setting or unsetting that mode with the locks enforced ends within two calls,
-- and the channel has the mode exactly if the lock says so.
pub locked_regular :
    (rules : Rules) (place name mode_char : ℕ) (locks : List ModeLock) (ml : ModeLock)
    (status : Bool) (c : Channel)
    → IsPlain rules (regular_mode place name mode_char) []
    → c.ci ≡ some locks
    → get_mlock name [] locks ≡ some ml
    → (c' : Channel) × (change_internal rules 2 status (regular_mode place name mode_char) [] true c
        ≡ some c')
      × (is_some (find_mode name c'.modes) ≡ ml.set)
locked_regular rules place name mode_char locks ml true c plain reg lock =
    set-Obeys rules place name mode_char locks ml plain lock c reg
locked_regular rules place name mode_char locks ml false c plain reg lock =
    unset-Obeys rules place name mode_char locks ml plain lock c reg
