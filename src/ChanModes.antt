-- ===== src/ChanModes.antt =====
-- src/channels.cpp: the modes of a channel other than those of its users, which Members has. The modes
-- stand in a `multimap` by name, written as the list of its entries, as in ModeLocks. A change of the
-- channel asks for other changes where a mode lock is against it; the calls are followed to a depth.
-- What the classes of modes and the modules decide is in `Rules`; the list modes' `OnAdd` and `OnDel`,
-- and the log, are left out.
pub mod Locked
pub mod LockedParam
mod Tests
use anope.Base.{
  ℕ, zero, suc, Bool, true, false, not, ◌&&◌, ◌||◌, Option, none, some, List, [], ◌∷◌, Bytes, ltb,
  ◌==◌, if◌then◌else◌,
}
use anope.Text.{equals_cs, is_empty}
use anope.Glob.{matches}
use anope.ModeLocks.{
  ModeType, mode_regular, mode_list, mode_param, mode_status, ModeLock, is_regular, get_mlock,
}
use anope.ModeStacker.{Mode, StackerInfo, is_param, add_mode}

abbrev pub ModeList : Type 0
ModeList = List (ℕ × Bytes)

-- `stops set mode param`: did a module answer `EVENT_STOP`? `is_valid` is that of a parameter or list
-- mode. `registered` is the mode found under the name `CMODE_REGISTERED`.
pub record Rules : Type 0 where
  pub stops : Bool → Mode → Bytes → Bool
  pub is_valid : Mode → Bytes → Bool
  pub minus_no_arg : Mode → Bool
  pub registered : Option Mode
  pub perm_name : ℕ

-- `ci` holds the mode locks of a registered channel. A deleted channel is marked.
pub record Channel : Type 0 where
  pub modes : ModeList
  pub ci : Option (List ModeLock)
  pub persist : Bool
  pub ci_persist : Bool
  pub no_users : Bool
  pub stack : StackerInfo
  pub deleted : Bool

unfoldable pub find_mode : ℕ → ModeList → Option Bytes
find_mode name [] = none
find_mode name ((n, p) ∷ ms) = if n == name then some p else find_mode name ms

unfoldable pub erase_mode : ℕ → ModeList → ModeList
erase_mode name [] = []
erase_mode name ((n, p) ∷ ms) =
    let rest = erase_mode name ms in if n == name then rest else (n, p) ∷ rest

unfoldable pub insert_mode : ℕ → Bytes → ModeList → ModeList
insert_mode name param [] = (name, param) ∷ []
insert_mode name param ((n, p) ∷ ms) =
    let rest = insert_mode name param ms in
    if ltb name n then (name, param) ∷ (n, p) ∷ ms else (n, p) ∷ rest

-- The first entry of the name that `param` matches goes.
unfoldable pub erase_match : ℕ → Bytes → ModeList → ModeList
erase_match name param [] = []
erase_match name param ((n, p) ∷ ms) =
    let rest = erase_match name param ms in
    if n == name && matches param p then ms else (n, p) ∷ rest

unfoldable pub has_param : ℕ → Bytes → ModeList → Bool
has_param name param [] = false
has_param name param ((n, p) ∷ ms) = n == name && equals_cs p param || has_param name param ms

unfoldable pub is_some {ℓ} : {A : Type ℓ} → Option A → Bool
is_some none = false
is_some (some a) = true

-- `HasMode(name, param) != 0`, and `GetParam`.
unfoldable pub has_mode : ℕ → Bytes → Channel → Bool
has_mode name param c =
    if is_empty param then is_some (find_mode name c.modes) else has_param name param c.modes

unfoldable pub is_list : ModeType → Bool
is_list mode_list = true
is_list mode_regular = false
is_list mode_param = false
is_list mode_status = false

-- The change of `modes` in `SetModeInternal` and in `RemoveModeInternal`.
unfoldable pub put_mode : Mode → Bytes → Channel → Channel
put_mode m param c =
    if is_list m.type
    then record c { modes = insert_mode m.name param c.modes }
    else record c { modes = insert_mode m.name param (erase_mode m.name c.modes) }

unfoldable pub drop_mode : Mode → Bytes → Channel → Channel
drop_mode m param c =
    if is_list m.type && not (is_empty param)
    then record c { modes = erase_match m.name param c.modes }
    else record c { modes = erase_mode m.name c.modes }

-- `CMODE_PERM` was set or unset.
unfoldable pub mark_perm : Rules → Bool → Mode → Channel → Channel
mark_perm rules status m c =
    if m.name == rules.perm_name
    then record c { persist = status; ci_persist = if is_some c.ci then status else c.ci_persist }
    else c

-- `SetModeInternal` or `RemoveModeInternal`, at a smaller depth.
abbrev pub Change : Type 0
Change = Bool → Mode → Bytes → Bool → Channel → Option Channel

module _ (rules : Rules) where
  -- Would `SetMode` do nothing? Modes of users are asked for through Members.
  unfoldable pub is_set : Mode → Bytes → Channel → Bool
  is_set m param c = elim m.type [
    | mode_regular ↦ has_mode m.name [] c
    | mode_param ↦
        not (rules.is_valid m param)
        || elim (find_mode m.name c.modes) [ none ↦ false | some p ↦ equals_cs p param ]
    | mode_list ↦ has_mode m.name param c || not (rules.is_valid m param)
    | mode_status ↦ true
  ]

  -- Would `RemoveMode` do nothing?
  unfoldable pub is_unset : Mode → Bytes → Channel → Bool
  is_unset m param c = elim m.type [
    | mode_regular ↦ not (has_mode m.name [] c)
    | mode_param ↦ not (has_mode m.name [] c)
    | mode_list ↦ not (has_mode m.name param c)
    | mode_status ↦ true
  ]

  -- `SetMode`.
  unfoldable pub set_mode : Change → Mode → Bytes → Bool → Channel → Option Channel
  set_mode change m param enforce c =
      if is_set m param c
      then some c
      else change true m param enforce (record c { stack = add_mode m true param c.stack })

  -- The parameter that `RemoveMode` sends.
  unfoldable pub real_param : Mode → Bytes → Channel → Bytes
  real_param m param c = elim m.type [
    | mode_regular ↦ param
    | mode_list ↦ param
    | mode_status ↦ param
    | mode_param ↦
        if rules.minus_no_arg m
        then []
        else elim (find_mode m.name c.modes) [ none ↦ [] | some p ↦ p ]
  ]

  -- `RemoveMode`.
  unfoldable pub remove_mode : Change → Mode → Bytes → Bool → Channel → Option Channel
  remove_mode change m param enforce c =
      if is_unset m param c
      then some c
      else let real = real_param m param c in
        change false m real enforce (record c { stack = add_mode m false real c.stack })

  -- What a mode lock does against a mode that was set.
  unfoldable pub enforce_set : Change → Mode → Bytes → ModeLock → Channel → Option Channel
  enforce_set change m param ml c = elim m.type [
    | mode_regular ↦ if ml.set then some c else remove_mode change m [] true c
    | mode_param ↦ elim (find_mode m.name c.modes) [
      | none ↦ if ml.set then set_mode change m ml.param true c else remove_mode change m [] true c
      | some p ↦
          if ml.set
          then (if is_empty p || is_empty ml.param || not (equals_cs p ml.param)
              then set_mode change m ml.param true c
              else some c)
          else remove_mode change m p true c
    ]
    | mode_list ↦ if ml.set then some c else remove_mode change m param true c
    | mode_status ↦ some c
  ]

  -- What the registration of the channel, its locks given, has against a mode that was set.
  unfoldable pub set_against :
      Change → Mode → Bytes → Option (List ModeLock) → Channel → Option Channel
  set_against change m param none c = elim rules.registered [
    | none ↦ some c
    | some r ↦ if has_mode r.name [] c then remove_mode change r [] true c else some c
  ]
  set_against change m param (some locks) c =
      elim (get_mlock m.name (if is_param m.type then [] else param) locks) [
        | none ↦ some c
        | some ml ↦ enforce_set change m param ml c
      ]

  -- `SetModeInternal` of a mode that is not a status.
  unfoldable pub set_internal : Change → Mode → Bytes → Bool → Channel → Option Channel
  set_internal change m param enforce c =
      let put = put_mode m param c in
      let marked = mark_perm rules true m put in
      if is_empty param && not (is_regular m.type)
      then some put
      else if not enforce || rules.stops true m param
      then some marked
      else set_against change m param marked.ci marked

  -- What a mode lock does against a mode that was unset.
  unfoldable pub enforce_unset : Change → Mode → ModeLock → Channel → Option Channel
  enforce_unset change m ml c =
      if ml.set
      then elim m.type [
        | mode_regular ↦ set_mode change m [] true c
        | mode_param ↦ set_mode change m ml.param true c
        | mode_list ↦ set_mode change m ml.param true c
        | mode_status ↦ some c
      ]
      else some c

  unfoldable pub unset_against :
      Change → Mode → Bytes → Option (List ModeLock) → Channel → Option Channel
  unset_against change m param none c = some c
  unset_against change m param (some locks) c = elim (get_mlock m.name param locks) [
    | none ↦ some c
    | some ml ↦ enforce_unset change m ml c
  ]

  -- `RemoveModeInternal` of a mode that is not a status.
  unfoldable pub remove_internal : Change → Mode → Bytes → Bool → Channel → Option Channel
  remove_internal change m param enforce c =
      let marked = mark_perm rules false m (drop_mode m param c) in
      if m.name == rules.perm_name && c.no_users
      then some (record marked { deleted = true })
      else if not enforce || rules.stops false m param
      then some marked
      else unset_against change m param marked.ci marked

  -- Both, to a depth of calls; `none` where it was used up.
  unfoldable pub change_internal : ℕ → Change
  change_internal zero status m param enforce c = none
  change_internal (suc depth) true m param enforce c =
      set_internal (change_internal depth) m param enforce c
  change_internal (suc depth) false m param enforce c =
      remove_internal (change_internal depth) m param enforce c
