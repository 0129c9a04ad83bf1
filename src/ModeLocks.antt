-- ===== src/ModeLocks.antt =====
-- src/regchannel.cpp: the mode locks of `ChannelInfo`, a `multimap` ordered by the mode's name. It is
-- written as the list of its entries; an entry is inserted behind those of the same name. The hooks
-- `OnMLock` and `OnUnMLock`, which read the lock, are functions that the operations are given.
pub mod Valid
pub mod Lookup
mod Tests
use anope.Base.{
  ℕ, Bool, true, false, not, ◌&&◌, Option, none, some, List, [], ◌∷◌, ◌++◌, Bytes, codes, ltb, ◌==◌,
  if◌then◌else◌, length,
}
use anope.Text.{equals_cs, is_empty}
use anope.Glob.{matches}
use anope.Access.{EventReturn, event_stop, event_continue, event_allow}

pub data ModeType : Type 0 where
  mode_regular mode_list mode_param mode_status : ModeType

-- A `ChannelModeName` is the number of its place in the enumeration.
pub record ChannelMode : Type 0 where
  pub name : ℕ
  pub mode_char : ℕ
  pub type : ModeType

pub record ModeLock : Type 0 where
  pub set : Bool
  pub name : ℕ
  pub param : Bytes
  pub setter : Bytes
  pub created : ℕ

unfoldable pub is_regular : ModeType → Bool
is_regular mode_regular = true
is_regular mode_param = false
is_regular mode_list = false
is_regular mode_status = false

-- `Type == MODE_REGULAR || Type == MODE_PARAM`.
unfoldable pub is_single : ModeType → Bool
is_single mode_regular = true
is_single mode_param = true
is_single mode_list = false
is_single mode_status = false

-- `mode_locks.find(name)`, with the entries from there on; `[]` is `end()`.
unfoldable pub find_from : ℕ → List ModeLock → List ModeLock
find_from name [] = []
find_from name (l ∷ ls) =
    let rest = find_from name ls in
    if ltb l.name name then rest else if l.name == name then l ∷ ls else []

-- `mode_locks.insert`.
unfoldable pub insert : ModeLock → List ModeLock → List ModeLock
insert ml [] = ml ∷ []
insert ml (l ∷ ls) = let rest = insert ml ls in if ltb ml.name l.name then ml ∷ l ∷ ls else l ∷ rest

-- `mode_locks.erase(name)`.
unfoldable pub erase_name : ℕ → List ModeLock → List ModeLock
erase_name name [] = []
erase_name name (l ∷ ls) =
    let rest = erase_name name ls in if l.name == name then rest else l ∷ rest

-- The loops up to `upper_bound(name)`: is there an entry with the parameter?
unfoldable pub has_param : ℕ → Bytes → List ModeLock → Bool
has_param name param [] = false
has_param name param (l ∷ ls) =
    let rest = has_param name param ls in
    if ltb name l.name then false else if equals_cs l.param param then true else rest

unfoldable pub same : Bool → Bool → Bool
same true b = b
same false b = not b

unfoldable pub has_mlock : ChannelMode → Bytes → Bool → List ModeLock → Bool
has_mlock mode param status locks = elim (find_from mode.name locks) [
  | [] ↦ false
  | (l ∷ ls) ↦
      if is_regular mode.type then same l.set status else has_param mode.name param (l ∷ ls)
]

-- The loop that erases the first entry of the name with the parameter.
unfoldable pub erase_param : ℕ → Bytes → List ModeLock → List ModeLock
erase_param name param [] = []
erase_param name param (l ∷ ls) =
    let rest = erase_param name param ls in
    if ltb l.name name
    then l ∷ rest
    else if ltb name l.name
    then l ∷ ls
    else if equals_cs l.param param
    then ls
    else l ∷ rest

-- `founder ? founder->display : "Unknown"`, if no setter is given.
unfoldable pub setter_or : Option Bytes → Bytes → Bytes
setter_or founder setter =
    if is_empty setter
    then elim founder [ some display ↦ display | none ↦ codes "Unknown" ]
    else setter

unfoldable pub without : ChannelMode → Bytes → List ModeLock → List ModeLock
without mode param locks =
    if is_single mode.type then erase_name mode.name locks else erase_param mode.name param locks

-- `MOD_RESULT == EVENT_STOP`.
unfoldable pub is_stop : EventReturn → Bool
is_stop event_stop = true
is_stop event_continue = false
is_stop event_allow = false

-- `ModeLock::ModeLock`.
unfoldable pub new_lock : ChannelMode → Bool → Bytes → Bytes → ℕ → ModeLock
new_lock mode status param setter created = record {
  set = status;
  name = mode.name;
  param = param;
  setter = setter;
  created = created;
}

-- The answer and the locks.
unfoldable pub set_mlock :
    (ModeLock → EventReturn)
    → Option Bytes
    → ChannelMode
    → Bool
    → Bytes
    → Bytes
    → ℕ
    → List ModeLock
    → Bool × List ModeLock
set_mlock on_mlock founder mode status param setter created locks =
    let ml = new_lock mode status param (setter_or founder setter) created in
    if is_stop (on_mlock ml) then (false, locks) else (true, insert ml (without mode param locks))

module _ (on_un_mlock : ModeLock → EventReturn) where
  -- Every entry of the name, unless a module stops it.
  unfoldable pub remove_all : ℕ → List ModeLock → List ModeLock
  remove_all name [] = []
  remove_all name (l ∷ ls) =
      let rest = remove_all name ls in
      if l.name == name then (if is_stop (on_un_mlock l) then l ∷ rest else rest) else l ∷ rest

  -- The first entry of the name with the parameter.
  unfoldable pub remove_param : ℕ → Bytes → List ModeLock → Bool × List ModeLock
  remove_param name param [] = (false, [])
  remove_param name param (l ∷ ls) =
      let rest = remove_param name param ls in
      if ltb l.name name
      then (rest.0, l ∷ rest.1)
      else if ltb name l.name
      then (false, l ∷ ls)
      else if equals_cs l.param param
      then (if is_stop (on_un_mlock l) then (false, l ∷ ls) else (true, ls))
      else (rest.0, l ∷ rest.1)

  unfoldable pub remove_mlock : ChannelMode → Bytes → List ModeLock → Bool × List ModeLock
  remove_mlock mode param locks =
      if is_single mode.type
      then (true, remove_all mode.name locks)
      else remove_param mode.name param locks

-- `ClearMLock`.
unfoldable pub clear_mlock : List ModeLock → List ModeLock
clear_mlock locks = []

-- `GetModeList(name)`: the range from `find` to `upper_bound`.
unfoldable pub up_to : ℕ → List ModeLock → List ModeLock
up_to name [] = []
up_to name (l ∷ ls) = let rest = up_to name ls in if ltb name l.name then [] else l ∷ rest

unfoldable pub get_mode_list : ℕ → List ModeLock → List ModeLock
get_mode_list name locks = up_to name (find_from name locks)

unfoldable pub first_match : Bytes → List ModeLock → Option ModeLock
first_match param [] = none
first_match param (l ∷ ls) =
    let rest = first_match param ls in if matches param l.param then some l else rest

-- `GetMLock(mname, param)`.
unfoldable pub get_mlock : ℕ → Bytes → List ModeLock → Option ModeLock
get_mlock name param locks = elim (get_mode_list name locks) [
  | [] ↦ none
  | (l ∷ ls) ↦ if is_empty param then some l else first_match param (l ∷ ls)
]

-- The texts `pos`, `neg` and `params` behind the loop, `complete` given.
module _ (find_mode : ℕ → Option ChannelMode) (complete : Bool) where
  unfoldable pub mlock_loop : List ModeLock → Bytes → Bytes → Bytes → Bytes × Bytes × Bytes
  mlock_loop [] plus minus params = (plus, minus, params)
  mlock_loop (l ∷ ls) plus minus params = elim (find_mode l.name) [
    | none ↦ mlock_loop ls plus minus params
    | some cm ↦ elim cm.type [
      | mode_list ↦ mlock_loop ls plus minus params
      | mode_status ↦ mlock_loop ls plus minus params
      | mode_regular ↦ elim l.set [
        | true ↦ mlock_loop ls (plus ++ cm.mode_char ∷ []) minus params
        | false ↦ mlock_loop ls plus (minus ++ cm.mode_char ∷ []) params
      ]
      | mode_param ↦
          let params' =
            if complete && not (is_empty l.param) then params ++ b' ' ∷ l.param else params in
          elim l.set [
            | true ↦ mlock_loop ls (plus ++ cm.mode_char ∷ []) minus params'
            | false ↦ mlock_loop ls plus (minus ++ cm.mode_char ∷ []) params'
          ]
    ]
  ]

  -- `if (pos.length() == 1) pos.clear()`.
  unfoldable pub or_nothing : Bytes → Bytes
  or_nothing s = if length s == 1 then [] else s

  unfoldable pub get_mlock_as_string : List ModeLock → Bytes
  get_mlock_as_string locks =
      let r = mlock_loop locks (b'+' ∷ []) (b'-' ∷ []) [] in or_nothing r.0 ++ or_nothing r.1 ++ r.2
