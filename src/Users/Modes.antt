-- ===== src/Users/Modes.antt =====
-- src/users.cpp: the modes of a user, how services set them and how they are read from a server. The
-- map of parameters and the set of flags are functions of the name of a mode; the calls of modules and
-- of `UpdateHost` are recorded. `opcnt` is written as the 32 bits that it has, -1 as 4294967295.
pub mod Known
pub mod Shown
pub mod Report
pub mod Asked
mod Tests
use anope.Base.{
  ℕ, zero, suc, ◌+◌, ◌-◌, Bool, true, false, ◌&&◌, ◌||◌, Option, none, some, List, [], ◌∷◌, ◌++◌,
  Bytes, ◌==◌, if◌then◌else◌, take,
}
use anope.Text.{is_empty}
use anope.Tokens.{get_token}
use anope.Numbers.{u32}
use anope.ModeStacker.{Mode, is_param, find_by_char, find_by_name, Objects, stacker_add}

-- The places of the names in `UserModeName`.
abbrev pub umode_oper : ℕ
umode_oper = 18

abbrev pub umode_vhost : ℕ
umode_vhost = 23

abbrev pub umode_cloak : ℕ
umode_cloak = 25

abbrev pub umode_end : ℕ
umode_end = 35

pub data Call : Type 0 where
  mode_set : ℕ → Call
  mode_unset : ℕ → Call
  update_host : Call

-- The fields of a user that modes change, and the count of operators.
pub record Moded : Type 0 where
  pub modes : ℕ → Bool
  pub params : ℕ → Option Bytes
  pub vhost : Bytes
  pub opcnt : ℕ
  pub calls : List Call

unfoldable pub put_flag : ℕ → Bool → (ℕ → Bool) → ℕ → Bool
put_flag name b flags i = if i == name then b else flags i

-- `map::insert`, which leaves a parameter that is there as it is.
unfoldable pub insert_param : ℕ → Bytes → (ℕ → Option Bytes) → ℕ → Option Bytes
insert_param name param params i = elim (params i) [
  | some old ↦ some old
  | none ↦ if i == name then some param else none
]

unfoldable pub erase_param : ℕ → (ℕ → Option Bytes) → ℕ → Option Bytes
erase_param name params i = if i == name then none else params i

unfoldable pub set_mode_internal : Mode → Bytes → Moded → Moded
set_mode_internal um param w = record w {
  modes = put_flag um.name true w.modes;
  params = if is_empty param then w.params else insert_param um.name param w.params;
  calls = w.calls ++ mode_set um.name ∷ [];
}

unfoldable pub remove_mode_internal : Mode → Moded → Moded
remove_mode_internal um w = record w {
  modes = put_flag um.name false w.modes;
  params = erase_param um.name w.params;
  calls = w.calls ++ mode_unset um.name ∷ [];
}

-- `SetMode` and `RemoveMode` of the user at a place, which ask for the change where it is one.
unfoldable pub set_mode : Option ℕ → ℕ → Mode → Bytes → Moded × Objects → Moded × Objects
set_mode bi u um param (w, os) =
    if w.modes um.name
    then (w, os)
    else (set_mode_internal um param w, stacker_add bi u um true param os)

unfoldable pub remove_mode : Option ℕ → ℕ → Mode → Moded × Objects → Moded × Objects
remove_mode bi u um (w, os) =
    if w.modes um.name
    then (remove_mode_internal um w, stacker_add bi u um false [] os)
    else (w, os)

-- What `SetModesInternal` does behind a change, the `switch` on the name.
unfoldable pub behind_change : Bool → Mode → Moded → Moded
behind_change add um w =
    if um.name == umode_oper
    then record w { opcnt = if add then u32 (w.opcnt + 1) else u32 (w.opcnt + 4294967295) }
    else if um.name == umode_cloak || um.name == umode_vhost
    then record w { vhost = if add then w.vhost else []; calls = w.calls ++ update_host ∷ [] }
    else w

-- The variables of the loop over a text of modes: `add`, where `none` is -1, the stream, and the state.
abbrev pub Turn : Type 0 → Type 0
Turn S = Option Bool × Bytes × S

-- `um->Type == MODE_PARAM && sep.GetToken(sbuf)`: the parameter, empty if there is none, and the stream.
unfoldable pub param_of : Bool → Mode → Bytes → Bytes × Bytes
param_of true um sep = elim (get_token b' ' sep) [
  | some (sbuf, rest) ↦ if is_param um.type then (sbuf, rest) else ([], sep)
  | none ↦ ([], sep)
]
param_of false um sep = ([], sep)

-- One round; `change` gets the sign, the mode and the parameter.
unfoldable pub change_step :
    {S : Type 0} → (Bool → Mode → Bytes → S → S) → List Mode → ℕ → Turn S → Turn S
change_step change known c (add, sep, w) =
    if c == b'+'
    then (some true, sep, w)
    else if c == b'-'
    then (some false, sep, w)
    else elim add [
      | none ↦ (none, sep, w)
      | some a ↦ elim (find_by_char c known) [
        | none ↦ (some a, sep, w)
        | some um ↦ let (param, rest) = param_of a um sep in (some a, rest, change a um param w)
      ]
    ]

unfoldable pub change_loop :
    {S : Type 0} → (Bool → Mode → Bytes → S → S) → List Mode → Bytes → Turn S → Turn S
change_loop change known [] t = t
change_loop change known (c ∷ s) t = change_loop change known s (change_step change known c t)

-- The two functions on a formatted text, of which the buffer takes `BUFSIZE - 2` characters.
unfoldable pub read_modes : {S : Type 0} → (Bool → Mode → Bytes → S → S) → List Mode → Bytes → S → S
read_modes change known umodes w = elim (get_token b' ' (take 1022 umodes)) [
  | none ↦ w
  | some (modebuf, sep) ↦ (change_loop change known modebuf (none, sep, w)).2
]

unfoldable pub internal_change : Bool → Mode → Bytes → Moded → Moded
internal_change true um param w = behind_change true um (set_mode_internal um param w)
internal_change false um param w = behind_change false um (remove_mode_internal um w)

unfoldable pub set_modes_internal : List Mode → Bytes → Moded → Moded
set_modes_internal known umodes w = read_modes internal_change known umodes w

unfoldable pub asked_change : Option ℕ → ℕ → Bool → Mode → Bytes → Moded × Objects → Moded × Objects
asked_change bi u true um param w = set_mode bi u um param w
asked_change bi u false um param w = remove_mode bi u um w

unfoldable pub set_modes : Option ℕ → ℕ → List Mode → Bytes → Moded × Objects → Moded × Objects
set_modes bi u known umodes w = read_modes (asked_change bi u) known umodes w

-- `GetModes`, with the rounds of its loop from a name on.
unfoldable pub get_modes_loop : List Mode → (ℕ → Bool) → ℕ → ℕ → Bytes
get_modes_loop known flags zero i = []
get_modes_loop known flags (suc rounds) i =
    let rest = get_modes_loop known flags rounds (i + 1) in
    if flags i
    then elim (find_by_name i known) [ none ↦ rest | some um ↦ um.mode_char ∷ rest ]
    else rest

unfoldable pub get_modes : List Mode → (ℕ → Bool) → Bytes
get_modes known flags = get_modes_loop known flags (umode_end - 1) 1
