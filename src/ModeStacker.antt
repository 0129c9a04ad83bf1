-- ===== src/ModeStacker.antt =====
-- src/modes.cpp: the mode stacker, which gathers the mode changes of a channel or user and sends them
-- together, and the lists of known modes. A mode object is named by its place; `ModeType` is that of
-- ModeLocks.
pub mod Read
pub mod Built
pub mod Strings
pub mod Keys
pub mod View
pub mod Refine
pub mod Lost
mod Tests
use anope.Base.{
  ℕ, ◌+◌, Bool, true, false, not, ◌&&◌, ◌||◌, Option, none, some, List, [], ◌∷◌, ◌++◌, Bytes, ltb,
  ◌==◌, if◌then◌else◌,
}
use anope.Text.{contains, equals_cs, is_empty}
use anope.ModeLocks.{ModeType, mode_regular, mode_list, mode_param, mode_status}

pub record Mode : Type 0 where
  pub place : ℕ
  pub name : ℕ
  pub mode_char : ℕ
  pub type : ModeType

-- A change: the mode and its parameter.
abbrev pub Change : Type 0
Change = Mode × Bytes

pub record StackerInfo : Type 0 where
  pub add_modes : List Change
  pub del_modes : List Change
  pub bi : Option ℕ

unfoldable pub is_param : ModeType → Bool
is_param mode_param = true
is_param mode_regular = false
is_param mode_list = false
is_param mode_status = false

-- `ChannelMode::CanSet`, with `Config->NoMLock`; the classes for the admin and oper modes override it,
-- where `oper` says whether there is a user with `UMODE_OPER`, and the class for the registered mode.
unfoldable pub can_set : Bytes → Mode → Bool
can_set no_mlock m = not (contains m.mode_char no_mlock)

unfoldable pub oper_can_set : Option Bool → Bool
oper_can_set (some oper) = oper
oper_can_set none = false

unfoldable pub registered_can_set : Bool
registered_can_set = false

-- `ChannelModeKey::IsValid`.
unfoldable pub key_is_valid : Bytes → Bool
key_is_valid value = not (is_empty value) && not (contains b':' value) && not (contains b',' value)

-- `it->first == mode && (Param.equals_cs(it->second) || IsParam)`.
unfoldable pub is_same : Mode → Bytes → Change → Bool
is_same mode param (m, p) = m.place == mode.place && (equals_cs param p || is_param mode.type)

unfoldable pub on_list : Mode → Bytes → List Change → Bool
on_list mode param [] = false
on_list mode param (c ∷ cs) = is_same mode param c || on_list mode param cs

-- The loops that erase the first such change.
unfoldable pub erase_same : Mode → Bytes → List Change → List Change
erase_same mode param [] = []
erase_same mode param (c ∷ cs) =
    let rest = erase_same mode param cs in if is_same mode param c then cs else c ∷ rest

-- The list that the change goes to, and the other one, behind the call.
unfoldable pub add_to : Mode → Bytes → List Change → List Change → List Change × List Change
add_to mode param this other =
    let cleared = erase_same mode param this in
    if on_list mode param other
    then (cleared, erase_same mode param other)
    else (cleared ++ (mode, param) ∷ [], other)

-- `StackerInfo::AddMode`.
unfoldable pub add_mode : Mode → Bool → Bytes → StackerInfo → StackerInfo
add_mode mode true param s =
    let (adds, dels) = add_to mode param s.add_modes s.del_modes in
    record s { add_modes = adds; del_modes = dels }
add_mode mode false param s =
    let (dels, adds) = add_to mode param s.del_modes s.add_modes in
    record s { add_modes = adds; del_modes = dels }

-- The variables of `BuildModeStrings`.
pub record Building : Type 0 where
  pub ret : List Bytes
  pub buf : Bytes
  pub parambuf : Bytes
  pub n_modes : ℕ

-- `" " + param` of a parameter, if there is one.
unfoldable pub spaced : Bytes → Bytes
spaced [] = []
spaced (c ∷ s) = b' ' ∷ c ∷ s

-- One round of the two loops; `sign` begins a new string.
unfoldable pub build_step : ℕ → ℕ → Change → Building → Building
build_step maxmodes sign (m, param) b =
    if ltb maxmodes (b.n_modes + 1)
    then record {
      ret = b.ret ++ (b.buf ++ b.parambuf) ∷ [];
      buf = sign ∷ m.mode_char ∷ [];
      parambuf = spaced param;
      n_modes = 1;
    }
    else record {
      ret = b.ret;
      buf = b.buf ++ m.mode_char ∷ [];
      parambuf = b.parambuf ++ spaced param;
      n_modes = b.n_modes + 1;
    }

unfoldable pub build_loop : ℕ → ℕ → List Change → Building → Building
build_loop maxmodes sign [] b = b
build_loop maxmodes sign (c ∷ cs) b = build_loop maxmodes sign cs (build_step maxmodes sign c b)

-- `if (buf[buf.length() - 1] == sign) buf.erase(buf.length() - 1)`.
unfoldable pub drop_sign : ℕ → Bytes → Bytes
drop_sign sign [] = []
drop_sign sign (c ∷ []) = if c == sign then [] else c ∷ []
drop_sign sign (c ∷ d ∷ s) = c ∷ drop_sign sign (d ∷ s)

unfoldable pub build_adds : ℕ → StackerInfo → Building
build_adds maxmodes s =
    build_loop maxmodes b'+' s.add_modes
      (record { ret = []; buf = b'+' ∷ []; parambuf = []; n_modes = 0 })

unfoldable pub build_dels : ℕ → StackerInfo → Building
build_dels maxmodes s =
    let b = build_adds maxmodes s in
    build_loop maxmodes b'-' s.del_modes (record b { buf = drop_sign b'+' b.buf ++ b'-' ∷ [] })

-- The last string, if there is something to send.
unfoldable pub last_string : Bytes → Bytes → List Bytes
last_string [] params = []
last_string (c ∷ buf) params = (c ∷ buf ++ params) ∷ []

-- `ModeManager::BuildModeStrings`.
unfoldable pub build_mode_strings : ℕ → StackerInfo → List Bytes
build_mode_strings maxmodes s =
    let b = build_dels maxmodes s in b.ret ++ last_string (drop_sign b'-' b.buf) b.parambuf

-- `StackerObjects`: the objects with changes, by their places, in the order of their first change.
abbrev pub Objects : Type 0
Objects = List (ℕ × StackerInfo)

abbrev pub no_changes : StackerInfo
no_changes = record { add_modes = []; del_modes = []; bi = none }

-- `GetInfo` followed by a change of what it returned.
unfoldable pub change_info : ℕ → (StackerInfo → StackerInfo) → Objects → Objects
change_info item f [] = (item, f no_changes) ∷ []
change_info item f ((o, s) ∷ os) =
    if o == item then (o, f s) ∷ os else (o, s) ∷ change_info item f os

-- `StackerAddInternal`: `sender` is the bot given, or else the one that sends for the channel.
unfoldable pub stacker_add : Option ℕ → ℕ → Mode → Bool → Bytes → Objects → Objects
stacker_add sender item mode status param =
    change_info item (λ s. record (add_mode mode status param s) { bi = sender })

-- `StackerDel`.
unfoldable pub stacker_del : ℕ → Objects → Objects
stacker_del item [] = []
stacker_del item ((o, s) ∷ os) = if item == o then os else (o, s) ∷ stacker_del item os

-- `ProcessModes`: what is sent, with the sender and the object, and no object is left.
unfoldable pub sent : Option ℕ → ℕ → List Bytes → List (Option ℕ × ℕ × Bytes)
sent bi item [] = []
sent bi item (m ∷ ms) = (bi, item, m) ∷ sent bi item ms

unfoldable pub process_modes : ℕ → Objects → List (Option ℕ × ℕ × Bytes) × Objects
process_modes maxmodes [] = ([], [])
process_modes maxmodes ((o, s) ∷ os) =
    (sent s.bi o (build_mode_strings maxmodes s) ++ (process_modes maxmodes os).0, [])

-- The `Find…` functions over the known modes.
unfoldable pub find_by_char : ℕ → List Mode → Option Mode
find_by_char c [] = none
find_by_char c (m ∷ ms) = if m.mode_char == c then some m else find_by_char c ms

unfoldable pub find_by_name : ℕ → List Mode → Option Mode
find_by_name n [] = none
find_by_name n (m ∷ ms) = if m.name == n then some m else find_by_name n ms

-- The modes known, and how many had no name of their own: `GenericChannelModes`.
pub record Known : Type 0 where
  pub modes : List Mode
  pub generic : ℕ

-- `AddUserMode` and `AddChannelMode`, where `end_name` is `UMODE_END` or `CMODE_END`.
unfoldable pub add_known : ℕ → Mode → Known → Bool × Known
add_known end_name m k = elim (find_by_char m.mode_char k.modes) [
  | some old ↦ (false, k)
  | none ↦
      if m.name == end_name
      then (
        true,
        record {
          modes = k.modes ++ record m { name = end_name + (k.generic + 1) } ∷ [];
          generic = k.generic + 1;
        },
      )
      else (true, record k { modes = k.modes ++ m ∷ [] })
]
