-- ===== src/Settings/Values.antt =====
-- src/config.cpp: `ServerConfig::ConfValue`, the value of an item, with the changes that it makes to
-- the configuration, and `ConfValueBool`, `ConfValueEnum` and `ConfVarEnum`.
use anope.Base.{
  ℕ, zero, suc, Bool, false, not, ◌&&◌, ◌||◌, Option, none, some, List, [], ◌∷◌, Bytes, codes, ◌==◌,
  if◌then◌else◌, length, get_elem?,
}
use anope.Text.{is_empty, equals_ci, equals_cs, contains}
use anope.Settings.{ConfigData, KeyValList}
use mathlib.Core.Option

-- `replace_all_cs("\n", " ")`.
unfoldable pub spaced : Bytes → Bytes
spaced [] = []
spaced (c ∷ s) = (if c == 10 then 32 else c) ∷ spaced s

-- The loop over the items. A value with a newline, where none may stand, is changed and passed over.
unfoldable pub item_value : Bool → Bytes → KeyValList → KeyValList × Option Bytes
item_value allow_linefeeds var [] = ([], none)
item_value allow_linefeeds var ((key, value) ∷ items) =
    let (items', found) = item_value allow_linefeeds var items in
    if equals_ci key var
    then if not allow_linefeeds && contains 10 value
      then ((key, spaced value) ∷ items', found)
      else ((key, value) ∷ items, some value)
    else ((key, value) ∷ items', found)

-- The other sections stay as they are.
unfoldable pub keep_section :
    Bytes × KeyValList → ConfigData × Option Bytes → ConfigData × Option Bytes
keep_section section (target, found) = (section ∷ target, found)

-- The section of the tag at an index; `none` where there are not so many.
unfoldable pub section_value :
    Bool → Bytes → Bytes → ℕ → ConfigData → Option (ConfigData × Option Bytes)
section_value allow_linefeeds tag var index [] = none
section_value allow_linefeeds tag var zero ((name, items) ∷ data') =
    let rest = section_value allow_linefeeds tag var zero data' in
    if equals_cs name tag
    then (let (items', found) = item_value allow_linefeeds var items in
        some ((name, items') ∷ data', found))
    else Option.map (keep_section (name, items)) rest
section_value allow_linefeeds tag var (suc index) ((name, items) ∷ data') =
    let next = section_value allow_linefeeds tag var index data' in
    let rest = section_value allow_linefeeds tag var (suc index) data' in
    Option.map (keep_section (name, items)) (if equals_cs name tag then next else rest)

unfoldable pub default_of : Bytes → Option Bytes
default_of default_value = if is_empty default_value then none else some default_value

unfoldable pub or_default : Bytes → Option Bytes → Option Bytes
or_default default_value none = default_of default_value
or_default default_value (some value) = some value

-- `none` is the answer false.
unfoldable pub behind_search :
    Bytes → ℕ → ConfigData → Option (ConfigData × Option Bytes) → ConfigData × Option Bytes
behind_search default_value index target none =
    (target, if index == 0 then default_of default_value else none)
behind_search default_value index target (some (target', found)) =
    (target', or_default default_value found)

unfoldable pub conf_value :
    ConfigData → Bytes → Bytes → Bytes → ℕ → Bool → ConfigData × Option Bytes
conf_value target tag var default_value index allow_linefeeds =
    behind_search default_value index target (section_value allow_linefeeds tag var index target)

unfoldable pub is_yes : Option Bytes → Bool
is_yes none = false
is_yes (some s) = equals_ci s (codes "yes") || equals_ci s (codes "true") || equals_ci s (codes "1")

unfoldable pub conf_value_bool : ConfigData → Bytes → Bytes → Bytes → ℕ → ConfigData × Bool
conf_value_bool target tag var default_value index =
    let (target', value) = conf_value target tag var default_value index false in
    (target', is_yes value)

-- The sections of a tag.
unfoldable pub tagged : Bytes → ConfigData → List KeyValList
tagged tag [] = []
tagged tag ((name, items) ∷ sections) =
    let rest = tagged tag sections in if equals_cs name tag then items ∷ rest else rest

unfoldable pub conf_value_enum : ConfigData → Bytes → ℕ
conf_value_enum target tag = length (tagged tag target)

unfoldable pub conf_var_enum : ConfigData → Bytes → ℕ → ℕ
conf_var_enum target tag index = elim (get_elem? (tagged tag target) index) [
  | none ↦ 0
  | some items ↦ length items
]
