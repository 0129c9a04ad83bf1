-- ===== src/Settings/Lookup.antt =====
-- What is asked of a configuration that was written out and read.
use anope.Base.{
  ℕ, ◌≡◌, Bool, true, false, not, ◌&&◌, ◌||◌, Option, none, some, [], ◌∷◌, Bytes, ◌==◌,
  if◌then◌else◌, get_elem?, All,
}
use anope.Text.{equals_ci}
use anope.Settings.{ConfigData, KeyValList}
use anope.Settings.Values.{default_of, or_default, tagged, conf_value}
use mathlib.Core.Option

-- The value of the first item of a name.
unfoldable pub first_item : Bytes → KeyValList → Option Bytes
first_item var [] = none
first_item var ((key, value) ∷ items) =
    let rest = first_item var items in if equals_ci key var then some value else rest

-- The answer: the value, or the default, which is given for a missing section at the index 0 only.
unfoldable pub wanted : Bytes → Bytes → Bytes → ℕ → ConfigData → Option Bytes
wanted tag var default_value index sections = elim (get_elem? (tagged tag sections) index) [
  | none ↦ if index == 0 then default_of default_value else none
  | some items ↦ or_default default_value (first_item var items)
]

-- None of the characters that a value is changed by.
unfoldable pub is_plain : Bytes → Bool
is_plain [] = true
is_plain (c ∷ s) = not (c == b';' || c == b'}' || c == 10) && is_plain s

abbrev pub PlainItem : Bytes × Bytes → Type 0
PlainItem (key, value) = is_plain value ≡ true

abbrev pub PlainSection : Bytes × KeyValList → Type 0
PlainSection (name, items) = All PlainItem items

-- The answer of a section that is found.
unfoldable answered : Bytes → ConfigData → KeyValList → ConfigData × Option Bytes
answered var sections items = (sections, first_item var items)

module _ (name key v default_value : Bytes) where
  abbrev only : Bytes → ConfigData
  only w = (name, (key, w) ∷ []) ∷ []

  ask : Bytes → ConfigData × Option Bytes
  ask w = conf_value (only w) name key default_value 0 false
