-- ===== src/Opers.antt =====
-- src/opertype.cpp: operators and their types, with the commands and privileges that a type inherits.
-- A type refers to others by their places; the calls follow the references to a given depth, and
-- `Opers.Depth` says which depth is enough. Types that inherit in a circle, on which the code does not
-- return, run out of every depth.
pub mod Depth
mod Tests
use anope.Base.{
  ℕ, zero, suc, Bool, true, false, ◌||◌, Option, none, some, List, [], ◌∷◌, ◌++◌, Bytes, ◌==◌,
  if◌then◌else◌,
}
use anope.Text.{equals_ci, equals_cs}
use anope.Glob.{matches}

pub record Oper : Type 0 where
  pub name : Bytes
  pub type : ℕ

pub record OperType : Type 0 where
  pub name : Bytes
  pub commands : List Bytes
  pub privs : List Bytes
  pub inheritances : List ℕ

-- `Oper::Find`.
unfoldable pub find_oper : Bytes → List Oper → Option Oper
find_oper name [] = none
find_oper name (o ∷ os) =
    let rest = find_oper name os in if equals_ci o.name name then some o else rest

-- `OperType::Find`.
unfoldable pub find_type : Bytes → List OperType → Option OperType
find_type name [] = none
find_type name (t ∷ ts) =
    let rest = find_type name ts in if equals_cs t.name name then some t else rest

unfoldable pub any_mask : Bytes → List Bytes → Bool
any_mask text [] = false
any_mask text (m ∷ ms) = let rest = any_mask text ms in if matches text m then true else rest

-- The set of inherited types, once each; the order of a set of pointers is that of the addresses.
unfoldable pub member : ℕ → List ℕ → Bool
member p [] = false
member p (q ∷ qs) = p == q || member p qs

unfoldable pub inherits : ℕ → OperType → OperType
inherits p t = if member p t.inheritances then t else record t { inheritances = p ∷ t.inheritances }

unfoldable pub add_command : Bytes → OperType → OperType
add_command c t = record t { commands = t.commands ++ c ∷ [] }

unfoldable pub add_priv : Bytes → OperType → OperType
add_priv p t = record t { privs = t.privs ++ p ∷ [] }

-- An answer, or `none` if the depth was used up.
abbrev pub or_else : Option Bool → Option Bool → Option Bool
or_else none later = none
or_else (some true) later = some true
or_else (some false) later = later

abbrev pub joined : Option (List Bytes) → Option (List Bytes) → Option (List Bytes)
joined none later = none
joined (some xs) none = none
joined (some xs) (some ys) = some (xs ++ ys)

unfoldable pub first_of : (ℕ → Option Bool) → List ℕ → Option Bool
first_of ask [] = some false
first_of ask (p ∷ ps) = or_else (ask p) (first_of ask ps)

unfoldable pub all_of_them : (ℕ → Option (List Bytes)) → List ℕ → Option (List Bytes)
all_of_them ask [] = some []
all_of_them ask (p ∷ ps) = joined (ask p) (all_of_them ask ps)

module _ (types : ℕ → OperType) where
  -- `HasCommand` of the type at a place.
  unfoldable pub has_command : ℕ → Bytes → ℕ → Option Bool
  has_command zero cmdstr p = none
  has_command (suc depth) cmdstr p =
      if any_mask cmdstr (types p).commands
      then some true
      else first_of (has_command depth cmdstr) (types p).inheritances

  -- `HasPriv`.
  unfoldable pub has_priv : ℕ → Bytes → ℕ → Option Bool
  has_priv zero privstr p = none
  has_priv (suc depth) privstr p =
      if any_mask privstr (types p).privs
      then some true
      else first_of (has_priv depth privstr) (types p).inheritances

  -- `GetPrivs`.
  unfoldable pub get_privs : ℕ → ℕ → Option (List Bytes)
  get_privs zero p = none
  get_privs (suc depth) p =
      joined (some (types p).privs) (all_of_them (get_privs depth) (types p).inheritances)

  -- `GetCommands`, which asks the inherited types for their privileges.
  unfoldable pub get_commands : ℕ → ℕ → Option (List Bytes)
  get_commands depth p =
      joined (some (types p).commands) (all_of_them (get_privs depth) (types p).inheritances)
