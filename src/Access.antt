-- ===== src/Access.antt =====
-- src/access.cpp and include/access.h: privileges, the access entries of a channel, the groups of
-- entries that apply to one user, and how entries and groups are compared.
-- The virtual `HasPriv` of an entry and the event hooks of modules are functions that it is given.
pub mod Privileges
pub mod Levels
pub mod Groups
mod Tests
use mathlib.Core.List.{reverse}
use anope.Base.{
  ℕ, Bool, true, false, not, ◌&&◌, ◌||◌, Option, none, some, List, [], ◌∷◌, map, Bytes, codes,
  if◌then◌else◌,
}
use anope.Base.Int.{ℤ, ltb_ℤ}
use anope.Text.{equals_ci, equals_cs, has_any}
use anope.Glob.{matches}

pub record Privilege : Type 0 where
  pub name : Bytes
  pub desc : Bytes
  pub rank : ℤ

-- `PrivilegeManager::AddPrivilege`: before the first privilege of a higher rank.
unfoldable pub add_privilege : Privilege → List Privilege → List Privilege
add_privilege p [] = p ∷ []
add_privilege p (q ∷ qs) = if ltb_ℤ p.rank q.rank then p ∷ q ∷ qs else q ∷ add_privilege p qs

-- `privs.erase(std::find(…))`; privileges are equal if their names are.
unfoldable pub erase_privilege : Bytes → List Privilege → List Privilege
erase_privilege name [] = []
erase_privilege name (q ∷ qs) = if equals_cs q.name name then qs else q ∷ erase_privilege name qs

-- `ChannelInfo::RemoveLevel` of src/regchannel.cpp, `levels.erase(priv)`.
unfoldable pub remove_level {ℓ} : {L : Type ℓ} → Bytes → List (Bytes × L) → List (Bytes × L)
remove_level name [] = []
remove_level name ((k, l) ∷ m) =
    if equals_cs k name then remove_level name m else (k, l) ∷ remove_level name m

-- `RemovePrivilege`: the privileges and the levels of every registered channel.
unfoldable pub remove_privilege {ℓ} :
    {L : Type ℓ}
    → Privilege
    → List Privilege × List (List (Bytes × L))
    → List Privilege × List (List (Bytes × L))
remove_privilege p (privs, channels) =
    (erase_privilege p.name privs, map (remove_level p.name) channels)

-- `FindPrivilege` looks from the end.
unfoldable pub find_privilege : Bytes → List Privilege → Option Privilege
find_privilege name [] = none
find_privilege name (q ∷ qs) = elim (find_privilege name qs) [
  | some r ↦ some r
  | none ↦ if equals_ci q.name name then some q else none
]

-- `HasPriv` of an entry or a group, by the name of the privilege.
abbrev pub HasPriv : Type 0
HasPriv = Bytes → Bool

-- The four loops over the privileges, the highest rank first.
unfoldable pub gt_loop : List Privilege → HasPriv → HasPriv → Bool
gt_loop [] this other = false
gt_loop (p ∷ ps) this other =
    let rest = gt_loop ps this other in
    if not (this p.name) && not (other p.name)
    then rest
    else if this p.name && not (other p.name)
    then true
    else false

unfoldable pub lt_loop : List Privilege → HasPriv → HasPriv → Bool
lt_loop [] this other = false
lt_loop (p ∷ ps) this other =
    let rest = lt_loop ps this other in
    if not (this p.name) && not (other p.name)
    then rest
    else if not (this p.name) && other p.name
    then true
    else false

unfoldable pub ge_loop : List Privilege → HasPriv → HasPriv → Bool
ge_loop [] this other = true
ge_loop (p ∷ ps) this other =
    let rest = ge_loop ps this other in
    if not (this p.name) && not (other p.name)
    then rest
    else if not (this p.name) && other p.name
    then false
    else true

unfoldable pub le_loop : List Privilege → HasPriv → HasPriv → Bool
le_loop [] this other = true
le_loop (p ∷ ps) this other =
    let rest = le_loop ps this other in
    if not (this p.name) && not (other p.name)
    then rest
    else if this p.name && not (other p.name)
    then false
    else true

pub record ChanAccess : Type 0 where
  pub mask : Bytes
  pub creator : Bytes
  pub last_seen : ℕ
  pub created : ℕ
  pub has_priv : HasPriv

-- `operator>`, `<`, `>=` and `<=` of two entries; `privs` is `PrivilegeManager::GetPrivileges()`.
unfoldable pub access_gt : List Privilege → ChanAccess → ChanAccess → Bool
access_gt privs a b = gt_loop (reverse privs) a.has_priv b.has_priv

unfoldable pub access_lt : List Privilege → ChanAccess → ChanAccess → Bool
access_lt privs a b = lt_loop (reverse privs) a.has_priv b.has_priv

unfoldable pub access_ge : List Privilege → ChanAccess → ChanAccess → Bool
access_ge privs a b = ge_loop (reverse privs) a.has_priv b.has_priv

unfoldable pub access_le : List Privilege → ChanAccess → ChanAccess → Bool
access_le privs a b = le_loop (reverse privs) a.has_priv b.has_priv

-- What `Matches` reads of a user: the nick and `GetDisplayedMask()`.
pub record Subject : Type 0 where
  pub nick : Bytes
  pub displayed_mask : Bytes

unfoldable pub any_matches : List Bytes → Bytes → Bool
any_matches [] mask = false
any_matches (n ∷ ns) mask = matches n mask || any_matches ns mask

-- `ChanAccess::Matches(u, nc)`; the account is given by the nicks of its aliases.
unfoldable pub access_matches : ChanAccess → Option Subject → Option (List Bytes) → Bool
access_matches a none none = false
access_matches a none (some aliases) = any_matches aliases a.mask
access_matches a (some u) account =
    if has_any (codes "!@?*") a.mask && matches u.nick a.mask
    then true
    else if matches u.displayed_mask a.mask
    then true
    else elim account [ none ↦ false | some aliases ↦ any_matches aliases a.mask ]

-- The answer of the modules to an event.
pub data EventReturn : Type 0 where
  event_stop event_continue event_allow : EventReturn

-- `disabled name` is `ci->GetLevel(name) == ACCESS_INVALID`.
pub record AccessGroup : Type 0 where
  pub entries : List ChanAccess
  pub disabled : Bytes → Bool
  pub super_admin : Bool
  pub founder : Bool

module _ (on_check_priv : ChanAccess → Bytes → EventReturn) where
  -- The loop over the entries, from the last.
  unfoldable pub any_priv : List ChanAccess → Bytes → Bool
  any_priv [] name = false
  any_priv (a ∷ as') name =
      let rest = any_priv as' name in
      elim (on_check_priv a name) [
        | event_allow ↦ true
        | event_continue ↦ if a.has_priv name then true else rest
        | event_stop ↦ if a.has_priv name then true else rest
      ]

  module _ (on_group_check_priv : AccessGroup → Bytes → EventReturn) where
    unfoldable pub group_has_priv : AccessGroup → HasPriv
    group_has_priv g name =
        if g.super_admin
        then true
        else if g.disabled name
        then false
        else if g.founder
        then true
        else elim (on_group_check_priv g name) [
          | event_continue ↦ any_priv (reverse g.entries) name
          | event_allow ↦ true
          | event_stop ↦ false
        ]

    unfoldable pub group_gt : List Privilege → AccessGroup → AccessGroup → Bool
    group_gt privs a b =
        if a.super_admin
        then true
        else if b.super_admin
        then false
        else if a.founder && not b.founder
        then true
        else if not a.founder && b.founder
        then false
        else gt_loop (reverse privs) (group_has_priv a) (group_has_priv b)

    unfoldable pub group_lt : List Privilege → AccessGroup → AccessGroup → Bool
    group_lt privs a b =
        if b.super_admin
        then true
        else if a.super_admin
        then false
        else if b.founder && not a.founder
        then true
        else if a.founder && not b.founder
        then false
        else lt_loop (reverse privs) (group_has_priv a) (group_has_priv b)

    unfoldable pub group_ge : List Privilege → AccessGroup → AccessGroup → Bool
    group_ge privs a b =
        if a.super_admin
        then true
        else if b.super_admin
        then false
        else if a.founder
        then true
        else if b.founder
        then false
        else ge_loop (reverse privs) (group_has_priv a) (group_has_priv b)

    unfoldable pub group_le : List Privilege → AccessGroup → AccessGroup → Bool
    group_le privs a b =
        if b.super_admin
        then true
        else if a.super_admin
        then false
        else if b.founder
        then true
        else if a.founder
        then false
        else le_loop (reverse privs) (group_has_priv a) (group_has_priv b)

-- The inner loop of `Highest`: the first entry with the privilege.
unfoldable pub first_with : Bytes → List ChanAccess → Option ChanAccess
first_with name [] = none
first_with name (a ∷ as') = if a.has_priv name then some a else first_with name as'

unfoldable pub highest_loop : List Privilege → List ChanAccess → Option ChanAccess
highest_loop [] entries = none
highest_loop (p ∷ ps) entries =
    let rest = highest_loop ps entries in
    elim (first_with p.name entries) [ some a ↦ some a | none ↦ rest ]

-- `AccessGroup::Highest`.
unfoldable pub highest : List Privilege → AccessGroup → Option ChanAccess
highest privs g = highest_loop (reverse privs) (reverse g.entries)
