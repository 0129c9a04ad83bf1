-- ===== src/Access/Privileges.antt =====
-- The list of privileges of src/access.cpp, ordered by rank.
use mathlib.Core.List.{Perm}
use mathlib.Core.List.Perm
use anope.Base.{
  ◌≡◌, refl, ap, inl, inr, true, false, Option, none, some, List, [], ◌∷◌, ◌++◌, map, arith, Bytes,
  if◌then◌else◌, Bool-cases, All,
}
use anope.Base.Int.{ℤ, ltb_ℤ, ◌≤ℤ◌}
use anope.Text.{equals_ci, equals_cs}
use anope.Access.{
  Privilege, add_privilege, erase_privilege, remove_level, remove_privilege, find_privilege,
}

-- No privilege has a lower rank than one before it.
abbrev pub Ranked : List Privilege → Type 0
Ranked [] = Unit {0}
Ranked (p ∷ ps) = All (λ q. p.rank ≤ℤ q.rank) ps × Ranked ps

All-add :
    (P : Privilege → Type 0) (p : Privilege) (ps : List Privilege)
    → P p
    → All P ps
    → All P (add_privilege p ps)
unfolding add_privilege
All-add P p [] hp h = (hp, tt)
All-add P p (q ∷ qs) hp h = elim (Bool-cases (ltb_ℤ p.rank q.rank)) [
  | inl e ↦ rw (e, add_privilege) (hp, h)
  | inr e ↦ rw (e, add_privilege) (h.0, All-add P p qs hp h.1)
]

All-weaken :
    (a b : ℤ) (ps : List Privilege)
    → a ≤ℤ b
    → All (λ (q : Privilege). b ≤ℤ q.rank) ps
    → All (λ (q : Privilege). a ≤ℤ q.rank) ps
All-weaken a b [] h k = tt
All-weaken a b (p ∷ ps) h k = (omega (arith, h, k.0), All-weaken a b ps h k.1)

-- Adding a privilege keeps the list ordered by rank and adds just that privilege.
pub add_privilege-Ranked :
    (p : Privilege) (ps : List Privilege)
    → Ranked ps
    → Ranked (add_privilege p ps) × Perm (add_privilege p ps) (p ∷ ps)
unfolding add_privilege
add_privilege-Ranked p [] h = ((tt, tt), Perm.refl _)
add_privilege-Ranked p (q ∷ qs) h = elim (Bool-cases (ltb_ℤ p.rank q.rank)) [
  | inl e ↦
      let le : p.rank ≤ℤ q.rank = ground arith in
      rw (e, add_privilege) (((le, All-weaken p.rank q.rank qs le h.0), h), Perm.refl _)
  | inr e ↦
      let (ranked, perm) = add_privilege-Ranked p qs h.1 in
      let le : q.rank ≤ℤ p.rank = ground arith in
      rw (e, add_privilege)
        ((All-add _ p qs le h.0, ranked), Perm.trans (Perm.cons q perm) (Perm.swap p q qs))
]

-- What `FindPrivilege` finds has the name, but for case, and is in the list; it finds none only if
-- no privilege has the name.
abbrev pub Finds : Bytes → List Privilege → Option Privilege → Type 0
Finds name ps none = All (λ q. equals_ci q.name name ≡ false) ps
Finds name ps (some r) =
    (before : List Privilege) × (after : List Privilege) × (ps ≡ before ++ r ∷ after)
    × (equals_ci r.name name ≡ true)
    × All (λ q. equals_ci q.name name ≡ false) after

Finds-cons :
    (name : Bytes) (q : Privilege) (ps : List Privilege) (o : Option Privilege)
    → Finds name ps o
    → Finds name
        (q ∷ ps)
        (elim o [ some r ↦ some r | none ↦ if equals_ci q.name name then some q else none ])
Finds-cons name q ps none h = elim (Bool-cases (equals_ci q.name name)) [
  | inl e ↦ rw e ([], ps, refl, e, h)
  | inr e ↦ rw e (e, h)
]
Finds-cons name q ps (some r) (before, after, e, k, h) = (q ∷ before, after, ap (◌∷◌ q) e, k, h)

-- `FindPrivilege` returns the last privilege of the list with the name, in any case, and `NULL` only
-- if there is none.
pub find_privilege_lem :
    (name : Bytes) (ps : List Privilege) → Finds name ps (find_privilege name ps)
unfolding find_privilege
find_privilege_lem name [] = tt
find_privilege_lem name (q ∷ ps) = Finds-cons name q ps _ (find_privilege_lem name ps)

abbrev pub Unleveled {ℓ} : {L : Type ℓ} → Bytes → List (Bytes × L) → Type 0
Unleveled name = All λ e. equals_cs e.0 name ≡ false

remove_level_lem {ℓ} :
    {L : Type ℓ} (name : Bytes) (m : List (Bytes × L)) → Unleveled name (remove_level name m)
unfolding remove_level
remove_level_lem name [] = tt
remove_level_lem name ((k, l) ∷ m) = elim (Bool-cases (equals_cs k name)) [
  | inl e ↦ rw (e, remove_level) (remove_level_lem name m)
  | inr e ↦ rw (e, remove_level) (e, remove_level_lem name m)
]

remove_levels {ℓ} :
    {L : Type ℓ} (name : Bytes) (channels : List (List (Bytes × L)))
    → All (Unleveled name) (map (remove_level name) channels)
remove_levels name [] = tt
remove_levels name (m ∷ ms) = (remove_level_lem name m, remove_levels name ms)

All-erase :
    (P : Privilege → Type 0) (name : Bytes) (ps : List Privilege)
    → All P ps
    → All P (erase_privilege name ps)
unfolding erase_privilege
All-erase P name [] h = tt
All-erase P name (q ∷ qs) h = elim (Bool-cases (equals_cs q.name name)) [
  | inl e ↦ rw (e, erase_privilege) h.1
  | inr e ↦ rw (e, erase_privilege) (h.0, All-erase P name qs h.1)
]

erase-Ranked : (name : Bytes) (ps : List Privilege) → Ranked ps → Ranked (erase_privilege name ps)
unfolding erase_privilege
erase-Ranked name [] h = tt
erase-Ranked name (q ∷ qs) h = elim (Bool-cases (equals_cs q.name name)) [
  | inl e ↦ rw (e, erase_privilege) h.1
  | inr e ↦ rw (e, erase_privilege) (All-erase _ name qs h.0, erase-Ranked name qs h.1)
]

-- Removing a privilege keeps the list ordered by rank, and no registered channel has a level for
-- its name any more.
pub remove_privilege_lem {ℓ} :
    {L : Type ℓ} (p : Privilege) (ps : List Privilege) (channels : List (List (Bytes × L)))
    → Ranked ps
    → let (ps', channels') = remove_privilege p (ps, channels) in
      Ranked ps' × All (Unleveled p.name) channels'
unfolding remove_privilege
remove_privilege_lem p ps channels h = (erase-Ranked p.name ps h, remove_levels p.name channels)
