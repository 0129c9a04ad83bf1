-- ===== src/Access/Levels.antt =====
-- The comparisons of src/access.cpp are comparisons of one number.
use mathlib.Core.List.{reverse}
use anope.Base.{ℕ, ◌+◌, ◌≤◌, ◌≡◌, refl, List, [], ◌∷◌, arith, ltb, leb, if◌then◌else◌, length}
use anope.Access.{
  Privilege, HasPriv, gt_loop, lt_loop, ge_loop, le_loop, ChanAccess, access_gt, access_lt,
  access_ge, access_le,
}

-- The place of the highest privilege held, counted from 1, in a list with the highest first; 0 if
-- none is held.
unfoldable pub top : List Privilege → HasPriv → ℕ
top [] has = 0
top (p ∷ ps) has = if has p.name then length ps + 1 else top ps has

pub top-le : (ps : List Privilege) (has : HasPriv) → top ps has ≤ length ps
unfolding top
top-le [] has = omega arith
top-le (p ∷ ps) has = ground (arith, top-le ps has)

pub gt_loop-top :
    (ps : List Privilege) (this other : HasPriv)
    → gt_loop ps this other ≡ ltb (top ps other) (top ps this)
unfolding gt_loop top
gt_loop-top [] this other = refl
gt_loop-top (p ∷ ps) this other =
    ground (arith, gt_loop-top ps this other, top-le ps this, top-le ps other)

pub lt_loop-top :
    (ps : List Privilege) (this other : HasPriv)
    → lt_loop ps this other ≡ ltb (top ps this) (top ps other)
unfolding lt_loop top
lt_loop-top [] this other = refl
lt_loop-top (p ∷ ps) this other =
    ground (arith, lt_loop-top ps this other, top-le ps this, top-le ps other)

pub ge_loop-top :
    (ps : List Privilege) (this other : HasPriv)
    → ge_loop ps this other ≡ leb (top ps other) (top ps this)
unfolding ge_loop top
ge_loop-top [] this other = refl
ge_loop-top (p ∷ ps) this other =
    ground (arith, ge_loop-top ps this other, top-le ps this, top-le ps other)

pub le_loop-top :
    (ps : List Privilege) (this other : HasPriv)
    → le_loop ps this other ≡ leb (top ps this) (top ps other)
unfolding le_loop top
le_loop-top [] this other = refl
le_loop-top (p ∷ ps) this other =
    ground (arith, le_loop-top ps this other, top-le ps this, top-le ps other)

-- The four operators on access entries compare the highest privileges held, and nothing below them.
pub access_order :
    (privs : List Privilege) (a b : ChanAccess)
    → let x = top (reverse privs) a.has_priv in
      let y = top (reverse privs) b.has_priv in
      (access_gt privs a b ≡ ltb y x)
      × (access_lt privs a b ≡ ltb x y)
      × (access_ge privs a b ≡ leb y x)
      × (access_le privs a b ≡ leb x y)
unfolding access_gt access_lt access_ge access_le
access_order privs a b = (
  gt_loop-top (reverse privs) a.has_priv b.has_priv,
  lt_loop-top (reverse privs) a.has_priv b.has_priv,
  ge_loop-top (reverse privs) a.has_priv b.has_priv,
  le_loop-top (reverse privs) a.has_priv b.has_priv,
)
