-- ===== src/Access/Groups.antt =====
-- Groups of access entries (src/access.cpp): their order and their highest entry.
use mathlib.Core.List.{reverse}
use anope.Base.{
  ℕ, ◌+◌, ◌≤◌, ◌≡◌, refl, ap, inl, inr, Bool, true, false, not, Option, none, some, List, [], ◌∷◌,
  ◌++◌, arith, Bytes, ltb, leb, if◌then◌else◌, Bool-cases, length, All, subst,
}
use anope.Access.{
  Privilege, HasPriv, ChanAccess, AccessGroup, EventReturn, group_has_priv, group_gt, group_lt,
  group_ge, group_le, first_with, highest_loop, highest,
}
use anope.Access.Levels.{top, top-le, gt_loop-top, lt_loop-top, ge_loop-top, le_loop-top}

module _ (on_check_priv : ChanAccess → Bytes → EventReturn)
    (on_group_check_priv : AccessGroup → Bytes → EventReturn) where
  abbrev pub has : AccessGroup → HasPriv
  has = group_has_priv on_check_priv on_group_check_priv

  -- The founder stands above every privilege.
  pub standing : List Privilege → AccessGroup → ℕ
  standing privs g = if g.founder then length (reverse privs) + 1 else top (reverse privs) (has g)

  founder_has :
      (g : AccessGroup) (name : Bytes)
      → g.super_admin ≡ false
      → g.founder ≡ true
      → has g name ≡ not (g.disabled name)
  unfolding group_has_priv
  founder_has g name s f = ground arith

  top-founder :
      (ps : List Privilege) (a b : AccessGroup)
      → a.super_admin ≡ false
      → b.super_admin ≡ false
      → a.founder ≡ true
      → b.founder ≡ true
      → a.disabled ≡ b.disabled
      → top ps (has a) ≡ top ps (has b)
  unfolding top
  top-founder [] a b sa sb fa fb d = refl
  top-founder (p ∷ ps) a b sa sb fa fb d = ground (
    arith,
    top-founder ps a b sa sb fa fb d,
    founder_has a p.name sa fa,
    founder_has b p.name sb fb,
    ap (λ (g : Bytes → Bool). g p.name) d,
  )

  -- The four operators on the groups of two users of one channel, neither of whom is a super admin,
  -- compare one number: the highest privilege held, with the founder above all.
  pub group_order :
      (privs : List Privilege) (a b : AccessGroup)
      → a.super_admin ≡ false
      → b.super_admin ≡ false
      → a.disabled ≡ b.disabled
      → let x = standing privs a in
        let y = standing privs b in
        (group_gt on_check_priv on_group_check_priv privs a b ≡ ltb y x)
        × (group_lt on_check_priv on_group_check_priv privs a b ≡ ltb x y)
        × (group_ge on_check_priv on_group_check_priv privs a b ≡ leb y x)
        × (group_le on_check_priv on_group_check_priv privs a b ≡ leb x y)
  unfolding group_gt group_lt group_ge group_le standing
  group_order privs a b sa sb d =
      let ps = reverse privs in
      let gt = gt_loop-top ps (has a) (has b) in
      let lt = lt_loop-top ps (has a) (has b) in
      let ge = ge_loop-top ps (has a) (has b) in
      let le = le_loop-top ps (has a) (has b) in
      let ta = top-le ps (has a) in
      let tb = top-le ps (has b) in
      let tf =
        λ (fa : a.founder ≡ true) (fb : b.founder ≡ true). top-founder ps a b sa sb fa fb d in
      (
        ground (arith, gt, ta, tb, tf),
        ground (arith, lt, ta, tb, tf),
        ground (arith, ge, ta, tb, tf),
        ground (arith, le, ta, tb, tf),
      )

-- The entry is one of the list, and none of the list holds a higher privilege.
abbrev pub Highest : List Privilege → List ChanAccess → Option ChanAccess → Type 0
Highest ps as' none = All (λ (b : ChanAccess). top ps b.has_priv ≡ 0) as'
Highest ps as' (some a) =
    (before : List ChanAccess) × (after : List ChanAccess) × (as' ≡ before ++ a ∷ after)
    × All (λ (b : ChanAccess). top ps b.has_priv ≤ top ps a.has_priv) as'

-- What the inner loop finds.
abbrev First : Bytes → List ChanAccess → Option ChanAccess → Type 0
First name as' none = All (λ (b : ChanAccess). b.has_priv name ≡ false) as'
First name as' (some a) =
    (before : List ChanAccess) × (after : List ChanAccess) × (as' ≡ before ++ a ∷ after)
    × (a.has_priv name ≡ true)

first_with-First : (name : Bytes) (as' : List ChanAccess) → First name as' (first_with name as')
unfolding first_with
first_with-First name [] = tt
first_with-First name (a ∷ as') = elim (Bool-cases (a.has_priv name)) [
  | inl e ↦ rw (e, first_with) ([], as', refl, e)
  | inr e ↦ rw (e, first_with) (extend e (first_with name as') (first_with-First name as'))
]
  where
    extend :
        a.has_priv name ≡ false
        → (o : Option ChanAccess) → First name as' o
        → First name (a ∷ as') o
    extend e none h = (e, h)
    extend e (some b) (before, after, s, k) = (a ∷ before, after, ap (◌∷◌ a) s, k)

All-of : {P : ChanAccess → Type 0} → ((b : ChanAccess) → P b) → (as' : List ChanAccess) → All P as'
All-of f [] = tt
All-of f (a ∷ as') = (f a, All-of f as')

lower-All :
    (p : Privilege) (ps : List Privilege) (R : ℕ → Type 0) (as' : List ChanAccess)
    → All (λ (b : ChanAccess). b.has_priv p.name ≡ false) as'
    → All (λ (b : ChanAccess). R (top ps b.has_priv)) as'
    → All (λ (b : ChanAccess). R (top (p ∷ ps) b.has_priv)) as'
unfolding top
lower-All p ps R [] n h = tt
lower-All p ps R (a ∷ as') (e, n) (h, hs) = (rw (e, top) h, lower-All p ps R as' n hs)

All-middle :
    (P : ChanAccess → Type 0) (xs : List ChanAccess) (a : ChanAccess) (ys : List ChanAccess)
    → All P (xs ++ a ∷ ys)
    → P a
All-middle P [] a ys h = h.0
All-middle P (x ∷ xs) a ys h = All-middle P xs a ys h.1

highest_loop-Highest :
    (ps : List Privilege) (as' : List ChanAccess) → Highest ps as' (highest_loop ps as')
unfolding highest_loop top
highest_loop-Highest [] as' = All-of (λ b. refl) as'
highest_loop-Highest (p ∷ ps) as' =
    pick (first_with p.name as') (first_with-First p.name as') (highest_loop ps as')
      (highest_loop-Highest ps as')
  where
    pick :
        (o : Option ChanAccess)
        → First p.name as' o
        → (r : Option ChanAccess) → Highest ps as' r
        → Highest (p ∷ ps) as' (elim o [ some a ↦ some a | none ↦ r ])
    pick (some a) (before, after, s, k) r h =
        (before, after, s, All-of (λ b. ground (arith, k, top-le ps b.has_priv)) as')
    pick none n none h = lower-All p ps (λ t. t ≡ 0) as' n h
    pick none n (some a) (before, after, s, h) = (
      before,
      after,
      s,
      rw (All-middle _ before a after (subst (All _) s n), top)
          (lower-All p ps (λ t. t ≤ top ps a.has_priv) as' n h),
    )

-- `Highest` returns `NULL` only if no entry of the group holds any privilege, and otherwise an entry
-- that holds the highest privilege that any of them holds.
pub highest_lem :
    (privs : List Privilege) (g : AccessGroup)
    → Highest (reverse privs) (reverse g.entries) (highest privs g)
unfolding highest
highest_lem privs g = highest_loop-Highest (reverse privs) (reverse g.entries)

-- Of two super admins each stands above and below the other, by every operator.
pub group_order_super :
    (on_check_priv : ChanAccess → Bytes → EventReturn)
    (on_group_check_priv : AccessGroup → Bytes → EventReturn) (privs : List Privilege)
    (a b : AccessGroup)
    → a.super_admin ≡ true
    → b.super_admin ≡ true
    → (group_gt on_check_priv on_group_check_priv privs a b ≡ true)
      × (group_lt on_check_priv on_group_check_priv privs a b ≡ true)
unfolding group_gt group_lt
group_order_super ocp ogcp privs a b sa sb = (rw sa, rw sb)
