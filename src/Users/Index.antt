-- ===== src/Users/Index.antt =====
-- A map from names to the users who have them, under changes of one user.
use anope.Base.{
  ℕ, ◌≡◌, sym, ap, ◌∙◌, ◌≢◌, inl, inr, Bool, true, Option, none, some, arith, Bytes, if◌then◌else◌,
  some-inj, none-some, Bool-cases, ℕ_discrete,
}
use anope.Users.{User, at_place}

pub place_here : (heap : ℕ → Option User) (p : ℕ) (v : Option User) → at_place heap p v p ≡ v
unfolding at_place
place_here heap p v = ground arith

pub place_other :
    (heap : ℕ → Option User) (p : ℕ) (v : Option User) (q : ℕ)
    → q ≢ p
    → at_place heap p v q ≡ heap q
unfolding at_place
place_other heap p v q ne = ground arith

-- `test k u` tells whether `k` is a name of the user.
module _ (test : Bytes → User → Bool) where
  -- The map holds the names of the live users, and no others.
  pub record Indexes (m : Bytes → Option ℕ) (heap : ℕ → Option User) : Type 0 where
    pub sound :
        (k : Bytes) (p : ℕ) → m k ≡ some p → (u : User) × (heap p ≡ some u) × (test k u ≡ true)
    pub complete : (k : Bytes) (p : ℕ) (u : User) → heap p ≡ some u → test k u ≡ true → m k ≡ some p

  -- The names of a user lead to another place, or to none.
  unfoldable pub name_at : User → Option ℕ → (Bytes → Option ℕ) → Bytes → Option ℕ
  name_at u v m k = if test k u then v else m k

  pub empty-Indexes : Indexes (λ k. none) (λ p. none)
  empty-Indexes = record {
    sound = λ k p e. absurd (none-some e);
    complete = λ k p u e t. absurd (none-some e);
  }

  pub same-Indexes :
      (m : Bytes → Option ℕ) (heap heap' : ℕ → Option User)
      → ((p : ℕ) → heap p ≡ heap' p)
      → Indexes m heap
      → Indexes m heap'
  same-Indexes m heap heap' same ix = record {
    sound = λ k p e. let (u, alive, t) = ix.sound k p e in (u, sym (same p) ∙ alive, t);
    complete = λ k p u e t. ix.complete k p u (same p ∙ e) t;
  }

  module _ (m : Bytes → Option ℕ) (heap : ℕ → Option User) (ix : Indexes m heap) (p : ℕ)
      (u : User) where
    pub come-Indexes :
        heap p ≡ none
        → ((k : Bytes) (q : ℕ) (u' : User)
            → heap q ≡ some u'
            → test k u ≡ true
            → test k u' ≡ true
            → ⊥)
        → Indexes (name_at u (some p) m) (at_place heap p (some u))
    unfolding name_at
    come-Indexes vacant apart = record { sound = sound; complete = complete }
      where
        elsewhere : (q : ℕ) (u' : User) → heap q ≡ some u' → q ≢ p
        elsewhere q u' alive e = none-some (sym vacant ∙ (ap heap (sym e) ∙ alive))

        sound :
            (k : Bytes) (q : ℕ)
            → name_at u (some p) m k ≡ some q
            → (u' : User) × (at_place heap p (some u) q ≡ some u') × (test k u' ≡ true)
        sound k q e = elim (Bool-cases (test k u)) [
          | inl t ↦
              let here : p ≡ q = some-inj (sym (ap (λ b. if b then some p else m k) t) ∙ e) in
              (u, ap (at_place heap p (some u)) (sym here) ∙ place_here heap p (some u), t)
          | inr t ↦
              let (u', alive, t') =
                ix.sound k q (sym (ap (λ b. if b then some p else m k) t) ∙ e) in
              (u', place_other heap p (some u) q (elsewhere q u' alive) ∙ alive, t')
        ]

        complete :
            (k : Bytes) (q : ℕ) (u' : User)
            → at_place heap p (some u) q ≡ some u'
            → test k u' ≡ true
            → name_at u (some p) m k ≡ some q
        complete k q u' e t = elim (ℕ_discrete q p) [
          | yes here ↦
              let same : u ≡ u' = some-inj (
                sym (place_here heap p (some u))
                ∙ (ap (at_place heap p (some u)) (sym here) ∙ e)) in
              let t' : test k u ≡ true = ap (test k) same ∙ t in rw t' (ap some (sym here))
          | no ne ↦
              let alive : heap q ≡ some u' = sym (place_other heap p (some u) q ne) ∙ e in
              elim (Bool-cases (test k u)) [
                | inl t' ↦ absurd (apart k q u' alive t' t)
                | inr t' ↦ rw t' (ix.complete k q u' alive t)
              ]
        ]

    pub go-Indexes : heap p ≡ some u → Indexes (name_at u none m) (at_place heap p none)
    unfolding name_at
    go-Indexes alive = record { sound = sound; complete = complete }
      where
        sound :
            (k : Bytes) (q : ℕ)
            → name_at u none m k ≡ some q
            → (u' : User) × (at_place heap p none q ≡ some u') × (test k u' ≡ true)
        sound k q e = elim (Bool-cases (test k u)) [
          | inl t ↦ absurd (none-some (sym (ap (λ b. if b then none else m k) t) ∙ e))
          | inr t ↦
              let (u', alive', t') = ix.sound k q (sym (ap (λ b. if b then none else m k) t) ∙ e) in
              let ne : q ≢ p = λ here.
                let same : u ≡ u' = some-inj (sym alive ∙ (ap heap (sym here) ∙ alive')) in
                let t'' : test k u ≡ true = ap (test k) same ∙ t' in cc in
              (u', place_other heap p none q ne ∙ alive', t')
        ]

        complete :
            (k : Bytes) (q : ℕ) (u' : User)
            → at_place heap p none q ≡ some u'
            → test k u' ≡ true
            → name_at u none m k ≡ some q
        complete k q u' e t = elim (ℕ_discrete q p) [
          | yes here ↦ absurd (
              none-some (sym (place_here heap p none) ∙ (ap (at_place heap p none) (sym here) ∙ e)))
          | no ne ↦
              let alive' : heap q ≡ some u' = sym (place_other heap p none q ne) ∙ e in
              let there : m k ≡ some q = ix.complete k q u' alive' t in
              elim (Bool-cases (test k u)) [
                | inl t' ↦ absurd (ne (some-inj (sym there ∙ ix.complete k p u alive t')))
                | inr t' ↦ rw t' there
              ]
        ]

    -- A user changes, and keeps the names that the map is about.
    pub keep-Indexes :
        (u' : User)
        → heap p ≡ some u
        → ((k : Bytes) → test k u' ≡ test k u)
        → Indexes m (at_place heap p (some u'))
    keep-Indexes u' alive same = record { sound = sound; complete = complete }
      where
        sound :
            (k : Bytes) (q : ℕ)
            → m k ≡ some q
            → (x : User) × (at_place heap p (some u') q ≡ some x) × (test k x ≡ true)
        sound k q e =
            let (x, alive', t) = ix.sound k q e in
            elim (ℕ_discrete q p) [
              | yes here ↦
                  let old : x ≡ u = some-inj (sym alive' ∙ (ap heap here ∙ alive)) in
                  (
                    u',
                    ap (at_place heap p (some u')) here ∙ place_here heap p (some u'),
                    same k ∙ (ap (test k) (sym old) ∙ t),
                  )
              | no ne ↦ (x, place_other heap p (some u') q ne ∙ alive', t)
            ]

        complete :
            (k : Bytes) (q : ℕ) (x : User)
            → at_place heap p (some u') q ≡ some x
            → test k x ≡ true
            → m k ≡ some q
        complete k q x e t = elim (ℕ_discrete q p) [
          | yes here ↦
              let new : u' ≡ x = some-inj (
                sym (place_here heap p (some u'))
                ∙ (ap (at_place heap p (some u')) (sym here) ∙ e)) in
              ix.complete k q u (ap heap here ∙ alive) (sym (same k) ∙ (ap (test k) new ∙ t))
          | no ne ↦ ix.complete k q x (sym (place_other heap p (some u') q ne) ∙ e) t
        ]
