-- ===== src/ModeStacker/Keys.antt =====
-- The changes on a list of the stacker by mode and parameter, for modes that are no parameter modes.
use anope.Base.{
  ℕ, ◌≡◌, refl, sym, ◌∙◌, ◌↔◌, ◌⊎◌, inl, inr, Bool, true, false, ◌&&◌, ◌||◌, List, [], ◌∷◌, ◌++◌,
  arith, Bytes, ◌==◌, ==_iff, Bool-cases, All,
}
use anope.Text.{equals_cs}
use anope.Text.Order.{equals_cs_iff}
use anope.ModeStacker.{Mode, Change, is_param, is_same, on_list, erase_same}

pub clash : false ≡ true → ⊥
clash h = cc

unfoldable pub same_key : ℕ → Bytes → ℕ → Bytes → Bool
same_key q y p x = q == p && equals_cs y x

pub same_key_iff :
    (q : ℕ) (y : Bytes) (p : ℕ) (x : Bytes) → (same_key q y p x ≡ true) ↔ ((q ≡ p) × (y ≡ x))
unfolding same_key
same_key_iff q y p x = (
  λ h. ground (arith, h, equals_cs_iff y x, ==_iff q p),
  λ h. ground (arith, h, equals_cs_iff y x, ==_iff q p),
)

pub same_key_self : (q : ℕ) (y : Bytes) → same_key q y q y ≡ true
same_key_self q y = (same_key_iff q y q y).1 (refl, refl)

pub Key-cases :
    (q : ℕ) (y : Bytes) (p : ℕ) (x : Bytes) → ((q ≡ p) × (y ≡ x)) ⊎ (same_key q y p x ≡ false)
Key-cases q y p x = elim (Bool-cases (same_key q y p x)) [
  | inl e ↦ inl ((same_key_iff q y p x).0 e)
  | inr e ↦ inr e
]

-- Is the mode at place `q` with the parameter `y` on the list?
unfoldable pub among : ℕ → Bytes → List Change → Bool
among q y [] = false
among q y ((m, x) ∷ cs) = same_key q y m.place x || among q y cs

abbrev pub Unique : List Change → Type 0
Unique [] = Unit
Unique ((m, x) ∷ cs) = (among m.place x cs ≡ false) × Unique cs

module _ (mode : Mode) (param : Bytes) (plain : is_param mode.type ≡ false) where
  is_same-key :
      (n : Mode) (p : Bytes) → is_same mode param (n, p) ≡ same_key mode.place param n.place p
  unfolding is_same same_key
  is_same-key n p = rw plain (ground (arith, ==_iff n.place mode.place, ==_iff mode.place n.place))

  pub on_list-among : (cs : List Change) → on_list mode param cs ≡ among mode.place param cs
  unfolding on_list among
  on_list-among [] = refl
  on_list-among ((n, p) ∷ cs) = rw (is_same-key n p, on_list-among cs) refl

  erase_none : erase_same mode param [] ≡ []
  unfolding erase_same
  erase_none = refl

  erase_hit :
      (n : Mode) (p : Bytes) (cs : List Change)
      → same_key mode.place param n.place p ≡ true
      → erase_same mode param ((n, p) ∷ cs) ≡ cs
  unfolding erase_same
  erase_hit n p cs e = rw (is_same-key n p, e) refl

  erase_miss :
      (n : Mode) (p : Bytes) (cs : List Change)
      → same_key mode.place param n.place p ≡ false
      → erase_same mode param ((n, p) ∷ cs) ≡ (n, p) ∷ erase_same mode param cs
  unfolding erase_same
  erase_miss n p cs e = rw (is_same-key n p, e) refl

  pub All-erase :
      (P : Change → Type 0) (cs : List Change) → All P cs → All P (erase_same mode param cs)
  All-erase P [] h = rw erase_none tt
  All-erase P ((n, p) ∷ cs) (hc, h) = elim (Bool-cases (same_key mode.place param n.place p)) [
    | inl e ↦ rw (erase_hit n p cs e) h
    | inr e ↦ rw (erase_miss n p cs e) (hc, All-erase P cs h)
  ]

  -- The key is gone, and every other key stays.
  pub among-erase_self :
      (cs : List Change) → Unique cs → among mode.place param (erase_same mode param cs) ≡ false
  unfolding among
  among-erase_self [] u = rw (erase_none, among) refl
  among-erase_self ((n, p) ∷ cs) (here, u) =
      elim (Bool-cases (same_key mode.place param n.place p)) [
        | inl e ↦
            let (ep, ex) = (same_key_iff mode.place param n.place p).0 e in
            rw (erase_hit n p cs e, ep, ex) here
        | inr e ↦ rw (erase_miss n p cs e, among, e) (among-erase_self cs u)
      ]

  pub among-erase_other :
      (q : ℕ) (y : Bytes) (cs : List Change)
      → same_key q y mode.place param ≡ false
      → among q y (erase_same mode param cs) ≡ among q y cs
  unfolding among
  among-erase_other q y [] ne = rw (erase_none, among) refl
  among-erase_other q y ((n, p) ∷ cs) ne = elim (Bool-cases (same_key mode.place param n.place p)) [
    | inl e ↦
        let (ep, ex) = (same_key_iff mode.place param n.place p).0 e in
        let miss : same_key q y n.place p ≡ false = rw (ep, ex) at ne in
        rw (erase_hit n p cs e, miss) refl
    | inr e ↦ rw (erase_miss n p cs e, among, among-erase_other q y cs ne) refl
  ]

  pub Unique-erase : (cs : List Change) → Unique cs → Unique (erase_same mode param cs)
  Unique-erase [] u = rw erase_none tt
  Unique-erase ((n, p) ∷ cs) (here, u) = elim (Bool-cases (same_key mode.place param n.place p)) [
    | inl e ↦ rw (erase_hit n p cs e) u
    | inr e ↦
        let ne = other_way n p e in
        rw (erase_miss n p cs e) (among-erase_other n.place p cs ne ∙ here, Unique-erase cs u)
  ]
    where
      other_way :
          (n : Mode) (p : Bytes)
          → same_key mode.place param n.place p ≡ false
          → same_key n.place p mode.place param ≡ false
      other_way n p e = elim (Key-cases n.place p mode.place param) [
        | inl (ep, ex) ↦
            absurd (clash (sym e ∙ (same_key_iff mode.place param n.place p).1 (sym ep, sym ex)))
        | inr ne ↦ ne
      ]

pub among-snoc :
    (q : ℕ) (y : Bytes) (m : Mode) (x : Bytes) (cs : List Change)
    → among q y (cs ++ (m, x) ∷ []) ≡ among q y cs || same_key q y m.place x
unfolding among
among-snoc q y m x [] = ground arith
among-snoc q y m x ((n, p) ∷ cs) = ground (arith, among-snoc q y m x cs)

pub Unique-snoc :
    (m : Mode) (x : Bytes) (cs : List Change)
    → Unique cs
    → among m.place x cs ≡ false
    → Unique (cs ++ (m, x) ∷ [])
unfolding among
Unique-snoc m x [] u h = (refl, tt)
Unique-snoc m x ((n, p) ∷ cs) (here, u) h = (
  rw (among-snoc n.place p m x cs, here) (flipped (Bool-cases (same_key n.place p m.place x))),
  Unique-snoc m x cs u (ground (arith, h)),
)
  where
    flipped :
        (same_key n.place p m.place x ≡ true) ⊎ (same_key n.place p m.place x ≡ false)
        → same_key n.place p m.place x ≡ false
    flipped (inr e) = e
    flipped (inl e) =
        let (ep, ex) = (same_key_iff n.place p m.place x).0 e in
        let back = (same_key_iff m.place x n.place p).1 (sym ep, sym ex) in ground (arith, h, back)

pub All-among :
    (P : ℕ → Bytes → Type 0) (cs : List Change)
    → All (λ c. P c.0.place c.1) cs
    → (q : ℕ) (y : Bytes) → among q y cs ≡ true
    → P q y
unfolding among
All-among P [] h q y e = absurd (clash e)
All-among P ((m, x) ∷ cs) (hc, h) q y e = elim (Key-cases q y m.place x) [
  | inl (ep, ex) ↦ rw (ep, ex) hc
  | inr ne ↦ All-among P cs h q y (ground (arith, e, ne))
]
