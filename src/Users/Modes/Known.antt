-- ===== src/Users/Modes/Known.antt =====
-- src/users.cpp: the known user modes, and what one of them changes when a text sets it.
use anope.Base.{
  ℕ, suc, ◌+◌, ◌≡◌, refl, sym, ap, ◌∙◌, ◌≢◌, Bool, true, false, ◌&&◌, none, some, List, [], ◌∷◌,
  leb, ltb, ◌==◌, ==_no, ==_self, if◌then◌else◌, none-some, some-inj, subst, arith, ℕ_discrete,
}
use anope.Text.{is_empty}
use anope.Numbers.{u32}
use anope.ModeStacker.{Mode, find_by_char, find_by_name}
use anope.ChanModes.{is_some}
use anope.Users.Modes.{
  Moded, put_flag, set_mode_internal, behind_change, umode_oper, internal_change,
}

-- Modes as `AddUserMode` lists them, no two with one character, which is no sign and no space.
abbrev pub AreKnown : List Mode → Type 0
AreKnown [] = Unit
AreKnown (m ∷ ms) =
    (find_by_char m.mode_char ms ≡ none)
    × (m.mode_char ≢ b'+')
    × (m.mode_char ≢ b'-')
    × (m.mode_char ≢ b' ')
    × AreKnown ms

-- A name that `GetModes` shows.
abbrev pub is_shown : List Mode → (ℕ → Bool) → ℕ → Bool
is_shown known flags j = flags j && is_some (find_by_name j known)

-- A mode that is found by its name is found by its character.
abbrev pub Readable : List Mode → Mode → Type 0
Readable known m =
    (find_by_char m.mode_char known ≡ some m)
    × (m.mode_char ≢ b'+')
    × (m.mode_char ≢ b'-')
    × (m.mode_char ≢ b' ')

pub named-Readable :
    (i : ℕ) (m : Mode) (known : List Mode)
    → AreKnown known
    → find_by_name i known ≡ some m
    → (m.name ≡ i) × Readable known m
unfolding find_by_name find_by_char
named-Readable i m [] ok e = absurd (none-some e)
named-Readable i m (k ∷ ks) (fresh, plus, minus, space, ok) e = elim (ℕ_discrete k.name i) [
  | yes at_i ↦
      let same : k ≡ m = some-inj (sym (rw (at_i, ==_self i) refl) ∙ e) in
      subst (λ x. (x.name ≡ i) × Readable (k ∷ ks) x) same
        (at_i, (rw (==_self k.mode_char) refl, plus, minus, space))
  | no other ↦
      let (named, (found, p, q, r)) =
        named-Readable i m ks ok (sym (rw (==_no k.name i other) refl) ∙ e) in
      (
        named,
        (
          rw
              (==_no k.mode_char m.mode_char
                (λ e'. none-some (sym fresh ∙ (ap (λ c. find_by_char c ks) e' ∙ found))))
              found,
          p,
          q,
          r,
        ),
      )
]

-- A mode set without a parameter.
module _ (m : Mode) (w : Moded) where
  pub bare-modes :
      (j : ℕ) → (internal_change true m [] w).modes j ≡ (if m.name == j then true else w.modes j)
  unfolding internal_change behind_change set_mode_internal put_flag
  bare-modes j = ground arith

  pub bare-opcnt :
      (internal_change true m [] w).opcnt
      ≡ (if m.name == umode_oper then u32 (w.opcnt + 1) else w.opcnt)
  unfolding internal_change behind_change set_mode_internal put_flag
  bare-opcnt = ground arith

  pub bare-rest :
      ((internal_change true m [] w).params ≡ w.params)
      × ((internal_change true m [] w).vhost ≡ w.vhost)
  unfolding internal_change behind_change set_mode_internal put_flag is_empty
  bare-rest = ground arith

-- The names of some rounds from one on.
abbrev pub in_rounds : ℕ → ℕ → ℕ → Bool
in_rounds n i j = leb i j && ltb j (i + n)

pub in-none : (i j : ℕ) → in_rounds 0 i j ≡ false
in-none i j = ground arith

pub in-here : (n i : ℕ) → in_rounds (suc n) i i ≡ true
in-here n i = ground arith

pub in-past : (n i : ℕ) → in_rounds n (i + 1) i ≡ false
in-past n i = ground arith

pub in-suc : (n i j : ℕ) → i ≢ j → in_rounds (suc n) i j ≡ in_rounds n (i + 1) j
in-suc n i j ne = ground arith

pub here_lem :
    {A : Type 0} (b : Bool) (f : A → A) (x : A)
    → (if b && false then f (if b && true then f x else x) else (if b && true then f x else x))
      ≡ (if b && true then f x else x)
here_lem true f x = refl
here_lem false f x = refl
