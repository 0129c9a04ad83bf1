-- ===== src/Users/Modes/Asked.antt =====
-- src/users.cpp: `SetModes` and `SetModesInternal` on the same text.
use anope.Base.{
  ℕ, ◌≡◌, refl, sym, ap, ◌∙◌, subst, inl, inr, Bool, true, false, Option, none, some, List, [], ◌∷◌,
  Bytes, ◌==◌, ==_iff, ==_no, if◌then◌else◌, take, Bool-cases, Option-cases, ℕ_discrete, arith,
}
use anope.Tokens.{get_token}
use anope.ModeStacker.{Mode, Objects, find_by_char}
use anope.Users.Modes.{
  Moded, put_flag, set_mode_internal, remove_mode_internal, set_mode, remove_mode, behind_change,
  param_of, change_step, change_loop, read_modes, internal_change, set_modes_internal, asked_change,
  set_modes,
}

module _ {S T : Type 0} (R : S → T → Type 0) (f : Bool → Mode → Bytes → S → S)
    (g : Bool → Mode → Bytes → T → T) (known : List Mode)
    (related : (a : Bool) (um : Mode) (param : Bytes) (s : S) (t : T)
      → R s t
      → R (f a um param s) (g a um param t)) where
  -- The two rounds of a character go on alike.
  step-related :
      (c : ℕ) (add : Option Bool) (sep : Bytes) (s : S) (t : T)
      → R s t
      → (add' : Option Bool) × (sep' : Bytes) × (s' : S) × (t' : T) × (change_step f known c
            (add, sep, s)
          ≡ (add', sep', s'))
        × (change_step g known c (add, sep, t) ≡ (add', sep', t'))
        × R s' t'
  unfolding change_step
  step-related c add sep s t r = elim (Bool-cases (c == b'+')) [
    | inl plus ↦ (some true, sep, s, t, rw plus refl, rw plus refl, r)
    | inr other ↦ elim (Bool-cases (c == b'-')) [
      | inl minus ↦ (some false, sep, s, t, rw (other, minus) refl, rw (other, minus) refl, r)
      | inr char ↦ elim (Option-cases add) [
        | inl unsigned ↦
            (none, sep, s, t, rw (other, char, unsigned) refl, rw (other, char, unsigned) refl, r)
        | inr (a, signed) ↦ elim (Option-cases (find_by_char c known)) [
          | inl unknown ↦ (
            some a,
            sep,
            s,
            t,
            rw (other, char, signed, unknown) refl,
            rw (other, char, signed, unknown) refl,
            r,
          )
          | inr (um, found) ↦ (
            some a,
            (param_of a um sep).1,
            f a um (param_of a um sep).0 s,
            g a um (param_of a um sep).0 t,
            rw (other, char, signed, found) refl,
            rw (other, char, signed, found) refl,
            related a um (param_of a um sep).0 s t r,
          )
        ]
      ]
    ]
  ]

  loop-related :
      (text : Bytes) (add : Option Bool) (sep : Bytes) (s : S) (t : T)
      → R s t
      → R (change_loop f known text (add, sep, s)).2 (change_loop g known text (add, sep, t)).2
  unfolding change_loop
  loop-related [] add sep s t r = r
  loop-related (c ∷ text) add sep s t r =
      let (add', sep', s', t', left, right, r') = step-related c add sep s t r in
      subst
        (λ x.
          R (change_loop f known text x).2
            (change_loop g known text (change_step g known c (add, sep, t))).2)
        (sym left)
        (subst (λ x. R (change_loop f known text (add', sep', s')).2 (change_loop g known text x).2)
          (sym right) (loop-related text add' sep' s' t' r'))

  read-related :
      (text : Bytes) (s : S) (t : T)
      → R s t
      → R (read_modes f known text s) (read_modes g known text t)
  unfolding read_modes
  read-related text s t r = elim (Option-cases (get_token b' ' (take 1022 text))) [
    | inl nothing ↦ rw (nothing, read_modes) r
    | inr ((modebuf, sep), first) ↦ rw (first, read_modes) (loop-related modebuf none sep s t r)
  ]

-- The same flags, and the count of operators and the virtual host of the beginning.
abbrev Agree : Moded → Moded × Objects → Moded → Type 0
Agree w0 (w, os) v = ((i : ℕ) → w.modes i ≡ v.modes i) × (w.opcnt ≡ w0.opcnt) × (w.vhost ≡ w0.vhost)

bare_flags :
    (a : Bool) (um : Mode) (param : Bytes) (v : Moded) (i : ℕ)
    → (internal_change a um param v).modes i ≡ put_flag um.name a v.modes i
unfolding internal_change behind_change set_mode_internal remove_mode_internal put_flag
bare_flags true um param v i = ground arith
bare_flags false um param v i = ground arith

-- A flag that has its value already, and one that is put on both sides.
module _ (name : ℕ) (b : Bool) (flags flags' : ℕ → Bool) (same : (i : ℕ) → flags i ≡ flags' i) where
  flag_kept : flags name ≡ b → (i : ℕ) → flags i ≡ put_flag name b flags' i
  unfolding put_flag
  flag_kept e i = elim (ℕ_discrete i name) [
    | yes at_name ↦ rw ((==_iff i name).1 at_name) (ap flags at_name ∙ e)
    | no ne ↦ rw (==_no i name ne) (same i)
  ]

  flag_both : (i : ℕ) → put_flag name b flags i ≡ put_flag name b flags' i
  unfolding put_flag
  flag_both i = ap (λ x. if i == name then b else x) (same i)

change-Agree :
    (bi : Option ℕ) (u : ℕ) (w0 : Moded) (a : Bool) (um : Mode) (param : Bytes) (w : Moded)
    (os : Objects) (v : Moded)
    → Agree w0 (w, os) v
    → Agree w0 (asked_change bi u a um param (w, os)) (internal_change a um param v)
unfolding asked_change set_mode remove_mode set_mode_internal remove_mode_internal put_flag
change-Agree bi u w0 true um param w os v (same, count, host) =
    elim (Bool-cases (w.modes um.name)) [
      | inl there ↦ rw there (
        (λ i.
            flag_kept um.name true w.modes v.modes same there i
            ∙ sym (bare_flags true um param v i)),
        count,
        host,
      )
      | inr off ↦ rw off (
        (λ i. flag_both um.name true w.modes v.modes same i ∙ sym (bare_flags true um param v i)),
        count,
        host,
      )
    ]
change-Agree bi u w0 false um param w os v (same, count, host) =
    elim (Bool-cases (w.modes um.name)) [
      | inl there ↦ rw there (
        (λ i. flag_both um.name false w.modes v.modes same i ∙ sym (bare_flags false um param v i)),
        count,
        host,
      )
      | inr off ↦ rw off (
        (λ i.
            flag_kept um.name false w.modes v.modes same off i
            ∙ sym (bare_flags false um param v i)),
        count,
        host,
      )
    ]

-- `SetModes` and `SetModesInternal` of one text, whatever it is, leave a user with the same flags; but
-- `SetModes` leaves the count of operators and the virtual host as they were.
pub set_modes-set_modes_internal :
    (bi : Option ℕ) (u : ℕ) (known : List Mode) (text : Bytes) (w : Moded) (os : Objects) (i : ℕ)
    → let w' = (set_modes bi u known text (w, os)).0 in
      (w'.modes i ≡ (set_modes_internal known text w).modes i)
      × (w'.opcnt ≡ w.opcnt)
      × (w'.vhost ≡ w.vhost)
unfolding set_modes set_modes_internal
set_modes-set_modes_internal bi u known text w os i =
    let (same, count, host) =
      read-related (Agree w) (asked_change bi u) internal_change known
        (λ a um param s v. change-Agree bi u w a um param s.0 s.1 v) text (w, os) w
        ((λ j. refl), refl, refl) in
    (same i, count, host)
