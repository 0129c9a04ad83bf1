-- ===== src/Users/Modes/Report.antt =====
-- src/users.cpp: what services tell a server about the modes of a user, and what they hold then.
use anope.Base.{
  ℕ, zero, suc, ◌+◌, ◌≡◌, refl, ap, ◌∙◌, ◌≤◌, Bool, true, false, ◌&&◌, some, none, List, [], ◌∷◌,
  Bytes, leb, ltb, if◌then◌else◌, length, take, arith,
}
use anope.Tokens.{get_token}
use anope.Tokens.Join.{get_token-last}
use anope.Numbers.{u32}
use anope.ModeStacker.{Mode}
use anope.Users.Modes.{
  Moded, umode_oper, umode_end, change_step, change_loop, read_modes, internal_change,
  set_modes_internal, get_modes,
}
use anope.Users.Modes.Known.{AreKnown, is_shown}
use anope.Users.Modes.Shown.{is_among, after, after-modes, after-opcnt, after-rest, shown_text}

and_true : (b : Bool) → (b && true) ≡ b
and_true true = refl
and_true false = refl

take_all : {A : Type 0} (n : ℕ) (xs : List A) → length xs ≤ n → take n xs ≡ xs
take_all zero [] le = refl
take_all zero (x ∷ xs) le = absurd (omega (arith, le))
take_all (suc n) [] le = refl
take_all (suc n) (x ∷ xs) le = ap (λ t. x ∷ t) (take_all n xs (omega (arith, le)))

module _ (known : List Mode) (ok : AreKnown known) (flags : ℕ → Bool) (w : Moded) where
  read_report :
      set_modes_internal known (b'+' ∷ get_modes known flags) w ≡ after known ok flags 34 1 w
  unfolding set_modes_internal read_modes after get_modes change_step change_loop
  read_report =
      let (clean, short) = shown_text known ok flags 34 1 in
      let run : Bytes → Moded = λ t. elim (get_token b' ' t) [
        | none ↦ w
        | some (modebuf, sep) ↦ (change_loop internal_change known modebuf (none, sep, w)).2
      ] in
      ap run (take_all 1022 (b'+' ∷ get_modes known flags) (omega (arith, short)))
      ∙ rw
          (get_token-last b' ' (b'+' ∷ get_modes known flags) (λ e. cc)
            ((λ e. omega (arith, e)), clean))
          refl

-- The modes that `GetModes` gives, read back: the names from 1 to `UMODE_END - 1` that are set and belong to a known mode are
-- set then, every other flag is as it was, no parameter and no virtual host changes, and the count of
-- operators goes up if the mode of operators is among them, also for a user who has it already. The known modes have
-- characters of their own, which are no signs and no spaces.
pub set_modes_internal-get_modes :
    (known : List Mode) (flags : ℕ → Bool) (w : Moded) (j : ℕ)
    → AreKnown known
    → let w' = set_modes_internal known (b'+' ∷ get_modes known flags) w in
      (w'.modes j
        ≡ (if is_shown known flags j && (leb 1 j && ltb j umode_end) then true else w.modes j))
      × (w'.opcnt ≡ (if is_shown known flags umode_oper then u32 (w.opcnt + 1) else w.opcnt))
      × (w'.params ≡ w.params)
      × (w'.vhost ≡ w.vhost)
unfolding is_among
set_modes_internal-get_modes known flags w j ok =
    let read = read_report known ok flags w in
    let (params, vhost) = after-rest known ok flags 34 1 w in
    (
      ap (λ x. x.modes j) read ∙ after-modes known ok flags 34 1 j w,
      ap (λ x. x.opcnt) read
          ∙ (after-opcnt known ok flags 34 1 w
              ∙ ap (λ b. if b then u32 (w.opcnt + 1) else w.opcnt)
                  (and_true (is_shown known flags umode_oper))),
      ap (λ x. x.params) read ∙ params,
      ap (λ x. x.vhost) read ∙ vhost,
    )
