-- ===== src/Users/Modes/Shown.antt =====
-- src/users.cpp: a text that `GetModes` gives, read by `SetModesInternal`. Servers are told the modes of
-- the own clients in such a text, with a plus before it.
use anope.Base.{
  ℕ, zero, suc, ◌+◌, ◌≡◌, refl, sym, ap, ◌∙◌, ◌≢◌, ◌≤◌, inl, inr, Bool, true, false, ◌&&◌, none,
  some, List, [], ◌∷◌, Bytes, ◌==◌, ==_no, ==_self, if◌then◌else◌, Bool-cases, Option-cases,
  and_false, ◌⊎◌, subst, length, All, arith, ℕ_discrete,
}
use anope.Tokens.{get_token, get_token_loop}
use anope.Numbers.{u32}
use anope.ModeStacker.{Mode, find_by_name}
use anope.ChanModes.{is_some}
use anope.Users.Modes.{
  Moded, umode_oper, param_of, change_step, change_loop, internal_change, get_modes_loop,
}
use anope.Users.Modes.Known.{
  AreKnown, is_shown, named-Readable, bare-modes, bare-opcnt, bare-rest, in_rounds, in-none,
  in-here, in-past, in-suc, here_lem,
}

module _ (known : List Mode) (ok : AreKnown known) where
  readable_step :
      (i : ℕ) (m : Mode) (w : Moded)
      → find_by_name i known ≡ some m
      → change_step internal_change known m.mode_char (some true, [], w)
        ≡ (some true, [], internal_change true m [] w)
  unfolding change_step param_of get_token get_token_loop
  readable_step i m w e =
      let (named, (found, plus, minus, space)) = named-Readable i m known ok e in
      rw (==_no m.mode_char b'+' plus, ==_no m.mode_char b'-' minus, found) refl

  module _ (flags : ℕ → Bool) where
    -- The round of one name.
    shown_round : ℕ → Moded → Moded
    shown_round i w =
        if flags i
        then elim (find_by_name i known) [ none ↦ w | some m ↦ internal_change true m [] w ]
        else w

    -- The rounds of some names from one on.
    unfoldable pub after : ℕ → ℕ → Moded → Moded
    after n i w =
        (change_loop internal_change known (get_modes_loop known flags n i) (some true, [], w)).2

    -- A name is shown and changes the state, or it does neither.
    round_cases :
        (i : ℕ)
        → ((is_shown known flags i ≡ false)
            × ((n : ℕ)
                → get_modes_loop known flags (suc n) i ≡ get_modes_loop known flags n (i + 1))
            × ((w : Moded) → shown_round i w ≡ w))
          ⊎ ((m : Mode) × (is_shown known flags i ≡ true)
              × (find_by_name i known ≡ some m)
              × ((n : ℕ)
                  → get_modes_loop known flags (suc n) i
                    ≡ m.mode_char ∷ get_modes_loop known flags n (i + 1))
              × ((w : Moded) → shown_round i w ≡ internal_change true m [] w))
    unfolding get_modes_loop shown_round is_some
    round_cases i = elim (Bool-cases (flags i)) [
      | inr hidden ↦
          inl (rw hidden refl, λ n. rw (get_modes_loop, hidden) refl, λ w. rw hidden refl)
      | inl there ↦ elim (Option-cases (find_by_name i known)) [
        | inl unnamed ↦ inl (
          rw (there, unnamed) refl,
          λ n. rw (get_modes_loop, there, unnamed) refl,
          λ w. rw (there, unnamed) refl,
        )
        | inr (m, named) ↦ inr (
          m,
          rw (there, named) refl,
          named,
          λ n. rw (get_modes_loop, there, named) refl,
          λ w. rw (there, named) refl,
        )
      ]
    ]

    after-suc : (n i : ℕ) (w : Moded) → after (suc n) i w ≡ after n (i + 1) (shown_round i w)
    unfolding change_loop after
    after-suc n i w =
        let run : Bytes → Moded = λ s. (change_loop internal_change known s (some true, [], w)).2 in
        elim (round_cases i) [
          | inl (hidden, text, same) ↦ ap run (text n) ∙ sym (ap (after n (i + 1)) (same w))
          | inr (m, there, named, text, round) ↦
              ap run (text n)
              ∙ (ap
                    (λ t.
                      (change_loop internal_change known (get_modes_loop known flags n (i + 1))
                        t).2)
                    (readable_step i m w named)
                  ∙ sym (ap (after n (i + 1)) (round w)))
        ]

    round-modes :
        (i j : ℕ) (w : Moded)
        → (shown_round i w).modes j ≡ (if is_shown known flags i && i == j then true else w.modes j)
    round-modes i j w = elim (round_cases i) [
      | inl (hidden, text, same) ↦ rw (hidden, same w) refl
      | inr (m, there, named, text, round) ↦
          rw (there, round w, sym (named-Readable i m known ok named).0) (bare-modes m w j)
    ]

    round-opcnt :
        (i : ℕ) (w : Moded)
        → (shown_round i w).opcnt
          ≡ (if is_shown known flags i && i == umode_oper then u32 (w.opcnt + 1) else w.opcnt)
    round-opcnt i w = elim (round_cases i) [
      | inl (hidden, text, same) ↦ rw (hidden, same w) refl
      | inr (m, there, named, text, round) ↦
          rw (there, round w, sym (named-Readable i m known ok named).0) (bare-opcnt m w)
    ]

    round-rest :
        (i : ℕ) (w : Moded)
        → ((shown_round i w).params ≡ w.params) × ((shown_round i w).vhost ≡ w.vhost)
    round-rest i w = elim (round_cases i) [
      | inl (hidden, text, same) ↦ rw (same w) (refl, refl)
      | inr (m, there, named, text, round) ↦ rw (round w) (bare-rest m w)
    ]

    unfoldable pub is_among : ℕ → ℕ → ℕ → Bool
    is_among n i j = is_shown known flags j && in_rounds n i j

    -- What the round of a name does to a value, and the rounds behind it.
    rounds-join :
        {A : Type 0} (f : A → A) (x : A) (n i j : ℕ)
        → (if is_among n (i + 1) j
            then f (if is_shown known flags i && i == j then f x else x)
            else (if is_shown known flags i && i == j then f x else x))
          ≡ (if is_among (suc n) i j then f x else x)
    unfolding is_among
    rounds-join f x n i j = elim (ℕ_discrete i j) [
      | yes e ↦
          subst
            (λ k.
              (if is_among n (i + 1) k
                then f (if is_shown known flags i && i == k then f x else x)
                else (if is_shown known flags i && i == k then f x else x))
              ≡ (if is_among (suc n) i k then f x else x))
            e (rw (in-past n i, in-here n i, ==_self i) (here_lem (is_shown known flags i) f x))
      | no ne ↦ rw (in-suc n i j ne, ==_no i j ne, and_false (is_shown known flags i)) refl
    ]

    pub after-modes :
        (n i j : ℕ) (w : Moded)
        → (after n i w).modes j ≡ (if is_among n i j then true else w.modes j)
    unfolding is_among after get_modes_loop change_loop
    after-modes zero i j w = rw (in-none i j, and_false (is_shown known flags j)) refl
    after-modes (suc n) i j w =
        ap (λ x. x.modes j) (after-suc n i w)
        ∙ (after-modes n (i + 1) j (shown_round i w)
            ∙ (ap (λ b. if is_among n (i + 1) j then true else b) (round-modes i j w)
                ∙ rounds-join (λ b. true) (w.modes j) n i j))

    pub after-opcnt :
        (n i : ℕ) (w : Moded)
        → (after n i w).opcnt ≡ (if is_among n i umode_oper then u32 (w.opcnt + 1) else w.opcnt)
    unfolding is_among after get_modes_loop change_loop
    after-opcnt zero i w =
        rw (in-none i umode_oper, and_false (is_shown known flags umode_oper)) refl
    after-opcnt (suc n) i w =
        ap (λ x. x.opcnt) (after-suc n i w)
        ∙ (after-opcnt n (i + 1) (shown_round i w)
            ∙ (ap (λ c. if is_among n (i + 1) umode_oper then u32 (c + 1) else c) (round-opcnt i w)
                ∙ rounds-join (λ c. u32 (c + 1)) w.opcnt n i umode_oper))

    pub after-rest :
        (n i : ℕ) (w : Moded) → ((after n i w).params ≡ w.params) × ((after n i w).vhost ≡ w.vhost)
    unfolding after get_modes_loop change_loop
    after-rest zero i w = (refl, refl)
    after-rest (suc n) i w =
        let (params, vhost) = round-rest i w in
        let (params', vhost') = after-rest n (i + 1) (shown_round i w) in
        (
          ap (λ x. x.params) (after-suc n i w) ∙ (params' ∙ params),
          ap (λ x. x.vhost) (after-suc n i w) ∙ (vhost' ∙ vhost),
        )

    -- The text that is shown has no space and at most a character for each round.
    pub shown_text :
        (n i : ℕ)
        → All (λ c. c ≢ b' ') (get_modes_loop known flags n i)
          × (length (get_modes_loop known flags n i) ≤ n)
    unfolding get_modes_loop
    shown_text zero i = (tt, omega arith)
    shown_text (suc n) i =
        let (clean, short) = shown_text n (i + 1) in
        elim (round_cases i) [
          | inl (hidden, text, same) ↦
              subst (λ s. All (λ c. c ≢ b' ') s × (length s ≤ suc n)) (sym (text n))
                (clean, omega (arith, short))
          | inr (m, there, named, text, round) ↦
              let (name, (found, plus, minus, space)) = named-Readable i m known ok named in
              subst (λ s. All (λ c. c ≢ b' ') s × (length s ≤ suc n)) (sym (text n))
                ((space, clean), omega (arith, short))
        ]
