-- ===== src/Glob/Complete.antt =====
-- A text for which a mask stands is accepted by `Anope::Match`, if the mask has no two stars side
-- by side and the text no 0 inside: coming back to the last star alone misses nothing.
use anope.Base.{
  ℕ, zero, suc, ◌+◌, ◌*◌, ◌≡◌, refl, ap, ◌↔◌, ◌⊎◌, inl, inr, Bool, true, false, some, [], ◌∷◌,
  arith, Bytes, ◌==◌, ==_iff, Bool-cases, length, drop,
}
use anope.Glob.{
  star, fits, Outcome, found, spent, Back, finish, retry, at_star, match_loop, rounds, match_prefix,
  match, matches,
}
use anope.Glob.Spec.{Glob, one, skip, more, NoDoubleStar}
use anope.Glob.Sound.{match_sound}
use anope.Glob.Total.{match_total}
use anope.Glob.Literal.{
  here, next, drop-nil, drop-suc, drop-suc_front, drop_comm, Literal, Literal-snoc, NoNul,
  NoNul-drop, NoDoubleStar-tail,
}

module _ (cs : Bool) where
  tail_of_one :
      {w : ℕ} {m s : Bytes} → (w == star) ≡ false → Glob cs (w ∷ m) s → Glob cs m (drop 1 s)
  tail_of_one e (one _ _ g) = g
  tail_of_one e (skip e' g) = absurd (cc)
  tail_of_one e (more e' g) = absurd (cc)

  fits_of_one :
      {w c : ℕ} {m s : Bytes} → (w == star) ≡ false → Glob cs (w ∷ m) (c ∷ s) → fits cs w c ≡ true
  fits_of_one e (one _ f g) = f
  fits_of_one e (skip e' g) = absurd (cc)
  fits_of_one e (more e' g) = absurd (cc)

  at_or_behind :
      {w : ℕ} {m s : Bytes}
      → (w == star) ≡ true
      → Glob cs (w ∷ m) s
      → Glob cs m s ⊎ Glob cs (w ∷ m) (drop 1 s)
  at_or_behind e (one e' _ g) = absurd (cc)
  at_or_behind e (skip _ g) = inl g
  at_or_behind e (more _ g) = inr g

  behind_star :
      {w : ℕ} {m s : Bytes}
      → (w == star) ≡ true
      → Glob cs (w ∷ m) s
      → (j : ℕ) × Glob cs m (drop j s)
  behind_star e (one e' _ g) = absurd (cc)
  behind_star e (skip _ g) = (0, g)
  behind_star e (more _ g) = let (j, g') = behind_star e g in (suc j, g')

  behind-Literal : {k : ℕ} {mp m u : Bytes} → Literal k mp m → Glob cs mp u → Glob cs m (drop k u)
  behind-Literal (here _) g = g
  behind-Literal {k = suc k} {u = u} (next e l) g =
      rw (drop-suc_front k u) (behind-Literal l (tail_of_one e g))

  absorb_drop :
      {w : ℕ} {m : Bytes} (j : ℕ) (s : Bytes)
      → (w == star) ≡ true
      → Glob cs (w ∷ m) (drop j s)
      → Glob cs (w ∷ m) s
  absorb_drop zero s e g = g
  absorb_drop (suc j) [] e g = g
  absorb_drop (suc j) (c ∷ s) e g = more e (absorb_drop j s e g)

  finish_accepts : (m : Bytes) → NoDoubleStar m → Glob cs m [] → finish m ≡ found true
  unfolding finish
  finish_accepts [] h g = refl
  finish_accepts (w ∷ []) h (skip e g) = ap found e
  finish_accepts (w ∷ x ∷ m) h (skip e (skip e' g)) = absurd (let k = h.0 in ground arith)

  -- Where the loop stands: `whole` begins one character before the text to come back to, and of
  -- the mask behind the last star `k` characters have been read from there on.
  record Stands (s m sp mp : Bytes) : Type 0 where
    whole : Bytes
    k : ℕ
    behind : sp ≡ drop 1 whole
    at : s ≡ drop k whole
    literal : Literal k mp m
    tidy : NoDoubleStar m
    tidy_behind : NoDoubleStar mp
    clean : NoNul whole

  -- The mask can still be met: from here, or by a later start behind the last star.
  abbrev CanMeet : Bytes → Bytes → Bytes → Bytes → Type 0
  CanMeet s m sp mp = Glob cs m s ⊎ Glob cs (star ∷ mp) sp

  later :
      {s m sp mp : Bytes}
      → Stands s m sp mp
      → Glob cs (star ∷ mp) sp
      → (j : ℕ) × Glob cs m (drop j (drop 1 s))
  later {s} {m} {sp} {mp} st g =
      let (j, g₁) = behind_star refl g in
      let g₂ = behind-Literal st.literal g₁ in
      let e : drop st.k (drop j sp) ≡ drop j (drop 1 s) =
        rw (st.behind, drop_comm st.k j (drop 1 st.whole), drop_comm st.k 1 st.whole, ← st.at)
          refl in
      (j, rw e at g₂)

  abbrev Accepts : Outcome → Type 0
  Accepts o = (o ≡ found true) ⊎ (o ≡ spent)

  abbrev Meets : (Bytes → Bytes → Back → Outcome) → Type 0
  Meets run =
      (s m sp mp : Bytes) → Stands s m sp mp → CanMeet s m sp mp → Accepts (run s m (some (sp, mp)))

  retry-Meets :
      (run : Bytes → Bytes → Back → Outcome) (s m sp mp : Bytes)
      → Meets run
      → Stands s m sp mp
      → Glob cs (star ∷ mp) sp
      → Accepts (retry run (some (sp, mp)))
  unfolding retry
  retry-Meets run s m sp mp meets st g =
      meets sp mp (drop 1 sp) mp
        (record {
          whole = sp;
          k = 0;
          behind = refl;
          at = refl;
          literal = here mp;
          tidy = st.tidy_behind;
          tidy_behind = st.tidy_behind;
          clean = rw st.behind (NoNul-drop 1 st.whole st.clean);
        })
        (at_or_behind refl g)

  at_star-Meets :
      (run : Bytes → Bytes → Back → Outcome) (c : ℕ) (s m : Bytes)
      → Meets run
      → NoNul (c ∷ s)
      → NoDoubleStar m
      → Glob cs (star ∷ m) (c ∷ s)
      → Accepts (at_star run c s m)
  unfolding at_star
  at_star-Meets run c s [] meets clean tidy g = inl refl
  at_star-Meets run c s (x ∷ m) meets clean tidy g =
      meets (c ∷ s) (x ∷ m) s (x ∷ m)
        (record {
          whole = c ∷ s;
          k = 0;
          behind = refl;
          at = refl;
          literal = here (x ∷ m);
          tidy = tidy;
          tidy_behind = tidy;
          clean = clean;
        })
        (at_or_behind refl g)

  clean_at : {s m sp mp : Bytes} → Stands s m sp mp → NoNul s
  clean_at st = rw st.at (NoNul-drop st.k st.whole st.clean)

  match_loop-Meets : (f : ℕ) → Meets (match_loop cs f)
  unfolding match_loop
  match_loop-Meets zero s m sp mp st g = inr refl
  match_loop-Meets (suc f) [] m sp mp st g = inl (
      finish_accepts m st.tidy (elim g [
        | inl here_g ↦ here_g
        | inr g' ↦ let (j, later_g) = later st g' in rw (drop-nil j) at later_g
      ]))
  match_loop-Meets (suc f) (c ∷ s) [] sp mp st g =
      rw ((clean_at st).0, match_loop)
        (elim g [
          | inl g₀ ↦ elim g₀ [ ]
          | inr g' ↦ retry-Meets (match_loop cs f) (c ∷ s) [] sp mp (match_loop-Meets f) st g'
        ])
  match_loop-Meets (suc f) (c ∷ s) (w ∷ m) sp mp st g = elim (Bool-cases (w == star)) [
    | inl e ↦
        rw (e, match_loop)
          (at_star-Meets (match_loop cs f) c s m (match_loop-Meets f) (clean_at st)
            (NoDoubleStar-tail w m st.tidy)
            (rw (← (==_iff w star).0 e) (elim g [
              | inl g₀ ↦ g₀
              | inr g' ↦ let (j, g₁) = later st g' in more e (absorb_drop j s e g₁)
            ])))
    | inr e ↦ elim (Bool-cases (fits cs w c)) [
      | inl k ↦
          rw (e, k, match_loop)
            (match_loop-Meets f s m sp mp
              (record {
                whole = st.whole;
                k = suc st.k;
                behind = st.behind;
                at = rw (drop-suc st.k st.whole, ← st.at) refl;
                literal = Literal-snoc e st.literal;
                tidy = NoDoubleStar-tail w m st.tidy;
                tidy_behind = st.tidy_behind;
                clean = st.clean;
              })
              (elim g [ inl g₀ ↦ inl (tail_of_one e g₀) | inr g' ↦ inr g' ]))
      | inr k ↦
          rw (e, k, match_loop)
            (retry-Meets (match_loop cs f) (c ∷ s) (w ∷ m) sp mp (match_loop-Meets f) st
              (elim g [ inl g₀ ↦ absurd (let k' = fits_of_one e g₀ in cc) | inr g' ↦ g' ]))
    ]
  ]

  match_prefix_meets :
      (f : ℕ) (s m : Bytes)
      → NoNul s
      → NoDoubleStar m
      → Glob cs m s
      → Accepts (match_prefix cs (suc f) s m)
  unfolding match_prefix match_loop
  match_prefix_meets f [] m clean tidy g = inl (finish_accepts m tidy g)
  match_prefix_meets f (c ∷ s) [] clean tidy g = elim g [ ]
  match_prefix_meets f (c ∷ s) (w ∷ m) clean tidy g = elim (Bool-cases (w == star)) [
    | inl e ↦
        rw (e, match_prefix)
          (rw (e, match_loop)
            (at_star-Meets (match_loop cs f) c s m (match_loop-Meets f) clean
              (NoDoubleStar-tail w m tidy) (rw (← (==_iff w star).0 e) g)))
    | inr e ↦
        rw (e, fits_of_one e g, match_prefix)
          (match_prefix_meets f s m clean.1 (NoDoubleStar-tail w m tidy) (tail_of_one e g))
  ]

-- A text with no 0 inside, for which a mask without two stars side by side stands, is accepted.
pub match_complete :
    (str mask : Bytes) (case_sensitive : Bool)
    → NoNul str
    → NoDoubleStar mask
    → Glob case_sensitive mask str
    → match str mask case_sensitive ≡ found true
unfolding match rounds
match_complete str mask cs clean tidy g =
    let n = (length mask + 2) * ((length str + 2) * (length mask + 1)) in
    let e : n + 1 ≡ suc n = omega arith in
    elim (match_prefix_meets cs n str mask clean tidy g) [
      | inl accepted ↦ rw e accepted
      | inr out ↦ absurd (match_total str mask cs (rw e out))
    ]

matches_found : (str mask : Bytes) → matches str mask ≡ true → match str mask false ≡ found true
unfolding matches
matches_found str mask h = ground arith

-- `Anope::Match` accepts exactly the texts for which the mask stands, if the text holds no 0 and
-- the mask no two stars side by side.
pub matches_iff :
    (str mask : Bytes)
    → NoNul str
    → NoDoubleStar mask
    → (matches str mask ≡ true) ↔ Glob false mask str
unfolding matches
matches_iff str mask clean tidy = (
  λ h. match_sound str mask false (matches_found str mask h),
  λ g. rw (match_complete str mask false clean tidy g, matches),
)
