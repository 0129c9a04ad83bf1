-- ===== src/Glob/Sound.antt =====
-- A mask that `Anope::Match` accepts stands for the text.
use anope.Base.{
  ℕ, zero, suc, ◌≡◌, refl, ◌⊎◌, inl, inr, Bool, true, none, some, [], ◌∷◌, arith, Bytes, ◌==◌,
  ==_iff, Bool-cases, length, drop,
}
use anope.Glob.{
  star, fits, Outcome, found, Back, finish, retry, at_star, match_loop, rounds, match_prefix, match,
}
use anope.Glob.Spec.{Glob, done, one, skip, more}

module _ (cs : Bool) where
  -- The text behind the last star that the loop may still come back to.
  abbrev Retry : Back → Type 0
  Retry none = ⊥
  Retry (some (sp, mp)) = Glob cs (star ∷ mp) sp

  finish_sound : (m : Bytes) → finish m ≡ found true → Glob cs m []
  unfolding finish
  finish_sound [] h = done
  finish_sound (w ∷ []) h = skip (ground arith) done
  finish_sound (w ∷ x ∷ m) h = absurd (cc)

  absorb : (s : Bytes) → Glob cs (star ∷ []) s
  absorb [] = skip refl done
  absorb (c ∷ s) = more refl (absorb s)

  retry_sound :
      (sp mp : Bytes) → Glob cs mp sp ⊎ Glob cs (star ∷ mp) (drop 1 sp) → Glob cs (star ∷ mp) sp
  retry_sound sp mp (inl g) = skip refl g
  retry_sound [] mp (inr g) = g
  retry_sound (c ∷ sp) mp (inr g) = more refl g

  -- What a run of the loop shows when it accepts.
  abbrev Means : (Bytes → Bytes → Back → Outcome) → Type 0
  Means run = (s m : Bytes) (back : Back) → run s m back ≡ found true → Glob cs m s ⊎ Retry back

  retry-Retry :
      (run : Bytes → Bytes → Back → Outcome)
      → Means run
      → (back : Back) → retry run back ≡ found true
      → Retry back
  unfolding retry
  retry-Retry run means none h = absurd (cc)
  retry-Retry run means (some (sp, mp)) h = retry_sound sp mp (means sp mp _ h)

  at_star_sound :
      (run : Bytes → Bytes → Back → Outcome)
      → Means run
      → (w c : ℕ) (s m : Bytes) → (w == star) ≡ true
      → at_star run c s m ≡ found true
      → Glob cs (w ∷ m) (c ∷ s)
  unfolding at_star
  at_star_sound run means w c s [] e h = rw ((==_iff w star).0 e) (absorb (c ∷ s))
  at_star_sound run means w c s (x ∷ m) e h = elim (means (c ∷ s) (x ∷ m) _ h) [
    | inl g ↦ skip e g
    | inr g ↦ more e (rw ((==_iff w star).0 e) g)
  ]

  match_loop_sound : (f : ℕ) → Means (match_loop cs f)
  unfolding match_loop
  match_loop_sound zero s m back h = absurd (cc)
  match_loop_sound (suc f) [] m back h = inl (finish_sound m h)
  match_loop_sound (suc f) (c ∷ s) [] back h = elim (Bool-cases (c == 0)) [
    | inl e ↦ absurd (let k = rw (e, match_loop) at h in cc)
    | inr e ↦
        inr (retry-Retry (match_loop cs f) (match_loop_sound f) back (rw (e, match_loop) at h))
  ]
  match_loop_sound (suc f) (c ∷ s) (w ∷ m) back h = elim (Bool-cases (w == star)) [
    | inl e ↦
        inl
          (at_star_sound (match_loop cs f) (match_loop_sound f) w c s m e (rw (e, match_loop) at h))
    | inr e ↦ elim (Bool-cases (fits cs w c)) [
      | inl k ↦ elim (match_loop_sound f s m back (rw (e, k, match_loop) at h)) [
        | inl g ↦ inl (one e k g)
        | inr g ↦ inr g
      ]
      | inr k ↦
          inr (retry-Retry (match_loop cs f) (match_loop_sound f) back (rw (e, k, match_loop) at h))
    ]
  ]

  -- The second loop, entered with `mp` still `npos`.
  match_loop_fresh : (f : ℕ) (s m : Bytes) → match_loop cs f s m none ≡ found true → Glob cs m s
  match_loop_fresh f s m h = elim (match_loop_sound f s m none h) [ inl g ↦ g | inr g ↦ absurd g ]

  pub match_prefix_sound : (f : ℕ) (s m : Bytes) → match_prefix cs f s m ≡ found true → Glob cs m s
  unfolding match_prefix
  match_prefix_sound f [] m h = match_loop_fresh f [] m h
  match_prefix_sound f (c ∷ s) [] h = match_loop_fresh f (c ∷ s) [] h
  match_prefix_sound f (c ∷ s) (w ∷ m) h = elim (Bool-cases (w == star)) [
    | inl e ↦ match_loop_fresh f (c ∷ s) (w ∷ m) (rw (e, match_prefix) at h)
    | inr e ↦ elim (Bool-cases (fits cs w c)) [
      | inl k ↦ one e k (match_prefix_sound f s m (rw (e, k, match_prefix) at h))
      | inr k ↦ absurd (let r = rw (e, k, match_prefix) at h in cc)
    ]
  ]

-- Whatever `Anope::Match` accepts, the mask stands for.
pub match_sound :
    (str mask : Bytes) (case_sensitive : Bool)
    → match str mask case_sensitive ≡ found true
    → Glob case_sensitive mask str
unfolding match
match_sound str mask cs h = match_prefix_sound cs (rounds (length str) (length mask)) str mask h
