-- ===== src/Glob/Total.antt =====
-- `Anope::Match` comes to an end: the fuel of the model is never used up.
use anope.Base.{
  ℕ, zero, suc, ◌+◌, ◌*◌, ◌≤◌, ◌<◌, ◌≢◌, inl, inr, Bool, some, [], ◌∷◌, arith, Bytes, ◌==◌,
  Bool-cases, length,
}
use anope.Glob.{
  star, fits, Outcome, spent, Back, finish, retry, at_star, match_loop, rounds, match_prefix, match,
}

finish_total : (m : Bytes) → finish m ≢ spent
unfolding finish
finish_total [] h = cc
finish_total (w ∷ []) h = cc
finish_total (w ∷ x ∷ m) h = cc

times_step : (a b d : ℕ) → a < b → a * d + d ≤ b * d
times_step a b d h = grind arith

-- `p` rounds for a text of length `s` when the mask behind the star has length `mp`, the text to
-- come back to length `sp`, and the mask still to be read length `m`.
module _ (cs : Bool) (S M : ℕ) where
  abbrev cost : ℕ → ℕ → ℕ → ℕ
  cost mp sp m = mp * ((S + 2) * (M + 1)) + (sp + 1) * (M + 1) + m

  record Fits (f : ℕ) (s m sp mp : Bytes) : Type 0 where
    text : length s ≤ S
    saved : length sp ≤ S
    rest : length m ≤ length mp
    mask : length mp ≤ M
    fuel : cost (length mp) (length sp) (length m) < f

  abbrev Ends : (Bytes → Bytes → Back → Outcome) → ℕ → Type 0
  Ends run f = (s m sp mp : Bytes) → Fits f s m sp mp → run s m (some (sp, mp)) ≢ spent

  retry-Ends :
      (f : ℕ) (s m sp mp : Bytes)
      → Ends (match_loop cs f) f
      → Fits (suc f) s m sp mp
      → retry (match_loop cs f) (some (sp, mp)) ≢ spent
  unfolding retry match_loop
  retry-Ends zero s m sp mp ends h = absurd (grind (arith, h.fuel))
  retry-Ends (suc f) s m [] mp ends h = finish_total mp
  retry-Ends (suc f) s m (c ∷ sp) mp ends h = ends (c ∷ sp) mp sp mp (record {
    text = h.saved;
    saved = omega arith;
    rest = omega arith;
    mask = h.mask;
    fuel = grind arith;
  })

  at_star-Ends :
      (f c : ℕ) (s m : Bytes)
      → Ends (match_loop cs f) f
      → length s < S
      → length m ≤ M
      → length m * ((S + 2) * (M + 1)) + S * (M + 1) + length m < f
      → at_star (match_loop cs f) c s m ≢ spent
  unfolding at_star
  at_star-Ends f c s [] ends hs hm hf e = cc
  at_star-Ends f c s (x ∷ m) ends hs hm hf e =
      ends (c ∷ s) (x ∷ m) s (x ∷ m)
        (record {
          text = hs;
          saved = omega arith;
          rest = omega arith;
          mask = hm;
          fuel = grind arith;
        })
        e

  match_loop-Ends : (f : ℕ) → Ends (match_loop cs f) f
  unfolding match_loop
  match_loop-Ends zero s m sp mp h e = elim h.fuel [ ]
  match_loop-Ends (suc f) [] m sp mp h e = finish_total m e
  match_loop-Ends (suc f) (c ∷ s) [] sp mp h e = elim (Bool-cases (c == 0)) [
    | inl z ↦ absurd (let k = rw (z, match_loop) at e in cc)
    | inr z ↦ retry-Ends f (c ∷ s) [] sp mp (match_loop-Ends f) h (rw (z, match_loop) at e)
  ]
  match_loop-Ends (suc f) (c ∷ s) (w ∷ m) sp mp h e = elim (Bool-cases (w == star)) [
    | inl z ↦
        at_star-Ends f c s m (match_loop-Ends f) h.text (omega (arith, h.rest, h.mask))
          (omega
            (arith, h.rest, h.fuel, times_step (length m) (length mp) ((S + 2) * (M + 1)) h.rest))
          (rw (z, match_loop) at e)
    | inr z ↦ elim (Bool-cases (fits cs w c)) [
      | inl k ↦
          match_loop-Ends f s m sp mp
            (record {
              text = omega (arith, h.text);
              saved = h.saved;
              rest = omega (arith, h.rest);
              mask = h.mask;
              fuel = omega (arith, h.fuel);
            })
            (rw (z, k, match_loop) at e)
      | inr k ↦
          retry-Ends f (c ∷ s) (w ∷ m) sp mp (match_loop-Ends f) h (rw (z, k, match_loop) at e)
    ]
  ]

  pub match_prefix_ends :
      (f : ℕ) (s m : Bytes)
      → length s ≤ S
      → length m ≤ M
      → (M + 2) * ((S + 2) * (M + 1)) < f
      → match_prefix cs f s m ≢ spent
  unfolding match_prefix match_loop retry
  match_prefix_ends zero s m hs hm hf e = elim hf [ ]
  match_prefix_ends (suc f) [] m hs hm hf e = finish_total m e
  match_prefix_ends (suc f) (c ∷ s) [] hs hm hf e = ground arith
  match_prefix_ends (suc f) (c ∷ s) (w ∷ m) hs hm hf e = elim (Bool-cases (w == star)) [
    | inl z ↦
        at_star-Ends f c s m (match_loop-Ends f) hs (omega (arith, hm))
          (omega (arith, hf, times_step (length m) M ((S + 2) * (M + 1)) hm))
          (rw (z, match_loop) at (rw (z, match_prefix) at e))
    | inr z ↦ elim (Bool-cases (fits cs w c)) [
      | inl k ↦
          match_prefix_ends (suc f) s m (omega (arith, hs)) (omega (arith, hm)) hf
            (rw (z, k, match_prefix) at e)
      | inr k ↦ absurd (let r = rw (z, k, match_prefix) at e in cc)
    ]
  ]

-- Every call comes to an end within the rounds that the model grants.
pub match_total : (str mask : Bytes) (cs : Bool) → match str mask cs ≢ spent
unfolding match rounds
match_total str mask cs =
    match_prefix_ends cs (length str) (length mask) _ str mask (omega arith) (omega arith)
      (omega arith)
