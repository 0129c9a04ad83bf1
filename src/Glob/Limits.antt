-- ===== src/Glob/Limits.antt =====
-- Where `Anope::Match` (src/misc.cpp) leaves the meaning of its masks.
use anope.Base.{
  ℕ, suc, ◌+◌, ◌*◌, ◌≡◌, refl, Bool, false, [], ◌∷◌, ◌++◌, arith, Bytes, ◌==◌, length, All,
}
use anope.Glob.{star, found, undefined, finish, retry, match_loop, rounds, match_prefix, match}
use anope.Glob.Spec.{Glob, done, one, skip, more}

abbrev pub NoStar : Bytes → Type 0
NoStar = All λ w. (w == star) ≡ false

module _ (cs : Bool) where
  prefix_runs_out :
      (f : ℕ) (p m t : Bytes) (c : ℕ)
      → NoStar m
      → Glob cs m p
      → match_prefix cs (suc f) (p ++ c ∷ t) m ≡ undefined
  unfolding match_prefix match_loop retry
  prefix_runs_out f p [] t c h done = ground arith
  prefix_runs_out f p (w ∷ m) t c h (one e k g) =
      rw (e, k, match_prefix) (prefix_runs_out f _ m t c h.1 g)
  prefix_runs_out f p (w ∷ m) t c h (skip e g) = absurd (let k = h.0 in cc)
  prefix_runs_out f p (w ∷ m) t c h (more e g) = absurd (let k = h.0 in cc)

  prefix_double_star :
      (f : ℕ) (s m : Bytes)
      → NoStar m
      → Glob cs m s
      → match_prefix cs (suc f) s (m ++ star ∷ star ∷ []) ≡ found false
  unfolding match_prefix match_loop finish
  prefix_double_star f s [] h done = refl
  prefix_double_star f s (w ∷ m) h (one e k g) =
      rw (e, k, match_prefix) (prefix_double_star f _ m h.1 g)
  prefix_double_star f s (w ∷ m) h (skip e g) = absurd (let k = h.0 in cc)
  prefix_double_star f s (w ∷ m) h (more e g) = absurd (let k = h.0 in cc)

  Glob-append : (s m n : Bytes) → Glob cs m s → Glob cs n [] → Glob cs (m ++ n) s
  Glob-append s m n done h = h
  Glob-append s m n (one e k g) h = one e k (Glob-append _ _ n g h)
  Glob-append s m n (skip e g) h = skip e (Glob-append s _ n g h)
  Glob-append s m n (more e g) h = more e (Glob-append _ m n g h)

-- A mask with no star that stands for a proper beginning of the text makes the function read
-- outside the mask.
pub match_outside :
    (p m t : Bytes) (c : ℕ) (cs : Bool)
    → NoStar m
    → Glob cs m p
    → match (p ++ c ∷ t) m cs ≡ undefined
unfolding match rounds
match_outside p m t c cs h g =
    let n = (length m + 2) * ((length (p ++ c ∷ t) + 2) * (length m + 1)) in
    let e : n + 1 ≡ suc n = omega arith in rw e (prefix_runs_out cs n p m t c h g)

-- With two stars behind a mask that has none and stands for the whole text, the text is refused,
-- although the longer mask stands for it too.
pub match_double_star :
    (s m : Bytes) (cs : Bool)
    → NoStar m
    → Glob cs m s
    → (match s (m ++ star ∷ star ∷ []) cs ≡ found false) × Glob cs (m ++ star ∷ star ∷ []) s
unfolding match rounds
match_double_star s m cs h g =
    let l = length (m ++ star ∷ star ∷ []) in
    let n = (l + 2) * ((length s + 2) * (l + 1)) in
    let e : n + 1 ≡ suc n = omega arith in
    (
      rw e (prefix_double_star cs n s m h g),
      Glob-append cs s m (star ∷ star ∷ []) g (skip refl (skip refl done)),
    )
