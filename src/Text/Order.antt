-- ===== src/Text/Order.antt =====
-- `ci::less` and `irc::less` (src/hashcomp.cpp) order texts as `std::map` requires.
use anope.Base.{ℕ, ◌≡◌, refl, ap, ◌∙◌, ◌↔◌, ◌⊎◌, inl, inr, true, false, [], ◌∷◌, map, arith, Bytes}
use anope.Text.{
  ascii_fold, rfc_fold, c_str, Sign, less, equal, greater, compare_by, is_equal, is_less, equals_ci,
  ci_less, irc_less, equals_cs,
}

module _ (fold : ℕ → ℕ) where
  compare_by_self : (s : Bytes) → compare_by fold s s ≡ equal
  unfolding compare_by
  compare_by_self [] = refl
  compare_by_self (c ∷ s) = ground (arith, compare_by_self s)

  -- Two texts compare equal exactly if they fold to the same text.
  compare_by-eq : (s t : Bytes) → compare_by fold s t ≡ equal → map fold s ≡ map fold t
  unfolding compare_by
  compare_by-eq [] [] h = refl
  compare_by-eq [] (d ∷ t) h = absurd (cc)
  compare_by-eq (c ∷ s) [] h = absurd (cc)
  compare_by-eq (c ∷ s) (d ∷ t) h = ground (arith, compare_by-eq s t)

  compare_by-map :
      (s t u : Bytes) → map fold s ≡ map fold t → compare_by fold s u ≡ compare_by fold t u
  unfolding compare_by
  compare_by-map [] [] u h = refl
  compare_by-map [] (d ∷ t) u h = absurd (cc)
  compare_by-map (c ∷ s) [] u h = absurd (cc)
  compare_by-map (c ∷ s) (d ∷ t) [] h = refl
  compare_by-map (c ∷ s) (d ∷ t) (x ∷ u) h = ground (arith, compare_by-map s t u)

  compare_by_flip : (s t : Bytes) → compare_by fold s t ≡ less → compare_by fold t s ≡ greater
  unfolding compare_by
  compare_by_flip [] [] h = absurd (cc)
  compare_by_flip [] (d ∷ t) h = refl
  compare_by_flip (c ∷ s) [] h = absurd (cc)
  compare_by_flip (c ∷ s) (d ∷ t) h = ground (arith, compare_by_flip s t)

  compare_by_unflip : (s t : Bytes) → compare_by fold s t ≡ greater → compare_by fold t s ≡ less
  unfolding compare_by
  compare_by_unflip [] [] h = absurd (cc)
  compare_by_unflip [] (d ∷ t) h = absurd (cc)
  compare_by_unflip (c ∷ s) [] h = refl
  compare_by_unflip (c ∷ s) (d ∷ t) h = ground (arith, compare_by_unflip s t)

  compare_by_trans :
      (s t u : Bytes)
      → compare_by fold s t ≡ less
      → compare_by fold t u ≡ less
      → compare_by fold s u ≡ less
  unfolding compare_by
  compare_by_trans [] [] u h k = absurd (cc)
  compare_by_trans [] (d ∷ t) [] h k = absurd (cc)
  compare_by_trans [] (d ∷ t) (x ∷ u) h k = refl
  compare_by_trans (c ∷ s) [] u h k = absurd (cc)
  compare_by_trans (c ∷ s) (d ∷ t) [] h k = absurd (cc)
  compare_by_trans (c ∷ s) (d ∷ t) (x ∷ u) h k =
      ground (arith, compare_by_trans s t u, compare_by-eq s t, compare_by-eq t u)

  -- Exactly one of the three relations holds between two texts.
  abbrev Trichotomy : Sign → Sign → Type 0
  Trichotomy p q =
      ((p ≡ less) × (q ≡ greater)) ⊎ (((p ≡ equal) × (q ≡ equal)) ⊎ ((p ≡ greater) × (q ≡ less)))

  compare_by_cases : (s t : Bytes) → Trichotomy (compare_by fold s t) (compare_by fold t s)
  unfolding compare_by
  compare_by_cases [] [] = inr (inl (refl, refl))
  compare_by_cases [] (d ∷ t) = inl (refl, refl)
  compare_by_cases (c ∷ s) [] = inr (inr (refl, refl))
  compare_by_cases (c ∷ s) (d ∷ t) = let rest = compare_by_cases s t in ground (arith, rest)

-- The order of the maps that are keyed by nick or by mask is transitive.
pub ci_less_trans : (s t u : Bytes) → ci_less s t ≡ true → ci_less t u ≡ true → ci_less s u ≡ true
unfolding ci_less is_less
ci_less_trans s t u h k = ground (arith, compare_by_trans ascii_fold (c_str s) (c_str t) (c_str u))

-- Of two texts exactly one is less in that order, or they are equal but for case.
pub ci_less_cases :
    (s t : Bytes)
    → ((ci_less s t ≡ true) × (equals_ci s t ≡ false) × (ci_less t s ≡ false))
      ⊎ (((ci_less s t ≡ false) × (equals_ci s t ≡ true) × (ci_less t s ≡ false))
          ⊎ ((ci_less s t ≡ false) × (equals_ci s t ≡ false) × (ci_less t s ≡ true)))
unfolding ci_less is_less equals_ci is_equal
ci_less_cases s t =
    let cases = compare_by_cases ascii_fold (c_str s) (c_str t) in ground (arith, cases)

-- Texts that are equal but for case stand at the same place of the order.
pub ci_less-equals_ci : (s t u : Bytes) → equals_ci s t ≡ true → ci_less s u ≡ ci_less t u
unfolding ci_less is_less equals_ci is_equal
ci_less-equals_ci s t u h = ap is_less (
    compare_by-map ascii_fold (c_str s) (c_str t) (c_str u)
      (compare_by-eq ascii_fold (c_str s) (c_str t) (ground arith)))

pub equals_ci_refl : (s : Bytes) → equals_ci s s ≡ true
unfolding equals_ci is_equal
equals_ci_refl s = rw (compare_by_self ascii_fold (c_str s))

pub equals_ci_sym : (s t : Bytes) → equals_ci s t ≡ true → equals_ci t s ≡ true
unfolding equals_ci is_equal
equals_ci_sym s t h =
    let cases = compare_by_cases ascii_fold (c_str s) (c_str t) in ground (arith, cases)

pub equals_ci_trans :
    (s t u : Bytes) → equals_ci s t ≡ true → equals_ci t u ≡ true → equals_ci s u ≡ true
unfolding equals_ci is_equal
equals_ci_trans s t u h k =
    ap is_equal (
      compare_by-map ascii_fold (c_str s) (c_str t) (c_str u)
        (compare_by-eq ascii_fold (c_str s) (c_str t) (ground arith)))
    ∙ k

-- The order of the maps that are keyed by channel name is transitive.
pub irc_less_trans :
    (s t u : Bytes) → irc_less s t ≡ true → irc_less t u ≡ true → irc_less s u ≡ true
unfolding irc_less is_less
irc_less_trans s t u h k = ground (arith, compare_by_trans rfc_fold (c_str s) (c_str t) (c_str u))

pub equals_cs_iff : (s t : Bytes) → (equals_cs s t ≡ true) ↔ (s ≡ t)
unfolding equals_cs
equals_cs_iff [] [] = (λ _. refl, λ _. refl)
equals_cs_iff [] (d ∷ t) = (λ h. absurd (cc), λ h. absurd (cc))
equals_cs_iff (c ∷ s) [] = (λ h. absurd (cc), λ h. absurd (cc))
equals_cs_iff (c ∷ s) (d ∷ t) = let ih = equals_cs_iff s t in ground (arith, ih)
