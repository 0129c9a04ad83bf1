-- ===== src/Glob/Spec.antt =====
-- The meaning of a mask, independent of src/misc.cpp: which texts it stands for.
use anope.Base.{ℕ, ◌≡◌, ◌⊎◌, Bool, true, false, ◌&&◌, [], ◌∷◌, Bytes, ◌==◌}
use anope.Glob.{star, fits}

module _ (cs : Bool) where
  pub data Glob : Bytes → Bytes → Type 0 where
    done : Glob [] []
    one :
        {w c : ℕ} {m s : Bytes}
        → (w == star) ≡ false
        → fits cs w c ≡ true
        → Glob m s
        → Glob (w ∷ m) (c ∷ s)
    skip : {w : ℕ} {m s : Bytes} → (w == star) ≡ true → Glob m s → Glob (w ∷ m) s
    more : {w c : ℕ} {m s : Bytes} → (w == star) ≡ true → Glob (w ∷ m) s → Glob (w ∷ m) (c ∷ s)

-- No two stars of the mask stand side by side.
abbrev pub NoDoubleStar : Bytes → Type 0
NoDoubleStar [] = Unit {0}
NoDoubleStar (w ∷ []) = Unit {0}
NoDoubleStar (w ∷ x ∷ m) = ((w == star) && (x == star) ≡ false) × NoDoubleStar (x ∷ m)

abbrev pub HasStar : Bytes → Type 0
HasStar [] = ⊥
HasStar (w ∷ m) = ((w == star) ≡ true) ⊎ HasStar m
