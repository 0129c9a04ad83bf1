-- ===== src/Glob/Literal.antt =====
-- The characters of a mask that are no stars, and texts with no 0 inside, for `Glob.Complete`.
use anope.Base.{ℕ, zero, suc, ◌≡◌, refl, sym, ap, ◌∙◌, false, [], ◌∷◌, Bytes, ◌==◌, drop, All}
use anope.Glob.{star}
use anope.Glob.Spec.{NoDoubleStar}

pub drop-nil : (k : ℕ) → drop {A = ℕ} k [] ≡ []
drop-nil zero = refl
drop-nil (suc k) = refl

pub drop-suc : (k : ℕ) (xs : Bytes) → drop (suc k) xs ≡ drop 1 (drop k xs)
drop-suc zero xs = refl
drop-suc (suc k) [] = refl
drop-suc (suc k) (x ∷ xs) = drop-suc k xs

pub drop-suc_front : (k : ℕ) (xs : Bytes) → drop (suc k) xs ≡ drop k (drop 1 xs)
drop-suc_front k [] = sym (drop-nil k)
drop-suc_front k (x ∷ xs) = refl

pub drop_comm : (a b : ℕ) (xs : Bytes) → drop a (drop b xs) ≡ drop b (drop a xs)
drop_comm a zero xs = refl
drop_comm a (suc b) [] = rw (drop-nil a)
drop_comm zero (suc b) (x ∷ xs) = refl
drop_comm (suc a) (suc b) (x ∷ xs) =
    drop-suc a (drop b xs) ∙ ap (drop 1) (drop_comm a b xs) ∙ sym (drop-suc b (drop a xs))

-- `mp` begins with `k` characters that are no stars, and `m` is what follows.
pub data Literal : ℕ → Bytes → Bytes → Type 0 where
  here : (m : Bytes) → Literal 0 m m
  next :
      {k w : ℕ} {mp m : Bytes} → (w == star) ≡ false → Literal k mp m → Literal (suc k) (w ∷ mp) m

pub Literal-snoc :
    {k w : ℕ} {mp m : Bytes} → (w == star) ≡ false → Literal k mp (w ∷ m) → Literal (suc k) mp m
Literal-snoc e (here _) = next e (here _)
Literal-snoc e (next e' l) = next e' (Literal-snoc e l)

-- The text holds no 0.
abbrev pub NoNul : Bytes → Type 0
NoNul = All λ c. (c == 0) ≡ false

pub NoNul-drop : (k : ℕ) (xs : Bytes) → NoNul xs → NoNul (drop k xs)
NoNul-drop zero xs h = h
NoNul-drop (suc k) [] h = h
NoNul-drop (suc k) (x ∷ xs) h = NoNul-drop k xs h.1

pub NoDoubleStar-tail : (w : ℕ) (m : Bytes) → NoDoubleStar (w ∷ m) → NoDoubleStar m
NoDoubleStar-tail w [] h = tt
NoDoubleStar-tail w (x ∷ m) h = h.1
