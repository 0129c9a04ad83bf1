-- ===== src/ModeStacker/Read.antt =====
-- How a reader takes a mode string: signs, letters, and parameters behind a blank.
use anope.Base.{
  ℕ, ◌≡◌, refl, sym, ap, inl, inr, Bool, true, false, List, [], ◌∷◌, ◌++◌, append-nil, append_assoc,
  Bytes, ◌==◌, Bool-cases, All,
}
use anope.ModeStacker.{Change, spaced}

-- The signed letters of a string, up to the first blank.
unfoldable pub read : Bool → Bytes → List (Bool × ℕ)
read sign [] = []
read sign (c ∷ s) = elim (c == b' ') [
  | true ↦ []
  | false ↦ elim (c == b'+') [
    | true ↦ read true s
    | false ↦ elim (c == b'-') [ true ↦ read false s | false ↦ (sign, c) ∷ read sign s ]
  ]
]

unfoldable pub read_all : List Bytes → List (Bool × ℕ)
read_all [] = []
read_all (s ∷ ss) = read true s ++ read_all ss

-- The changes as signed letters.
unfoldable pub letters : Bool → List Change → List (Bool × ℕ)
letters sign [] = []
letters sign ((m, p) ∷ cs) = (sign, m.mode_char) ∷ letters sign cs

abbrev pub IsLetter : Change → Type 0
IsLetter (m, p) =
    ((m.mode_char == b' ') ≡ false)
    × ((m.mode_char == b'+') ≡ false)
    × ((m.mode_char == b'-') ≡ false)

abbrev pub NoBlank : Bytes → Type 0
NoBlank = All λ c. (c == b' ') ≡ false

-- The sign that holds behind a string.
unfoldable pub sign_after : Bool → Bytes → Bool
sign_after sign [] = sign
sign_after sign (c ∷ s) = elim (c == b'+') [
  | true ↦ sign_after true s
  | false ↦ elim (c == b'-') [ true ↦ sign_after false s | false ↦ sign_after sign s ]
]

abbrev pub IsParams : Bytes → Type 0
IsParams [] = Unit
IsParams (c ∷ s) = (c == b' ') ≡ true

pub read-append :
    (sign : Bool) (s t : Bytes)
    → NoBlank s
    → read sign (s ++ t) ≡ read sign s ++ read (sign_after sign s) t
unfolding read sign_after
read-append sign [] t h = refl
read-append sign (c ∷ s) t (hc, h) = elim (Bool-cases (c == b'+')) [
  | inl plus ↦ rw (hc, plus, read, sign_after) (read-append true s t h)
  | inr e ↦ elim (Bool-cases (c == b'-')) [
    | inl minus ↦ rw (hc, e, minus, read, sign_after) (read-append false s t h)
    | inr other ↦
        rw (hc, e, other, read, sign_after) (ap (λ l. (sign, c) ∷ l) (read-append sign s t h))
  ]
]

pub sign_after-append :
    (sign : Bool) (s t : Bytes) → sign_after sign (s ++ t) ≡ sign_after (sign_after sign s) t
unfolding sign_after
sign_after-append sign [] t = refl
sign_after-append sign (c ∷ s) t = elim (Bool-cases (c == b'+')) [
  | inl plus ↦ rw (plus, sign_after) (sign_after-append true s t)
  | inr e ↦ elim (Bool-cases (c == b'-')) [
    | inl minus ↦ rw (e, minus, sign_after) (sign_after-append false s t)
    | inr other ↦ rw (e, other, sign_after) (sign_after-append sign s t)
  ]
]

pub read-IsParams : (sign : Bool) (p : Bytes) → IsParams p → read sign p ≡ []
unfolding read
read-IsParams sign [] h = refl
read-IsParams sign (c ∷ p) h = rw (h, read) refl

pub spaced-IsParams : (p param : Bytes) → IsParams p → IsParams (p ++ spaced param)
unfolding spaced
spaced-IsParams [] [] h = tt
spaced-IsParams [] (c ∷ s) h = refl
spaced-IsParams (c ∷ p) param h = h

pub read_all-snoc :
    (ss : List Bytes) (s : Bytes) → read_all (ss ++ s ∷ []) ≡ read_all ss ++ read true s
unfolding read_all
read_all-snoc [] s = append-nil (read true s)
read_all-snoc (r ∷ ss) s =
    rw (read_all-snoc ss s) (sym (append_assoc (read true r) (read_all ss) (read true s)))

-- One letter alone, and behind a string.
pub read_letter :
    (sign : Bool) (c : Change)
    → IsLetter c
    → read sign (c.0.mode_char ∷ []) ≡ (sign, c.0.mode_char) ∷ []
unfolding read
read_letter sign (m, p) (blank, plus, minus) = rw (blank, plus, minus, read) refl

pub sign_after_letter :
    (sign : Bool) (c : Change) → IsLetter c → sign_after sign (c.0.mode_char ∷ []) ≡ sign
unfolding sign_after
sign_after_letter sign (m, p) (blank, plus, minus) = rw (plus, minus, sign_after) refl
