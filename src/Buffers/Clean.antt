-- ===== src/Buffers/Clean.antt =====
-- What `normalizeBuffer` leaves of a text, and that its loop ends.
use anope.Base.{
  ℕ, zero, suc, ◌≤◌, ◌≡◌, refl, sym, ap, ◌∙◌, ◌≢◌, ◌+◌, ◌<◌, List, true, ==_no, inl, inr, false, [],
  ◌∷◌, arith, Bytes, ◌==◌, Bool-cases, length, All,
}
use anope.Buffers.{
  is_digit, is_dropped, skip_digit, skip_background, skip_color, normalize_loop, normalize_buffer,
}

-- The codes that texts are formatted with, but for that of colours.
pub data Code : Type 0 where
  ctrl bold line_feed carriage_return reverse italic underline : Code

abbrev pub code_byte : Code → ℕ
code_byte ctrl = 1
code_byte bold = 2
code_byte line_feed = 10
code_byte carriage_return = 13
code_byte reverse = 22
code_byte italic = 29
code_byte underline = 31

-- A byte that is none of them, and not the code 3 of colours.
abbrev pub IsPlain : ℕ → Type 0
IsPlain c = (c ≢ 3) × ((k : Code) → c ≢ code_byte k)

is_dropped-code : (k : Code) → is_dropped (code_byte k) ≡ true
unfolding is_dropped
is_dropped-code ctrl = refl
is_dropped-code bold = refl
is_dropped-code line_feed = refl
is_dropped-code carriage_return = refl
is_dropped-code reverse = refl
is_dropped-code italic = refl
is_dropped-code underline = refl

kept-IsPlain : (c : ℕ) → (c == 3) ≡ false → is_dropped c ≡ false → IsPlain c
kept-IsPlain c other keeps = (
  λ e. ground (arith, other, e),
  λ k e. true_false (sym (is_dropped-code k) ∙ (ap is_dropped (sym e) ∙ keeps)),
)
  where
    true_false : true ≡ false → ⊥
    true_false e = cc

plain-kept : (c : ℕ) → IsPlain c → ((c == 3) ≡ false) × (is_dropped c ≡ false)
unfolding is_dropped
plain-kept c (other, no_code) =
    let e1 = no_code ctrl in
    let e2 = no_code bold in
    let e3 = no_code line_feed in
    let e4 = no_code carriage_return in
    let e5 = no_code reverse in
    let e6 = no_code italic in
    let e7 = no_code underline in
    (
      ==_no c 3 other,
      rw
          (
            ==_no c 1 e1,
            ==_no c 2 e2,
            ==_no c 10 e3,
            ==_no c 13 e4,
            ==_no c 22 e5,
            ==_no c 29 e6,
            ==_no c 31 e7,
          )
          refl,
    )

normalize_loop-IsPlain : (fuel : ℕ) (s : Bytes) → All IsPlain (normalize_loop fuel s)
unfolding normalize_loop
normalize_loop-IsPlain zero s = tt
normalize_loop-IsPlain (suc fuel) [] = tt
normalize_loop-IsPlain (suc fuel) (c ∷ s) = elim (Bool-cases (c == 3)) [
  | inl three ↦ rw (three, normalize_loop) (normalize_loop-IsPlain fuel (skip_color s))
  | inr other ↦ elim (Bool-cases (is_dropped c)) [
    | inl drops ↦ rw (other, drops, normalize_loop) (normalize_loop-IsPlain fuel s)
    | inr keeps ↦
        rw (other, keeps, normalize_loop)
          (kept-IsPlain c other keeps, normalize_loop-IsPlain fuel s)
  ]
]

-- A formatted text in pieces: a plain byte, a code, and a colour with two digits for the text and two for
-- the background; how it is written, and what of it is plain.
pub data Piece : Type 0 where
  plain : ℕ → Piece
  code : Code → Piece
  color : ℕ → ℕ → ℕ → ℕ → Piece

abbrev pub IsPiece : Piece → Type 0
IsPiece (plain c) = IsPlain c
IsPiece (code k) = Unit
IsPiece (color a b c d) = (a < 10) × (b < 10) × (c < 10) × (d < 10)

abbrev pub spell : List Piece → Bytes
spell [] = []
spell (plain c ∷ ps) = c ∷ spell ps
spell (code k ∷ ps) = code_byte k ∷ spell ps
spell (color a b c d ∷ ps) = 3 ∷ (b'0' + a) ∷ (b'0' + b) ∷ b',' ∷ (b'0' + c) ∷ (b'0' + d) ∷ spell ps

abbrev pub plain_bytes : List Piece → Bytes
plain_bytes [] = []
plain_bytes (plain c ∷ ps) = c ∷ plain_bytes ps
plain_bytes (code k ∷ ps) = plain_bytes ps
plain_bytes (color a b c d ∷ ps) = plain_bytes ps

digit_lem : (a : ℕ) → a < 10 → is_digit (b'0' + a) ≡ true
unfolding is_digit
digit_lem a lt = ground (arith, lt)

code_not_three : (k : Code) → (code_byte k == 3) ≡ false
code_not_three ctrl = refl
code_not_three bold = refl
code_not_three line_feed = refl
code_not_three carriage_return = refl
code_not_three reverse = refl
code_not_three italic = refl
code_not_three underline = refl

skip_color_lem :
    (a b c d : ℕ) (s : Bytes)
    → IsPiece (color a b c d)
    → skip_color ((b'0' + a) ∷ (b'0' + b) ∷ b',' ∷ (b'0' + c) ∷ (b'0' + d) ∷ s) ≡ s
unfolding skip_color skip_background skip_digit
skip_color_lem a b c d s (ha, hb, hc, hd) =
    rw (digit_lem a ha, digit_lem b hb, digit_lem c hc, digit_lem d hd) refl

normalize_loop-spell :
    (fuel : ℕ) (ps : List Piece)
    → length (spell ps) ≤ fuel
    → All IsPiece ps
    → normalize_loop fuel (spell ps) ≡ plain_bytes ps
unfolding normalize_loop
normalize_loop-spell zero [] le h = refl
normalize_loop-spell (suc fuel) [] le h = refl
normalize_loop-spell zero (plain c ∷ ps) le h = absurd (omega (arith, le))
normalize_loop-spell zero (code k ∷ ps) le h = absurd (omega (arith, le))
normalize_loop-spell zero (color a b c d ∷ ps) le h = absurd (omega (arith, le))
normalize_loop-spell (suc fuel) (plain c ∷ ps) le (hp, h) =
    let (other, keeps) = plain-kept c hp in
    rw (other, keeps, normalize_loop)
      (ap (λ t. c ∷ t) (normalize_loop-spell fuel ps (omega (arith, le)) h))
normalize_loop-spell (suc fuel) (code k ∷ ps) le (hp, h) =
    rw (code_not_three k, is_dropped-code k, normalize_loop)
      (normalize_loop-spell fuel ps (omega (arith, le)) h)
normalize_loop-spell (suc fuel) (color a b c d ∷ ps) le (hp, h) =
    ap (normalize_loop fuel) (skip_color_lem a b c d (spell ps) hp)
    ∙ normalize_loop-spell fuel ps (omega (arith, le)) h

normalize_loop_keeps :
    (fuel : ℕ) (s : Bytes) → length s ≤ fuel → All IsPlain s → normalize_loop fuel s ≡ s
unfolding normalize_loop
normalize_loop_keeps zero [] le h = refl
normalize_loop_keeps zero (c ∷ s) le h = absurd (omega arith)
normalize_loop_keeps (suc fuel) [] le h = refl
normalize_loop_keeps (suc fuel) (c ∷ s) le (hc, h) =
    let (other, keeps) = plain-kept c hc in
    rw (other, keeps, normalize_loop)
      (ap (λ t. c ∷ t) (normalize_loop_keeps fuel s (omega arith) h))

-- `normalizeBuffer` leaves no byte 1, 2, 3, 10, 13, 22, 29 or 31, and does nothing when it is applied again.
-- Of a text in pieces it leaves the plain bytes, in order: the codes go, and a colour goes with its two
-- digits, the comma and the two digits of the background.
pub normalize_buffer_lem :
    (buf : Bytes) (ps : List Piece)
    → All IsPiece ps
    → All IsPlain (normalize_buffer buf)
      × (normalize_buffer (normalize_buffer buf) ≡ normalize_buffer buf)
      × (normalize_buffer (spell ps) ≡ plain_bytes ps)
unfolding normalize_buffer
normalize_buffer_lem buf ps pieces =
    let kept = normalize_loop-IsPlain (length buf) buf in
    (
      kept,
      normalize_loop_keeps _ (normalize_loop (length buf) buf) (omega arith) kept,
      normalize_loop-spell (length (spell ps)) ps (omega arith) pieces,
    )

skip_digit-le : (s : Bytes) → length (skip_digit s) ≤ length s
unfolding skip_digit
skip_digit-le [] = omega arith
skip_digit-le (c ∷ s) = ground arith

skip_background-le : (s : Bytes) → length (skip_background s) ≤ length s
unfolding skip_background
skip_background-le [] = omega arith
skip_background-le (c ∷ s) = ground (arith, skip_digit-le s, skip_digit-le (skip_digit s))

skip_color-le : (s : Bytes) → length (skip_color s) ≤ length s
unfolding skip_color
skip_color-le [] = omega arith
skip_color-le (c ∷ s) = ground (arith, skip_digit-le s, skip_background-le (skip_digit s))

normalize_loop_same :
    (m n : ℕ) (s : Bytes) → length s ≤ m → length s ≤ n → normalize_loop m s ≡ normalize_loop n s
unfolding normalize_loop
normalize_loop_same zero zero s lm ln = refl
normalize_loop_same zero (suc n) [] lm ln = refl
normalize_loop_same zero (suc n) (c ∷ s) lm ln = absurd (omega arith)
normalize_loop_same (suc m) zero [] lm ln = refl
normalize_loop_same (suc m) zero (c ∷ s) lm ln = absurd (omega arith)
normalize_loop_same (suc m) (suc n) [] lm ln = refl
normalize_loop_same (suc m) (suc n) (c ∷ s) lm ln = elim (Bool-cases (c == 3)) [
  | inl three ↦
      let le = skip_color-le s in
      rw (three, normalize_loop)
        (normalize_loop_same m n (skip_color s) (omega arith) (omega arith))
  | inr other ↦ elim (Bool-cases (is_dropped c)) [
    | inl drops ↦
        rw (other, drops, normalize_loop) (normalize_loop_same m n s (omega arith) (omega arith))
    | inr keeps ↦
        rw (other, keeps, normalize_loop)
          (ap (λ t. c ∷ t) (normalize_loop_same m n s (omega arith) (omega arith)))
  ]
]

-- The fuel of `normalize_buffer` is enough: more fuel gives the same text.
pub normalize_loop_enough :
    (fuel : ℕ) (s : Bytes) → length s ≤ fuel → normalize_loop fuel s ≡ normalize_buffer s
unfolding normalize_buffer
normalize_loop_enough fuel s le = normalize_loop_same fuel (length s) s le (omega arith)
