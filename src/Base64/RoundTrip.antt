-- ===== src/Base64/RoundTrip.antt =====
-- `B64Decode` after `B64Encode`, for src/base64.cpp.
use Prim.Native.Nat.{bit_and}
use anope.Base.{
  ℕ, zero, suc, ◌+◌, ◌*◌, ◌/◌, ◌%◌, ◌≡◌, refl, ap, ◌∙◌, ◌≢◌, ◌⊎◌, inl, inr, true, some, [], ◌∷◌,
  ◌++◌, append-nil, append_assoc, arith, Bytes, ◌==◌, Bool-cases, Option-cases, length,
  length-append, All, append-All, ℕ_discrete,
}
use anope.Base64.{
  base64, pad64, digit, encode, is_space, find_from, State, first, third, fourth, put, ended,
  decode_loop, drop_zero, finish, decode,
}
use anope.Base64.Steps.{IsByte, step_first, step_second, step_third, step_fourth, pad_step}

-- The zero byte that the decoder leaves behind the bytes of a padded text.
abbrev pub residue : Bytes → Bytes
residue [] = []
residue (a ∷ []) = 0 ∷ []
residue (a ∷ b ∷ []) = 0 ∷ []
residue (a ∷ b ∷ c ∷ rest) = residue rest

-- The loop over an encoded text ends with the bytes of the text, and a zero byte where it padded.
pub decode_loop-encode :
    (s t : Bytes) → All IsByte s → decode_loop (encode s) first t ≡ ended (t ++ (s ++ residue s))
unfolding encode decode_loop
decode_loop-encode [] t h = rw append-nil
decode_loop-encode (a ∷ []) t (ha, _) =
    let r = pad64 ∷ pad64 ∷ [] in
    step_first a (digit (bit_and a 3 * 16 + 0 / 16) ∷ r) t ha
    ∙ step_second a 0 r t ha (omega arith)
    ∙ pad_step (pad64 ∷ []) third ((t ++ a ∷ []) ++ 0 ∷ [])
    ∙ ap ended (append_assoc t (a ∷ []) (0 ∷ []))
decode_loop-encode (a ∷ b ∷ []) t (ha, (hb, _)) =
    let r = digit (bit_and b 15 * 4 + 0 / 64) ∷ pad64 ∷ [] in
    step_first a (digit (bit_and a 3 * 16 + b / 16) ∷ r) t ha
    ∙ step_second a b r t ha hb
    ∙ step_third b 0 (pad64 ∷ []) (t ++ a ∷ []) hb (omega arith)
    ∙ pad_step [] fourth (((t ++ a ∷ []) ++ b ∷ []) ++ 0 ∷ [])
    ∙ simp append_assoc
decode_loop-encode (a ∷ b ∷ c ∷ rest) t (ha, (hb, (hc, hs))) =
    let r₁ = digit (bit_and c 63) ∷ encode rest in
    let r₂ = digit (bit_and b 15 * 4 + c / 64) ∷ r₁ in
    step_first a (digit (bit_and a 3 * 16 + b / 16) ∷ r₂) t ha
    ∙ step_second a b r₂ t ha hb
    ∙ step_third b c r₁ (t ++ a ∷ []) hb hc
    ∙ step_fourth c (encode rest) ((t ++ a ∷ []) ++ b ∷ []) hc
    ∙ decode_loop-encode rest (((t ++ a ∷ []) ++ b ∷ []) ++ c ∷ []) hs
    ∙ simp append_assoc

drop_zero-append : (s : Bytes) → drop_zero (s ++ 0 ∷ []) ≡ some s
unfolding drop_zero
drop_zero-append [] = refl
drop_zero-append (x ∷ []) = refl
drop_zero-append (x ∷ y ∷ s) = rw (drop_zero-append (y ∷ s))

-- The last byte of a text, 0 for the empty text.
abbrev pub last : Bytes → ℕ
last [] = 0
last (x ∷ []) = x
last (x ∷ y ∷ s) = last (y ∷ s)

drop_zero_keeps : (s : Bytes) → last s ≢ 0 → drop_zero s ≡ some s
unfolding drop_zero
drop_zero_keeps [] h = absurd (h refl)
drop_zero_keeps (zero ∷ []) h = absurd (h refl)
drop_zero_keeps (suc x ∷ []) h = refl
drop_zero_keeps (x ∷ y ∷ s) h = rw (drop_zero_keeps (y ∷ s) h)

residue_padded : (s : Bytes) → length s % 3 ≢ 0 → residue s ≡ 0 ∷ []
residue_padded [] h = absurd (omega arith)
residue_padded (a ∷ []) h = refl
residue_padded (a ∷ b ∷ []) h = refl
residue_padded (a ∷ b ∷ c ∷ s) h = residue_padded s (omega arith)

residue_whole : (s : Bytes) → length s % 3 ≡ 0 → residue s ≡ []
residue_whole [] h = refl
residue_whole (a ∷ []) h = absurd (omega arith)
residue_whole (a ∷ b ∷ []) h = absurd (omega arith)
residue_whole (a ∷ b ∷ c ∷ s) h = residue_whole s (omega arith)

-- A text of bytes that is not empty and does not end with a zero byte, or whose length is no multiple
-- of three, is decoded from its encoding.
pub decode-encode :
    (s : Bytes) → All IsByte s → (length s % 3 ≢ 0) ⊎ (last s ≢ 0) → decode (encode s) ≡ some s
unfolding decode finish
decode-encode s h keeps = rw (decode_loop-encode s [] h) (elim (ℕ_discrete (length s % 3) 0) [
  | yes whole ↦ elim keeps [
    | inl padded ↦ absurd (padded whole)
    | inr ends ↦ rw (residue_whole s whole, append-nil) (drop_zero_keeps s ends)
  ]
  | no padded ↦ rw (residue_padded s padded) (drop_zero-append s)
])

-- A text of bytes whose length is a multiple of three loses a zero byte at its end, if another
-- byte stands before it.
pub decode-encode_loses :
    (s : Bytes) → All IsByte s → length s % 3 ≡ 2 → decode (encode (s ++ 0 ∷ [])) ≡ some s
unfolding decode finish
decode-encode_loses s h two =
    rw
      (
        decode_loop-encode (s ++ 0 ∷ []) [] (append-All IsByte s (0 ∷ []) h (omega arith, tt)),
        residue_whole (s ++ 0 ∷ []) (omega (arith, length-append s (0 ∷ []))),
        append-nil,
      )
      (drop_zero-append s)

decode_loop-space :
    (xs ys : Bytes) (w : ℕ) (s : State) (t : Bytes)
    → is_space w ≡ true
    → decode_loop (xs ++ w ∷ ys) s t ≡ decode_loop (xs ++ ys) s t
unfolding decode_loop
decode_loop-space [] ys w s t h = rw (h, decode_loop)
decode_loop-space (x ∷ xs) ys w s t h =
    let below = λ (s' : State) (t' : Bytes). decode_loop-space xs ys w s' t' h in
    elim (Bool-cases (is_space x)) [
      | inl e ↦ rw (e, decode_loop) (below s t)
      | inr e ↦
          rw (e, decode_loop)
            (elim (Bool-cases (x == pad64)) [
              | inl p ↦ rw (p, decode_loop)
              | inr p ↦
                  rw (p, decode_loop)
                    (elim (Option-cases (find_from base64 x 0)) [
                      | inl q ↦ rw (q, decode_loop)
                      | inr (i, q) ↦ rw (q, decode_loop) (below (put s i t).0 (put s i t).1)
                    ])
            ])
    ]

-- White space anywhere in a text makes no difference to what is decoded.
pub decode-space :
    (xs ys : Bytes) (w : ℕ) → is_space w ≡ true → decode (xs ++ w ∷ ys) ≡ decode (xs ++ ys)
unfolding decode
decode-space xs ys w h = ap finish (decode_loop-space xs ys w first [] h)

-- The encoding has four characters for each three bytes begun.
pub length-encode : (s : Bytes) → length (encode s) ≡ (length s + 2) / 3 * 4
unfolding encode
length-encode [] = refl
length-encode (a ∷ []) = refl
length-encode (a ∷ b ∷ []) = refl
length-encode (a ∷ b ∷ c ∷ s) = omega (arith, length-encode s)
