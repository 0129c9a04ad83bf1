-- ===== src/Base64/Steps.antt =====
-- The rounds of `B64Decode` on the characters that `B64Encode` writes.
use Prim.Native.Nat.{bit_and, bit_or}
use anope.Base.{
  ℕ, ◌+◌, ◌*◌, ◌/◌, ◌%◌, ◌<◌, ◌≡◌, refl, ap, ◌∙◌, Bool, true, false, not, Option, none, some, [],
  ◌∷◌, ◌++◌, arith, Bytes, ◌==◌, ==_iff,
}
use anope.Base.Bits.{
  every_below, every_below_at, bit_and_three, bit_and_fifteen, bit_and_63, bit_or_split_4,
  bit_or_split_16, bit_or_split_64,
}
use anope.Base64.{
  base64, pad64, digit, is_space, find_from, or_last, State, first, second, third, fourth, put,
  ended, decode_loop,
}

abbrev pub IsByte : ℕ → Type 0
IsByte x = x < 256

digit-space : (i : ℕ) → i < 64 → not (is_space (digit i)) ≡ true
unfolding every_below digit is_space
digit-space i = every_below_at 64 (λ j. not (is_space (digit j))) i refl

digit-pad : (i : ℕ) → i < 64 → not (digit i == pad64) ≡ true
unfolding every_below digit
digit-pad i = every_below_at 64 (λ j. not (digit j == pad64)) i refl

abbrev holds : Option ℕ → ℕ → Bool
holds none i = false
holds (some j) i = j == i

eq_of_holds : (o : Option ℕ) (i : ℕ) → holds o i ≡ true → o ≡ some i
eq_of_holds none i h = cc
eq_of_holds (some j) i h = ap some ((==_iff j i).0 h)

find-digit : (i : ℕ) → i < 64 → find_from base64 (digit i) 0 ≡ some i
unfolding every_below digit find_from
find-digit i h =
    eq_of_holds _ i (every_below_at 64 (λ j. holds (find_from base64 (digit j) 0) j) i refl h)

or_last-append : (v x : ℕ) (t : Bytes) → or_last v (t ++ x ∷ []) ≡ t ++ bit_or x v ∷ []
unfolding or_last
or_last-append v x [] = refl
or_last-append v x (y ∷ []) = refl
or_last-append v x (y ∷ z ∷ t) = ap (◌∷◌ y) (or_last-append v x (z ∷ t))

digit_step :
    (i : ℕ) (rest : Bytes) (s : State) (t : Bytes)
    → i < 64
    → decode_loop (digit i ∷ rest) s t ≡ decode_loop rest (put s i t).0 (put s i t).1
unfolding decode_loop
digit_step i rest s t h = ground (arith, digit-space i h, digit-pad i h, find-digit i h)

put_second :
    (a b : ℕ) (t : Bytes)
    → IsByte a
    → IsByte b
    → put second (bit_and a 3 * 16 + b / 16) (t ++ a / 4 * 4 ∷ [])
      ≡ (third, (t ++ a ∷ []) ++ b / 16 * 16 ∷ [])
unfolding put
put_second a b t ha hb = rw (
  or_last-append,
  bit_and_three a ha,
  bit_and_fifteen (a % 4 * 16 + b / 16) (omega arith),
  (let e : (a % 4 * 16 + b / 16) / 16 ≡ a % 4 = omega arith in e),
  bit_or_split_4 a ha,
  (let e : (a % 4 * 16 + b / 16) % 16 ≡ b / 16 = omega arith in e),
)

put_third :
    (b c : ℕ) (t : Bytes)
    → IsByte b
    → IsByte c
    → put third (bit_and b 15 * 4 + c / 64) (t ++ b / 16 * 16 ∷ [])
      ≡ (fourth, (t ++ b ∷ []) ++ c / 64 * 64 ∷ [])
unfolding put
put_third b c t hb hc = rw (
  or_last-append,
  bit_and_fifteen b hb,
  bit_and_three (b % 16 * 4 + c / 64) (omega arith),
  (let e : (b % 16 * 4 + c / 64) / 4 ≡ b % 16 = omega arith in e),
  bit_or_split_16 b hb,
  (let e : (b % 16 * 4 + c / 64) % 4 ≡ c / 64 = omega arith in e),
)

put_fourth :
    (c : ℕ) (t : Bytes)
    → IsByte c
    → put fourth (bit_and c 63) (t ++ c / 64 * 64 ∷ []) ≡ (first, t ++ c ∷ [])
unfolding put
put_fourth c t hc = rw (or_last-append, bit_and_63 c hc, bit_or_split_64 c hc)

pub step_first :
    (a : ℕ) (r t : Bytes)
    → IsByte a
    → decode_loop (digit (a / 4) ∷ r) first t ≡ decode_loop r second (t ++ a / 4 * 4 ∷ [])
unfolding put
step_first a r t ha = digit_step (a / 4) r first t (omega arith)

pub step_second :
    (a b : ℕ) (r t : Bytes)
    → IsByte a
    → IsByte b
    → decode_loop (digit (bit_and a 3 * 16 + b / 16) ∷ r) second (t ++ a / 4 * 4 ∷ [])
      ≡ decode_loop r third ((t ++ a ∷ []) ++ b / 16 * 16 ∷ [])
step_second a b r t ha hb =
    digit_step _ r second _ (omega (arith, bit_and_three a ha))
    ∙ ap (λ (p : State × Bytes). decode_loop r p.0 p.1) (put_second a b t ha hb)

pub step_third :
    (b c : ℕ) (r t : Bytes)
    → IsByte b
    → IsByte c
    → decode_loop (digit (bit_and b 15 * 4 + c / 64) ∷ r) third (t ++ b / 16 * 16 ∷ [])
      ≡ decode_loop r fourth ((t ++ b ∷ []) ++ c / 64 * 64 ∷ [])
step_third b c r t hb hc =
    digit_step _ r third _ (omega (arith, bit_and_fifteen b hb))
    ∙ ap (λ (p : State × Bytes). decode_loop r p.0 p.1) (put_third b c t hb hc)

pub step_fourth :
    (c : ℕ) (r t : Bytes)
    → IsByte c
    → decode_loop (digit (bit_and c 63) ∷ r) fourth (t ++ c / 64 * 64 ∷ [])
      ≡ decode_loop r first (t ++ c ∷ [])
step_fourth c r t hc =
    digit_step _ r fourth _ (omega (arith, bit_and_63 c hc))
    ∙ ap (λ (p : State × Bytes). decode_loop r p.0 p.1) (put_fourth c t hc)

pub pad_step : (r : Bytes) (s : State) (t : Bytes) → decode_loop (pad64 ∷ r) s t ≡ ended t
unfolding decode_loop is_space
pad_step r s t = refl
