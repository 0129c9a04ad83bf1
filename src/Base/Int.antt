-- ===== src/Base/Int.antt =====
-- Signed integers over the native numbers, as far as the program compares and stores them.
use Prim.Native.Nat.{ℕ, zero, suc, ◌+◌, ◌≤◌, ◌<◌}
use native.Mathlib.Omega.{arith}
use native.Mathlib.Decide.{dec_lt, dec_le}
use mathlib.Core.Bool.{Bool}
use anope.Base.Tests.{ltb, ◌==◌}

-- `negsuc n` is -(n + 1).
pub data ℤ : Type 0 where
  pos : ℕ → ℤ
  negsuc : ℕ → ℤ

abbrev pub pos_part : ℤ → ℕ
pos_part (pos n) = n
pos_part (negsuc n) = 0

abbrev pub neg_part : ℤ → ℕ
neg_part (pos n) = 0
neg_part (negsuc n) = suc n

infix 50 ◌≤ℤ◌
abbrev pub ◌≤ℤ◌ : ℤ → ℤ → Type 0
a ≤ℤ b = pos_part a + neg_part b ≤ pos_part b + neg_part a

abbrev pub ltb_ℤ : ℤ → ℤ → Bool
ltb_ℤ a b = ltb (pos_part a + neg_part b) (pos_part b + neg_part a)

abbrev pub eq_ℤ : ℤ → ℤ → Bool
eq_ℤ a b = (pos_part a + neg_part b) == (pos_part b + neg_part a)

infix 50 ◌<ℤ◌
abbrev pub ◌<ℤ◌ : ℤ → ℤ → Type 0
a <ℤ b = pos_part a + neg_part b < pos_part b + neg_part a

pub dec_lt_ℤ : (a b : ℤ) → Dec (a <ℤ b)
dec_lt_ℤ a b = dec_lt (pos_part a + neg_part b) (pos_part b + neg_part a)

pub dec_le_ℤ : (a b : ℤ) → Dec (a ≤ℤ b)
dec_le_ℤ a b = dec_le (pos_part a + neg_part b) (pos_part b + neg_part a)

-- The first number less the second.
abbrev pub less : ℕ → ℕ → ℤ
less m zero = pos m
less zero (suc n) = negsuc n
less (suc m) (suc n) = less m n

infixl 60 ◌+ℤ◌
abbrev pub ◌+ℤ◌ : ℤ → ℤ → ℤ
pos m +ℤ pos n = pos (m + n)
pos m +ℤ negsuc n = less m (suc n)
negsuc m +ℤ pos n = less n (suc m)
negsuc m +ℤ negsuc n = negsuc (suc (m + n))

less_lem : (m n : ℕ) → pos_part (less m n) + n ≤ m + neg_part (less m n)
less_lem m zero = omega arith
less_lem zero (suc n) = omega arith
less_lem (suc m) (suc n) = omega (arith, less_lem m n)

less_back : (m n : ℕ) → m + neg_part (less m n) ≤ pos_part (less m n) + n
less_back m zero = omega arith
less_back zero (suc n) = omega arith
less_back (suc m) (suc n) = omega (arith, less_back m n)

pub +ℤ_forward : (a b : ℤ) → pos 0 ≤ℤ b → a ≤ℤ (a +ℤ b)
+ℤ_forward (pos m) (pos n) le = omega arith
+ℤ_forward (negsuc m) (pos n) le = omega (arith, less_back n (suc m))
+ℤ_forward a (negsuc n) le = absurd (omega (arith, le))
