-- ===== src/Base/Bits.antt =====
-- The bit operations on bytes and six-bit digits, by checking every value.
use native.Mathlib.Decide.{ℕ_discrete}
use Prim.Native.Nat.{ℕ, zero, suc, ◌*◌, ◌/◌, ◌%◌, ◌<◌, bit_and, bit_or}
use mathlib.Core.Path.{◌≡◌, refl, sym, subst}
use mathlib.Core.Bool.{Bool, true, ◌&&◌}
use native.Mathlib.Omega.{arith}
use anope.Base.Tests.{◌==◌, ==_iff}

-- The test holds of every number below the bound.
unfoldable pub every_below : ℕ → (ℕ → Bool) → Bool
every_below zero test = true
every_below (suc bound) test = every_below bound test && test bound

pub every_below_at :
    (bound : ℕ) (test : ℕ → Bool) (at : ℕ)
    → every_below bound test ≡ true
    → at < bound
    → test at ≡ true
unfolding every_below
every_below_at zero test at every inside = absurd (omega arith)
every_below_at (suc bound) test at every inside = elim (ℕ_discrete at bound) [
  | yes e ↦ subst (λ n. test n ≡ true) (sym e) (ground arith)
  | no ne ↦ ground (arith, ne, every_below_at bound test at)
]

-- Two functions that agree on a table agree at each entry.
pub table :
    (n : ℕ) (f g : ℕ → ℕ) (x : ℕ) → every_below n (λ y. f y == g y) ≡ true → x < n → f x ≡ g x
table n f g x h lt = (==_iff (f x) (g x)).0 (every_below_at n (λ y. f y == g y) x h lt)

pub bit_and_three : (x : ℕ) → x < 256 → bit_and x 3 ≡ x % 4
unfolding every_below
bit_and_three x = table 256 (λ y. bit_and y 3) (λ y. y % 4) x refl

pub bit_and_fifteen : (x : ℕ) → x < 256 → bit_and x 15 ≡ x % 16
unfolding every_below
bit_and_fifteen x = table 256 (λ y. bit_and y 15) (λ y. y % 16) x refl

pub bit_and_63 : (x : ℕ) → x < 256 → bit_and x 63 ≡ x % 64
unfolding every_below
bit_and_63 x = table 256 (λ y. bit_and y 63) (λ y. y % 64) x refl

pub bit_or_split_4 : (x : ℕ) → x < 256 → bit_or (x / 4 * 4) (x % 4) ≡ x
unfolding every_below
bit_or_split_4 x = table 256 (λ y. bit_or (y / 4 * 4) (y % 4)) (λ y. y) x refl

pub bit_or_split_16 : (x : ℕ) → x < 256 → bit_or (x / 16 * 16) (x % 16) ≡ x
unfolding every_below
bit_or_split_16 x = table 256 (λ y. bit_or (y / 16 * 16) (y % 16)) (λ y. y) x refl

pub bit_or_split_64 : (x : ℕ) → x < 256 → bit_or (x / 64 * 64) (x % 64) ≡ x
unfolding every_below
bit_or_split_64 x = table 256 (λ y. bit_or (y / 64 * 64) (y % 64)) (λ y. y) x refl
