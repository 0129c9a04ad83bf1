-- ===== src/Numbers/Ranges.antt =====
-- The members of a list of numbers, and the ranges that are counted through.
use anope.Base.{
  ℕ, zero, suc, ◌+◌, ◌<◌, ◌≡◌, refl, ap, ◌∙◌, Bool, true, false, ◌&&◌, ◌||◌, List, [], ◌∷◌, arith,
  leb, ◌==◌, All, dec_le,
}
use anope.Numbers.{insert_number, u32, listed, unfinished, insert_range}

unfoldable pub has_number : ℕ → List ℕ → Bool
has_number k [] = false
has_number k (m ∷ ms) = k == m || has_number k ms

-- Every number is greater than those before it.
abbrev pub Increasing : List ℕ → Type 0
Increasing [] = Unit
Increasing (m ∷ ms) = All (λ k. m < k) ms × Increasing ms

pub has_number-insert :
    (k n : ℕ) (ms : List ℕ) → has_number k (insert_number n ms) ≡ (k == n || has_number k ms)
unfolding has_number insert_number
has_number-insert k n [] = refl
has_number-insert k n (m ∷ ms) = ground (arith, has_number-insert k n ms)

above_insert :
    (low n : ℕ) (ms : List ℕ)
    → low < n
    → All (λ k. low < k) ms
    → All (λ k. low < k) (insert_number n ms)
unfolding insert_number
above_insert low n [] lt above = (lt, tt)
above_insert low n (m ∷ ms) lt (lt', above) = ground (arith, above_insert low n ms lt above)

above_more :
    (low high : ℕ) (ms : List ℕ) → low < high → All (λ k. high < k) ms → All (λ k. low < k) ms
above_more low high [] lt above = tt
above_more low high (m ∷ ms) lt (lt', above) = (omega arith, above_more low high ms lt above)

pub insert_number-Increasing :
    (n : ℕ) (ms : List ℕ) → Increasing ms → Increasing (insert_number n ms)
unfolding insert_number
insert_number-Increasing n [] up = (tt, tt)
insert_number-Increasing n (m ∷ ms) (above, up) =
    ground (arith, above_more n m ms, above_insert m n ms, insert_number-Increasing n ms up)

module _ (last : ℕ) where
  -- A range that ends before the greatest `unsigned` is counted through in a round for each number and
  -- one more: the set has its numbers besides those that it had, and is in order.
  pub insert_range_enough :
      (rounds i : ℕ) (numbers : List ℕ)
      → last < 4294967295
      → last + 1 < rounds + i
      → 0 < rounds
      → Increasing numbers
      → (ns : List ℕ) × (insert_range rounds i last numbers ≡ listed ns)
        × ((k : ℕ) → has_number k ns ≡ (leb i k && leb k last || has_number k numbers))
        × Increasing ns
  unfolding insert_range u32
  insert_range_enough zero i numbers small enough some_round up = absurd (omega arith)
  insert_range_enough (suc rounds) i numbers small enough some_round up = elim (dec_le i last) [
    | yes le ↦
        let e : u32 (i + 1) ≡ i + 1 = omega (arith, le) in
        let (ns, run, same, up') =
          insert_range_enough rounds (i + 1) (insert_number i numbers) small (omega (arith, enough))
            (omega (arith, enough, le)) (insert_number-Increasing i numbers up) in
        let test : leb i last ≡ true = ground (arith, le) in
        (
          ns,
          rw test (ap (λ j. insert_range rounds j last (insert_number i numbers)) e ∙ run),
          (λ k. same k ∙ ground (arith, has_number-insert k i numbers, le)),
          up',
        )
    | no nle ↦
        let test : leb i last ≡ false = ground (arith, nle) in
        (numbers, rw test refl, (λ k. ground (arith, nle)), up)
  ]

-- A range up to the greatest `unsigned` is never at its end: no number of rounds is enough.
pub insert_range_endless :
    (rounds i : ℕ) (numbers : List ℕ)
    → i < 4294967296
    → insert_range rounds i 4294967295 numbers ≡ unfinished
unfolding insert_range u32
insert_range_endless zero i numbers lt = refl
insert_range_endless (suc rounds) i numbers lt =
    let test : leb i 4294967295 ≡ true = ground (arith, lt) in
    rw test (insert_range_endless rounds (u32 (i + 1)) (insert_number i numbers) (omega arith))

-- The loop over a range ends exactly below the greatest `unsigned`: a range that ends before it is counted
-- through in a round for each number and one more, and the set has its numbers then, besides those that
-- it had, in increasing order; but no number of rounds is enough for a range up to 4294967295.
pub insert_range_lem :
    (last rounds i : ℕ) (numbers : List ℕ) (more : ℕ)
    → last < 4294967295
    → last + 1 < rounds + i
    → 0 < rounds
    → i < 4294967296
    → Increasing numbers
    → ((ns : List ℕ) × (insert_range rounds i last numbers ≡ listed ns)
        × ((k : ℕ) → has_number k ns ≡ (leb i k && leb k last || has_number k numbers))
        × Increasing ns)
      × (insert_range more i 4294967295 numbers ≡ unfinished)
insert_range_lem last rounds i numbers more small enough some_round lt up = (
  insert_range_enough last rounds i numbers small enough some_round up,
  insert_range_endless more i numbers lt,
)
