-- ===== src/Numbers/Positions.antt =====
-- Entries of a vector that are deleted by their numbers, the greatest first.
use anope.Base.{
  ℕ, zero, suc, ◌+◌, ◌≤◌, ◌≡◌, refl, ap, ◌∙◌, Bool, true, false, ◌||◌, List, [], ◌∷◌, arith, ◌==◌,
  if◌then◌else◌, erase_at,
}
use anope.Numbers.{insert_number}
use anope.Numbers.Ranges.{has_number, Increasing, has_number-insert, insert_number-Increasing}

-- A set from the numbers that were inserted into it, in any order.
unfoldable pub number_set : List ℕ → List ℕ
number_set [] = []
number_set (n ∷ ns) = insert_number n (number_set ns)

pub number_set-Increasing : (ns : List ℕ) → Increasing (number_set ns)
unfolding number_set
number_set-Increasing [] = tt
number_set-Increasing (n ∷ ns) =
    insert_number-Increasing n (number_set ns) (number_set-Increasing ns)

pub has_number-number_set : (k : ℕ) (ns : List ℕ) → has_number k (number_set ns) ≡ has_number k ns
unfolding number_set has_number
has_number-number_set k [] = refl
has_number-number_set k (n ∷ ns) =
    has_number-insert k n (number_set ns) ∙ ap (λ b. k == n || b) (has_number-number_set k ns)

module _ {A : Type 0} where
  -- The entries whose number is not in the list, where the first entry has number `at`.
  unfoldable pub kept : (ℕ → Bool) → ℕ → List A → List A
  kept gone at [] = []
  kept gone at (e ∷ es) = let rest = kept gone (suc at) es in if gone at then rest else e ∷ rest

  pub kept_same :
      (gone gone' : ℕ → Bool) (at : ℕ) (es : List A)
      → ((j : ℕ) → at ≤ j → gone j ≡ gone' j)
      → kept gone at es ≡ kept gone' at es
  unfolding kept
  kept_same gone gone' at [] same = refl
  kept_same gone gone' at (e ∷ es) same =
      rw (same at (omega arith), kept_same gone gone' (suc at) es (λ j le. same j (omega arith)))
        refl

  -- One more entry is erased, in front of all that are gone.
  pub erase_at-kept :
      (gone : ℕ → Bool) (at k n : ℕ) (es : List A)
      → n ≡ at + k
      → ((j : ℕ) → j ≤ n → gone j ≡ false)
      → erase_at (kept gone at es) k ≡ kept (λ j. j == n || gone j) at es
  unfolding kept
  erase_at-kept gone at k n [] e later = refl
  erase_at-kept gone at zero n (x ∷ es) e later =
      let here : (at == n) ≡ true = ground (arith, e) in
      rw (later at (omega arith), here)
        (kept_same gone (λ j. j == n || gone j) (suc at) es (λ j le. ground (arith, e, le)))
  erase_at-kept gone at (suc k) n (x ∷ es) e later =
      let here : (at == n) ≡ false = ground (arith, e) in
      rw (later at (omega arith), here)
        (ap (λ l. x ∷ l) (erase_at-kept gone (suc at) k n es (omega arith) later))

  pub kept_none :
      (gone : ℕ → Bool) (at : ℕ) (es : List A) → ((j : ℕ) → gone j ≡ false) → kept gone at es ≡ es
  unfolding kept
  kept_none gone at [] none_gone = refl
  kept_none gone at (e ∷ es) none_gone =
      rw (none_gone at, kept_none gone (suc at) es none_gone) refl
