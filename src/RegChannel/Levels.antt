-- ===== src/RegChannel/Levels.antt =====
-- Levels are read as they were set; the clearing loops clear.
use anope.Base.{
  ℕ, zero, suc, ◌≤◌, ◌≡◌, refl, sym, ◌∙◌, ◌≢◌, inl, inr, false, some, List, [], ◌∷◌, arith, Bytes,
  Bool-cases, length,
}
use anope.Base.Int.{ℤ}
use anope.Text.{equals_cs}
use anope.Text.Order.{equals_cs_iff}
use anope.Access.{Privilege, remove_level}
use anope.RegChannel.{
  ChannelInfo, erase_index, clear_loop, clear_akick, clear_bad_words, find_level, put_level,
  get_level, set_level,
}

erase_front {ℓ} : {A : Type ℓ} (x : A) (xs : List A) → erase_index (x ∷ xs) 0 ≡ xs
unfolding erase_index
erase_front x xs = ground arith

clear_loop_lem {ℓ} :
    {A : Type ℓ} (fuel : ℕ) (xs : List A) → length xs ≤ fuel → clear_loop fuel xs ≡ []
unfolding clear_loop
clear_loop_lem zero [] h = refl
clear_loop_lem zero (x ∷ xs) h = absurd (omega arith)
clear_loop_lem (suc fuel) [] h = refl
clear_loop_lem (suc fuel) (x ∷ xs) h = rw (erase_front x xs) (clear_loop_lem fuel xs (omega arith))

-- The loops of `ClearAkick` and `ClearBadWords` end with empty lists.
pub clear_lists :
    (ci : ChannelInfo) → ((clear_akick ci).akick ≡ []) × ((clear_bad_words ci).badwords ≡ [])
unfolding clear_akick clear_bad_words
clear_lists ci =
    (clear_loop_lem _ ci.akick (omega arith), clear_loop_lem _ ci.badwords (omega arith))

unequal : (s t : Bytes) → s ≢ t → equals_cs s t ≡ false
unequal s t ne = elim (Bool-cases (equals_cs s t)) [
  | inl e ↦ absurd (ne ((equals_cs_iff s t).0 e))
  | inr e ↦ e
]

other_level :
    (priv other : Bytes) (m : List (Bytes × ℤ))
    → priv ≢ other
    → find_level other (remove_level priv m) ≡ find_level other m
unfolding find_level remove_level
other_level priv other [] ne = refl
other_level priv other ((k, l) ∷ m) ne = elim (Bool-cases (equals_cs k priv)) [
  | inl e ↦ rw e (
      let same = (equals_cs_iff k priv).0 e in
      rw (unequal k other (λ h. ne (sym same ∙ h))) (other_level priv other m ne))
  | inr e ↦ rw e (rw (other_level priv other m ne) refl)
]

find_level-put_level :
    (priv : Bytes) (level : ℤ) (m : List (Bytes × ℤ))
    → find_level priv (put_level priv level m) ≡ some level
unfolding find_level put_level
find_level-put_level priv level m = rw ((equals_cs_iff priv priv).1 refl) refl

other-put_level :
    (priv other : Bytes) (level : ℤ) (m : List (Bytes × ℤ))
    → priv ≢ other
    → find_level other (put_level priv level m) ≡ find_level other m
unfolding find_level put_level
other-put_level priv other level m ne = rw (unequal priv other ne) (other_level priv other m ne)

-- After `SetLevel`, `GetLevel` of the privilege gives the level that was set and leaves the levels as
-- they are, and a level of another name is found as before.
pub get_level-set_level :
    (p : Privilege) (priv other : Bytes) (level : ℤ) (ci : ChannelInfo)
    → priv ≢ other
    → (get_level (some p) priv (set_level priv level ci) ≡ (level, set_level priv level ci))
      × (find_level other (set_level priv level ci).levels ≡ find_level other ci.levels)
unfolding get_level set_level
get_level-set_level p priv other level ci ne = (
  rw (find_level-put_level priv level ci.levels, get_level) refl,
  other-put_level priv other level ci.levels ne,
)
