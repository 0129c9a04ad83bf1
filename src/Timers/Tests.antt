-- ===== src/Timers/Tests.antt =====
-- Ticks of concrete timers, with an insertion sort.
use mathlib.Core.List.{Permᴰ}
use mathlib.Core.List.Permᴰ
use anope.Base.{◌≡◌, refl, not, true, false, some, List, [], ◌∷◌, arith, if◌then◌else◌, All}
use anope.Base.Int.{ℤ, pos, ltb_ℤ, ◌≤ℤ◌, ◌<ℤ◌, dec_le_ℤ}
use anope.Timers.{
  Timer, del_timer, add_timer, new_timer, set_secs, tick_timers, find_timer, set_timer, behind_tick,
  tick_front,
}
use anope.Timers.Moved.{IsSort, IsSorted, IsLeft}
use anope.Timers.Ticked.{tick_timers_lem}

unfoldable insert : Timer → List Timer → List Timer
insert t [] = t ∷ []
insert t (u ∷ us) =
    let rest = insert t us in if not (ltb_ℤ u.trigger t.trigger) then t ∷ u ∷ us else u ∷ rest

unfoldable sort : List Timer → List Timer
sort [] = []
sort (t ∷ ts) = insert t (sort ts)

insert_front :
    (t u : Timer) (us : List Timer) → t.trigger ≤ℤ u.trigger → insert t (u ∷ us) ≡ t ∷ u ∷ us
unfolding insert
insert_front t u us le = let e : not (ltb_ℤ u.trigger t.trigger) ≡ true = ground arith in rw e refl

insert_behind :
    (t u : Timer) (us : List Timer) → u.trigger <ℤ t.trigger → insert t (u ∷ us) ≡ u ∷ insert t us
unfolding insert
insert_behind t u us lt =
    let e : not (ltb_ℤ u.trigger t.trigger) ≡ false = ground arith in rw e refl

insert_same : (t : Timer) (us : List Timer) → Permᴰ (insert t us) (t ∷ us)
unfolding insert
insert_same t [] = Permᴰ.refl (t ∷ [])
insert_same t (u ∷ us) = elim (dec_le_ℤ t.trigger u.trigger) [
  | yes le ↦ rw (insert_front t u us le) (Permᴰ.refl (t ∷ u ∷ us))
  | no nle ↦
      rw (insert_behind t u us (omega (arith, nle)))
        (Permᴰ.trans (Permᴰ.cons refl (insert_same t us)) (Permᴰ.swap refl refl))
]

insert_above :
    (bound : ℤ) (t : Timer) (us : List Timer)
    → bound ≤ℤ t.trigger
    → All (λ u. bound ≤ℤ u.trigger) us
    → All (λ u. bound ≤ℤ u.trigger) (insert t us)
unfolding insert
insert_above bound t [] le above = (le, tt)
insert_above bound t (u ∷ us) le (le', above) = elim (dec_le_ℤ t.trigger u.trigger) [
  | yes le'' ↦ rw (insert_front t u us le'') (le, (le', above))
  | no nle ↦ rw (insert_behind t u us (omega (arith, nle))) (le', insert_above bound t us le above)
]

above_more :
    (low high : ℤ) (us : List Timer)
    → low ≤ℤ high
    → All (λ u. high ≤ℤ u.trigger) us
    → All (λ u. low ≤ℤ u.trigger) us
above_more low high [] le above = tt
above_more low high (u ∷ us) le (le', above) = (omega arith, above_more low high us le above)

insert-IsSorted : (t : Timer) (us : List Timer) → IsSorted us → IsSorted (insert t us)
unfolding insert
insert-IsSorted t [] sorted = (tt, tt)
insert-IsSorted t (u ∷ us) (above, sorted) = elim (dec_le_ℤ t.trigger u.trigger) [
  | yes le ↦
      rw (insert_front t u us le)
        ((le, above_more t.trigger u.trigger us le above), (above, sorted))
  | no nle ↦
      rw (insert_behind t u us (omega (arith, nle)))
        (insert_above u.trigger t us (omega (arith, nle)) above, insert-IsSorted t us sorted)
]

sort_same : (ts : List Timer) → Permᴰ (sort ts) ts
unfolding sort
sort_same [] = Permᴰ.nil
sort_same (t ∷ ts) = Permᴰ.trans (insert_same t (sort ts)) (Permᴰ.cons refl (sort_same ts))

sort-IsSorted : (ts : List Timer) → IsSorted (sort ts)
unfolding sort
sort-IsSorted [] = tt
sort-IsSorted (t ∷ ts) = insert-IsSorted t (sort ts) (sort-IsSorted ts)

sort-IsSort : IsSort sort
sort-IsSort = record { same = sort_same; sorted = sort-IsSorted }

abbrev quiet : Timer → ℤ → List Timer → List Timer
quiet t ctime ts = ts

abbrev once : Timer
once = record { place = 1; settime = pos 0; trigger = pos 5; secs = pos 5; repeat = false }

abbrev again : Timer
again = record { place = 2; settime = pos 0; trigger = pos 7; secs = pos 20; repeat = true }

abbrev later : Timer
later = record { place = 3; settime = pos 0; trigger = pos 12; secs = pos 12; repeat = false }

abbrev timers : List Timer
timers = once ∷ again ∷ later ∷ []

added :
    new_timer sort 2 (pos 20) (pos 4) true (once ∷ later ∷ [])
    ≡ once
      ∷ later
      ∷ record { place = 2; settime = pos 4; trigger = pos 24; secs = pos 20; repeat = true }
      ∷ []
unfolding new_timer add_timer sort insert
added = refl

all_run :
    tick_timers sort quiet 3 (pos 10) timers ≡ some (later ∷ record again { trigger = pos 30 } ∷ [])
unfolding tick_timers tick_front behind_tick find_timer del_timer sort set_timer insert
all_run = refl

moved_on :
    set_secs sort once (pos 9) (pos 10) timers
    ≡ again ∷ later ∷ record once { secs = pos 9; trigger = pos 19 } ∷ []
unfolding set_secs add_timer del_timer sort insert
moved_on = refl

tick_timers_example :
    (left : List Timer) × (tick_timers sort quiet 3 (pos 10) timers ≡ some left)
    × IsLeft (pos 10) timers left
tick_timers_example =
    tick_timers_lem sort quiet (pos 10) sort-IsSort (λ t ts. refl) 3 timers
      ((omega arith, (omega arith, tt)), ((omega arith, tt), (tt, tt)))
      ((λ e. omega arith), ((λ e. omega arith), ((λ e. omega arith), tt))) (omega arith)
