-- ===== src/Timers/Ticked.antt =====
-- What the ticks of a moment leave.
use mathlib.Core.List.{Permᴰ}
use mathlib.Core.List.Permᴰ
use anope.Base.{
  ℕ, zero, suc, ◌≤◌, ◌≡◌, refl, ap, ◌∙◌, inl, inr, true, false, some, List, [], ◌∷◌, arith,
  if◌then◌else◌, Bool-cases, length, All,
}
use anope.Base.Int.{ℤ, ◌+ℤ◌, ◌≤ℤ◌, ◌<ℤ◌, dec_lt_ℤ, +ℤ_forward}
use anope.Timers.{Timer, find_timer, del_timer, set_timer, tick_front, tick_timers, behind_tick}
use anope.Timers.Moved.{
  IsSorted, moved, ticked, all_ticked, due_count, IsSort, not_due, due, due_count_same,
  all_ticked_same, none_due, from_front, IsLeft, IsForward, All-same, find_front, del_front,
  set_front,
}

module _ (sort : List Timer → List Timer) (tick : Timer → ℤ → List Timer → List Timer) (ctime : ℤ)
    (laws : IsSort sort) (quiet : (t : Timer) (ts : List Timer) → tick t ctime ts ≡ ts) where
  front_read :
      (t : Timer) (ts : List Timer)
      → tick_front sort tick ctime t (t ∷ ts) ≡ (
          if t.repeat
          then some (sort (set_timer t.place (ctime +ℤ t.secs) (t ∷ ts)))
          else some (del_timer t.place (t ∷ ts)))
  unfolding tick_front behind_tick
  front_read t ts =
      ap (λ l. behind_tick sort ctime t.place (find_timer t.place l) l) (quiet t (t ∷ ts))
      ∙ ap (λ o. behind_tick sort ctime t.place o (t ∷ ts)) (find_front t ts)

  front_once :
      (t : Timer) (ts : List Timer)
      → t.repeat ≡ false
      → tick_front sort tick ctime t (t ∷ ts) ≡ some ts
  front_once t ts once =
      front_read t ts
      ∙ (ap
            (λ r.
              if r
              then some (sort (set_timer t.place (ctime +ℤ t.secs) (t ∷ ts)))
              else some (del_timer t.place (t ∷ ts)))
            once
          ∙ ap some (del_front t ts))

  front_again :
      (t : Timer) (ts : List Timer)
      → t.repeat ≡ true
      → tick_front sort tick ctime t (t ∷ ts) ≡ some (sort (moved ctime t ∷ ts))
  front_again t ts again =
      front_read t ts
      ∙ (ap
            (λ r.
              if r
              then some (sort (set_timer t.place (ctime +ℤ t.secs) (t ∷ ts)))
              else some (del_timer t.place (t ∷ ts)))
            again
          ∙ ap (λ l. some (sort l)) (set_front (ctime +ℤ t.secs) t ts))

  left_from :
      (ts us left : List Timer)
      → Permᴰ (all_ticked ctime us) (all_ticked ctime ts)
      → IsLeft ctime us left
      → IsLeft ctime ts left
  left_from ts us left p h = record {
    same = Permᴰ.trans h.same p;
    sorted = h.sorted;
    later = h.later;
  }

  at_rest :
      (rounds : ℕ) (t : Timer) (ts : List Timer)
      → ctime ≤ℤ t.trigger
      → tick_timers sort tick rounds ctime (t ∷ ts) ≡ some (t ∷ ts)
  unfolding tick_timers
  at_rest zero t ts le = rw (not_due ctime t le) refl
  at_rest (suc rounds) t ts le = rw (not_due ctime t le) refl

  left_rest :
      (t : Timer) (ts : List Timer)
      → IsSorted (t ∷ ts)
      → ctime ≤ℤ t.trigger
      → IsLeft ctime (t ∷ ts) (t ∷ ts)
  left_rest t ts (front, sorted) le =
      let later : All (λ u. ctime ≤ℤ u.trigger) (t ∷ ts) =
        (le, from_front ctime t.trigger ts le front) in
      record {
        same = rw (none_due ctime (t ∷ ts) later) (Permᴰ.refl (t ∷ ts));
        sorted = (front, sorted);
        later = later;
      }

  round :
      (rounds : ℕ) (t : Timer) (ts us : List Timer)
      → t.trigger <ℤ ctime
      → tick_front sort tick ctime t (t ∷ ts) ≡ some us
      → tick_timers sort tick (suc rounds) ctime (t ∷ ts) ≡ tick_timers sort tick rounds ctime us
  unfolding tick_timers
  round rounds t ts us lt e = rw (due ctime t lt, e) refl

  gone :
      (t : Timer) (ts : List Timer)
      → t.trigger <ℤ ctime
      → t.repeat ≡ false
      → all_ticked ctime (t ∷ ts) ≡ all_ticked ctime ts
  unfolding all_ticked ticked
  gone t ts lt once = rw (due ctime t lt, once) refl

  back :
      (t : Timer) (ts : List Timer)
      → t.trigger <ℤ ctime
      → t.repeat ≡ true
      → IsForward t
      → all_ticked ctime (t ∷ ts) ≡ all_ticked ctime (moved ctime t ∷ ts)
  unfolding all_ticked ticked
  back t ts lt again fwd =
      rw
        (due ctime t lt, again, not_due ctime (moved ctime t) (+ℤ_forward ctime t.secs (fwd again)))
        refl

  fewer :
      (t : Timer) (ts : List Timer)
      → t.trigger <ℤ ctime
      → due_count ctime (t ∷ ts) ≡ suc (due_count ctime ts)
  unfolding due_count
  fewer t ts lt = rw (due ctime t lt) refl

  same_count :
      (t : Timer) (ts : List Timer)
      → t.repeat ≡ true
      → IsForward t
      → due_count ctime (sort (moved ctime t ∷ ts)) ≡ due_count ctime ts
  unfolding due_count
  same_count t ts again fwd =
      due_count_same ctime (laws.same (moved ctime t ∷ ts))
      ∙ rw (not_due ctime (moved ctime t) (+ℤ_forward ctime t.secs (fwd again))) refl

  run :
      (rounds : ℕ) (ts : List Timer)
      → IsSorted ts
      → All IsForward ts
      → due_count ctime ts ≤ rounds
      → (left : List Timer) × (tick_timers sort tick rounds ctime ts ≡ some left)
        × IsLeft ctime ts left
  unfolding tick_timers all_ticked
  run rounds [] sorted fwd fuel = ([], refl, record { same = Permᴰ.nil; sorted = tt; later = tt })
  run zero (t ∷ ts) sorted (fwd_t, fwd) fuel = elim (dec_lt_ℤ t.trigger ctime) [
    | yes lt ↦ absurd (omega (arith, fewer t ts lt))
    | no nlt ↦
        (t ∷ ts, at_rest 0 t ts (omega (arith, nlt)), left_rest t ts sorted (omega (arith, nlt)))
  ]
  run (suc rounds) (t ∷ ts) sorted (fwd_t, fwd) fuel = elim (dec_lt_ℤ t.trigger ctime) [
    | no nlt ↦ (
      t ∷ ts,
      at_rest (suc rounds) t ts (omega (arith, nlt)),
      left_rest t ts sorted (omega (arith, nlt)),
    )
    | yes lt ↦ elim (Bool-cases t.repeat) [
      | inl again ↦
          let us = sort (moved ctime t ∷ ts) in
          let (left, e, h) =
            run rounds us (laws.sorted (moved ctime t ∷ ts))
              (All-same IsForward (laws.same (moved ctime t ∷ ts)) (fwd_t, fwd))
              (omega (arith, fewer t ts lt, same_count t ts again fwd_t)) in
          (
            left,
            round rounds t ts us lt (front_again t ts again) ∙ e,
            left_from (t ∷ ts) us left
                (rw (back t ts lt again fwd_t)
                  (all_ticked_same ctime (laws.same (moved ctime t ∷ ts))))
                h,
          )
      | inr once ↦
          let (left, e, h) = run rounds ts sorted.1 fwd (omega (arith, fewer t ts lt)) in
          (
            left,
            round rounds t ts ts lt (front_once t ts once) ∙ e,
            left_from (t ∷ ts) ts left (rw (gone t ts lt once) (Permᴰ.refl (all_ticked ctime ts)))
                h,
          )
    ]
  ]

  due_count_le : (ts : List Timer) → due_count ctime ts ≤ length ts
  unfolding due_count
  due_count_le [] = omega arith
  due_count_le (t ∷ ts) = elim (dec_lt_ℤ t.trigger ctime) [
    | yes lt ↦ rw (due ctime t lt) (omega (arith, due_count_le ts))
    | no nlt ↦ rw (not_due ctime t (omega (arith, nlt))) (omega (arith, due_count_le ts))
  ]

  -- With a sorting `sort` and ticks that leave the list alone, and where no repeating timer has a negative
  -- interval, `TickTimers` of a sorted list comes to an end within as many rounds as there are timers. The
  -- list left is sorted, has no timer that is due, and is in some order the timers that were not due and the
  -- repeating ones, moved to an interval from now.
  pub tick_timers_lem :
      (rounds : ℕ) (ts : List Timer)
      → IsSorted ts
      → All IsForward ts
      → length ts ≤ rounds
      → (left : List Timer) × (tick_timers sort tick rounds ctime ts ≡ some left)
        × IsLeft ctime ts left
  tick_timers_lem rounds ts sorted fwd enough =
      run rounds ts sorted fwd (omega (arith, due_count_le ts, enough))
