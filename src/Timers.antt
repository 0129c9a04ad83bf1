-- ===== src/Timers.antt =====
-- src/timers.cpp: the list of timers and its ticks. A timer is named by its place. `std::sort` is a
-- parameter, and so is the virtual `Tick`, which may change the list. Times and
-- intervals are signed, and their sums do not overflow.
pub mod Moved
pub mod Ticked
mod Tests
use anope.Base.{ℕ, zero, suc, Bool, Option, none, some, List, [], ◌∷◌, ◌++◌, ◌==◌, if◌then◌else◌}
use anope.Base.Int.{ℤ, ltb_ℤ, ◌+ℤ◌}

pub record Timer : Type 0 where
  pub place : ℕ
  pub settime : ℤ
  pub trigger : ℤ
  pub secs : ℤ
  pub repeat : Bool

-- `TimerComparison`.
unfoldable pub timer_comparison : Timer → Timer → Bool
timer_comparison one two = ltb_ℤ one.trigger two.trigger

unfoldable pub find_timer : ℕ → List Timer → Option Timer
find_timer place [] = none
find_timer place (t ∷ ts) = if t.place == place then some t else find_timer place ts

-- `DelTimer`, and the end of a timer.
unfoldable pub del_timer : ℕ → List Timer → List Timer
del_timer place [] = []
del_timer place (t ∷ ts) =
    let rest = del_timer place ts in if t.place == place then ts else t ∷ rest

-- `SetTimer`, of a timer that stays where it is.
unfoldable pub set_timer : ℕ → ℤ → List Timer → List Timer
set_timer place trigger [] = []
set_timer place trigger (t ∷ ts) =
    let rest = set_timer place trigger ts in
    if t.place == place then record t { trigger = trigger } ∷ ts else t ∷ rest

module _ (sort : List Timer → List Timer) where
  unfoldable pub add_timer : Timer → List Timer → List Timer
  add_timer t ts = sort (ts ++ t ∷ [])

  -- The constructor.
  unfoldable pub new_timer : ℕ → ℤ → ℤ → Bool → List Timer → List Timer
  new_timer place time_from_now now repeating ts =
      add_timer
        (record {
          place = place;
          settime = now;
          trigger = now +ℤ time_from_now;
          secs = time_from_now;
          repeat = repeating;
        })
        ts

  -- `SetSecs`.
  unfoldable pub set_secs : Timer → ℤ → ℤ → List Timer → List Timer
  set_secs t secs cur_time ts =
      add_timer (record t { secs = secs; trigger = cur_time +ℤ secs }) (del_timer t.place ts)

  -- Behind `Tick`, with what the timer is then; `none` where it ended itself and is read all the same.
  unfoldable pub behind_tick : ℤ → ℕ → Option Timer → List Timer → Option (List Timer)
  behind_tick ctime place none ts = none
  behind_tick ctime place (some t) ts =
      if t.repeat
      then some (sort (set_timer place (ctime +ℤ t.secs) ts))
      else some (del_timer place ts)

  module _ (tick : Timer → ℤ → List Timer → List Timer) where
    -- A round of the loop.
    unfoldable pub tick_front : ℤ → Timer → List Timer → Option (List Timer)
    tick_front ctime t ts =
        behind_tick ctime t.place (find_timer t.place (tick t ctime ts)) (tick t ctime ts)

    -- `TickTimers`, with a number of rounds; `none` also where they are used up.
    unfoldable pub tick_timers : ℕ → ℤ → List Timer → Option (List Timer)
    tick_timers rounds ctime [] = some []
    tick_timers zero ctime (t ∷ ts) = if ltb_ℤ t.trigger ctime then none else some (t ∷ ts)
    tick_timers (suc rounds) ctime (t ∷ ts) =
        if ltb_ℤ t.trigger ctime
        then elim (tick_front ctime t (t ∷ ts)) [
          | none ↦ none
          | some ts' ↦ tick_timers rounds ctime ts'
        ]
        else some (t ∷ ts)
