-- ===== src/Timers/Moved.antt =====
-- The timers that are due, and where they go.
use mathlib.Core.List.{Permᴰ}
use mathlib.Core.List.Permᴰ
use anope.Base.{
  ℕ, suc, ◌≡◌, refl, sym, ◌∙◌, true, false, some, List, [], ◌∷◌, ◌++◌, append_assoc, arith,
  if◌then◌else◌, ==_self, All, subst,
}
use anope.Base.Int.{ℤ, pos, ltb_ℤ, ◌+ℤ◌, ◌≤ℤ◌, ◌<ℤ◌}
use anope.Timers.{Timer, find_timer, del_timer, set_timer}

abbrev pub IsSorted : List Timer → Type 0
IsSorted [] = Unit
IsSorted (t ∷ ts) = All (λ u. t.trigger ≤ℤ u.trigger) ts × IsSorted ts

abbrev pub moved : ℤ → Timer → Timer
moved ctime t = record t { trigger = ctime +ℤ t.secs }

-- A timer that is due is gone, or comes again after its interval.
unfoldable pub ticked : ℤ → Timer → List Timer
ticked ctime t =
    if ltb_ℤ t.trigger ctime then (if t.repeat then moved ctime t ∷ [] else []) else t ∷ []

unfoldable pub all_ticked : ℤ → List Timer → List Timer
all_ticked ctime [] = []
all_ticked ctime (t ∷ ts) = ticked ctime t ++ all_ticked ctime ts

unfoldable pub due_count : ℤ → List Timer → ℕ
due_count ctime [] = 0
due_count ctime (t ∷ ts) =
    if ltb_ℤ t.trigger ctime then suc (due_count ctime ts) else due_count ctime ts

-- `std::sort`.
pub record IsSort (sort : List Timer → List Timer) : Type 0 where
  pub same : (ts : List Timer) → Permᴰ (sort ts) ts
  pub sorted : (ts : List Timer) → IsSorted (sort ts)

pub not_due : (ctime : ℤ) (t : Timer) → ctime ≤ℤ t.trigger → ltb_ℤ t.trigger ctime ≡ false
not_due ctime t le = ground arith

pub due : (ctime : ℤ) (t : Timer) → t.trigger <ℤ ctime → ltb_ℤ t.trigger ctime ≡ true
due ctime t lt = ground arith

pub due_count_same :
    (ctime : ℤ) {ts us : List Timer} → Permᴰ ts us → due_count ctime ts ≡ due_count ctime us
unfolding due_count
due_count_same ctime Permᴰ.nil = refl
due_count_same ctime (Permᴰ.cons {b = b} e p) = rw (e, due_count_same ctime p) refl
due_count_same ctime (Permᴰ.swap {a' = a'} {b' = b'} e e') = rw (e, e') (ground arith)
due_count_same ctime (Permᴰ.trans p q) = due_count_same ctime p ∙ due_count_same ctime q

pub exchange : (ts us vs : List Timer) → Permᴰ (ts ++ (us ++ vs)) (us ++ (ts ++ vs))
exchange ts us vs =
    subst (λ l. Permᴰ l (us ++ (ts ++ vs))) (append_assoc ts us vs)
      (subst (λ l. Permᴰ ((ts ++ us) ++ vs) l) (append_assoc us ts vs)
        (Permᴰ.append_right vs (Permᴰ.append_comm ts us)))

pub all_ticked_same :
    (ctime : ℤ) {ts us : List Timer}
    → Permᴰ ts us
    → Permᴰ (all_ticked ctime ts) (all_ticked ctime us)
unfolding all_ticked
all_ticked_same ctime Permᴰ.nil = Permᴰ.nil
all_ticked_same ctime (Permᴰ.cons {b = b} e p) =
    rw e (Permᴰ.append_left (ticked ctime b) (all_ticked_same ctime p))
all_ticked_same ctime (Permᴰ.swap {a' = a'} {b' = b'} {l = l} e e') =
    rw (e, e') (exchange (ticked ctime b') (ticked ctime a') (all_ticked ctime l))
all_ticked_same ctime (Permᴰ.trans p q) =
    Permᴰ.trans (all_ticked_same ctime p) (all_ticked_same ctime q)

pub none_due :
    (ctime : ℤ) (ts : List Timer) → All (λ t. ctime ≤ℤ t.trigger) ts → all_ticked ctime ts ≡ ts
unfolding all_ticked ticked
none_due ctime [] later = refl
none_due ctime (t ∷ ts) (le, later) = rw (not_due ctime t le, none_due ctime ts later) refl

pub from_front :
    (ctime bound : ℤ) (ts : List Timer)
    → ctime ≤ℤ bound
    → All (λ t. bound ≤ℤ t.trigger) ts
    → All (λ t. ctime ≤ℤ t.trigger) ts
from_front ctime bound [] le later = later
from_front ctime bound (t ∷ ts) le (le', later) = (omega arith, from_front ctime bound ts le later)

-- A timer that repeats has an interval that is not negative.
abbrev pub IsForward : Timer → Type 0
IsForward t = t.repeat ≡ true → pos 0 ≤ℤ t.secs

pub All-same : (P : Timer → Type 0) {ts us : List Timer} → Permᴰ ts us → All P us → All P ts
All-same P Permᴰ.nil h = tt
All-same P (Permᴰ.cons e p) (here, h) = (subst P (sym e) here, All-same P p h)
All-same P (Permᴰ.swap e e') (here, (next, h)) = (subst P (sym e) next, (subst P (sym e') here, h))
All-same P (Permᴰ.trans p q) h = All-same P p (All-same P q h)

-- The list that `TickTimers` leaves.
pub record IsLeft (ctime : ℤ) (ts left : List Timer) : Type 0 where
  pub same : Permᴰ left (all_ticked ctime ts)
  pub sorted : IsSorted left
  pub later : All (λ t. ctime ≤ℤ t.trigger) left

pub find_front : (t : Timer) (ts : List Timer) → find_timer t.place (t ∷ ts) ≡ some t
unfolding find_timer
find_front t ts = rw (==_self t.place) refl

pub del_front : (t : Timer) (ts : List Timer) → del_timer t.place (t ∷ ts) ≡ ts
unfolding del_timer
del_front t ts = rw (==_self t.place) refl

pub set_front :
    (v : ℤ) (t : Timer) (ts : List Timer)
    → set_timer t.place v (t ∷ ts) ≡ record t { trigger = v } ∷ ts
unfolding set_timer
set_front v t ts = rw (==_self t.place) refl
