-- ===== src/Members/Quit.antt =====
-- src/users.cpp: the loop of `~User` that takes a user off all his channels, one round for each.
use anope.Base.{
  ℕ, zero, suc, ◌≤◌, ◌≡◌, refl, sym, ap, ◌∙◌, ◌≢◌, inr, Bool, not, ◌&&◌, Option, none, some, [],
  ◌∷◌, arith, length,
}
use mathlib.Core.Option
use anope.Members.{
  World, Containers, find_container, erase_container, ChannelFlags, delete_user, status_of, at,
  no_containers,
}
use anope.Members.Lists.{at_self, erase-hit, at_other, erase_other}
use anope.Members.Valid.{IsValid, after_part}
use anope.Members.Reached.{Reached, reached-IsValid}

-- `while (!this->chans.empty()) this->chans.front()->chan->DeleteUser(this);`, with the flags of each channel;
-- `none` where the rounds are used up or `DeleteUser` reads the end of a list.
unfoldable pub leave_all : ℕ → ℕ → (ℕ → ChannelFlags) → World → Option World
leave_all zero u flags w = elim (w.chans_of u) [ [] ↦ some w | x ∷ l ↦ none ]
leave_all (suc rounds) u flags w = elim (w.chans_of u) [
  | [] ↦ some w
  | (c, st) ∷ l ↦ elim (delete_user c u (flags c) w) [
    | none ↦ none
    | some (w', deleted) ↦ leave_all rounds u flags w'
  ]
]

module _ (c u st : ℕ) (l : Containers) (w : World) (v : IsValid w)
    (first : w.chans_of u ≡ (c, st) ∷ l) where
  on : find_container c (w.chans_of u) ≡ some st
  unfolding find_container
  on = rw first (ground arith)

  rest_left : (after_part c u st w).chans_of u ≡ l
  unfolding after_part
  rest_left =
      at_self w.chans_of u (erase_container c (w.chans_of u))
      ∙ (ap (erase_container c) first ∙ erase-hit c c st l refl)

  same_status :
      (d x : ℕ) (o : Option ℕ)
      → x ≢ u
      → find_container d (w.chans_of x) ≡ o
      → Option.map (at w.statuses st none) o ≡ Option.map w.statuses o
  same_status d x none ne e = refl
  same_status d x (some s) ne e =
      ap some (
        at_other w.statuses st none s
          (λ same. ne (v.apart d x c u s e (on ∙ ap some (sym same))).1))

  -- The other users keep their channels and what they are there.
  others_stay : (d x : ℕ) → x ≢ u → status_of d x (after_part c u st w) ≡ status_of d x w
  unfolding status_of after_part
  others_stay d x ne =
      ap (Option.map (at w.statuses st none)) (erase_other w.chans_of u c d x (inr ne))
      ∙ same_status d x (find_container d (w.chans_of x)) ne refl

-- `DeleteUser` from the first channel of the list.
delete_first :
    (c u st : ℕ) (l : Containers) (flags : ChannelFlags) (w : World)
    → Reached w
    → w.chans_of u ≡ (c, st) ∷ l
    → (deleted : Bool) × (delete_user c u flags w ≡ some (after_part c u st w, deleted))
unfolding delete_user after_part
delete_first c u st l flags w r first =
    let v = reached-IsValid r in
    let there = on c u st l w v first in
    (
      not flags.persist
          && not flags.syncing
          && not flags.inhabit
          && no_containers (erase_container u (w.users_of c)),
      rw (v.both c u ∙ there, delete_user, there) refl,
    )

leave_lem :
    (rounds u : ℕ) (flags : ℕ → ChannelFlags) (w : World) (d x : ℕ) (l : Containers)
    → Reached w
    → x ≢ u
    → w.chans_of u ≡ l
    → length l ≤ rounds
    → (w' : World) × (leave_all rounds u flags w ≡ some w')
      × Reached w'
      × (w'.chans_of u ≡ [])
      × (status_of d x w' ≡ status_of d x w)
unfolding leave_all
leave_lem zero u flags w d x [] r ne e le = (w, rw (e, leave_all) refl, r, e, refl)
leave_lem (suc rounds) u flags w d x [] r ne e le = (w, rw (e, leave_all) refl, r, e, refl)
leave_lem zero u flags w d x ((c, st) ∷ l) r ne e le = absurd (omega (arith, le))
leave_lem (suc rounds) u flags w d x ((c, st) ∷ l) r ne e le =
    let v = reached-IsValid r in
    let (deleted, run) = delete_first c u st l (flags c) w r e in
    let r' = Reached.parted c u (flags c) r (on c u st l w v e) run in
    let (w', run', r'', off, stay) =
      leave_lem rounds u flags (after_part c u st w) d x l r' ne (rest_left c u st l w v e)
        (omega (arith, le)) in
    (w', rw (e, leave_all, run) run', r'', off, stay ∙ others_stay c u st l w v e d x ne)

-- A user who quits is taken off all his channels in a round for each: no end of a list is read, channels and
-- users agree on who is where then, he is on no channel's list of users, and every other user is on the
-- same channels with the same status as before.
pub leave_all-off :
    (rounds u : ℕ) (flags : ℕ → ChannelFlags) (w : World) (d x : ℕ)
    → Reached w
    → x ≢ u
    → length (w.chans_of u) ≤ rounds
    → (w' : World) × (leave_all rounds u flags w ≡ some w')
      × IsValid w'
      × (w'.chans_of u ≡ [])
      × (find_container u (w'.users_of d) ≡ none)
      × (status_of d x w' ≡ status_of d x w)
unfolding find_container
leave_all-off rounds u flags w d x r ne le =
    let (w', run, r', off, stay) = leave_lem rounds u flags w d x (w.chans_of u) r ne refl le in
    let v = reached-IsValid r' in (w', run, v, off, v.both d u ∙ ap (find_container d) off, stay)
