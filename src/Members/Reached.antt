-- ===== src/Members/Reached.antt =====
-- The worlds that joins, parts and changes of status lead to.
use anope.Base.{
  ℕ, ◌≡◌, refl, sym, ◌∙◌, Bool, false, not, ◌&&◌, Option, none, some, [], some-inj, none-some,
  ℕ_discrete, subst,
}
use anope.Members.{
  World, ChannelStatus, at, find_container, join_user, ChannelFlags, no_containers, delete_user,
  status_of, has_user_status, set_status,
}
use anope.Members.Lists.{at_self, at_other}
use anope.Members.Valid.{IsValid, join_user-IsValid, delete_user-IsValid}

abbrev pub nowhere : World
nowhere = record { users_of = λ c. []; chans_of = λ u. []; statuses = λ p. none; next = 0 }

-- A user joins a channel that he is not on, leaves one that he is on, or gets or loses a status.
pub data Reached : World → Type 0 where
  started : Reached nowhere
  joined :
      {w : World} (c u : ℕ)
      → Reached w
      → find_container c (w.chans_of u) ≡ none
      → Reached (join_user c u w)
  parted :
      {w w' : World} {st : ℕ} {deleted : Bool} (c u : ℕ) (flags : ChannelFlags)
      → Reached w
      → find_container c (w.chans_of u) ≡ some st
      → delete_user c u flags w ≡ some (w', deleted)
      → Reached w'
  given :
      {w w' : World} (c u flag : ℕ) (value : Bool)
      → Reached w
      → set_status c u flag value w ≡ some w'
      → Reached w'

nowhere-IsValid : IsValid nowhere
unfolding find_container
nowhere-IsValid = record {
  both = λ c u. refl;
  users_once = λ c. tt;
  chans_once = λ u. tt;
  alive = λ c u st h. absurd (none-some h);
  apart = λ c u c' u' st h h'. absurd (none-some h);
}

-- The world with another status at the place of one.
with_status-IsValid :
    (w : World) (k : ℕ) (s : ChannelStatus)
    → IsValid w
    → IsValid (record w { statuses = at w.statuses k (some s) })
with_status-IsValid w k s v = record {
  both = v.both;
  users_once = v.users_once;
  chans_once = v.chans_once;
  alive = λ c u st h. (
    (v.alive c u st h).0,
    elim (ℕ_discrete st k) [
      | yes e ↦ (s, rw e (at_self w.statuses k (some s)))
      | no ne ↦
          let (lt, (s', e)) = v.alive c u st h in (s', at_other w.statuses k (some s) st ne ∙ e)
    ],
  );
  apart = v.apart;
}

-- `SetFlag` never finds a freed status in a valid world.
set_found :
    (c u flag : ℕ) (value : Bool) (w : World) (o : Option ℕ)
    → IsValid w
    → find_container c (w.chans_of u) ≡ o
    → (w' : World) × (set_status c u flag value w ≡ some w') × IsValid w'
unfolding set_status
set_found c u flag value w none v e = (w, rw (e, set_status) refl, v)
set_found c u flag value w (some st) v e =
    let (lt, (s, live)) = v.alive c u st e in
    (
      record w { statuses = at w.statuses st (some (at s flag value)) },
      rw (e, set_status, live) refl,
      with_status-IsValid w st (at s flag value) v,
    )

pub reached-IsValid : {w : World} → Reached w → IsValid w
reached-IsValid Reached.started = nowhere-IsValid
reached-IsValid (Reached.joined {w} c u r free) = join_user-IsValid c u w (reached-IsValid r) free
reached-IsValid (Reached.parted {w} {w'} {st} {deleted} c u flags r on run) =
    let (w'', run', v, off) = delete_user-IsValid c u flags w st (reached-IsValid r) on in
    subst (λ (p : World × Bool). IsValid p.0) (some-inj (sym run' ∙ run)) v
reached-IsValid (Reached.given {w} {w'} c u flag value r run) =
    let (w'', run', v) =
      set_found c u flag value w (find_container c (w.chans_of u)) (reached-IsValid r) refl in
    subst IsValid (some-inj (sym run' ∙ run)) v

status_found :
    (c u flag : ℕ) (w : World) (o : Option ℕ)
    → IsValid w
    → find_container c (w.chans_of u) ≡ o
    → (b : Bool) × (has_user_status c u flag w ≡ some b)
unfolding has_user_status status_of
status_found c u flag w none v e = (false, rw (e, has_user_status, status_of) refl)
status_found c u flag w (some st) v e =
    let (lt, (s, live)) = v.alive c u st e in
    (s flag, rw (e, has_user_status, status_of, live) refl)

-- In a world that joins, parts and changes of status lead to, channels and users agree on who is
-- where. No question for a status and no change of one uses a freed object. `DeleteUser` of a user
-- who is on the channel touches no end of a list and leaves such a world without him on the channel,
-- which is deleted exactly if it is empty then and is neither persistent, syncing nor inhabited.
pub reached-agree :
    {w : World} (c u flag : ℕ) (value : Bool) (flags : ChannelFlags) (st : ℕ)
    → Reached w
    → find_container c (w.chans_of u) ≡ some st
    → IsValid w
      × ((b : Bool) × (has_user_status c u flag w ≡ some b))
      × ((w' : World) × (set_status c u flag value w ≡ some w') × Reached w')
      × ((w' : World) × (delete_user c u flags w
            ≡ some (
              w',
              not flags.persist
                  && not flags.syncing
                  && not flags.inhabit
                  && no_containers (w'.users_of c),
            ))
          × Reached w'
          × (find_container c (w'.chans_of u) ≡ none))
reached-agree {w} c u flag value flags st r on =
    let v = reached-IsValid r in
    let (w1, run1, v1) = set_found c u flag value w (some st) v on in
    let (w2, run2, v2, off) = delete_user-IsValid c u flags w st v on in
    (
      v,
      status_found c u flag w (some st) v on,
      (w1, run1, Reached.given c u flag value r run1),
      (w2, run2, Reached.parted c u flags r on run2, off),
    )
