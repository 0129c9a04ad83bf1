-- ===== src/Members/Tests.antt =====
-- Joins and parts on concrete channels.
use anope.Base.{◌≡◌, refl, Bool, true, false, ◌&&◌, none, some, [], arith}
use anope.Members.{
  World, at, find_container, erase_container, join_user, ChannelFlags, no_containers, delete_user,
  status_of, has_user_status, set_status,
}
use anope.Members.Valid.{IsValid}
use anope.Members.Quit.{leave_all, leave_all-off}
use anope.Members.Reached.{Reached, nowhere, reached-agree}

abbrev plain : ChannelFlags
plain = record { persist = false; syncing = false; inhabit = false }

abbrev joined : World
joined = join_user 7 1 nowhere

joined-Reached : Reached joined
unfolding find_container
joined-Reached = Reached.joined 7 1 Reached.started refl

op_status :
    elim (set_status 7 1 3 true joined) [ none ↦ none | some w ↦ has_user_status 7 1 3 w ]
    ≡ some true
unfolding set_status has_user_status status_of join_user find_container at
op_status = refl

last_part :
    elim (delete_user 7 1 plain joined) [ none ↦ false | some (w, deleted) ↦ deleted ] ≡ true
unfolding delete_user join_user find_container at erase_container no_containers
last_part = refl

reached-agree_example :
    IsValid joined
    × ((b : Bool) × (has_user_status 7 1 3 joined ≡ some b))
    × ((w' : World) × (set_status 7 1 3 true joined ≡ some w') × Reached w')
    × ((w' : World) × (delete_user 7 1 plain joined
          ≡ some (w', true && true && true && no_containers (w'.users_of 7)))
        × Reached w'
        × (find_container 7 (w'.chans_of 1) ≡ none))
unfolding join_user find_container at
reached-agree_example = reached-agree 7 1 3 true plain 0 joined-Reached refl

abbrev both_joined : World
both_joined = join_user 8 1 (join_user 7 2 joined)

both_joined-Reached : Reached both_joined
unfolding join_user find_container at
both_joined-Reached = Reached.joined 8 1 (Reached.joined 7 2 joined-Reached refl) refl

leave_all-off_example :
    (w' : World) × (leave_all 2 1 (λ c. plain) both_joined ≡ some w')
    × IsValid w'
    × (w'.chans_of 1 ≡ [])
    × (find_container 1 (w'.users_of 7) ≡ none)
    × (status_of 7 2 w' ≡ status_of 7 2 both_joined)
unfolding join_user at
leave_all-off_example =
    leave_all-off 2 1 (λ c. plain) both_joined 7 2 both_joined-Reached (λ e. omega arith)
      (omega arith)
