-- ===== src/Users/Tests.antt =====
-- Users who come, change their nicks and go.
use anope.Base.{◌≡◌, refl, ◌↔◌, true, none, some, [], ◌∷◌, arith, Bytes, codes, All}
use anope.Text.{is_empty, equals_ci, equals_cs, is_equal, compare_by, ascii_fold, c_str}
use anope.Numbers.{u32, is_digit}
use anope.XLines.Heap.{Distinct}
use anope.Users.{
  User, World, no_users, at_place, put_nick, put_uid, added, new_user, renamed, set_new_nick,
  first_digit, find_user,
}
use anope.Users.Uids.{
  next_id, bump_front, bump, next_uid, is_used, ts6_uid_retrieve, rank, is_id, all_id, ids, value,
}
use anope.Users.Fresh.{IsFresh, retrieve-IsFresh}
use anope.Users.Reached.{Reached, reached-find_user}
use anope.Users.Named.{answers_to, Live}

abbrev joe : User
joe = record {
  nick = codes "joe";
  ident = codes "j";
  host = codes "dial.example.net";
  uid = codes "00AAAAAAB";
}

abbrev with_joe : World
with_joe = added 3 joe no_users

with_joe-Reached : Reached (3 ∷ []) with_joe
unfolding new_user is_empty no_users
with_joe-Reached =
    Reached.came 3 joe Reached.started refl (λ q u e. absurd (cc)) (λ q u e. absurd (cc)) refl

abbrev with_jim : World
with_jim = renamed 3 joe (codes "jim") with_joe

with_jim-Reached : Reached (3 ∷ []) with_jim
unfolding set_new_nick is_empty added at_place no_users
with_jim-Reached =
    Reached.changed 3 (codes "jim") with_joe-Reached refl
      (λ q u alive ne. ground (arith, alive, ne)) refl

by_new_nick : find_user true (codes "JIM") with_jim ≡ some 3
unfolding find_user first_digit is_digit renamed put_nick put_uid added at_place no_users equals_ci
    is_equal compare_by ascii_fold c_str
by_new_nick = refl

no_old_nick : find_user true (codes "joe") with_jim ≡ none
unfolding find_user first_digit is_digit renamed put_nick put_uid added at_place no_users equals_ci
    is_equal compare_by ascii_fold c_str
no_old_nick = refl

by_uid_found : find_user true (codes "00AAAAAAB") with_jim ≡ some 3
unfolding find_user first_digit is_digit renamed put_nick put_uid added at_place no_users equals_cs
    is_empty
by_uid_found = refl

reached-find_user_example :
    ((find_user true (codes "JIM") with_jim ≡ some 3)
      ↔ ((u : User) × (with_jim.heap 3 ≡ some u) × (answers_to true (codes "JIM") u ≡ true)))
    × (Distinct (3 ∷ []) × All (Live with_jim.heap) (3 ∷ []))
    × (with_jim.usercnt ≡ u32 1)
reached-find_user_example = reached-find_user true (codes "JIM") 3 with_jim-Reached

skips_joe : ts6_uid_retrieve 2 (codes "00A") with_joe (codes "AAAAAB") ≡ some (codes "AAAAAC")
unfolding ts6_uid_retrieve is_used find_user first_digit is_digit put_nick put_uid added at_place
    no_users equals_cs is_empty next_uid bump bump_front next_id
skips_joe = refl

retrieve-IsFresh_example :
    (uid : Bytes) × (ts6_uid_retrieve 2 (codes "00A") with_joe (codes "AAAAAB") ≡ some uid)
    × IsFresh (codes "00A") with_joe 6 uid
unfolding first_digit is_digit all_id is_id value rank ids
retrieve-IsFresh_example =
    retrieve-IsFresh 2 (codes "00A") (codes "AAAAAB") with_joe-Reached refl refl (omega arith)
      (omega arith)
