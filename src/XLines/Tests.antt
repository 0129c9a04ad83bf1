-- ===== src/XLines/Tests.antt =====
-- Tests of the ban lists of src/operserv.cpp, and their theorems at a concrete manager.
use anope.Base.{
  ℕ, ◌≡◌, refl, true, false, Option, none, some, List, [], ◌∷◌, arith, Bytes, codes, ◌==◌,
  if◌then◌else◌,
}
use anope.Cidr.{Family}
use anope.Text.{find, ascii_fold, c_str, compare_by, is_equal, equals_ci, is_empty, shift}
use anope.Glob.{
  matches, lower, fits, finish, retry, at_star, match_loop, rounds, match_prefix, match,
}
use anope.XLines.{
  put_uid, XLine, World, User, ok, nick_of, user_of, host_of, add, del, can_add, check, clear,
  is_in, on_match, matches_ip, send_del, on_expire, update, remove, forget, get_entry, matches_host,
  is_expired, applies, check_loop,
}
use anope.XLines.Invariant.{IsValid}
use anope.XLines.CanAdd
use anope.XLines.CanAdd.{can_add_lem}
use anope.XLines.Check
use anope.XLines.Check.{check_lem}
use anope.XLines.Reached.{Reached, vacant, reached-safe}

mask_parts :
    (nick_of (codes "n!u@h") ≡ codes "n")
    × (user_of (codes "n!u@h") ≡ codes "u")
    × (host_of (codes "n!u@h") ≡ codes "h")
unfolding nick_of user_of host_of find shift
mask_parts = (refl, refl, refl)

abbrev bad_host : XLine
bad_host = record {
  mask = codes "*@*.bad";
  by = codes "oper";
  created = 5;
  expires = 0;
  reason = [];
  manager = some 7;
  uid = codes "ID1";
}

abbrev old_nick : XLine
old_nick = record bad_host { mask = codes "x!*@*"; expires = 10; uid = [] }

abbrev fresh : XLine
fresh = record bad_host { mask = codes "y@*"; manager = none; uid = codes "ID2" }

abbrev heap : ℕ → Option XLine
heap p =
    if p == 0
    then some bad_host
    else if p == 1
    then some old_nick
    else if p == 2
    then some fresh
    else none

abbrev manager : World
manager = record {
  me = 7;
  heap = heap;
  by_uid = (codes "id1", 0) ∷ [];
  lines = 0 ∷ 1 ∷ [];
  calls = [];
}

manager-IsValid : IsValid manager
unfolding equals_ci is_equal compare_by ascii_fold c_str is_empty
manager-IsValid = record {
  distinct = (((λ e. omega arith), tt), (tt, tt));
  owned = ((bad_host, refl, refl), ((old_nick, refl, refl), tt));
  keyed = ((bad_host, refl, refl, refl), tt);
}

abbrev user : User
user = record {
  nick = codes "joe";
  ident = codes "joe";
  host = codes "dial.BAD";
  chost = [];
  vhost = [];
  ip = none;
}

abbrev no_address : Family → Bytes → Option (List ℕ)
no_address fam ip = none

check-user :
    check no_address 20 user manager
    ≡ ok (
      some 0,
      record manager {
        heap = update heap 1 none;
        lines = 0 ∷ [];
        calls = on_expire 1 ∷ send_del 1 ∷ on_match 0 ∷ [];
      },
    )
unfolding check check_loop get_entry is_expired del is_in forget remove applies matches_ip
    matches_host nick_of user_of host_of find is_empty matches match match_prefix match_loop rounds
    finish retry at_star fits lower shift update
check-user = refl

abbrev with_fresh : World
with_fresh = record (vacant 7) { heap = update (vacant 7).heap 2 (some fresh) }

abbrev one_line : World
one_line = record with_fresh {
  heap = update with_fresh.heap 2 (some (record fresh { manager = some 7 }));
  by_uid = (codes "ID2", 2) ∷ [];
  lines = 2 ∷ [];
}

one_line-Reached : Reached 7 one_line
unfolding update add is_empty put_uid
one_line-Reached = Reached.added 2 (Reached.made 2 fresh Reached.started refl) refl tt refl

reached-safe_example :
    IsValid one_line
    × ((w' : World) × (del 2 one_line ≡ ok (is_in 2 (2 ∷ []), w'))
        × Reached 7 w'
        × (is_in 2 w'.lines ≡ false))
    × ((w' : World) × (clear one_line ≡ ok w') × Reached 7 w' × (w'.lines ≡ []))
unfolding update
reached-safe_example = reached-safe 2 one_line-Reached refl

can_add_example :
    (out : ℕ × Option ℕ × World) × (can_add (codes "*@a.bad") 50 manager ≡ ok out)
    × CanAdd.Done (codes "*@a.bad") 50 manager out
can_add_example = can_add_lem (codes "*@a.bad") 50 manager manager-IsValid

check_example :
    (out : Option ℕ × World) × (check no_address 20 user manager ≡ ok out)
    × Check.Done no_address 20 user manager out
unfolding applies matches_ip matches_host nick_of user_of host_of find is_empty matches match
    match_prefix match_loop rounds finish retry at_star fits lower shift
check_example =
    check_lem no_address 20 user manager manager-IsValid
      ((bad_host, refl, (true, refl)), ((old_nick, refl, (false, refl)), tt))
