-- ===== src/Sessions/Tests.antt =====
-- Sessions and exceptions.
use anope.Base.{
  ℕ, ◌+◌, ◌≡◌, refl, true, false, none, some, List, [], ◌∷◌, arith, Bytes, codes, length,
}
use anope.Text.{equals_ci, ascii_fold, c_str, compare_by, is_equal, contains, equals_cs}
use anope.Numbers.{process, u32}
use anope.Numbers.Ranges.{has_number}
use anope.Numbers.Positions.{kept, number_set}
use anope.Sessions.{
  Exception, User, Config, State, put_session, on_user_logoff, count_up, add_session,
  on_user_connect, del_number, is_expired, expire_at, expire_loop, expire, do_move, updated,
  update_limit, do_add, ran, user_deleted, find_exception, over_exception, is_over, count_down,
  del_session, is_akilled, count_hit, killed, kill_user,
}
use anope.Sessions.Counts.{Ends, come, Tracks, come_here}
use anope.Sessions.Reached.{Reached, reached-connect}
use anope.Sessions.Exceptions.{del_numbers}

abbrev exception : Bytes → ℕ → ℕ → Exception
exception mask limit expires = record {
  mask = mask;
  limit = limit;
  who = codes "op";
  reason = codes "r";
  time = 1;
  expires = expires;
}

abbrev two_hosts : List Exception
two_hosts =
    exception (codes "*.ex") 3 0 ∷ exception (codes "h") 0 9 ∷ exception (codes "k") 1 5 ∷ []

abbrev limits : Config
limits = record {
  limit_sessions = true;
  def_session_limit = 1;
  max_session_limit = 10;
  max_session_kill = 1;
  quit_on_kill = false;
  has_akills = true;
}

abbrev bob : User
bob = record { host = codes "b"; ip = none }

abbrev start : State
start = record { sessions = λ h. none; exceptions = two_hosts; akills = [] }

abbrev one_session : State
one_session =
    put_session (codes "b") (some (record { host = codes "b"; count = 1; hits = 0 })) start

connects : on_user_connect limits bob false start ≡ ran one_session false
unfolding on_user_connect add_session count_up
connects = refl

one_there : Reached limits (come (codes "b") (λ h. 0)) one_session
one_there = Reached.connected bob false (Reached.started two_hosts) (omega arith) connects

-- The second session is one too many, and the AKILL is made of the host of a user who is deleted.
host_read_after_kill :
    on_user_connect limits bob false (record one_session { exceptions = [] }) ≡ user_deleted
unfolding on_user_connect add_session count_up is_over over_exception find_exception kill_user
    killed on_user_logoff del_session count_down count_hit is_akilled put_session equals_cs u32
host_read_after_kill = refl

reached-connect_example :
    Tracks (come (codes "b") (λ h. 0)) one_session
    × Ends limits
        (codes "b")
        (come (codes "b") (λ h. 0))
        (on_user_connect limits bob false one_session)
reached-connect_example =
    reached-connect limits (come (codes "b") (λ h. 0)) one_session bob false refl one_there
      (omega (arith, come_here (codes "b") (λ h. 0)))

del_numbers_example :
    (deleted : ℕ) × (process del_number true (number_set (3 ∷ 9 ∷ 1 ∷ 3 ∷ [])) (0, two_hosts)
      ≡ (deleted, kept (λ j. has_number j (3 ∷ 9 ∷ 1 ∷ 3 ∷ [])) 1 two_hosts))
    × (deleted + length (kept (λ j. has_number j (3 ∷ 9 ∷ 1 ∷ 3 ∷ [])) 1 two_hosts) ≡ 3)
del_numbers_example = del_numbers (3 ∷ 9 ∷ 1 ∷ 3 ∷ []) two_hosts (omega arith)

expired : expire 7 two_hosts ≡ exception (codes "*.ex") 3 0 ∷ exception (codes "h") 0 9 ∷ []
unfolding expire expire_loop expire_at is_expired
expired = refl

moved :
    do_move 0 2 two_hosts
    ≡ some
        (exception (codes "k") 1 5 ∷ exception (codes "h") 0 9 ∷ exception (codes "*.ex") 3 0 ∷ [])
unfolding do_move
moved = refl

changed :
    do_add limits (λ e. false) (some 4) (exception (codes "H") 0 0) two_hosts
    ≡ updated
        (exception (codes "*.ex") 3 0 ∷ exception (codes "h") 4 9 ∷ exception (codes "k") 1 5 ∷ [])
unfolding do_add update_limit contains equals_ci is_equal compare_by c_str ascii_fold
changed = refl
