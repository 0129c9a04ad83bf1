-- ===== src/Glob/Tests.antt =====
-- Tests of `Anope::Match` (src/misc.cpp), and its theorems at concrete masks.
use anope.Base.{◌≡◌, refl, ◌≢◌, ◌↔◌, true, false, codes}
use anope.Glob.{
  found, undefined, match, matches, lower, fits, spent, finish, retry, at_star, match_loop, rounds,
  match_prefix,
}
use anope.Glob.Spec.{Glob, done, one}
use anope.Glob.Total.{match_total}
use anope.Glob.Complete.{matches_iff}

host_matches : matches (codes "irc.Example.net") (codes "*.example.N?t") ≡ true
unfolding matches match match_prefix match_loop rounds finish retry at_star fits lower
host_matches = refl

backtracks : match (codes "aab") (codes "*ab") false ≡ found true
unfolding match match_prefix match_loop rounds finish retry at_star fits lower
backtracks = refl

too_long : match (codes "abc") (codes "ab") false ≡ undefined
unfolding match match_prefix match_loop rounds retry fits lower
too_long = refl

matches_iff_example :
    (matches (codes "aab") (codes "*ab") ≡ true) ↔ Glob false (codes "*ab") (codes "aab")
matches_iff_example =
    matches_iff (codes "aab") (codes "*ab") (refl, (refl, (refl, tt))) (refl, (refl, tt))

match_total_example : match (codes "aab") (codes "*ab") true ≢ spent
match_total_example = match_total (codes "aab") (codes "*ab") true

ab : Glob false (codes "ab") (codes "ab")
unfolding fits lower
ab = one refl refl (one refl refl done)
