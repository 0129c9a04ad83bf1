-- ===== src/Access/Tests.antt =====
-- Tests of privileges, access entries and groups (src/access.cpp), and their theorems at concrete
-- entries.
use mathlib.Core.List.{reverse}
use anope.Base.{◌≡◌, refl, true, false, some, List, [], ◌∷◌, arith, Bytes, codes, ltb, leb}
use anope.Base.Int.{ℤ, pos, negsuc}
use anope.Text.{equals_cs, contains, has_any}
use anope.Glob.{
  matches, lower, fits, finish, retry, at_star, match_loop, rounds, match_prefix, match,
}
use anope.Access.{
  Privilege, gt_loop, ChanAccess, access_gt, access_lt, access_ge, access_le, any_matches,
  access_matches, EventReturn, event_continue, AccessGroup, group_gt, group_lt, group_ge, group_le,
}
use anope.Access.Levels.{top, access_order}
use anope.Access.Groups.{standing, group_order}
use anope.Access.Privileges.{Ranked}

abbrev voice : Privilege
voice = record { name = codes "VOICE"; desc = []; rank = pos 10 }

abbrev op : Privilege
op = record { name = codes "OP"; desc = []; rank = pos 20 }

abbrev privs : List Privilege
privs = voice ∷ op ∷ []

abbrev vop : ChanAccess
vop = record {
  mask = codes "joe";
  creator = [];
  last_seen = 0;
  created = 0;
  has_priv = λ n. equals_cs n (codes "VOICE");
}

abbrev aop : ChanAccess
aop = record vop { mask = codes "*!*@host"; has_priv = λ n. true }

abbrev silent : ChanAccess → Bytes → EventReturn
silent a n = event_continue

abbrev silent_group : AccessGroup → Bytes → EventReturn
silent_group g n = event_continue

abbrev ops : AccessGroup
ops = record {
  entries = vop ∷ aop ∷ [];
  disabled = λ n. false;
  super_admin = false;
  founder = false;
}

abbrev founders : AccessGroup
founders = record ops { entries = []; founder = true }

abbrev admins : AccessGroup
admins = record ops { entries = []; super_admin = true }

aop_above : access_gt privs aop vop ≡ true
unfolding access_gt gt_loop equals_cs
aop_above = refl

matches_nick :
    access_matches vop
      (some (record { nick = codes "joe"; displayed_mask = codes "joe!j@h" }))
      (some (codes "Joe" ∷ []))
    ≡ true
unfolding access_matches any_matches has_any contains matches match match_prefix match_loop rounds
    finish retry at_star fits lower
matches_nick = refl

access_order_example :
    let x = top (reverse privs) aop.has_priv in
    let y = top (reverse privs) vop.has_priv in
    (access_gt privs aop vop ≡ ltb y x)
    × (access_lt privs aop vop ≡ ltb x y)
    × (access_ge privs aop vop ≡ leb y x)
    × (access_le privs aop vop ≡ leb x y)
access_order_example = access_order privs aop vop

group_order_example :
    let x = standing silent silent_group privs ops in
    let y = standing silent silent_group privs founders in
    (group_gt silent silent_group privs ops founders ≡ ltb y x)
    × (group_lt silent silent_group privs ops founders ≡ ltb x y)
    × (group_ge silent silent_group privs ops founders ≡ leb y x)
    × (group_le silent silent_group privs ops founders ≡ leb x y)
group_order_example = group_order silent silent_group privs ops founders refl refl refl

abbrev half_op : Privilege
half_op = record { name = codes "HALFOP"; desc = []; rank = pos 15 }

privs-Ranked : Ranked privs
privs-Ranked = ((omega arith, tt), (tt, tt))

abbrev levels : List (List (Bytes × ℤ))
levels = ((codes "OP", pos 5) ∷ (codes "VOICE", negsuc 1) ∷ []) ∷ []
