-- ===== src/RegChannel/Tests.antt =====
-- Registered channels on concrete accounts.
use anope.Base.{ℕ, ◌%◌, ◌^◌, ◌≡◌, refl, none, some, [], ◌∷◌, ◌++◌, codes, ◌==◌, if◌then◌else◌}
use anope.Base.Int.{pos}
use anope.Access.{Privilege}
use anope.RegChannel.{
  ChannelInfo, same_account, decrement, increment, set_founder, get_at, add_akick_mask, get_akick,
}
use anope.RegChannel.Founder.{founded, set_founder-founded}

abbrev channel : ChannelInfo
channel = record {
  founder = some 4;
  successor = some 5;
  access = 9 ∷ 8 ∷ [];
  akick = [];
  badwords = [];
  levels = (codes "OP", pos 5) ∷ [];
  last_used = 0;
}

abbrev spare : ChannelInfo
spare = record channel { founder = none }

abbrev counts : ℕ → ℕ
counts a = if a == 4 then 1 else 0

abbrev op : Privilege
op = record { name = codes "OP"; desc = []; rank = pos 20 }

successor_founds : (set_founder (some 5) channel counts).0.successor ≡ none
unfolding set_founder same_account
successor_founds = refl

moved_counts :
    ((set_founder (some 5) channel counts).1 4 ≡ 0)
    × ((set_founder (some 5) channel counts).1 5 ≡ 1)
unfolding set_founder increment decrement
moved_counts = (refl, refl)

akicks : get_akick (add_akick_mask (codes "op") (codes "*!*@bad") [] 1 0 channel).1 1 ≡ none
unfolding add_akick_mask get_akick get_at
akicks = refl

set_founder-founded_example :
    (set_founder (some 5) channel counts).1 4
    ≡ founded 4 ((spare ∷ []) ++ (set_founder (some 5) channel counts).0 ∷ []) % 2 ^ 16
unfolding founded same_account
set_founder-founded_example = set_founder-founded (some 5) channel (spare ∷ []) [] counts 4 refl
