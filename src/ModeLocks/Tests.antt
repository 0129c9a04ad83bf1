-- ===== src/ModeLocks/Tests.antt =====
-- The mode locks of src/regchannel.cpp on concrete channels.
use anope.Base.{
  ℕ, ◌≡◌, refl, inl, true, false, Option, none, some, List, [], ◌∷◌, arith, codes, ◌==◌,
  if◌then◌else◌,
}
use anope.Text.{is_empty}
use anope.Access.{EventReturn, event_continue}
use anope.ModeLocks.{
  ModeLock, ModeType, mode_regular, mode_list, mode_param, ChannelMode, is_single, insert,
  erase_name, has_mlock, setter_or, without, is_stop, new_lock, set_mlock, remove_all, remove_mlock,
  mlock_loop, or_nothing, get_mlock_as_string,
}
use anope.ModeLocks.Valid.{IsValid, set_mlock-IsValid}
use anope.ModeLocks.Lookup.{set_mlock-has_mlock}

abbrev topic_mode : ChannelMode
topic_mode = record { name = 3; mode_char = b't'; type = mode_regular }

abbrev key_mode : ChannelMode
key_mode = record { name = 5; mode_char = b'k'; type = mode_param }

abbrev ban_mode : ChannelMode
ban_mode = record { name = 2; mode_char = b'b'; type = mode_list }

abbrev modes : ℕ → Option ChannelMode
modes n =
    if n == 3
    then some topic_mode
    else if n == 5
    then some key_mode
    else if n == 2
    then some ban_mode
    else none

abbrev types : ℕ → ModeType
types n = elim (modes n) [ some m ↦ m.type | none ↦ mode_regular ]

abbrev allow : ModeLock → EventReturn
allow l = event_continue

abbrev locked : List ModeLock
locked =
    new_lock topic_mode true [] (codes "op") 1
    ∷ new_lock key_mode true (codes "old") (codes "op") 1
    ∷ []

locked_text : get_mlock_as_string modes true locked ≡ codes "+tk old"
unfolding get_mlock_as_string mlock_loop or_nothing new_lock is_empty
locked_text = refl

replaced_text :
    get_mlock_as_string modes true (set_mlock allow none key_mode false (codes "new") [] 2 locked).1
    ≡ codes "+t-k new"
unfolding get_mlock_as_string mlock_loop or_nothing new_lock is_empty set_mlock is_stop without
    erase_name insert setter_or is_single
replaced_text = refl

removed_text : get_mlock_as_string modes true (remove_mlock allow key_mode [] locked).1 ≡ codes "+t"
unfolding get_mlock_as_string mlock_loop or_nothing new_lock is_empty remove_mlock is_stop
    remove_all is_single
removed_text = refl

locked-IsValid : IsValid types locked
unfolding new_lock
locked-IsValid = ((inl (omega arith), tt), (tt, tt))

set_mlock-IsValid_example :
    IsValid types (set_mlock allow none ban_mode true (codes "*!*@bad") [] 9 locked).1
set_mlock-IsValid_example =
    set_mlock-IsValid types allow none ban_mode true (codes "*!*@bad") [] 9 locked refl
      locked-IsValid

set_mlock-has_mlock_example :
    has_mlock key_mode
      (codes "new")
      true
      (set_mlock allow none key_mode true (codes "new") [] 2 locked).1
    ≡ true
unfolding set_mlock is_stop
set_mlock-has_mlock_example =
    set_mlock-has_mlock allow none key_mode true (codes "new") [] 2 locked refl
