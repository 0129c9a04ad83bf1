-- ===== src/Users.antt =====
-- src/users.cpp: the users who are online, and the maps from nicks and unique ids to them. A user is
-- named by his place in a heap. The map of nicks does not tell the cases of letters apart; both maps are
-- functions of the key. What the other subsystems do with a user who comes or goes is left out.
pub mod Index
pub mod Fresh
pub mod Uids
pub mod Named
pub mod Valid
pub mod Reached
pub mod Modes
mod Tests
use anope.Base.{
  ℕ, ◌+◌, Bool, false, not, ◌&&◌, ◌||◌, Option, none, some, [], ◌∷◌, Bytes, ltb, ◌==◌,
  if◌then◌else◌,
}
use anope.Text.{is_empty, equals_ci, equals_cs}
use mathlib.Core.Option
use anope.Numbers.{u32, is_digit}

pub record User : Type 0 where
  pub nick : Bytes
  pub ident : Bytes
  pub host : Bytes
  pub uid : Bytes

pub record World : Type 0 where
  pub heap : ℕ → Option User
  pub by_nick : Bytes → Option ℕ
  pub by_uid : Bytes → Option ℕ
  pub usercnt : ℕ
  pub maxusercnt : ℕ

unfoldable pub no_users : World
no_users = record {
  heap = λ p. none;
  by_nick = λ k. none;
  by_uid = λ k. none;
  usercnt = 0;
  maxusercnt = 0;
}

unfoldable pub at_place : (ℕ → Option User) → ℕ → Option User → ℕ → Option User
at_place heap p v q = if q == p then v else heap q

-- `UserListByNick[nick] = …`, and `erase` with `none`.
unfoldable pub put_nick : Bytes → Option ℕ → (Bytes → Option ℕ) → Bytes → Option ℕ
put_nick nick v m k = if equals_ci k nick then v else m k

-- The same of `UserListByUID`, for a unique id that is not empty.
unfoldable pub put_uid : Bytes → Option ℕ → (Bytes → Option ℕ) → Bytes → Option ℕ
put_uid uid v m k = if not (is_empty uid) && equals_cs k uid then v else m k

-- The constructor, at a place of the heap; `none` is the exception.
unfoldable pub added : ℕ → User → World → World
added p u w = record {
  heap = at_place w.heap p (some u);
  by_nick = put_nick u.nick (some p) w.by_nick;
  by_uid = put_uid u.uid (some p) w.by_uid;
  usercnt = u32 (w.usercnt + 1);
  maxusercnt = if ltb w.maxusercnt (u32 (w.usercnt + 1)) then u32 (w.usercnt + 1) else w.maxusercnt;
}

unfoldable pub new_user : ℕ → User → World → Option World
new_user p u w =
    if is_empty u.nick || is_empty u.ident || is_empty u.host then none else some (added p u w)

-- `SetNewNick` of a user.
unfoldable pub renamed : ℕ → User → Bytes → World → World
renamed p u nick w = record w {
  heap = at_place w.heap p (some (record u { nick = nick }));
  by_nick = put_nick nick (some p) (put_nick u.nick none w.by_nick);
}

unfoldable pub set_new_nick : ℕ → Bytes → World → Option World
set_new_nick p nick w =
    if is_empty nick then none else Option.map (λ u. renamed p u nick w) (w.heap p)

-- The destructor.
unfoldable pub gone : ℕ → User → World → World
gone p u w = record {
  heap = at_place w.heap p none;
  by_nick = put_nick u.nick none w.by_nick;
  by_uid = put_uid u.uid none w.by_uid;
  usercnt = u32 (w.usercnt + 4294967295);
  maxusercnt = w.maxusercnt;
}

unfoldable pub delete_user : ℕ → World → Option World
delete_user p w = Option.map (λ u. gone p u w) (w.heap p)

-- `isdigit(nick[0])`.
unfoldable pub first_digit : Bytes → Bool
first_digit [] = false
first_digit (c ∷ s) = is_digit c

-- `finduser`; `ts6` tells whether users have unique ids.
unfoldable pub find_user : Bool → Bytes → World → Option ℕ
find_user ts6 nick w = if first_digit nick && ts6 then w.by_uid nick else w.by_nick nick
