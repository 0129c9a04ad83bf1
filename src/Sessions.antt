-- ===== src/Sessions.antt =====
-- modules/commands/os_session.cpp: the sessions of each host, their limits, and the exceptions to them.
-- The map of sessions is a function from the host. The AKILLs that are added are recorded by their masks;
-- messages, and the events of modules but for a veto, are left out.
pub mod Counts
pub mod Reached
pub mod Exceptions
mod Tests
use anope.Base.{
  ℕ, zero, suc, ◌+◌, ◌-◌, Bool, true, false, not, ◌&&◌, ◌||◌, Option, none, some, List, [], ◌∷◌,
  ◌++◌, Bytes, codes, ltb, leb, ◌==◌, if◌then◌else◌, length, get_elem?, set, erase_at,
}
use anope.Text.{equals_cs, equals_ci, contains}
use mathlib.Core.Option
use anope.Glob.{matches}
use anope.Numbers.{u32}

pub record Exception : Type 0 where
  pub mask : Bytes
  pub limit : ℕ
  pub who : Bytes
  pub reason : Bytes
  pub time : ℕ
  pub expires : ℕ

pub record Session : Type 0 where
  pub host : Bytes
  pub count : ℕ
  pub hits : ℕ

-- What is read of a user: `ip` is the text of the address, where it is known.
pub record User : Type 0 where
  pub host : Bytes
  pub ip : Option Bytes

-- The configuration; `quit_on_kill`: does the server send a QUIT for a killed user? `has_akills`: is
-- there a manager of AKILLs?
pub record Config : Type 0 where
  pub limit_sessions : Bool
  pub def_session_limit : ℕ
  pub max_session_limit : ℕ
  pub max_session_kill : ℕ
  pub quit_on_kill : Bool
  pub has_akills : Bool

pub record State : Type 0 where
  pub sessions : Bytes → Option Session
  pub exceptions : List Exception
  pub akills : List Bytes

-- How a connect ends: with a state, and whether the user is gone; or by a use of a session or of a user
-- that was deleted.
pub data Connected : Type 0 where
  ran : State → Bool → Connected
  session_deleted user_deleted : Connected

-- `Sessions[host] = s`, and `Sessions.erase(host)` with `none`.
unfoldable pub put_session : Bytes → Option Session → State → State
put_session host s st = record st { sessions = λ h. if equals_cs h host then s else st.sessions h }

-- `FindException` of a user, and of a host.
unfoldable pub ip_matches : Option Bytes → Bytes → Bool
ip_matches none mask = false
ip_matches (some ip) mask = matches ip mask

unfoldable pub find_exception : User → List Exception → Option Exception
find_exception u [] = none
find_exception u (e ∷ es) =
    if matches u.host e.mask || ip_matches u.ip e.mask then some e else find_exception u es

unfoldable pub find_host_exception : Bytes → List Exception → Option Exception
find_host_exception host [] = none
find_host_exception host (e ∷ es) =
    if matches host e.mask then some e else find_host_exception host es

module _ (cfg : Config) where
  -- The limit of an exception that was found.
  unfoldable pub over_exception : ℕ → Option Exception → Bool
  over_exception count none = true
  over_exception count (some e) = not (e.limit == 0) && leb e.limit count

  -- `kill`, of a host with so many sessions.
  unfoldable pub is_over : ℕ → User → List Exception → Bool
  is_over count u es =
      not (cfg.def_session_limit == 0)
      && leb cfg.def_session_limit count
      && over_exception count (find_exception u es)

  -- `DelSession` of a user.
  unfoldable pub count_down : Bytes → Option Session → State → State
  count_down host none st = st
  count_down host (some s) st =
      if ltb 1 s.count
      then put_session host (some (record s { count = s.count - 1 })) st
      else put_session host none st

  unfoldable pub del_session : Bytes → State → State
  del_session host st = count_down host (st.sessions host) st

  unfoldable pub on_user_logoff : Bytes → Bool → State → State
  on_user_logoff host is_ulined st =
      if cfg.limit_sessions && not is_ulined then del_session host st else st

  -- `MaxSessionKill && session->hits >= MaxSessionKill && akills`.
  unfoldable pub is_akilled : ℕ → Bool
  is_akilled hits =
      not (cfg.max_session_kill == 0) && leb cfg.max_session_kill hits && cfg.has_akills

  -- `++session->hits` and the AKILL, on the session that is there then. The mask of the AKILL is made of
  -- `u->host`, which is read of a user that may be `gone`.
  unfoldable pub count_hit : Bytes → Bool → Option Session → State → Connected
  count_hit host gone none st = session_deleted
  count_hit host gone (some s) st =
      let hits = u32 (s.hits + 1) in
      let st' = put_session host (some (record s { hits = hits })) st in
      if is_akilled hits
      then if gone
        then user_deleted
        else ran (record st' { akills = st'.akills ++ (codes "*@" ++ host) ∷ [] }) gone
      else ran st' gone

  -- `u->Kill`, which deletes the user at once where no QUIT will come.
  unfoldable pub killed : Bytes → State → State
  killed host st = if cfg.quit_on_kill then st else on_user_logoff host false st

  unfoldable pub kill_user : Bytes → State → Connected
  kill_user host st =
      count_hit host (not cfg.quit_on_kill) ((killed host st).sessions host) (killed host st)

  -- `AddSession` of a user, with the session of the host.
  unfoldable pub count_up : User → Bool → Option Session → State → Connected
  count_up u exempt none st =
      ran (put_session u.host (some (record { host = u.host; count = 1; hits = 0 })) st) false
  count_up u exempt (some s) st =
      let st' = put_session u.host (some (record s { count = u32 (s.count + 1) })) st in
      if is_over s.count u st.exceptions && not exempt then kill_user u.host st' else ran st' false

  unfoldable pub add_session : User → Bool → State → Connected
  add_session u exempt st = count_up u exempt (st.sessions u.host) st

  unfoldable pub on_user_connect : User → Bool → State → Connected
  on_user_connect u exempt st = if cfg.limit_sessions then add_session u exempt st else ran st false

-- `HandleNumber` of `ExceptionDelCallback`, with the number of entries deleted.
unfoldable pub del_number : ℕ → ℕ × List Exception → ℕ × List Exception
del_number n (deleted, es) =
    if n == 0 || ltb (length es) n then (deleted, es) else (u32 (deleted + 1), erase_at es (n - 1))

-- DEL of a mask; `none` where there is no such entry.
unfoldable pub del_mask : Bytes → List Exception → Option (List Exception)
del_mask mask [] = none
del_mask mask (e ∷ es) =
    if equals_ci mask e.mask then some es else Option.map (λ rest. e ∷ rest) (del_mask mask es)

-- `Tick` of the expiry timer: is the entry deleted?
unfoldable pub is_expired : ℕ → Exception → Bool
is_expired now e = not (e.expires == 0) && not (ltb now e.expires)

unfoldable pub expire_at : ℕ → ℕ → Option Exception → List Exception → List Exception
expire_at now i none es = es
expire_at now i (some e) es = if is_expired now e then erase_at es i else es

unfoldable pub expire_loop : ℕ → ℕ → List Exception → List Exception
expire_loop now zero es = es
expire_loop now (suc i) es = expire_loop now i (expire_at now i (get_elem? es i) es)

unfoldable pub expire : ℕ → List Exception → List Exception
expire now es = expire_loop now (length es) es

-- MOVE; `none` is the syntax error. Two entries change places.
unfoldable pub do_move : ℕ → ℕ → List Exception → Option (List Exception)
do_move n1 n2 es = elim (get_elem? es n1) [
  | none ↦ none
  | some a ↦ elim (get_elem? es n2) [
    | none ↦ none
    | some b ↦ if n1 == n2 then none else some (set (set es n1 b) n2 a)
  ]
]

-- What ADD answers.
pub data Added : Type 0 where
  invalid_limit invalid_mask exists stopped : Added
  updated added : List Exception → Added

-- The entry of the mask gets the limit; `none` where there is no such entry.
unfoldable pub update_limit : Bytes → ℕ → List Exception → Option (Option (List Exception))
update_limit mask limit [] = none
update_limit mask limit (e ∷ es) =
    let rest = update_limit mask limit es in
    if equals_ci e.mask mask
    then some (if e.limit == limit then none else some (record e { limit = limit } ∷ es))
    else Option.map (Option.map (λ es'. e ∷ es')) rest

-- ADD, with the limit where the text of it is a number that is not negative. `is_stopped`: did a
-- module answer `EVENT_STOP`?
unfoldable pub do_add : Config → (Exception → Bool) → Option ℕ → Exception → List Exception → Added
do_add cfg is_stopped none e es = invalid_limit
do_add cfg is_stopped (some limit) e es =
    if ltb cfg.max_session_limit limit
    then invalid_limit
    else if contains b'!' e.mask || contains b'@' e.mask
    then invalid_mask
    else elim (update_limit e.mask limit es) [
      | some none ↦ exists
      | some (some es') ↦ updated es'
      | none ↦
          if is_stopped (record e { limit = limit })
          then stopped
          else added (es ++ record e { limit = limit } ∷ [])
    ]
