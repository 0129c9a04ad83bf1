-- ===== src/XLines.antt =====
-- src/operserv.cpp and include/oper.h: `XLine` and `XLineManager`, the lists of bans that users
-- are checked against. An XLine is reached by a pointer, a number here, through an explicit heap,
-- since the list of a manager and the map by unique id share the objects.
-- `SendDel`, `OnMatch` and `OnExpire` are virtual; that they are called is recorded in `calls`.
pub mod Heap
pub mod Invariant
pub mod Positions
pub mod CanAdd
pub mod Check
pub mod Lookup
pub mod Reached
mod Tests
use anope.Base.{
  ℕ, zero, suc, ◌+◌, ◌-◌, Bool, true, false, not, ◌&&◌, ◌||◌, Option, none, some, List, [], ◌∷◌,
  ◌++◌, Bytes, ltb, leb, ◌==◌, if◌then◌else◌, length, get_elem?, drop,
}
use anope.Text.{equals_ci, is_empty, find, substr}
use anope.Glob.{matches}
use anope.Cidr
use anope.Cidr.{Family, Address, made, socket_exception, convert_exception}

pub record XLine : Type 0 where
  pub mask : Bytes
  pub by : Bytes
  pub created : ℕ
  pub expires : ℕ
  pub reason : Bytes
  pub manager : Option ℕ
  pub uid : Bytes

-- `XLine(mask, by, expires, reason, uid)` at the time `now`.
unfoldable pub make : ℕ → Bytes → Bytes → ℕ → Bytes → Bytes → XLine
make now mask by expires reason uid = record {
  mask = mask;
  by = by;
  created = now;
  expires = expires;
  reason = reason;
  manager = none;
  uid = uid;
}

-- `GetNick`: what stands before the `!`.
unfoldable pub nick_of : Bytes → Bytes
nick_of mask = elim (find b'!' mask) [ none ↦ [] | some i ↦ substr 0 i mask ]

-- `GetUser`: what stands before the `@`, behind a `!`. The count `host_t - user_t - 1` of `substr`
-- wraps round to the rest of the text where the `@` stands before the `!`.
unfoldable pub user_of : Bytes → Bytes
user_of mask = elim (find b'@' mask) [
  | none ↦ []
  | some host ↦ elim (find b'!' mask) [
    | none ↦ substr 0 host mask
    | some user ↦
        if ltb user host then substr (user + 1) (host - user - 1) mask else drop (user + 1) mask
  ]
]

-- `GetHost`: what stands behind the `@`, or everything.
unfoldable pub host_of : Bytes → Bytes
host_of mask = elim (find b'@' mask) [ none ↦ mask | some i ↦ drop (i + 1) mask ]

pub data Call : Type 0 where
  send_del on_match on_expire : ℕ → Call

-- One manager with what it shares with the others. `by_uid` is `XLinesByUID`.
pub record World : Type 0 where
  pub me : ℕ
  pub heap : ℕ → Option XLine
  pub by_uid : List (Bytes × ℕ)
  pub lines : List ℕ
  pub calls : List Call

-- `fault` is a use of a freed or missing object, `raised` an exception that leaves the function.
pub data Result {ℓ} (A : Type ℓ) : Type ℓ where
  ok : A → Result A
  fault raised : Result A

unfoldable pub update : (ℕ → Option XLine) → ℕ → Option XLine → ℕ → Option XLine
update heap p v q = if q == p then v else heap q

-- The map is ordered by `ci::less`: keys that differ in case only are one key.
unfoldable pub lookup_uid : Bytes → List (Bytes × ℕ) → Option ℕ
lookup_uid k [] = none
lookup_uid k ((j, p) ∷ m) = if equals_ci j k then some p else lookup_uid k m

unfoldable pub put_uid : Bytes → ℕ → List (Bytes × ℕ) → List (Bytes × ℕ)
put_uid k p [] = (k, p) ∷ []
put_uid k p ((j, q) ∷ m) = if equals_ci j k then (j, p) ∷ m else (j, q) ∷ put_uid k p m

unfoldable pub erase_uid : Bytes → List (Bytes × ℕ) → List (Bytes × ℕ)
erase_uid k [] = []
erase_uid k ((j, q) ∷ m) = if equals_ci j k then erase_uid k m else (j, q) ∷ erase_uid k m

unfoldable pub is_in : ℕ → List ℕ → Bool
is_in p [] = false
is_in p (q ∷ ps) = q == p || is_in p ps

-- `erase(std::find(…))`.
unfoldable pub remove : ℕ → List ℕ → List ℕ
remove p [] = []
remove p (q ∷ ps) = if q == p then ps else q ∷ remove p ps

-- `if (!x->UID.empty()) XLinesByUID.erase(x->UID)`.
unfoldable pub forget : XLine → List (Bytes × ℕ) → List (Bytes × ℕ)
forget x m = if is_empty x.uid then m else erase_uid x.uid m

-- `AddXLine`.
unfoldable pub add : ℕ → World → Result World
add p w = elim (w.heap p) [
  | none ↦ fault
  | some x ↦ ok (record w {
    heap = update w.heap p (some (record x { manager = some w.me }));
    by_uid = if is_empty x.uid then w.by_uid else put_uid x.uid p w.by_uid;
    lines = w.lines ++ p ∷ [];
  })
]

-- `DelXLine`, with whether the entry was in the list.
unfoldable pub del : ℕ → World → Result (Bool × World)
del p w = elim (w.heap p) [
  | none ↦ fault
  | some x ↦
      if is_in p w.lines
      then ok (
        true,
        record w {
          heap = update w.heap p none;
          by_uid = forget x w.by_uid;
          lines = remove p w.lines;
          calls = w.calls ++ send_del p ∷ [];
        },
      )
      else ok (false, record w { by_uid = forget x w.by_uid })
]

-- `GetEntry`; `none` is `NULL`.
unfoldable pub get_entry : ℕ → World → Option ℕ
get_entry index w = get_elem? w.lines index

-- The loop of `Clear` over the entries that are left.
unfoldable pub clear_loop : List ℕ → World → Result World
clear_loop [] w = ok (record w { lines = [] })
clear_loop (p ∷ ps) w = elim (w.heap p) [
  | none ↦ fault
  | some x ↦ clear_loop ps (record w { heap = update w.heap p none; by_uid = forget x w.by_uid })
]

unfoldable pub clear : World → Result World
clear w = clear_loop w.lines w

-- What `CanAdd` makes of one entry.
pub data Verdict : Type 0 where
  same_longer same_shorter covers covered apart : Verdict

unfoldable pub verdict : Bytes → ℕ → XLine → Verdict
verdict mask expires x =
    if equals_ci x.mask mask
    then if x.expires == 0 || leb expires x.expires then same_longer else same_shorter
    else if matches mask x.mask && (x.expires == 0 || leb expires x.expires)
    then covers
    else if matches x.mask mask && (expires == 0 || leb x.expires expires)
    then covered
    else apart

-- The loop of `CanAdd` over the entries below index `i`; `last` is `ret.second`.
unfoldable pub can_add_loop : Bytes → ℕ → ℕ → Option ℕ → World → Result (ℕ × Option ℕ × World)
can_add_loop mask expires zero last w = ok (0, last, w)
can_add_loop mask expires (suc i) last w = elim (get_entry i w) [
  | none ↦ fault
  | some p ↦ elim (w.heap p) [
    | none ↦ fault
    | some x ↦ elim (verdict mask expires x) [
      | same_longer ↦ ok (1, some p, w)
      | same_shorter ↦
          ok
            (2, some p, record w { heap = update w.heap p (some (record x { expires = expires })) })
      | covers ↦ ok (3, some p, w)
      | covered ↦ elim (del p w) [
        | ok (found, w') ↦ can_add_loop mask expires i (some p) w'
        | fault ↦ fault
        | raised ↦ raised
      ]
      | apart ↦ can_add_loop mask expires i (some p) w
    ]
  ]
]

unfoldable pub can_add : Bytes → ℕ → World → Result (ℕ × Option ℕ × World)
can_add mask expires w = can_add_loop mask expires (length w.lines) none w

-- The loop of `HasEntry` over the list.
unfoldable pub find_mask : (ℕ → Option XLine) → Bytes → List ℕ → Result (Option ℕ)
find_mask heap mask [] = ok none
find_mask heap mask (p ∷ ps) = elim (heap p) [
  | none ↦ fault
  | some x ↦ elim (equals_ci x.mask mask) [ true ↦ ok (some p) | false ↦ find_mask heap mask ps ]
]

unfoldable pub mine : ℕ → Option ℕ → Bool
mine me none = true
mine me (some m) = m == me

-- `HasEntry`.
unfoldable pub has_entry : Bytes → World → Result (Option ℕ)
has_entry mask w = elim (lookup_uid mask w.by_uid) [
  | none ↦ find_mask w.heap mask w.lines
  | some q ↦ elim (w.heap q) [
    | none ↦ fault
    | some x ↦ if mine w.me x.manager then ok (some q) else find_mask w.heap mask w.lines
  ]
]

-- What `Check` reads of a `User`; `ip` is `none` where `u->ip()` is false.
pub record User : Type 0 where
  pub nick : Bytes
  pub ident : Bytes
  pub host : Bytes
  pub chost : Bytes
  pub vhost : Bytes
  pub ip : Option Address

unfoldable pub matches_host : User → Bytes → Bool
matches_host u host =
    is_empty host
    || (matches u.host host
        || (not (is_empty u.chost) && matches u.chost host
            || not (is_empty u.vhost) && matches u.vhost host))

unfoldable pub is_expired : ℕ → XLine → Bool
is_expired now x = not (x.expires == 0) && ltb x.expires now

module _ (pton : Family → Bytes → Option (List ℕ)) where
  -- The test of the address against the host as a range. A `SocketException` is caught.
  unfoldable pub matches_ip : User → Bytes → Result Bool
  matches_ip u host = elim u.ip [
    | none ↦ ok false
    | some ip ↦ if is_empty host then ok false else elim (Cidr.make pton host) [
      | made range ↦ elim (Cidr.match range ip) [ none ↦ fault | some b ↦ ok b ]
      | socket_exception ↦ ok false
      | convert_exception ↦ raised
    ]
  ]

  -- Whether an entry that has not expired holds for the user.
  unfoldable pub applies : User → XLine → Result Bool
  applies u x =
      if not (is_empty (nick_of x.mask)) && not (matches u.nick (nick_of x.mask))
      then ok false
      else if not (is_empty (user_of x.mask)) && not (matches u.ident (user_of x.mask))
      then ok false
      else elim (matches_ip u (host_of x.mask)) [
        | ok true ↦ ok true
        | ok false ↦ ok (matches_host u (host_of x.mask))
        | fault ↦ fault
        | raised ↦ raised
      ]

  -- The loop of `Check` over the entries below index `i`, at the time `now`.
  unfoldable pub check_loop : ℕ → User → ℕ → World → Result (Option ℕ × World)
  check_loop now u zero w = ok (none, w)
  check_loop now u (suc i) w = elim (get_entry i w) [
    | none ↦ fault
    | some p ↦ elim (w.heap p) [
      | none ↦ fault
      | some x ↦ elim (is_expired now x) [
        | true ↦ elim (del p (record w { calls = w.calls ++ on_expire p ∷ [] })) [
          | ok (found, w') ↦ check_loop now u i w'
          | fault ↦ fault
          | raised ↦ raised
        ]
        | false ↦ elim (applies u x) [
          | ok true ↦ ok (some p, record w { calls = w.calls ++ on_match p ∷ [] })
          | ok false ↦ check_loop now u i w
          | fault ↦ fault
          | raised ↦ raised
        ]
      ]
    ]
  ]

  unfoldable pub check : ℕ → User → World → Result (Option ℕ × World)
  check now u w = check_loop now u (length w.lines) w
