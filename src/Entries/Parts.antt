-- ===== src/Entries/Parts.antt =====
-- An entry made of a mask of three parts.
use anope.Base.{
  ℕ, suc, ◌≡◌, refl, sym, ap, ◌∙◌, ◌≢◌, inl, inr, Bool, true, false, not, ◌&&◌, ◌||◌, Option, none,
  some, List, [], ◌∷◌, ◌++◌, arith, Bytes, if◌then◌else◌, ==_self, ==_no, Bool-cases, length, take,
  drop, All,
}
use anope.Text.{is_empty, find, equals_ci, shift, find_last}
use anope.Buffers.{str_is_pure_wildcard, str_is_wildcard}
use anope.Glob.{matches}
use anope.Cidr.{Family}
use anope.Entries.{
  Entry, mask_parts, is_given, kept, split_nick, split_host, User, entry_of, with_host, some_host,
  parts_match, with_parts, range_at, host_range, of_parts, new_entry, entry_matches,
}

-- The mask `nick!user@host`.
abbrev pub whole_mask : Bytes → Bytes → Bytes → Bytes
whole_mask nick user host = (nick ++ b'!' ∷ user) ++ b'@' ∷ host

-- A part of a mask against a text.
unfoldable pub covers : Bytes → Bytes → Bool
covers part text =
    if is_empty part || str_is_pure_wildcard part
    then true
    else if str_is_wildcard part
    then matches text part
    else equals_ci part text

find_here : (c : ℕ) (s rest : Bytes) → All (λ d. d ≢ c) s → find c (s ++ c ∷ rest) ≡ some (length s)
unfolding find shift
find_here c [] rest ok = rw (==_self c) refl
find_here c (d ∷ s) rest (ne, ok) = rw (==_no d c ne, find_here c s rest ok) refl

drop_here : (s : Bytes) (c : ℕ) (rest : Bytes) → drop (suc (length s)) (s ++ c ∷ rest) ≡ rest
drop_here [] c rest = refl
drop_here (d ∷ s) c rest = drop_here s c rest

take_here : (s rest : Bytes) → take (length s) (s ++ rest) ≡ s
take_here [] rest = refl
take_here (d ∷ s) rest = ap (λ t. d ∷ t) (take_here s rest)

find_last-none : (c : ℕ) (s : Bytes) → All (λ d. d ≢ c) s → find_last c s ≡ none
unfolding find_last
find_last-none c [] ok = refl
find_last-none c (d ∷ s) (ne, ok) = rw (find_last-none c s ok, ==_no d c ne) refl

mask_parts_whole :
    (nick user host : Bytes)
    → All (λ c. c ≢ b'!') nick
    → All (λ c. c ≢ b'@') (nick ++ b'!' ∷ user)
    → mask_parts (whole_mask nick user host) ≡ (nick, (user, host))
unfolding mask_parts split_host split_nick
mask_parts_whole nick user host plain_nick plain =
    let front = nick ++ b'!' ∷ user in
    ap (split_host (whole_mask nick user host)) (find_here b'@' front host plain)
    ∙ rw
        (
          take_here front (b'@' ∷ host),
          drop_here front b'@' host,
          find_here b'!' nick user plain_nick,
          take_here nick (b'!' ∷ user),
          drop_here nick b'!' user,
        )
        refl

or_false : (b : Bool) → (b || false) ≡ b
or_false true = refl
or_false false = refl

and_true : (b : Bool) → (b && true) ≡ b
and_true true = refl
and_true false = refl

-- The two tests of a part.
-- The parts that are looked at are those that do not cover everything.
covers_given :
    (part text : Bytes)
    → (if is_given part
        then (if str_is_wildcard part then matches text part else equals_ci part text)
        else true)
      ≡ covers part text
unfolding is_given covers
covers_given part text =
    either (is_empty part) (str_is_pure_wildcard part)
      (if str_is_wildcard part then matches text part else equals_ci part text)
  where
    either : (a b x : Bool) → (if not a && not b then x else true) ≡ (if a || b then true else x)
    either true b x = refl
    either false true x = refl
    either false false x = refl

part_covers :
    (part text : Bytes)
    → ((not (is_given part && not (str_is_wildcard part)) || equals_ci (kept part) text)
        && (not (is_given part && str_is_wildcard part) || matches text (kept part)))
      ≡ covers part text
unfolding kept
part_covers part text = cases (is_given part) (str_is_wildcard part) ∙ covers_given part text
  where
    cases :
        (g w : Bool)
        → ((not (g && not w) || equals_ci (if g then part else []) text)
            && (not (g && w) || matches text (if g then part else [])))
          ≡ (if g then (if w then matches text part else equals_ci part text) else true)
    cases false w = refl
    cases true true = refl
    cases true false = and_true (equals_ci part text)

shuffle : (a b c d e f : Bool) → (a && b && c && d && e && f) ≡ (a && d) && (b && e) && (c && f)
shuffle a b c d e f = ground arith

host_covers :
    (g : Bool) (host text : Bytes)
    → is_given host ≡ g
    → ((not (g && not (str_is_wildcard host)) || equals_ci host text)
        && (not (g && str_is_wildcard host) || matches text host))
      ≡ covers host text
host_covers g host text e =
    cases g (str_is_wildcard host)
    ∙ ap
        (λ b.
          if b
          then (if str_is_wildcard host then matches text host else equals_ci host text)
          else true)
        (sym e)
    ∙ covers_given host text
  where
    cases :
        (g w : Bool)
        → ((not (g && not w) || equals_ci host text) && (not (g && w) || matches text host))
          ≡ (if g then (if w then matches text host else equals_ci host text) else true)
    cases false w = refl
    cases true true = refl
    cases true false = and_true (equals_ci host text)

strip :
    (a b g x d e h y : Bool)
    → (a && (b || false) && (g || (x || false)) && d && (e || false) && (h || (y || false)))
      ≡ (a && d) && (b && e) && ((g || x) && (h || y))
strip a b g x d e h y =
    rw (or_false b, or_false x, or_false e, or_false y) (shuffle a b (g || x) d e (h || y))

module _ (modename : ℕ) (mask nick user host : Bytes) (u : User) where
  abbrev exact : Bytes → Bytes → Bool
  exact part text = not (is_given part && not (str_is_wildcard part)) || equals_ci (kept part) text

  abbrev wild : Bytes → Bytes → Bool
  wild part text = not (is_given part && str_is_wildcard part) || matches text (kept part)

  parts_whole :
      is_given host ≡ true
      → parts_match false (entry_of modename mask nick user true host none) u
        ≡ covers nick u.nick && covers user u.vident && covers host u.displayed_host
  unfolding parts_match entry_of some_host
  parts_whole e =
      strip (exact nick u.nick) (exact user u.vident) (not (not (str_is_wildcard host)))
        (equals_ci host u.displayed_host) (wild nick u.nick) (wild user u.vident)
        (not (str_is_wildcard host)) (matches u.displayed_host host)
      ∙ rw (part_covers nick u.nick, part_covers user u.vident)
          (ap (λ h. covers nick u.nick && covers user u.vident && h)
            (host_covers true host u.displayed_host e))

  parts_whole_free :
      is_given host ≡ false
      → parts_match false (entry_of modename mask nick user false [] none) u
        ≡ covers nick u.nick && covers user u.vident && covers host u.displayed_host
  unfolding parts_match entry_of some_host
  parts_whole_free e =
      strip (exact nick u.nick) (exact user u.vident) true true (wild nick u.nick)
        (wild user u.vident) true true
      ∙ rw (part_covers nick u.nick, part_covers user u.vident)
          (ap (λ h. covers nick u.nick && covers user u.vident && h)
            (host_covers false host u.displayed_host e))

module _ (pton : Family → Bytes → Option (List ℕ)) where
  new_entry_whole :
      (g : Bool) (modename : ℕ) (nick user host : Bytes)
      → is_given host ≡ g
      → All (λ c. c ≢ b'!') nick
      → All (λ c. c ≢ b'@') (nick ++ b'!' ∷ user)
      → All (λ c. c ≢ b'/') host
      → new_entry pton modename (whole_mask nick user host)
        ≡ some (
            entry_of modename (whole_mask nick user host) nick user g (if g then host else []) none)
  unfolding new_entry of_parts host_range with_host range_at
  new_entry_whole true modename nick user host e plain_nick plain no_slash =
      rw (mask_parts_whole nick user host plain_nick plain, e, find_last-none b'/' host no_slash)
        refl
  new_entry_whole false modename nick user host e plain_nick plain no_slash =
      rw (mask_parts_whole nick user host plain_nick plain, e) refl

  -- Of a mask `nick!user@host` without a slash in the host, with no `!` in the nick and no `@` before the
  -- last part, an entry is made, and it matches a user by what is displayed of him exactly if each part
  -- covers his nick, his ident or his host, or if the list mode of the entry says so. A part that is empty
  -- or only stars covers every text, one with wildcards what it matches, and any other the text that is
  -- equal up to case.
  pub new_entry-matches :
      (modename : ℕ) (nick user host : Bytes) (in_list : Entry → User → Bool) (u : User)
      → All (λ c. c ≢ b'!') nick
      → All (λ c. c ≢ b'@') (nick ++ b'!' ∷ user)
      → All (λ c. c ≢ b'/') host
      → (e : Entry) × (new_entry pton modename (whole_mask nick user host) ≡ some e)
        × (entry_matches pton in_list false e u
            ≡ some (
                covers nick u.nick && covers user u.vident && covers host u.displayed_host
                || in_list e u))
  unfolding entry_matches with_parts entry_of
  new_entry-matches modename nick user host in_list u plain_nick plain no_slash =
      let mask = whole_mask nick user host in
      elim (Bool-cases (is_given host)) [
        | inl e ↦
            let entry = entry_of modename mask nick user true host none in
            (
              entry,
              new_entry_whole true modename nick user host e plain_nick plain no_slash,
              ap (λ b. some (b || in_list entry u)) (parts_whole modename mask nick user host u e),
            )
        | inr e ↦
            let entry = entry_of modename mask nick user false [] none in
            (
              entry,
              new_entry_whole false modename nick user host e plain_nick plain no_slash,
              ap (λ b. some (b || in_list entry u))
                  (parts_whole_free modename mask nick user host u e),
            )
      ]
