-- ===== src/Entries.antt =====
-- src/channels.cpp, class `Entry`: a mask of a list mode or of the akick list, and the test of a user
-- against it. `inet_pton` is a parameter, as in Cidr. The exception that `convertTo` throws is `none`.
pub mod Full
pub mod Parts
mod Tests
use anope.Base.{
  ℕ, suc, ◌%◌, Bool, true, false, not, ◌&&◌, ◌||◌, Option, none, some, List, [], Bytes,
  if◌then◌else◌, drop,
}
use anope.Text.{is_empty, equals_ci, equals_cs, find, find_last, substr}
use anope.Buffers.{str_is_wildcard, str_is_pure_wildcard}
use anope.Glob.{matches}
use anope.Cidr.{
  Family, Address, Range, Made, made, socket_exception, convert_exception, digits_and_dots,
  to_unsigned, family_of, make_len,
}
use anope.Cidr as Cidr

-- The flags of `EntryType`, one field each.
pub record Entry : Type 0 where
  pub modename : ℕ
  pub cidr_len : ℕ
  pub mask : Bytes
  pub nick : Bytes
  pub user : Bytes
  pub host : Bytes
  pub cidr : Bool
  pub nick_wild : Bool
  pub nick_exact : Bool
  pub user_wild : Bool
  pub user_exact : Bool
  pub host_wild : Bool
  pub host_exact : Bool

-- What the test reads of a user. `ip` is the address with its text, where it is known.
pub record User : Type 0 where
  pub nick : Bytes
  pub ident : Bytes
  pub vident : Bytes
  pub host : Bytes
  pub chost : Bytes
  pub vhost : Bytes
  pub displayed_host : Bytes
  pub ip : Option (Address × Bytes)

-- What stands before the host, with the position of the `!`.
unfoldable pub split_nick : Bytes → Bytes → Option ℕ → Bytes × (Bytes × Bytes)
split_nick nickident realhost none = ([], (nickident, realhost))
split_nick nickident realhost (some ex) =
    (substr 0 ex nickident, (drop (suc ex) nickident, realhost))

-- The mask, with the position of the `@`.
unfoldable pub split_host : Bytes → Option ℕ → Bytes × (Bytes × Bytes)
split_host mask none = ([], ([], mask))
split_host mask (some at) =
    split_nick (substr 0 at mask) (drop (suc at) mask) (find b'!' (substr 0 at mask))

-- Nick, user and host of a mask.
unfoldable pub mask_parts : Bytes → Bytes × (Bytes × Bytes)
mask_parts mask = split_host mask (find b'@' mask)

-- A part that is not there, or matches everything, is not looked at.
unfoldable pub is_given : Bytes → Bool
is_given part = not (is_empty part) && not (str_is_pure_wildcard part)

unfoldable pub kept : Bytes → Bytes
kept part = if is_given part then part else []

-- The entry of the parts, with the host read.
unfoldable pub entry_of : ℕ → Bytes → Bytes → Bytes → Bool → Bytes → Option ℕ → Entry
entry_of modename mask nick user given host len = record {
  modename = modename;
  cidr_len = elim len [ none ↦ 0 | some n ↦ n ];
  mask = mask;
  nick = kept nick;
  user = kept user;
  host = if given then host else [];
  cidr = given && elim len [ none ↦ false | some n ↦ true ];
  nick_wild = is_given nick && str_is_wildcard nick;
  nick_exact = is_given nick && not (str_is_wildcard nick);
  user_wild = is_given user && str_is_wildcard user;
  user_exact = is_given user && not (str_is_wildcard user);
  host_wild = given && elim len [ none ↦ str_is_wildcard host | some n ↦ false ];
  host_exact = given && elim len [ none ↦ not (str_is_wildcard host) | some n ↦ false ];
}

-- The entry with a host that was read.
unfoldable pub with_host : ℕ → Bytes → Bytes → Bytes → Option (Bytes × Option ℕ) → Option Entry
with_host modename mask nick user none = none
with_host modename mask nick user (some (host, len)) =
    some (entry_of modename mask nick user true host len)

-- The address is in the range: is it looked at in full, or displayed?
unfoldable pub shown : Bool → Bytes → Bytes → Option Bool → Option Bool
shown full text displayed none = none
shown full text displayed (some false) = some false
shown full text displayed (some true) = some (full || equals_cs text displayed)

unfoldable pub ip_in_range : Bool → Range → Bytes → Option (Address × Bytes) → Option Bool
ip_in_range full range displayed none = some false
ip_in_range full range displayed (some (ip, text)) = shown full text displayed (Cidr.match range ip)

unfoldable pub made_in_range : Bool → Made → User → Option Bool
made_in_range full socket_exception u = some false
made_in_range full convert_exception u = some false
made_in_range full (made range) u = ip_in_range full range u.displayed_host u.ip

unfoldable pub has_ip : (Bytes → Bool) → Option (Address × Bytes) → Bool
has_ip test none = false
has_ip test (some (ip, text)) = test text

-- Does one of the hosts pass the test?
unfoldable pub some_host : (Bytes → Bool) → Bool → User → Bool
some_host test full u =
    test u.displayed_host
    || full && (test u.host || test u.chost || test u.vhost || has_ip test u.ip)

-- The tests behind that of the range.
unfoldable pub parts_match : Bool → Entry → User → Bool
parts_match full e u =
    (not e.nick_exact || equals_ci e.nick u.nick)
    && (not e.user_exact || equals_ci e.user u.vident || full && equals_ci e.user u.ident)
    && (not e.host_exact || some_host (λ h. equals_ci e.host h) full u)
    && (not e.nick_wild || matches u.nick e.nick)
    && (not e.user_wild || matches u.vident e.user || full && matches u.ident e.user)
    && (not e.host_wild || some_host (λ h. matches h e.host) full u)

unfoldable pub with_parts : Bool → Bool → Option Bool → Option Bool
with_parts parts listed none = none
with_parts parts listed (some ret) = some (ret && parts || listed)

module _ (pton : Family → Bytes → Option (List ℕ)) where
  -- The host with the position of its last `/`: the host, and the length of the range where it is one.
  unfoldable pub range_at : Bytes → Option ℕ → Option (Bytes × Option ℕ)
  range_at host none = some (host, none)
  range_at host (some sl) = elim (pton (family_of (substr 0 sl host)) (substr 0 sl host)) [
    | none ↦ some (host, none)
    | some b ↦
        if digits_and_dots (drop (suc sl) host)
        then elim (to_unsigned (drop (suc sl) host)) [
          | none ↦ none
          | some n ↦ some (substr 0 sl host, some (n % 256))
        ]
        else some (host, none)
  ]

  unfoldable pub host_range : Bytes → Option (Bytes × Option ℕ)
  host_range host = range_at host (find_last b'/' host)

  -- The entry of the parts.
  unfoldable pub of_parts : ℕ → Bytes → Bytes × (Bytes × Bytes) → Option Entry
  of_parts modename mask (nick, (user, realhost)) =
      if is_given realhost
      then with_host modename mask nick user (host_range realhost)
      else some (entry_of modename mask nick user false [] none)

  -- The constructor.
  unfoldable pub new_entry : ℕ → Bytes → Option Entry
  new_entry modename mask = of_parts modename mask (mask_parts mask)

  -- The test of a range; `none` where it reads behind the address.
  unfoldable pub in_range : Bool → Entry → User → Option Bool
  in_range full e u = made_in_range full (make_len pton e.host e.cidr_len) u

  -- `Entry::Matches`; `in_list` is the answer of the list mode of the entry, where it is of one.
  unfoldable pub entry_matches : (Entry → User → Bool) → Bool → Entry → User → Option Bool
  entry_matches in_list full e u =
      with_parts (parts_match full e u) (in_list e u)
        (if e.cidr then in_range full e u else some true)
