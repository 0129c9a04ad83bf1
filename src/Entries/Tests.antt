-- ===== src/Entries/Tests.antt =====
-- Masks and users.
use anope.Base.{
  ℕ, ◌≡◌, refl, Bool, true, false, ◌&&◌, ◌||◌, Option, none, some, List, [], ◌∷◌, arith, Bytes,
  codes, if◌then◌else◌,
}
use anope.Text.{
  equals_cs, ascii_fold, c_str, compare_by, is_equal, equals_ci, is_empty, shift, find, find_last,
  contains, has_any,
}
use anope.Cidr as Cidr
use anope.Buffers.{str_is_wildcard, every, str_is_pure_wildcard}
use anope.Cidr.{
  Family, inet, inet6, is_digit, digits_and_dots, digits_from, to_unsigned, family_of, with_address,
  make_len, same_family, same_prefix, same_rest,
}
use anope.Entries.{
  Entry, User, entry_of, new_entry, entry_matches, split_nick, split_host, mask_parts, is_given,
  kept, with_host, shown, ip_in_range, made_in_range, has_ip, some_host, parts_match, with_parts,
  range_at, host_range, of_parts, in_range,
}
use anope.Entries.Parts.{new_entry-matches, whole_mask, covers}

-- An `inet_pton` that knows two texts.
abbrev pton : Family → Bytes → Option (List ℕ)
pton inet ip =
    if equals_cs ip (codes "10.0.0.9")
    then some (10 ∷ 0 ∷ 0 ∷ 9 ∷ [])
    else if equals_cs ip (codes "10.0.0.0")
    then some (10 ∷ 0 ∷ 0 ∷ 0 ∷ [])
    else none
pton inet6 ip = none

abbrev no_list : Entry → User → Bool
no_list e u = false

abbrev bob : User
bob = record {
  nick = codes "Bob";
  ident = codes "rob";
  vident = codes "bo";
  host = codes "h.ex";
  chost = codes "h.ex";
  vhost = [];
  displayed_host = codes "v.ex";
  ip = some (record { family = inet; bytes = 10 ∷ 0 ∷ 0 ∷ 9 ∷ [] }, codes "10.0.0.9");
}

abbrev ranged : Entry
ranged =
    entry_of 1 (codes "*!*@10.0.0.0/16") (codes "*") (codes "*") true (codes "10.0.0.0") (some 16)

range_read : new_entry pton 1 (codes "*!*@10.0.0.0/16") ≡ some ranged
unfolding new_entry of_parts is_given is_empty mask_parts split_host split_nick find shift
    str_is_pure_wildcard every with_host host_range range_at find_last family_of equals_cs
    digits_and_dots is_digit digits_from to_unsigned
range_read = refl

-- Digits and dots that are no number: the exception of `convertTo` leaves the constructor.
no_number : new_entry pton 1 (codes "*!*@10.0.0.0/") ≡ none
unfolding new_entry of_parts is_given is_empty mask_parts split_host split_nick find shift
    str_is_pure_wildcard every with_host host_range range_at find_last family_of equals_cs
    digits_and_dots is_digit digits_from to_unsigned
no_number = refl

by_range : entry_matches pton no_list true ranged bob ≡ some true
unfolding entry_matches with_parts in_range made_in_range ip_in_range shown with_address make_len
    Cidr.match same_family same_prefix same_rest equals_cs parts_match some_host has_ip entry_of
    kept is_given is_empty str_is_pure_wildcard every str_is_wildcard has_any contains equals_ci
    family_of find shift
by_range = refl

not_displayed : entry_matches pton no_list false ranged bob ≡ some false
unfolding entry_matches with_parts in_range made_in_range ip_in_range shown with_address make_len
    Cidr.match same_family same_prefix same_rest equals_cs parts_match some_host has_ip entry_of
    kept is_given is_empty str_is_pure_wildcard every str_is_wildcard has_any contains equals_ci
    family_of find shift
not_displayed = refl

abbrev shown_mask : Entry
shown_mask = entry_of 1 (codes "bob!bo@v.ex") (codes "bob") (codes "bo") true (codes "v.ex") none

shown_matches : entry_matches pton no_list false shown_mask bob ≡ some true
unfolding entry_matches with_parts in_range made_in_range ip_in_range shown with_address make_len
    Cidr.match same_family same_prefix same_rest equals_cs parts_match some_host has_ip entry_of
    kept is_given is_empty str_is_pure_wildcard every str_is_wildcard has_any contains equals_ci
    compare_by is_equal ascii_fold c_str
shown_matches = refl

new_entry-matches_example :
    (e : Entry) × (new_entry pton 1 (whole_mask (codes "bob") (codes "*") (codes "*.ex")) ≡ some e)
    × (entry_matches pton no_list false e bob
        ≡ some (
            covers (codes "bob") (codes "Bob")
              && covers (codes "*") (codes "bo")
              && covers (codes "*.ex") (codes "v.ex")
            || no_list e bob))
new_entry-matches_example =
    new_entry-matches pton 1 (codes "bob") (codes "*") (codes "*.ex") no_list bob
      (omega arith, (omega arith, (omega arith, tt)))
      (omega arith, (omega arith, (omega arith, (omega arith, (omega arith, tt)))))
      (omega arith, (omega arith, (omega arith, (omega arith, tt))))
