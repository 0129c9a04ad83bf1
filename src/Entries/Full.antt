-- ===== src/Entries/Full.antt =====
-- A full test of a user looks at more than the displayed host.
use anope.Base.{
  ℕ, ◌≡◌, refl, ◌⊎◌, inl, inr, Bool, true, false, not, ◌&&◌, ◌||◌, Option, none, some, List, Bytes,
  if◌then◌else◌,
}
use anope.Cidr.{Family, Address, Made, made, socket_exception, convert_exception, Range, make_len}
use anope.Cidr as Cidr
use anope.Text.{equals_ci}
use anope.Glob.{matches}
use anope.Entries.{
  Entry, User, in_range, some_host, parts_match, shown, ip_in_range, made_in_range, has_ip,
  with_parts, entry_matches,
}

widen : (a b : Bool) → (a || false && b) ≡ true → (a || true && b) ≡ true
widen true b h = refl
widen false b h = absurd (cc)

both :
    (a b : Bool) {a' b' : Bool}
    → (a ≡ true → a' ≡ true)
    → (b ≡ true → b' ≡ true)
    → (a && b) ≡ true
    → (a' && b') ≡ true
both true true f g h = rw (f refl, g refl) refl
both true false f g h = absurd (cc)
both false b f g h = absurd (cc)

unless : (a b b' : Bool) → (b ≡ true → b' ≡ true) → (not a || b) ≡ true → (not a || b') ≡ true
unless false b b' f h = refl
unless true b b' f h = f h

all_six :
    (a b b' c c' d e e' f f' : Bool)
    → (b ≡ true → b' ≡ true)
    → (c ≡ true → c' ≡ true)
    → (e ≡ true → e' ≡ true)
    → (f ≡ true → f' ≡ true)
    → (a && b && c && d && e && f) ≡ true
    → (a && b' && c' && d && e' && f') ≡ true
all_six a b b' c c' d e e' f f' hb hc he hf =
    both (a && b && c && d && e) f
      (both (a && b && c && d) e
        (both (a && b && c) d (both (a && b) c (both a b (λ x. x) hb) hc) (λ x. x)) he)
      hf

-- What holds of the displayed names holds of more.
some_host_full :
    (test : Bytes → Bool) (u : User) → some_host test false u ≡ true → some_host test true u ≡ true
unfolding some_host
some_host_full test u h =
    widen (test u.displayed_host) (test u.host || test u.chost || test u.vhost || has_ip test u.ip)
      h

parts_match_full :
    (e : Entry) (u : User) → parts_match false e u ≡ true → parts_match true e u ≡ true
unfolding parts_match
parts_match_full e u =
    let near = equals_ci e.user u.vident in
    let far = equals_ci e.user u.ident in
    let near_wild = matches u.vident e.user in
    let far_wild = matches u.ident e.user in
    let same_host : Bytes → Bool = λ h. equals_ci e.host h in
    let fits_host : Bytes → Bool = λ h. matches h e.host in
    all_six (not e.nick_exact || equals_ci e.nick u.nick) (not e.user_exact || near || false && far)
      (not e.user_exact || near || true && far) (not e.host_exact || some_host same_host false u)
      (not e.host_exact || some_host same_host true u) (not e.nick_wild || matches u.nick e.nick)
      (not e.user_wild || near_wild || false && far_wild)
      (not e.user_wild || near_wild || true && far_wild)
      (not e.host_wild || some_host fits_host false u)
      (not e.host_wild || some_host fits_host true u) (widen (not e.user_exact || near) far)
      (unless e.host_exact (some_host same_host false u) (some_host same_host true u)
        (some_host_full same_host u))
      (widen (not e.user_wild || near_wild) far_wild)
      (unless e.host_wild (some_host fits_host false u) (some_host fits_host true u)
        (some_host_full fits_host u))

shown_full :
    (text displayed : Bytes) (o : Option Bool)
    → shown false text displayed o ≡ some true
    → shown true text displayed o ≡ some true
unfolding shown
shown_full text displayed none h = h
shown_full text displayed (some false) h = h
shown_full text displayed (some true) h = refl

shown_kept :
    (text displayed : Bytes) (o : Option Bool)
    → shown false text displayed o ≡ some false
    → (shown true text displayed o ≡ some false) ⊎ (shown true text displayed o ≡ some true)
unfolding shown
shown_kept text displayed none h = inl h
shown_kept text displayed (some false) h = inl h
shown_kept text displayed (some true) h = inr refl

ip_full :
    (range : Range) (displayed : Bytes) (ip : Option (Address × Bytes))
    → ip_in_range false range displayed ip ≡ some true
    → ip_in_range true range displayed ip ≡ some true
unfolding ip_in_range
ip_full range displayed none h = h
ip_full range displayed (some (ip, text)) h = shown_full text displayed (Cidr.match range ip) h

ip_kept :
    (range : Range) (displayed : Bytes) (ip : Option (Address × Bytes))
    → ip_in_range false range displayed ip ≡ some false
    → (ip_in_range true range displayed ip ≡ some false)
      ⊎ (ip_in_range true range displayed ip ≡ some true)
unfolding ip_in_range
ip_kept range displayed none h = inl h
ip_kept range displayed (some (ip, text)) h = shown_kept text displayed (Cidr.match range ip) h

made_in_range_full :
    (m : Made) (u : User) → made_in_range false m u ≡ some true → made_in_range true m u ≡ some true
unfolding made_in_range
made_in_range_full socket_exception u h = h
made_in_range_full convert_exception u h = h
made_in_range_full (made range) u h = ip_full range u.displayed_host u.ip h

made_in_range_kept :
    (m : Made) (u : User)
    → made_in_range false m u ≡ some false
    → (made_in_range true m u ≡ some false) ⊎ (made_in_range true m u ≡ some true)
unfolding made_in_range
made_in_range_kept socket_exception u h = inl h
made_in_range_kept convert_exception u h = inl h
made_in_range_kept (made range) u h = ip_kept range u.displayed_host u.ip h

or_true : (b : Bool) → some (b || true) ≡ some true
or_true true = refl
or_true false = refl

with_parts_full :
    (parts parts' listed : Bool) (o o' : Option Bool)
    → (parts ≡ true → parts' ≡ true)
    → (o ≡ some true → o' ≡ some true)
    → (o ≡ some false → (o' ≡ some false) ⊎ (o' ≡ some true))
    → with_parts parts listed o ≡ some true
    → with_parts parts' listed o' ≡ some true
unfolding with_parts
with_parts_full parts parts' listed none o' f g k h = absurd (cc)
with_parts_full true parts' listed (some true) o' f g k h = rw (g refl, f refl) refl
with_parts_full false parts' true (some true) o' f g k h = rw (g refl) (or_true parts')
with_parts_full false parts' false (some true) o' f g k h = absurd (cc)
with_parts_full parts parts' true (some false) o' f g k h = elim (k refl) [
  | inl e ↦ rw e refl
  | inr e ↦ rw e (or_true parts')
]
with_parts_full parts parts' false (some false) o' f g k h = absurd (cc)

module _ (pton : Family → Bytes → Option (List ℕ)) where
  of_cidr_full :
      (b : Bool) (e : Entry) (u : User)
      → (if b then in_range pton false e u else some true) ≡ some true
      → (if b then in_range pton true e u else some true) ≡ some true
  unfolding in_range
  of_cidr_full true e u h = made_in_range_full (make_len pton e.host e.cidr_len) u h
  of_cidr_full false e u h = h

  of_cidr_kept :
      (b : Bool) (e : Entry) (u : User)
      → (if b then in_range pton false e u else some true) ≡ some false
      → ((if b then in_range pton true e u else some true) ≡ some false)
        ⊎ ((if b then in_range pton true e u else some true) ≡ some true)
  unfolding in_range
  of_cidr_kept true e u h = made_in_range_kept (make_len pton e.host e.cidr_len) u h
  of_cidr_kept false e u h = inl h

  -- An entry that matches a user by what is displayed of him matches him in full too, whatever the list
  -- mode of the entry answers.
  pub entry_matches_full :
      (in_list : Entry → User → Bool) (e : Entry) (u : User)
      → entry_matches pton in_list false e u ≡ some true
      → entry_matches pton in_list true e u ≡ some true
  unfolding entry_matches
  entry_matches_full in_list e u =
      with_parts_full (parts_match false e u) (parts_match true e u) (in_list e u)
        (if e.cidr then in_range pton false e u else some true)
        (if e.cidr then in_range pton true e u else some true) (parts_match_full e u)
        (of_cidr_full e.cidr e u) (of_cidr_kept e.cidr e u)
