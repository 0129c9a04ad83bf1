-- ===== src/Users/Fresh.antt =====
-- The ids that `ts6_uid_retrieve` gives are not in use.
use anope.Base.{
  ℕ, zero, suc, ◌+◌, ◌≤◌, ◌<◌, ◌≡◌, refl, sym, ap, ◌∙◌, ◌⊎◌, inl, inr, Bool, true, false, ◌&&◌,
  ◌||◌, Option, none, some, List, [], ◌∷◌, ◌++◌, arith, Bytes, leb, if◌then◌else◌, both, Bool-cases,
  length, drop, ℕ_discrete,
}
use anope.Text.{equals_cs}
use anope.Text.Order.{equals_cs_iff}
use anope.XLines.{is_in}
use anope.Users.{User, World, find_user, first_digit}
use anope.Users.Reached.{Reached, reached-find_user, reached-IsValid}
use anope.Users.Named.{has_nick, has_uid, answers_to}
use anope.Users.Uids.{
  next_uid, is_used, ts6_uid_retrieve, all_id, ids, value, length-bump, bump-all_id, next_value,
}

unfoldable has_text : Bytes → List Bytes → Bool
has_text s [] = false
has_text s (t ∷ used) = equals_cs s t || has_text s used

-- The texts of at least a value.
unfoldable count_from : ℕ → List Bytes → ℕ
count_from v [] = 0
count_from v (t ∷ used) = let rest = count_from v used in if leb v (value t) then suc rest else rest

count_from-length : (v : ℕ) (used : List Bytes) → count_from v used ≤ length used
unfolding count_from
count_from-length v [] = omega arith
count_from-length v (t ∷ used) = ground (arith, count_from-length v used)

count_from_mono : (v : ℕ) (used : List Bytes) → count_from (v + 1) used ≤ count_from v used
unfolding count_from
count_from_mono v [] = omega arith
count_from_mono v (t ∷ used) = ground (arith, count_from_mono v used)

count_from_less :
    (s : Bytes) (used : List Bytes)
    → has_text s used ≡ true
    → count_from (value s + 1) used < count_from (value s) used
unfolding count_from has_text
count_from_less s [] h = absurd (cc)
count_from_less s (t ∷ used) h = elim (Bool-cases (equals_cs s t)) [
  | inl e ↦
      let same : value s ≡ value t = ap value ((equals_cs_iff s t).0 e) in
      ground (arith, same, count_from_mono (value s) used)
  | inr e ↦ ground (arith, h, e, count_from_less s used)
]

-- An id that is not in use, and of the characters that ids have.
pub record IsFresh (numeric : Bytes) (w : World) (n : ℕ) (uid : Bytes) : Type 0 where
  pub unused : find_user true (numeric ++ uid) w ≡ none
  pub characters : all_id uid ≡ true
  pub size : length uid ≡ n

is_used-cases : (o : Option ℕ) → ((is_used o ≡ false) × (o ≡ none)) ⊎ (is_used o ≡ true)
unfolding is_used
is_used-cases none = inl (refl, refl)
is_used-cases (some p) = inr refl

module _ (numeric : Bytes) (w : World) (used : List Bytes)
    (listed : (s : Bytes)
      → is_used (find_user true (numeric ++ s) w) ≡ true
      → has_text s used ≡ true) where
  retrieve_lem :
      (rounds : ℕ) (cur : Bytes)
      → all_id cur ≡ true
      → count_from (value cur) used < rounds
      → value cur + count_from (value cur) used < ids (length cur)
      → (uid : Bytes) × (ts6_uid_retrieve rounds numeric w cur ≡ some uid)
        × IsFresh numeric w (length cur) uid
  unfolding ts6_uid_retrieve next_uid
  retrieve_lem zero cur all enough room = absurd (omega arith)
  retrieve_lem (suc rounds) cur all enough room =
      elim (is_used-cases (find_user true (numeric ++ cur) w)) [
        | inl (e, gap) ↦ (cur, rw e refl, record { unused = gap; characters = all; size = refl })
        | inr e ↦
            let less = count_from_less cur used (listed cur e) in
            let up : value (next_uid cur) ≡ value cur + 1 =
              next_value cur all (omega (arith, less, room)) in
            let same = ap (λ v. count_from v used) up in
            let size = length-bump cur in
            let (uid, run, f) =
              retrieve_lem rounds (next_uid cur) (bump-all_id cur all)
                (omega (arith, same, less, enough))
                (omega (arith, same, less, room, up, ap ids size)) in
            (
              uid,
              rw e run,
              record { unused = f.unused; characters = f.characters; size = f.size ∙ size },
            )
      ]

-- What stands behind the numeric in the id of a user.
suffix : Bytes → Option User → Bytes
suffix numeric none = []
suffix numeric (some u) = drop (length numeric) u.uid

suffixes : Bytes → (ℕ → Option User) → List ℕ → List Bytes
suffixes numeric heap [] = []
suffixes numeric heap (p ∷ ps) = suffix numeric (heap p) ∷ suffixes numeric heap ps

length-suffixes :
    (numeric : Bytes) (heap : ℕ → Option User) (ps : List ℕ)
    → length (suffixes numeric heap ps) ≡ length ps
unfolding suffixes
length-suffixes numeric heap [] = refl
length-suffixes numeric heap (p ∷ ps) = ap suc (length-suffixes numeric heap ps)

drop-append : (front back : Bytes) → drop (length front) (front ++ back) ≡ back
drop-append [] back = refl
drop-append (c ∷ front) back = drop-append front back

has_suffix :
    (numeric s : Bytes) (heap : ℕ → Option User) (p : ℕ) (ps : List ℕ)
    → suffix numeric (heap p) ≡ s
    → is_in p ps ≡ true
    → has_text s (suffixes numeric heap ps) ≡ true
unfolding suffixes has_text is_in
has_suffix numeric s heap p [] e h = absurd (cc)
has_suffix numeric s heap p (q ∷ ps) e h = elim (ℕ_discrete q p) [
  | yes same ↦
      let here : equals_cs s (suffix numeric (heap q)) ≡ true =
        (equals_cs_iff s (suffix numeric (heap q))).1
          (sym e ∙ ap (λ r. suffix numeric (heap r)) (sym same)) in
      rw here refl
  | no ne ↦
      let rest = has_suffix numeric s heap p ps e (ground (arith, h, ne)) in ground (arith, rest)
]

front_digit : (numeric s : Bytes) → first_digit numeric ≡ true → first_digit (numeric ++ s) ≡ true
unfolding first_digit
front_digit [] s e = absurd (cc)
front_digit (c ∷ numeric) s e = e

used_some : (o : Option ℕ) → is_used o ≡ true → (p : ℕ) × (o ≡ some p)
unfolding is_used
used_some none e = absurd (cc)
used_some (some p) e = (p, refl)

reached-listed :
    {ps : List ℕ} {w : World} (numeric s : Bytes)
    → Reached ps w
    → first_digit numeric ≡ true
    → is_used (find_user true (numeric ++ s) w) ≡ true
    → has_text s (suffixes numeric w.heap ps) ≡ true
unfolding answers_to has_uid suffix
reached-listed {ps} {w} numeric s r digit e =
    let (p, found) = used_some (find_user true (numeric ++ s) w) e in
    let (u, alive, named) = (reached-find_user true (numeric ++ s) p r).0.0 found in
    let meant : has_uid (numeric ++ s) u ≡ true =
      sym (
        ap (λ b. if b && true then has_uid (numeric ++ s) u else has_nick (numeric ++ s) u)
          (front_digit numeric s digit))
      ∙ named in
    let same : numeric ++ s ≡ u.uid = (equals_cs_iff (numeric ++ s) u.uid).0 (both meant).1 in
    has_suffix numeric s w.heap p ps
      (ap (suffix numeric) alive ∙ (ap (drop (length numeric)) (sym same) ∙ drop-append numeric s))
      ((reached-IsValid r).listed p u alive)

-- Whoever came, changed the nick and went before: `ts6_uid_retrieve` comes to an end with an id that no user
-- has, of the length of the one that it starts with and of the characters of ids, within one round more
-- than there are users. The numeric begins with a digit, and behind the id that it starts with there
-- are more ids than users.
pub retrieve-IsFresh :
    {ps : List ℕ} {w : World} (rounds : ℕ) (numeric current_uid : Bytes)
    → Reached ps w
    → first_digit numeric ≡ true
    → all_id current_uid ≡ true
    → length ps < rounds
    → value current_uid + length ps < ids (length current_uid)
    → (uid : Bytes) × (ts6_uid_retrieve rounds numeric w current_uid ≡ some uid)
      × IsFresh numeric w (length current_uid) uid
retrieve-IsFresh {ps} {w} rounds numeric current_uid r digit all enough room =
    let used = suffixes numeric w.heap ps in
    let bound = count_from-length (value current_uid) used in
    let size = length-suffixes numeric w.heap ps in
    retrieve_lem numeric w used (λ s. reached-listed numeric s r digit) rounds current_uid all
      (omega (arith, bound, size, enough)) (omega (arith, bound, size, room))
