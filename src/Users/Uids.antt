-- ===== src/Users/Uids.antt =====
-- src/servers.cpp: `ts6_uid_retrieve`, the unique ids that services give to their own clients. The search
-- goes round once for each id that is in use.
use anope.Base.{
  ℕ, zero, suc, ◌+◌, ◌-◌, ◌*◌, ◌<◌, ◌≡◌, refl, sym, ap, ◌∙◌, inl, inr, Bool, true, false, not, ◌&&◌,
  ◌||◌, Option, none, some, [], ◌∷◌, ◌++◌, arith, Bytes, leb, ◌==◌, if◌then◌else◌, both, Bool-cases,
  length,
}
use anope.Users.{World, find_user}
use native.Mathlib.Nat.{zero-mul}

-- `nextID`.
unfoldable pub next_id : ℕ → ℕ
next_id c = if c == b'Z' then b'0' else if not (c == b'9') then c + 1 else b'A'

-- A character goes on where the one behind it came round to `A`; did it come round itself?
unfoldable pub bump_front : ℕ → Bytes × Bool → Bytes × Bool
bump_front c (s, true) = (next_id c ∷ s, next_id c == b'A')
bump_front c (s, false) = (c ∷ s, false)

unfoldable pub bump : Bytes → Bytes × Bool
bump [] = ([], true)
bump (c ∷ s) = bump_front c (bump s)

unfoldable pub next_uid : Bytes → Bytes
next_uid s = (bump s).0

unfoldable pub is_used : Option ℕ → Bool
is_used none = false
is_used (some p) = true

-- The loop over `current_uid`, which keeps what it ends with; the id is the numeric and it. `none` where
-- the rounds are used up.
unfoldable pub ts6_uid_retrieve : ℕ → Bytes → World → Bytes → Option Bytes
ts6_uid_retrieve zero numeric w current_uid = none
ts6_uid_retrieve (suc rounds) numeric w current_uid =
    let rest = ts6_uid_retrieve rounds numeric w (next_uid current_uid) in
    if is_used (find_user true (numeric ++ current_uid) w) then rest else some current_uid

-- The place of a character in the order of the ids, and of an id.
unfoldable pub rank : ℕ → ℕ
rank c = if leb b'A' c then c - b'A' else c - 22

unfoldable pub is_id : ℕ → Bool
is_id c = leb b'A' c && leb c b'Z' || leb b'0' c && leb c b'9'

unfoldable pub all_id : Bytes → Bool
all_id [] = true
all_id (c ∷ s) = is_id c && all_id s

-- The number of the ids of a length.
unfoldable pub ids : ℕ → ℕ
ids zero = 1
ids (suc n) = 36 * ids n

unfoldable pub value : Bytes → ℕ
value [] = 0
value (c ∷ s) = rank c * ids (length s) + value s

carried : Bool → ℕ → ℕ
carried carry n = if carry then n else 0

next_rank : (c : ℕ) → is_id c ≡ true → (next_id c == b'A') ≡ false → rank (next_id c) ≡ rank c + 1
unfolding is_id next_id rank
next_rank c i e = ground (arith, i, e)

last_rank :
    (c : ℕ) → is_id c ≡ true → (next_id c == b'A') ≡ true → (rank c ≡ 35) × (rank (next_id c) ≡ 0)
unfolding is_id next_id rank
last_rank c i e = ground (arith, i, e)

next_is_id : (c : ℕ) → is_id c ≡ true → is_id (next_id c) ≡ true
unfolding is_id next_id
next_is_id c i = ground (arith, i)

mul_one_more : (a b : ℕ) → (a + 1) * b ≡ a * b + b
mul_one_more a b = omega arith

length-bump_front : (c : ℕ) (p : Bytes × Bool) → length (bump_front c p).0 ≡ suc (length p.0)
unfolding bump_front
length-bump_front c (s, true) = refl
length-bump_front c (s, false) = refl

pub length-bump : (s : Bytes) → length (bump s).0 ≡ length s
unfolding bump
length-bump [] = refl
length-bump (c ∷ s) = length-bump_front c (bump s) ∙ ap suc (length-bump s)

bump_front-all_id :
    (c : ℕ) (p : Bytes × Bool)
    → is_id c ≡ true
    → all_id p.0 ≡ true
    → all_id (bump_front c p).0 ≡ true
unfolding bump_front all_id
bump_front-all_id c (s, true) i all = ground (arith, next_is_id c i, all)
bump_front-all_id c (s, false) i all = ground (arith, i, all)

pub bump-all_id : (s : Bytes) → all_id s ≡ true → all_id (bump s).0 ≡ true
unfolding bump all_id
bump-all_id [] i = refl
bump-all_id (c ∷ s) i = bump_front-all_id c (bump s) (both i).0 (bump-all_id s (both i).1)

value_nothing : value [] + carried true (ids 0) ≡ value [] + 1
unfolding value carried ids
value_nothing = refl

-- The step of the value, with the value of the rest.
bump_step :
    (c : ℕ) (s s' : Bytes) (carry : Bool)
    → is_id c ≡ true
    → length s' ≡ length s
    → value s' + carried carry (ids (length s)) ≡ value s + 1
    → value (bump_front c (s', carry)).0
        + carried (bump_front c (s', carry)).1 (ids (suc (length s)))
      ≡ value (c ∷ s) + 1
unfolding value carried ids bump_front
bump_step c s s' false i len ih =
    let same : rank c * ids (length s') ≡ rank c * ids (length s) = ap (λ n. rank c * ids n) len in
    omega (arith, ih, same)
bump_step c s s' true i len ih = elim (Bool-cases (next_id c == b'A')) [
  | inl e ↦
      let (r, r') = last_rank c i e in
      let front : rank (next_id c) * ids (length s') ≡ 0 =
        ap (λ n. n * ids (length s')) r' ∙ zero-mul (ids (length s')) in
      let old : rank c * ids (length s) ≡ 35 * ids (length s) = ap (λ n. n * ids (length s)) r in
      rw e (omega (arith, ih, front, old))
  | inr e ↦
      let front : rank (next_id c) * ids (length s') ≡ rank c * ids (length s) + ids (length s) =
        ap (λ n. n * ids (length s')) (next_rank c i e)
        ∙ (ap (λ n. (rank c + 1) * ids n) len ∙ mul_one_more (rank c) (ids (length s))) in
      rw e (omega (arith, ih, front))
]

-- The value goes up by one, or round where there is a carry.
value-bump :
    (s : Bytes)
    → all_id s ≡ true
    → value (bump s).0 + carried (bump s).1 (ids (length s)) ≡ value s + 1
unfolding bump all_id
value-bump [] i = value_nothing
value-bump (c ∷ s) i =
    bump_step c s (bump s).0 (bump s).1 (both i).0 (length-bump s) (value-bump s (both i).1)

-- Below the last id, the next one has the next value.
pub next_value :
    (s : Bytes) → all_id s ≡ true → value s + 1 < ids (length s) → value (next_uid s) ≡ value s + 1
unfolding next_uid carried
next_value s i lt = elim (Bool-cases (bump s).1) [
  | inl e ↦ absurd (omega (arith, lt, at_carry e))
  | inr e ↦ omega (arith, at_carry e)
]
  where
    at_carry :
        {b : Bool} → (bump s).1 ≡ b → value (bump s).0 + carried b (ids (length s)) ≡ value s + 1
    at_carry e = ap (λ b. value (bump s).0 + carried b (ids (length s))) (sym e) ∙ value-bump s i
