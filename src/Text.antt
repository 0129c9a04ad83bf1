-- ===== src/Text.antt =====
-- The operations of `Anope::string` (include/anope.h) that the modelled code calls, and the case
-- maps of include/hashcomp.h with the character traits of src/hashcomp.cpp.
pub mod Order
mod Tests
use anope.Base.{
  ℕ, suc, ◌+◌, Bool, true, false, ◌&&◌, ◌||◌, Option, none, some, [], ◌∷◌, Bytes, ltb, leb, ◌==◌,
  if◌then◌else◌, set, take, drop,
}

-- `ascii_case_insensitive_map[c]`.
unfoldable pub ascii_fold : ℕ → ℕ
ascii_fold c = if leb 65 c && leb c 90 then c + 32 else c

-- `rfc_case_insensitive_map[c]`: also `[ \ ]` become `{ | }`.
unfoldable pub rfc_fold : ℕ → ℕ
rfc_fold c = if leb 65 c && leb c 93 then c + 32 else c

-- `c_str()`, read as a C string: it ends before the first 0.
unfoldable pub c_str : Bytes → Bytes
c_str [] = []
c_str (c ∷ s) = if c == 0 then [] else c ∷ c_str s

pub data Sign : Type 0 where
  less equal greater : Sign

-- `basic_string::compare` over `char_traits::compare`: the common length first, then the lengths.
unfoldable pub compare_by : (ℕ → ℕ) → Bytes → Bytes → Sign
compare_by fold [] [] = equal
compare_by fold [] (d ∷ t) = less
compare_by fold (c ∷ s) [] = greater
compare_by fold (c ∷ s) (d ∷ t) =
    let rest = compare_by fold s t in
    if ltb (fold d) (fold c) then greater else if ltb (fold c) (fold d) then less else rest

unfoldable pub is_equal : Sign → Bool
is_equal equal = true
is_equal less = false
is_equal greater = false

unfoldable pub is_less : Sign → Bool
is_less less = true
is_less equal = false
is_less greater = false

unfoldable pub equals_ci : Bytes → Bytes → Bool
equals_ci s t = is_equal (compare_by ascii_fold (c_str s) (c_str t))

-- `ci::less` and `irc::less`, the orders of the maps keyed by text.
unfoldable pub ci_less : Bytes → Bytes → Bool
ci_less s t = is_less (compare_by ascii_fold (c_str s) (c_str t))

unfoldable pub irc_less : Bytes → Bytes → Bool
irc_less s t = is_less (compare_by rfc_fold (c_str s) (c_str t))

-- `equals_cs`, and `==` of two strings.
unfoldable pub equals_cs : Bytes → Bytes → Bool
equals_cs [] [] = true
equals_cs [] (d ∷ t) = false
equals_cs (c ∷ s) [] = false
equals_cs (c ∷ s) (d ∷ t) = c == d && equals_cs s t

unfoldable pub is_empty : Bytes → Bool
is_empty [] = true
is_empty (c ∷ s) = false

unfoldable pub shift : Option ℕ → Option ℕ
shift none = none
shift (some i) = some (suc i)

-- `find(c)`: the first position, `none` for `npos`.
unfoldable pub find : ℕ → Bytes → Option ℕ
find c [] = none
find c (x ∷ s) = if x == c then some 0 else shift (find c s)

-- `find_last_of(c)`.
unfoldable pub find_last : ℕ → Bytes → Option ℕ
find_last c [] = none
find_last c (x ∷ s) = elim (find_last c s) [
  | some i ↦ some (suc i)
  | none ↦ if x == c then some 0 else none
]

unfoldable pub contains : ℕ → Bytes → Bool
contains c [] = false
contains c (x ∷ s) = x == c || contains c s

-- `find_first_of(set) != npos`.
unfoldable pub has_any : Bytes → Bytes → Bool
has_any set [] = false
has_any set (x ∷ s) = contains x set || has_any set s

-- `substr(pos, n)` and `substr(pos)`, for positions inside the text.
abbrev pub substr : ℕ → ℕ → Bytes → Bytes
substr pos n s = take n (drop pos s)
