-- ===== src/Glob.antt =====
-- src/misc.cpp, `Anope::Match`: glob matching of masks with `*` and `?`.
-- A position in a text is written as the suffix that begins there: `s` is `str + s`, `m` is
-- `mask + m`. The character behind the end of a mask is 0, as it is for `std::string`.
pub mod Spec
pub mod Sound
pub mod Total
pub mod Literal
pub mod Complete
pub mod Limits
mod Tests
use anope.Base.{
  ℕ, zero, suc, ◌+◌, ◌*◌, Bool, true, false, ◌&&◌, ◌||◌, Option, none, some, [], ◌∷◌, Bytes, leb,
  ◌==◌, if◌then◌else◌, length, drop,
}

abbrev pub star : ℕ
star = b'*'

-- `tolower` of the C locale.
unfoldable pub lower : ℕ → ℕ
lower c = if leb b'A' c && leb c b'Z' then c + 32 else c

-- Whether one character of the mask, no star, takes one of the text.
unfoldable pub fits : Bool → ℕ → ℕ → Bool
fits case_sensitive wild c =
    (if case_sensitive then wild == c else lower wild == lower c) || wild == b'?'

-- What a run gives: a result, a read outside the mask, or the end of the model's fuel.
pub data Outcome : Type 0 where
  found : Bool → Outcome
  undefined spent : Outcome

-- `sp` and `mp`, `none` as long as they are `npos`.
abbrev pub Back : Type 0
Back = Option (Bytes × Bytes)

-- `if (mask[m] == '*') ++m; return m == mask_len;`
unfoldable pub finish : Bytes → Outcome
finish [] = found true
finish (w ∷ []) = found (w == star)
finish (w ∷ x ∷ m) = found false

-- `m = mp; s = sp++;`. With `mp` still `npos` the loop ends and `mask[npos]` is read.
unfoldable pub retry : (Bytes → Bytes → Back → Outcome) → Back → Outcome
retry again none = undefined
retry again (some (sp, mp)) = again sp mp (some (drop 1 sp, mp))

-- At a star, whose rest of the mask is `m`, before the text `c ∷ s`.
unfoldable pub at_star : (Bytes → Bytes → Back → Outcome) → ℕ → Bytes → Bytes → Outcome
at_star again c s [] = found true
at_star again c s (x ∷ m) = again (c ∷ s) (x ∷ m) (some (s, x ∷ m))

-- The loop `while (s < str_len)`. Behind the mask its character 0 is compared: where the text has
-- a 0 too, the loop goes on to read outside the mask.
unfoldable pub match_loop : Bool → ℕ → Bytes → Bytes → Back → Outcome
match_loop cs zero s m back = spent
match_loop cs (suc f) [] m back = finish m
match_loop cs (suc f) (c ∷ s) [] back = elim (c == 0) [
  | true ↦ undefined
  | false ↦ retry (match_loop cs f) back
]
match_loop cs (suc f) (c ∷ s) (w ∷ m) back = elim (w == star) [
  | true ↦ at_star (match_loop cs f) c s m
  | false ↦ elim (fits cs w c) [
    | true ↦ match_loop cs f s m back
    | false ↦ retry (match_loop cs f) back
  ]
]

-- More rounds than the loop makes, for a text and a mask of these lengths.
unfoldable pub rounds : ℕ → ℕ → ℕ
rounds s m = (m + 2) * ((s + 2) * (m + 1)) + 1

-- The first loop, up to the first star of the mask, and the second loop behind it.
unfoldable pub match_prefix : Bool → ℕ → Bytes → Bytes → Outcome
match_prefix cs fuel [] m = match_loop cs fuel [] m none
match_prefix cs fuel (c ∷ s) [] = match_loop cs fuel (c ∷ s) [] none
match_prefix cs fuel (c ∷ s) (w ∷ m) = elim (w == star) [
  | true ↦ match_loop cs fuel (c ∷ s) (w ∷ m) none
  | false ↦ elim (fits cs w c) [ true ↦ match_prefix cs fuel s m | false ↦ found false ]
]

unfoldable pub match : Bytes → Bytes → Bool → Outcome
match str mask case_sensitive =
    match_prefix case_sensitive (rounds (length str) (length mask)) str mask

-- What the program sees of a call with the default `case_sensitive = false`. Where the read is
-- outside a mask that is not empty, `m` is then `npos`, or 0 behind a byte that happens to be a
-- star, and the test `m == mask_len` fails whatever that byte is.
unfoldable pub matches : Bytes → Bytes → Bool
matches str mask = elim (match str mask false) [ found b ↦ b | undefined ↦ false | spent ↦ false ]
