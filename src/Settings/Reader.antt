-- ===== src/Settings/Reader.antt =====
-- src/config.cpp: `ConfigurationFile::Read` and `End`, over the bytes of the file that are left. A buffer has
-- 1024 bytes. A file holds no zero byte.
use anope.Base.{
  ℕ, zero, suc, ◌<◌, ◌≡◌, refl, sym, ap, ◌∙◌, inl, inr, Bool, true, false, not, Option, none, some,
  List, [], ◌∷◌, ◌++◌, arith, Bytes, ◌==◌, if◌then◌else◌, and_false, Bool-cases, length, All,
}
use anope.Text.{is_empty, contains}
use mathlib.Core.Option
use anope.Numbers.{skip_spaces}
use anope.Settings.RoundTrip.{config_lines, spread_config, IsSection, load_conf-config_lines}
use anope.Settings.{
  load_conf, ConfigData, Loaded, Loading, start, Reading, going, thrown, add_char, read_chars,
  quoted_line, read_line, read_lines, loaded, loaded_of, behind_lines,
}

-- `sizeof(buf) - 1`.
unfoldable pub buffer_room : ℕ
buffer_room = 1023

-- `fgets` with room for so many characters, and whether it came to the end of the file.
unfoldable pub fgets : ℕ → Bytes → Bytes × Bytes × Bool
fgets zero s = ([], s, false)
fgets (suc room) [] = ([], [], true)
fgets (suc room) (c ∷ s) =
    let (buf, rest, eof) = fgets room s in
    if c == 10 then (c ∷ [], s, false) else (c ∷ buf, rest, eof)

-- What stands before the newline.
unfoldable pub cut_newline : Bytes → Bytes
cut_newline [] = []
cut_newline (c ∷ s) = let rest = cut_newline s in if c == 10 then [] else c ∷ rest

-- `Read`: the line, what is left of the file, and `feof`. It goes round once for each buffer of a long
-- line; `none` where the rounds are used up.
unfoldable pub read : ℕ → Bytes → Bytes → Option (Bytes × Bytes × Bool)
read zero ret text = none
read (suc rounds) ret text =
    let (buf, rest, eof) = fgets buffer_room text in
    let more = read rounds (ret ++ buf) rest in
    if is_empty buf
    then some (ret, rest, true)
    else if contains 10 buf
    then some (cut_newline buf, rest, eof)
    else if not eof
    then more
    else some (buf, rest, true)

-- The lines that `LoadConf` reads up to the end of the file.
unfoldable pub file_lines : ℕ → Bytes → Option (List Bytes)
file_lines zero text = none
file_lines (suc rounds) text = elim (read (suc rounds) [] text) [
  | none ↦ none
  | some (line, rest, true) ↦ some (line ∷ [])
  | some (line, rest, false) ↦ Option.map (λ lines. line ∷ lines) (file_lines rounds rest)
]

unfoldable pub load_file : ℕ → Bytes → ConfigData → Option Loaded
load_file rounds text config_data =
    Option.map (λ lines. load_conf lines config_data) (file_lines rounds text)

-- Lines as a file.
unfoldable pub file_of : List Bytes → Bytes
file_of [] = []
file_of (line ∷ lines) = line ++ (10 ∷ file_of lines)

-- A line that a buffer holds.
abbrev pub IsShort : Bytes → Type 0
IsShort line = (contains 10 line ≡ false) × (length line < buffer_room)

not_newline :
    (c : ℕ) (line : Bytes)
    → contains 10 (c ∷ line) ≡ false
    → ((c == 10) ≡ false) × (contains 10 line ≡ false)
unfolding contains
not_newline c line e = elim (Bool-cases (c == 10)) [
  | inl is ↦ absurd (ground (arith, e, is))
  | inr is ↦ (is, ground (arith, e, is))
]

fgets_line :
    (room : ℕ) (line rest : Bytes)
    → contains 10 line ≡ false
    → length line < room
    → fgets room (line ++ 10 ∷ rest) ≡ (line ++ 10 ∷ [], rest, false)
unfolding fgets contains
fgets_line zero line rest clean lt = absurd (omega arith)
fgets_line (suc room) [] rest clean lt = refl
fgets_line (suc room) (c ∷ line) rest clean lt =
    rw
      (
        (not_newline c line clean).0,
        fgets_line room line rest (not_newline c line clean).1 (omega (arith, lt)),
      )
      refl

fgets_full :
    (line rest : Bytes)
    → contains 10 line ≡ false
    → fgets (length line) (line ++ rest) ≡ (line, rest, false)
unfolding fgets contains
fgets_full [] rest clean = refl
fgets_full (c ∷ line) rest clean =
    rw ((not_newline c line clean).0, fgets_full line rest (not_newline c line clean).1) refl

has_newline : (line : Bytes) → contains 10 (line ++ 10 ∷ []) ≡ true
unfolding contains
has_newline [] = refl
has_newline (c ∷ line) = ground (arith, has_newline line)

cut_line : (line : Bytes) → contains 10 line ≡ false → cut_newline (line ++ 10 ∷ []) ≡ line
unfolding contains cut_newline
cut_line [] clean = refl
cut_line (c ∷ line) clean =
    rw ((not_newline c line clean).0) (ap (λ l. c ∷ l) (cut_line line (not_newline c line clean).1))

ends : (line : Bytes) → is_empty (line ++ 10 ∷ []) ≡ false
unfolding is_empty
ends [] = refl
ends (c ∷ line) = refl

read_short :
    (rounds : ℕ) (ret line rest : Bytes)
    → IsShort line
    → read (suc rounds) ret (line ++ 10 ∷ rest) ≡ some (line, rest, false)
unfolding read
read_short rounds ret line rest (clean, lt) =
    rw (fgets_line buffer_room line rest clean lt, ends line, has_newline line, cut_line line clean)
      refl

full_buffer : (line : Bytes) → length line ≡ buffer_room → is_empty line ≡ false
unfolding is_empty buffer_room
full_buffer [] e = absurd (omega (arith, e))
full_buffer (c ∷ line) e = refl

-- Of a line that takes two buffers, the part that fills the first one is lost: `Read` gives the rest of
-- the line only.
pub read_long :
    (rounds : ℕ) (front back rest : Bytes)
    → contains 10 front ≡ false
    → length front ≡ buffer_room
    → IsShort back
    → read (suc (suc rounds)) [] (front ++ (back ++ 10 ∷ rest)) ≡ some (back, rest, false)
unfolding read
read_long rounds front back rest clean full short =
    let text = back ++ 10 ∷ rest in
    let got : fgets buffer_room (front ++ text) ≡ (front, text, false) =
      ap (λ n. fgets n (front ++ text)) (sym full) ∙ fgets_full front text clean in
    rw (got, full_buffer front full, clean) (read_short rounds front back rest short)

last_line : (rounds : ℕ) → read (suc rounds) [] [] ≡ some ([], [], true)
unfolding read fgets buffer_room is_empty
last_line rounds = refl

file_lines_lem :
    (rounds : ℕ) (lines : List Bytes)
    → All IsShort lines
    → length lines < rounds
    → file_lines rounds (file_of lines) ≡ some (lines ++ [] ∷ [])
unfolding file_lines file_of
file_lines_lem zero lines ok lt = absurd (omega arith)
file_lines_lem (suc rounds) [] ok lt = rw (last_line rounds, file_lines) refl
file_lines_lem (suc rounds) (line ∷ lines) (short, ok) lt =
    rw (read_short rounds [] line (file_of lines) short, file_lines)
      (ap (Option.map (λ ls. line ∷ ls)) (file_lines_lem rounds lines ok (omega (arith, lt))))

empty_line : (l : Loading) → read_line [] l ≡ going l
unfolding read_line quoted_line skip_spaces read_chars is_empty
empty_line l = ap (λ b. if b then going (add_char 0 l) else going l) (and_false l.in_quote)

-- The line that was read is followed by lines that lead to the same.
same_behind :
    (lines lines' : List Bytes) (r : Reading)
    → ((l : Loading) → read_lines lines l ≡ read_lines lines' l)
    → elim r [ going l' ↦ read_lines lines l' | thrown e ↦ thrown e ]
      ≡ elim r [ going l' ↦ read_lines lines' l' | thrown e ↦ thrown e ]
same_behind lines lines' (going l') same = same l'
same_behind lines lines' (thrown e) same = refl

read_lines_snoc :
    (lines : List Bytes) (l : Loading) → read_lines (lines ++ [] ∷ []) l ≡ read_lines lines l
unfolding read_lines
read_lines_snoc [] l = rw (empty_line l, read_lines) refl
read_lines_snoc (line ∷ lines) l =
    same_behind (lines ++ [] ∷ []) lines (read_line line l) (read_lines_snoc lines)

-- The lines of a file are those that it is made of, and an empty one.
pub load_file_lem :
    (rounds : ℕ) (lines : List Bytes) (config_data : ConfigData)
    → All IsShort lines
    → length lines < rounds
    → load_file rounds (file_of lines) config_data ≡ some (load_conf lines config_data)
unfolding load_file load_conf
load_file_lem rounds lines config_data ok lt =
    ap (Option.map (λ ls. load_conf ls config_data)) (file_lines_lem rounds lines ok lt)
    ∙ ap (λ r. some (loaded_of (behind_lines r))) (read_lines_snoc lines (start config_data))

-- Sections that are written to a file in the style of the example configuration, each quote of a value
-- behind a backslash, are read without an error, in their order and with their items in order. A value
-- is read with a newline behind each `;` and `}` in it, and otherwise as it is. The names are words, no
-- value ends with a backslash, no line has more than 1022 characters or a newline, and there are more
-- rounds than lines.
pub load_file-config_lines :
    (rounds : ℕ) (sections before : ConfigData)
    → All IsSection sections
    → All IsShort (config_lines sections)
    → length (config_lines sections) < rounds
    → load_file rounds (file_of (config_lines sections)) before
      ≡ some (loaded (before ++ spread_config sections))
load_file-config_lines rounds sections before ok short lt =
    load_file_lem rounds (config_lines sections) before short lt
    ∙ ap some (load_conf-config_lines sections before ok)
