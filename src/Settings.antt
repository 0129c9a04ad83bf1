-- ===== src/Settings.antt =====
-- src/config.cpp: `ServerConfig::LoadConf`, which reads the text of a configuration file, line by line
-- and character by character, into sections of items. The characters that are left of a line stand
-- for the position in it. Sections are listed in the order in which they were read.
pub mod Words
pub mod Reader
mod Tests
pub mod Values
pub mod Lookup
pub mod RoundTrip
pub mod Quotes
use anope.Base.{
  ℕ, Bool, true, false, not, ◌&&◌, ◌||◌, List, [], ◌∷◌, ◌++◌, Bytes, ◌==◌, if◌then◌else◌, drop,
}
use anope.Text.{is_empty}
use anope.Numbers.{skip_spaces}

-- `KeyValList`, and `ConfigDataHash`.
abbrev pub KeyValList : Type 0
KeyValList = List (Bytes × Bytes)

abbrev pub ConfigData : Type 0
ConfigData = List (Bytes × KeyValList)

-- The messages of `ConfigException`.
pub data ConfigError : Type 0 where
  unexpected_quote prior_words item_outside stray_equals nested_section nameless_section
        unexpected_word stray_brace :
      ConfigError
  open_comment open_quote garbage open_section : ConfigError

-- The variables of `LoadConf`.
pub record Loading : Type 0 where
  pub section : Bytes
  pub wordbuffer : Bytes
  pub itemname : Bytes
  pub in_word : Bool
  pub in_quote : Bool
  pub in_ml_comment : Bool
  pub sectiondata : KeyValList
  pub config_data : ConfigData

unfoldable pub start : ConfigData → Loading
start config_data = record {
  section = [];
  wordbuffer = [];
  itemname = [];
  in_word = false;
  in_quote = false;
  in_ml_comment = false;
  sectiondata = [];
  config_data = config_data;
}

pub data Reading : Type 0 where
  going : Loading → Reading
  thrown : ConfigError → Reading

-- One turn of the loop: the next character follows, or the one behind it, or the next line.
pub data Turn : Type 0 where
  one two line_over : Loading → Turn
  failed : ConfigError → Turn

unfoldable pub turn : (Loading → Turn) → Reading → Turn
turn next (going l) = next l
turn next (thrown e) = failed e

-- What stands at a character that is neither in a quote nor in a comment.
pub data Mark : Type 0 where
  line_comment comment_open quote equals brace_open blank plain : Mark

unfoldable pub starts : ℕ → Bytes → Bool
starts c [] = false
starts c (d ∷ s) = d == c

unfoldable pub mark : ℕ → Bytes → Mark
mark ch rest =
    if ch == b'#' || ch == b'/' && starts b'/' rest
    then line_comment
    else if ch == b'/' && starts b'*' rest
    then comment_open
    else if ch == b'"'
    then quote
    else if ch == b'='
    then equals
    else if ch == b'{'
    then brace_open
    else if ch == 32 || ch == 13 || ch == 9
    then blank
    else plain

unfoldable pub add_char : ℕ → Loading → Loading
add_char ch l = record l { wordbuffer = l.wordbuffer ++ ch ∷ [] }

-- The end of an item: `;`, `}` or the end of the line.
unfoldable pub end_item : Loading → Loading
end_item l = if is_empty l.itemname then record l { in_word = false } else record l {
  in_word = false;
  sectiondata = l.sectiondata ++ (l.itemname, l.wordbuffer) ∷ [];
  wordbuffer = [];
  itemname = [];
}

unfoldable pub end_section : ℕ → Loading → Reading
end_section ch l =
    if ch == b'}'
    then if is_empty l.section
      then thrown stray_brace
      else going (record l {
        config_data = l.config_data ++ (l.section, l.sectiondata) ∷ [];
        section = [];
        sectiondata = [];
      })
    else going l

-- The end of the loop's body; `last` tells whether the character was the last of the line.
unfoldable pub at_end : ℕ → Bool → Loading → Reading
at_end ch last l =
    if ch == b';' || ch == b'}' || last
    then if l.in_quote then going (add_char 10 l) else end_section ch (end_item l)
    else going l

unfoldable pub quoted : ℕ → Bytes → Loading → Turn
quoted ch rest l =
    if ch == b'\\' && starts b'"' rest
    then turn two (at_end ch (is_empty (drop 1 rest)) (add_char b'"' l))
    else if ch == b'"'
    then turn one (at_end ch (is_empty rest) (record l { in_quote = false; in_word = false }))
    else turn one (at_end ch (is_empty rest) (add_char ch l))

unfoldable pub commented : ℕ → Bytes → Loading → Turn
commented ch rest l =
    if ch == b'*' && starts b'/' rest then two (record l { in_ml_comment = false }) else one l

-- `;`, `}` or a part of a word.
unfoldable pub word : ℕ → Bytes → Loading → Turn
word ch rest l =
    if not l.in_word && ch == b';' || ch == b'}'
    then turn one (at_end ch (is_empty rest) l)
    else if not l.in_word && not (is_empty l.wordbuffer)
    then failed unexpected_word
    else turn one (at_end ch (is_empty rest) (record (add_char ch l) { in_word = true }))

unfoldable pub outside : Mark → ℕ → Bytes → Loading → Turn
outside line_comment ch rest l = turn line_over (at_end ch true l)
outside comment_open ch rest l = two (record l { in_ml_comment = true })
outside quote ch rest l =
    if is_empty l.section || is_empty l.itemname
    then failed unexpected_quote
    else if l.in_word || not (is_empty l.wordbuffer)
    then failed prior_words
    else turn one (at_end ch (is_empty rest) (record l { in_quote = true; in_word = true }))
outside equals ch rest l =
    if is_empty l.section
    then failed item_outside
    else if not (is_empty l.itemname)
    then failed stray_equals
    else turn one (
        at_end ch (is_empty rest)
          (record l { in_word = false; itemname = l.wordbuffer; wordbuffer = [] }))
outside brace_open ch rest l =
    if not (is_empty l.section)
    then failed nested_section
    else if is_empty l.wordbuffer
    then failed nameless_section
    else one (record l { in_word = false; section = l.wordbuffer; wordbuffer = [] })
outside blank ch rest l = turn one (at_end ch (is_empty rest) (record l { in_word = false }))
outside plain ch rest l = word ch rest l

unfoldable pub read_char : ℕ → Bytes → Loading → Turn
read_char ch rest l =
    if l.in_quote
    then quoted ch rest l
    else if l.in_ml_comment
    then commented ch rest l
    else outside (mark ch rest) ch rest l

-- The loop over a line; the next character is passed over where it was read already.
unfoldable pub read_chars : Bool → Bytes → Loading → Reading
read_chars passed [] l = going l
read_chars true (ch ∷ rest) l = read_chars false rest l
read_chars false (ch ∷ rest) l = elim (read_char ch rest l) [
  | one l' ↦ read_chars false rest l'
  | two l' ↦ read_chars true rest l'
  | line_over l' ↦ going l'
  | failed e ↦ thrown e
]

-- A line that goes on with a quote loses the spaces at its front; where nothing else stands there, the
-- zero behind the text is read.
unfoldable pub quoted_line : Bytes → Loading → Reading
quoted_line [] l = going (add_char 0 l)
quoted_line (ch ∷ rest) l = read_chars false (ch ∷ rest) l

unfoldable pub read_line : Bytes → Loading → Reading
read_line line l =
    if l.in_quote && not (is_empty line)
    then quoted_line (skip_spaces line) l
    else read_chars false line l

unfoldable pub read_lines : List Bytes → Loading → Reading
read_lines [] l = going l
read_lines (line ∷ lines) l = elim (read_line line l) [
  | going l' ↦ read_lines lines l'
  | thrown e ↦ thrown e
]

unfoldable pub at_file_end : Loading → Reading
at_file_end l =
    if l.in_ml_comment
    then thrown open_comment
    else if l.in_quote
    then thrown open_quote
    else if not (is_empty l.itemname) || not (is_empty l.wordbuffer)
    then thrown garbage
    else if not (is_empty l.section)
    then thrown open_section
    else going l

pub data Loaded : Type 0 where
  loaded : ConfigData → Loaded
  refused : ConfigError → Loaded

unfoldable pub loaded_of : Reading → Loaded
loaded_of (going l) = loaded l.config_data
loaded_of (thrown e) = refused e

unfoldable pub behind_lines : Reading → Reading
behind_lines (going l) = at_file_end l
behind_lines (thrown e) = thrown e

-- `LoadConf` of a file with these lines, besides the sections that were read before.
unfoldable pub load_conf : List Bytes → ConfigData → Loaded
load_conf lines config_data = loaded_of (behind_lines (read_lines lines (start config_data)))
