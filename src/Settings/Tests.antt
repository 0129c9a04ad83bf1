-- ===== src/Settings/Tests.antt =====
-- Configuration files.
use anope.Base.{
  ℕ, zero, suc, ◌≡◌, refl, ap, false, some, [], ◌∷◌, ◌++◌, arith, Bytes, codes, length,
}
use anope.Text.{is_empty, contains}
use anope.Numbers.{skip_spaces}
use anope.Settings.{
  unexpected_word, ConfigData, open_comment, start, turn, starts, mark, add_char, end_item,
  end_section, at_end, quoted, commented, word, outside, read_char, read_chars, quoted_line,
  read_line, read_lines, at_file_end, loaded, refused, loaded_of, behind_lines, load_conf,
}
use anope.Settings.Words.{is_word, all_word}
use anope.Settings.Quotes.{escape, closes}
use anope.Settings.RoundTrip.{item_line, config_lines, spread_config, item_lines}
use anope.Settings.Reader.{buffer_room, load_file, file_of, load_file-config_lines}

one_line : load_conf (codes "a{b=c d=\"e f\"" ∷ []) [] ≡ refused unexpected_word
unfolding load_conf loaded_of behind_lines read_lines read_line start read_chars read_char outside
    mark starts word at_end turn end_item end_section add_char is_empty quoted
one_line = refl

semicolon_kept :
    load_conf (codes "a {" ∷ codes "b = 12;" ∷ codes "}" ∷ []) []
    ≡ loaded ((codes "a", (codes "b", codes "12;") ∷ []) ∷ [])
unfolding load_conf loaded_of behind_lines read_lines read_line start read_chars read_char outside
    mark starts word at_end turn end_item end_section add_char is_empty at_file_end
semicolon_kept = refl

blank_line_in_quote :
    load_conf (codes "a {" ∷ codes "b = \"x" ∷ codes " " ∷ codes " y\" }" ∷ []) []
    ≡ loaded ((codes "a", (codes "b", b'x' ∷ 10 ∷ 0 ∷ b'y' ∷ []) ∷ []) ∷ [])
unfolding load_conf loaded_of behind_lines read_lines read_line start read_chars read_char outside
    mark starts word at_end turn end_item end_section add_char is_empty at_file_end quoted
    quoted_line skip_spaces
blank_line_in_quote = refl

open_comment_refused : load_conf (codes "a { /* b" ∷ codes "}" ∷ []) [] ≡ refused open_comment
unfolding load_conf loaded_of behind_lines read_lines read_line start read_chars read_char outside
    mark starts word at_end turn end_item end_section add_char is_empty at_file_end commented
open_comment_refused = refl

abbrev sections : ConfigData
sections =
    (codes "uplink", (codes "host", codes "irc \"a\"") ∷ (codes "port", codes "6667") ∷ [])
    ∷ (codes "define", [])
    ∷ []

abbrev filled : ℕ → Bytes
filled zero = []
filled (suc n) = b'a' ∷ filled n

length-filled : (n : ℕ) → length (filled n) ≡ n
length-filled zero = refl
length-filled (suc n) = ap suc (length-filled n)

filled_line : (n : ℕ) → contains 10 (filled n) ≡ false
unfolding contains
filled_line zero = refl
filled_line (suc n) = filled_line n

abbrev small : ConfigData
small = (codes "a", (codes "b", codes "c\"}") ∷ []) ∷ []

load_file-config_lines_example :
    load_file 9 (file_of (config_lines small)) [] ≡ some (loaded ([] ++ spread_config small))
unfolding is_empty all_word is_word closes contains config_lines item_lines item_line escape
    buffer_room
load_file-config_lines_example =
    load_file-config_lines 9 small [] (((refl, refl), (((refl, refl), refl), tt)), tt)
      ((refl, omega arith), ((refl, omega arith), ((refl, omega arith), ((refl, omega arith), tt))))
      (omega arith)
