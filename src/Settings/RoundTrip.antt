-- ===== src/Settings/RoundTrip.antt =====
-- A configuration that is written out in the style of data/example.conf, and read by `LoadConf`.
use anope.Base.{
  ◌≡◌, refl, sym, ap, ◌∙◌, Bool, true, false, List, [], ◌∷◌, ◌++◌, append-nil, append_assoc, Bytes,
  All,
}
use anope.Text.{is_empty}
use anope.Settings.{
  Loading, KeyValList, ConfigData, start, going, one, turn, starts, mark, end_item, end_section,
  at_end, word, outside, read_char, read_chars, read_line, read_lines, loaded, load_conf,
  at_file_end, loaded_of, behind_lines,
}
use anope.Settings.Words.{turn_one, outdoors, all_word, more, word_lem_on, word_end}
use anope.Settings.Quotes.{escape, spread, closes, indoors, quoted_lem, closing_lem}

-- A tab and `key = "value"`.
unfoldable pub item_line : Bytes × Bytes → Bytes
item_line (key, value) = 9 ∷ (key ++ (32 ∷ b'=' ∷ 32 ∷ b'"' ∷ (escape value ++ b'"' ∷ [])))

unfoldable pub item_lines : KeyValList → List Bytes
item_lines [] = (b'}' ∷ []) ∷ []
item_lines (item ∷ items) = item_line item ∷ item_lines items

-- The name, the brace, the items, and the other brace, each on a line of its own.
unfoldable pub config_lines : ConfigData → List Bytes
config_lines [] = []
config_lines ((name, items) ∷ sections) =
    name ∷ (b'{' ∷ []) ∷ (item_lines items ++ config_lines sections)

-- The values as they are read.
unfoldable pub spread_items : KeyValList → KeyValList
spread_items [] = []
spread_items ((key, value) ∷ items) = (key, spread value) ∷ spread_items items

unfoldable pub spread_config : ConfigData → ConfigData
spread_config [] = []
spread_config ((name, items) ∷ sections) = (name, spread_items items) ∷ spread_config sections

-- A name is a word. A value is any text that does not end with a backslash.
abbrev pub IsName : Bytes → Type 0
IsName w = (is_empty w ≡ false) × (all_word w ≡ true)

abbrev pub IsItem : Bytes × Bytes → Type 0
IsItem (key, value) = IsName key × (closes value ≡ true)

abbrev pub IsSection : Bytes × KeyValList → Type 0
IsSection (name, items) = IsName name × All IsItem items

module _ (s i : Bytes) (d : KeyValList) (g : ConfigData) where
  tab_char :
      (rest b : Bytes) (w : Bool)
      → is_empty rest ≡ false
      → read_char 9 rest (outdoors s b i w d g) ≡ one (outdoors s b i false d g)
  unfolding read_char outside mark at_end turn
  tab_char rest b w e = rw e refl

  space_char :
      (rest b : Bytes) (w : Bool)
      → is_empty rest ≡ false
      → read_char 32 rest (outdoors s b i w d g) ≡ one (outdoors s b i false d g)
  unfolding read_char outside mark at_end turn
  space_char rest b w e = rw e refl

  quote_char :
      (rest : Bytes)
      → is_empty s ≡ false
      → is_empty i ≡ false
      → is_empty rest ≡ false
      → read_char b'"' rest (outdoors s [] i false d g) ≡ one (indoors s [] i d g)
  unfolding read_char outside mark at_end turn is_empty
  quote_char rest es ei e = rw (es, ei, e) refl

module _ (s : Bytes) (d : KeyValList) (g : ConfigData) where
  equals_char :
      (rest b : Bytes) (w : Bool)
      → is_empty s ≡ false
      → is_empty rest ≡ false
      → read_char b'=' rest (outdoors s b [] w d g) ≡ one (outdoors s [] b false d g)
  unfolding read_char outside mark at_end turn is_empty
  equals_char rest b w es e = rw (es, e) refl

  item_lem :
      (key value : Bytes)
      → is_empty s ≡ false
      → IsItem (key, value)
      → read_line (item_line (key, value)) (outdoors s [] [] false d g)
        ≡ going (outdoors s [] [] false (d ++ (key, spread value) ∷ []) g)
  unfolding read_line item_line is_empty
  item_lem key value es ((ne, all), c) =
      let behind = escape value ++ b'"' ∷ [] in
      turn_one _ _ _
        (tab_char s [] d g (key ++ 32 ∷ b'=' ∷ 32 ∷ b'"' ∷ behind) [] false (more key _ refl))
      ∙ (word_lem_on s [] d g key (32 ∷ b'=' ∷ 32 ∷ b'"' ∷ behind) ne all refl
          ∙ (turn_one _ _ _ (space_char s [] d g (b'=' ∷ 32 ∷ b'"' ∷ behind) key true refl)
              ∙ (turn_one _ _ _ (equals_char (32 ∷ b'"' ∷ behind) key false es refl)
                  ∙ (turn_one _ _ _ (space_char s key d g (b'"' ∷ behind) [] false refl)
                      ∙ (turn_one _ _ _
                            (quote_char s key d g behind es ne (more (escape value) _ refl))
                          ∙ (quoted_lem s key d g value [] c
                              ∙ closing_lem s key d g (spread value) ne))))))

  brace_line :
      is_empty s ≡ false
      → read_line (b'}' ∷ []) (outdoors s [] [] false d g)
        ≡ going (outdoors [] [] [] false [] (g ++ (s, d) ∷ []))
  unfolding read_line read_chars read_char outside mark word at_end turn end_item end_section
      is_empty starts
  brace_line es = rw es refl

line_going :
    (line : Bytes) (lines : List Bytes) (l : Loading) {l' : Loading}
    → read_line line l ≡ going l'
    → read_lines (line ∷ lines) l ≡ read_lines lines l'
unfolding read_lines
line_going line lines l e = rw (e, read_lines) refl

open_line :
    (name : Bytes) (g : ConfigData)
    → is_empty name ≡ false
    → read_line (b'{' ∷ []) (outdoors [] name [] false [] g)
      ≡ going (outdoors name [] [] false [] g)
unfolding read_line read_chars read_char outside mark at_end turn is_empty starts
open_line name g ne = rw ne refl

name_lines :
    (name : Bytes) (lines : List Bytes) (g : ConfigData)
    → IsName name
    → read_lines (name ∷ (b'{' ∷ []) ∷ lines) (outdoors [] [] [] false [] g)
      ≡ read_lines lines (outdoors name [] [] false [] g)
unfolding is_empty read_line read_chars
name_lines [] lines g (ne, all) = absurd (cc)
name_lines (ch ∷ w) lines g (ne, all) =
    line_going (ch ∷ w) ((b'{' ∷ []) ∷ lines) _ (word_end [] [] g ch w [] false refl all)
    ∙ line_going (b'{' ∷ []) lines _ (open_line (ch ∷ w) g ne)

item_lines_lem :
    (s : Bytes) (d items : KeyValList) (rest : List Bytes) (g : ConfigData)
    → is_empty s ≡ false
    → All IsItem items
    → read_lines (item_lines items ++ rest) (outdoors s [] [] false d g)
      ≡ read_lines rest (outdoors [] [] [] false [] (g ++ (s, d ++ spread_items items) ∷ []))
unfolding item_lines spread_items
item_lines_lem s d [] rest g es ok =
    line_going _ rest _ (brace_line s d g es)
    ∙ ap (λ d'. read_lines rest (outdoors [] [] [] false [] (g ++ (s, d') ∷ [])))
        (sym (append-nil d))
item_lines_lem s d ((key, value) ∷ items) rest g es (item, ok) =
    line_going _ (item_lines items ++ rest) _ (item_lem s d g key value es item)
    ∙ (item_lines_lem s (d ++ (key, spread value) ∷ []) items rest g es ok
        ∙ ap (λ d'. read_lines rest (outdoors [] [] [] false [] (g ++ (s, d') ∷ [])))
            (append_assoc d ((key, spread value) ∷ []) (spread_items items)))

config_lines_lem :
    (sections g : ConfigData)
    → All IsSection sections
    → read_lines (config_lines sections) (outdoors [] [] [] false [] g)
      ≡ going (outdoors [] [] [] false [] (g ++ spread_config sections))
unfolding config_lines spread_config read_lines
config_lines_lem [] g ok = ap (λ g'. going (outdoors [] [] [] false [] g')) (sym (append-nil g))
config_lines_lem ((name, items) ∷ sections) g ((ok, ok_items), more_ok) =
    name_lines name (item_lines items ++ config_lines sections) g ok
    ∙ (item_lines_lem name [] items (config_lines sections) g ok.0 ok_items
        ∙ (config_lines_lem sections (g ++ (name, spread_items items) ∷ []) more_ok
            ∙ ap (λ g'. going (outdoors [] [] [] false [] g'))
                (append_assoc g ((name, spread_items items) ∷ []) (spread_config sections))))

-- Sections that are written out in the style of the example configuration, each quote of a value behind a
-- backslash, are read without an error, in their order and with their items in order. A value is read
-- with a newline behind each `;` and `}` in it, and otherwise as it is. The names are words, and no value
-- ends with a backslash.
pub load_conf-config_lines :
    (sections before : ConfigData)
    → All IsSection sections
    → load_conf (config_lines sections) before ≡ loaded (before ++ spread_config sections)
unfolding load_conf start at_file_end loaded_of behind_lines is_empty
load_conf-config_lines sections before ok =
    ap (λ r. loaded_of (behind_lines r)) (config_lines_lem sections before ok)
