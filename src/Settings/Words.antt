-- ===== src/Settings/Words.antt =====
-- Words and quoted texts of a configuration file.
use anope.Base.{
  ℕ, ◌≡◌, refl, sym, ap, ◌∙◌, Bool, true, false, not, ◌&&◌, ◌||◌, [], ◌∷◌, ◌++◌, append-nil,
  append_assoc, arith, Bytes, ◌==◌, both,
}
use anope.Text.{is_empty}
use anope.Settings.{
  Loading, plain, mark, KeyValList, ConfigData, one, turn, add_char, at_end, word, outside,
  read_char, going, two, end_item, end_section, read_chars,
}

-- A character of a name: it ends no word and begins no comment.
unfoldable pub is_word : ℕ → Bool
is_word ch =
    not (ch == b'#' || ch == b'/' || ch == b'"' || ch == b'=' || ch == b'{' || ch == b'}')
    && not (ch == b';' || ch == 32 || ch == 13 || ch == 9)

mark-plain : (ch : ℕ) (rest : Bytes) → is_word ch ≡ true → mark ch rest ≡ plain
unfolding is_word mark
mark-plain ch rest w = ground (arith, w)

-- The state outside of quotes and comments.
abbrev pub outdoors : Bytes → Bytes → Bytes → Bool → KeyValList → ConfigData → Loading
outdoors section wordbuffer itemname in_word sectiondata config_data = record {
  section = section;
  wordbuffer = wordbuffer;
  itemname = itemname;
  in_word = in_word;
  in_quote = false;
  in_ml_comment = false;
  sectiondata = sectiondata;
  config_data = config_data;
}

module _ (s i : Bytes) (d : KeyValList) (g : ConfigData) where
  word_lem :
      (ch : ℕ) (rest b : Bytes) (w : Bool)
      → is_word ch ≡ true
      → (not w && not (is_empty b)) ≡ false
      → is_empty rest ≡ false
      → word ch rest (outdoors s b i w d g) ≡ one (outdoors s (b ++ ch ∷ []) i true d g)
  unfolding word is_word at_end turn add_char
  word_lem ch rest b w is more_word more = ground (arith, is, more_word, more)

  char_lem :
      (ch : ℕ) (rest b : Bytes) (w : Bool)
      → is_word ch ≡ true
      → (not w && not (is_empty b)) ≡ false
      → is_empty rest ≡ false
      → read_char ch rest (outdoors s b i w d g) ≡ one (outdoors s (b ++ ch ∷ []) i true d g)
  unfolding read_char outside
  char_lem ch rest b w is more_word more =
      ap (λ m. outside m ch rest (outdoors s b i w d g)) (mark-plain ch rest is)
      ∙ word_lem ch rest b w is more_word more

pub turn_one :
    (ch : ℕ) (rest : Bytes) (l : Loading) {l' : Loading}
    → read_char ch rest l ≡ one l'
    → read_chars false (ch ∷ rest) l ≡ read_chars false rest l'
unfolding read_chars
turn_one ch rest l e = rw (e, read_chars) refl

pub turn_two :
    (ch ch' : ℕ) (rest : Bytes) (l : Loading) {l' : Loading}
    → read_char ch (ch' ∷ rest) l ≡ two l'
    → read_chars false (ch ∷ ch' ∷ rest) l ≡ read_chars false rest l'
unfolding read_chars
turn_two ch ch' rest l e = rw (e, read_chars) refl

unfoldable pub all_word : Bytes → Bool
all_word [] = true
all_word (ch ∷ w) = is_word ch && all_word w

pub more : (w rest : Bytes) → is_empty rest ≡ false → is_empty (w ++ rest) ≡ false
unfolding is_empty
more [] rest e = e
more (ch ∷ w) rest e = refl

module _ (s i : Bytes) (d : KeyValList) (g : ConfigData) where
  -- A word goes on.
  word_on :
      (w rest b : Bytes)
      → all_word w ≡ true
      → is_empty rest ≡ false
      → read_chars false (w ++ rest) (outdoors s b i true d g)
        ≡ read_chars false rest (outdoors s (b ++ w) i true d g)
  unfolding all_word
  word_on [] rest b all e =
      ap (λ b'. read_chars false rest (outdoors s b' i true d g)) (sym (append-nil b))
  word_on (ch ∷ w) rest b all e =
      turn_one _ _ _ (char_lem s i d g ch (w ++ rest) b true (both all).0 refl (more w rest e))
      ∙ (word_on w rest (b ++ ch ∷ []) (both all).1 e
          ∙ ap (λ b'. read_chars false rest (outdoors s b' i true d g))
              (append_assoc b (ch ∷ []) w))

  -- A word that something follows on the line.
  pub word_lem_on :
      (w rest : Bytes)
      → is_empty w ≡ false
      → all_word w ≡ true
      → is_empty rest ≡ false
      → read_chars false (w ++ rest) (outdoors s [] i false d g)
        ≡ read_chars false rest (outdoors s w i true d g)
  unfolding all_word is_empty
  word_lem_on [] rest ne all e = absurd (cc)
  word_lem_on (ch ∷ w) rest ne all e =
      turn_one _ _ _ (char_lem s i d g ch (w ++ rest) [] false (both all).0 refl (more w rest e))
      ∙ word_on w rest (ch ∷ []) (both all).1 e

module _ (s : Bytes) (d : KeyValList) (g : ConfigData) where
  last_char :
      (ch : ℕ) (b : Bytes) (w : Bool)
      → is_word ch ≡ true
      → (not w && not (is_empty b)) ≡ false
      → read_char ch [] (outdoors s b [] w d g) ≡ one (outdoors s (b ++ ch ∷ []) [] false d g)
  unfolding read_char outside word is_word at_end turn add_char end_item end_section is_empty
  last_char ch b w is more_word =
      ap (λ m. outside m ch [] (outdoors s b [] w d g)) (mark-plain ch [] is)
      ∙ ground (arith, is, more_word)

  -- A word at the end of a line, which is not the value of an item.
  pub word_end :
      (ch : ℕ) (w b : Bytes) (iw : Bool)
      → (not iw && not (is_empty b)) ≡ false
      → all_word (ch ∷ w) ≡ true
      → read_chars false (ch ∷ w) (outdoors s b [] iw d g)
        ≡ going (outdoors s (b ++ ch ∷ w) [] false d g)
  unfolding all_word read_chars is_empty
  word_end ch [] b iw more_word all = turn_one _ _ _ (last_char ch b iw (both all).0 more_word)
  word_end ch (c ∷ w) b iw more_word all =
      turn_one _ _ _ (char_lem s [] d g ch (c ∷ w) b iw (both all).0 more_word refl)
      ∙ (word_end c w (b ++ ch ∷ []) true refl (both all).1
          ∙ ap (λ b'. going (outdoors s b' [] false d g)) (append_assoc b (ch ∷ []) (c ∷ w)))
