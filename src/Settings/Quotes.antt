-- ===== src/Settings/Quotes.antt =====
-- Quoted texts of a configuration file.
use anope.Base.{
  ℕ, ◌≡◌, refl, sym, ap, ◌∙◌, inl, inr, Bool, true, false, not, ◌&&◌, ◌||◌, [], ◌∷◌, ◌++◌,
  append-nil, append_assoc, arith, Bytes, ◌==◌, if◌then◌else◌, Bool-cases,
}
use anope.Text.{is_empty}
use anope.Settings.{
  Loading, KeyValList, ConfigData, going, one, two, turn, starts, add_char, end_item, end_section,
  at_end, quoted, read_char, read_chars,
}
use anope.Settings.Words.{turn_one, outdoors, turn_two}

-- A backslash before each quote.
unfoldable pub escape : Bytes → Bytes
escape [] = []
escape (ch ∷ v) = let rest = escape v in if ch == b'"' then b'\\' ∷ b'"' ∷ rest else ch ∷ rest

-- A newline behind each `;` and `}`.
unfoldable pub spread : Bytes → Bytes
spread [] = []
spread (ch ∷ v) =
    let rest = spread v in if ch == b';' || ch == b'}' then ch ∷ 10 ∷ rest else ch ∷ rest

-- Not the text of a backslash at its end.
unfoldable pub closes : Bytes → Bool
closes [] = true
closes (ch ∷ v) = if is_empty v then not (ch == b'\\') else closes v

abbrev pub indoors : Bytes → Bytes → Bytes → KeyValList → ConfigData → Loading
indoors section wordbuffer itemname sectiondata config_data = record {
  section = section;
  wordbuffer = wordbuffer;
  itemname = itemname;
  in_word = true;
  in_quote = true;
  in_ml_comment = false;
  sectiondata = sectiondata;
  config_data = config_data;
}

-- What follows a character of the text, up to the quote.
abbrev ahead : Bytes → Bytes
ahead v = escape v ++ b'"' ∷ []

no_escape :
    (ch : ℕ) (v : Bytes) → closes (ch ∷ v) ≡ true → (ch == b'\\' && starts b'"' (ahead v)) ≡ false
unfolding closes escape starts is_empty
no_escape ch [] c = ground (arith, c)
no_escape ch (x ∷ v) c = ground arith

closes_behind : (ch : ℕ) (v : Bytes) → closes (ch ∷ v) ≡ true → closes v ≡ true
unfolding closes is_empty
closes_behind ch [] c = refl
closes_behind ch (x ∷ v) c = c

ahead_more : (v : Bytes) → is_empty (ahead v) ≡ false
unfolding is_empty escape
ahead_more [] = refl
ahead_more (ch ∷ v) = ground arith

ahead_quote : (ch : ℕ) (v : Bytes) → (ch == b'"') ≡ true → ahead (ch ∷ v) ≡ b'\\' ∷ b'"' ∷ ahead v
unfolding escape
ahead_quote ch v e = rw e refl

ahead_plain : (ch : ℕ) (v : Bytes) → (ch == b'"') ≡ false → ahead (ch ∷ v) ≡ ch ∷ ahead v
unfolding escape
ahead_plain ch v e = rw e refl

spread_quote : (ch : ℕ) (v : Bytes) → (ch == b'"') ≡ true → spread (ch ∷ v) ≡ b'"' ∷ spread v
unfolding spread
spread_quote ch v e = ground (arith, e)

module _ (s i : Bytes) (d : KeyValList) (g : ConfigData) where
  escaped_quote :
      (rest b : Bytes)
      → is_empty rest ≡ false
      → read_char b'\\' (b'"' ∷ rest) (indoors s b i d g) ≡ two (indoors s (b ++ b'"' ∷ []) i d g)
  unfolding read_char quoted starts at_end turn add_char
  escaped_quote rest b e = rw e refl

  -- What a character of the text adds.
  added : ℕ → Bytes
  added ch = if ch == b';' || ch == b'}' then ch ∷ 10 ∷ [] else ch ∷ []

  quoted_char :
      (ch : ℕ) (rest b : Bytes)
      → (ch == b'"') ≡ false
      → (ch == b'\\' && starts b'"' rest) ≡ false
      → is_empty rest ≡ false
      → read_char ch rest (indoors s b i d g) ≡ one (indoors s (b ++ added ch) i d g)
  unfolding read_char quoted at_end turn add_char added
  quoted_char ch rest b nq ne e = elim (Bool-cases (ch == b';' || ch == b'}')) [
    | inl t ↦ ground (arith, nq, ne, e, t, append_assoc b (ch ∷ []) (10 ∷ []))
    | inr t ↦ ground (arith, nq, ne, e, t)
  ]

  spread-added : (ch : ℕ) (v : Bytes) → spread (ch ∷ v) ≡ added ch ++ spread v
  unfolding spread added
  spread-added ch v = elim (Bool-cases (ch == b';' || ch == b'}')) [
    | inl e ↦ rw e refl
    | inr e ↦ rw e refl
  ]

  -- The text up to the quote that ends it.
  pub quoted_lem :
      (v b : Bytes)
      → closes v ≡ true
      → read_chars false (ahead v) (indoors s b i d g)
        ≡ read_chars false (b'"' ∷ []) (indoors s (b ++ spread v) i d g)
  unfolding escape spread
  quoted_lem [] b c =
      ap (λ b'. read_chars false (b'"' ∷ []) (indoors s b' i d g)) (sym (append-nil b))
  quoted_lem (ch ∷ v) b c =
      let rest = quoted_lem v in
      let at_word = λ (w : Bytes). read_chars false (b'"' ∷ []) (indoors s w i d g) in
      let behind = closes_behind ch v c in
      elim (Bool-cases (ch == b'"')) [
        | inl e ↦
            ap (λ t. read_chars false t (indoors s b i d g)) (ahead_quote ch v e)
            ∙ (turn_two _ _ _ _ (escaped_quote (ahead v) b (ahead_more v))
                ∙ (rest (b ++ b'"' ∷ []) behind
                    ∙ ap at_word (
                        append_assoc b (b'"' ∷ []) (spread v)
                        ∙ ap (λ w. b ++ w) (sym (spread_quote ch v e)))))
        | inr e ↦
            ap (λ t. read_chars false t (indoors s b i d g)) (ahead_plain ch v e)
            ∙ (turn_one _ _ _ (quoted_char ch (ahead v) b e (no_escape ch v c) (ahead_more v))
                ∙ (rest (b ++ added ch) behind
                    ∙ ap at_word (
                        append_assoc b (added ch) (spread v)
                        ∙ ap (λ w. b ++ w) (sym (spread-added ch v)))))
      ]

  closing_char :
      (b : Bytes)
      → is_empty i ≡ false
      → read_char b'"' [] (indoors s b i d g) ≡ one (outdoors s [] [] false (d ++ (i, b) ∷ []) g)
  unfolding read_char quoted starts at_end turn end_item end_section is_empty
  closing_char b e = rw e refl

  pub closing_lem :
      (b : Bytes)
      → is_empty i ≡ false
      → read_chars false (b'"' ∷ []) (indoors s b i d g)
        ≡ going (outdoors s [] [] false (d ++ (i, b) ∷ []) g)
  unfolding read_chars
  closing_lem b e = turn_one _ _ _ (closing_char b e)
