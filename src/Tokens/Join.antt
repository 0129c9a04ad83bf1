-- ===== src/Tokens/Join.antt =====
-- The tokens of a text that was joined from labels.
use anope.Base.{
  ℕ, ◌≡◌, refl, sym, ap, ◌∙◌, ◌≢◌, Option, none, some, List, [], ◌∷◌, ◌++◌, append-nil,
  append_assoc, Bytes, ==_iff, ==_no, All, ℕ_discrete,
}
use anope.Tokens.{trim_end, get_token, get_token_loop, tokens_loop, tokens}

-- A label: some characters, none of them the separator.
abbrev pub IsLabel : ℕ → Bytes → Type 0
IsLabel sep l = (l ≢ []) × All (λ c. c ≢ sep) l

-- Labels behind the first, each with the separator before it; and a text of labels.
unfoldable pub joined : ℕ → List Bytes → Bytes
joined sep [] = []
joined sep (l ∷ ls) = sep ∷ (l ++ joined sep ls)

unfoldable pub join : ℕ → List Bytes → Bytes
join sep [] = []
join sep (l ∷ ls) = l ++ joined sep ls

module _ (sep : ℕ) (passed : Bytes) (c d : ℕ) (s : Bytes) where
  tokens_stop :
      c ≡ sep → tokens_loop sep passed (c ∷ d ∷ s) ≡ trim_end sep passed ∷ tokens sep (d ∷ s)
  unfolding tokens_loop tokens
  tokens_stop e = rw ((==_iff c sep).1 e, tokens_loop) refl

  tokens_pass :
      c ≢ sep → tokens_loop sep passed (c ∷ d ∷ s) ≡ tokens_loop sep (passed ++ c ∷ []) (d ∷ s)
  unfolding tokens_loop
  tokens_pass ne = rw (==_no c sep ne, tokens_loop) refl

  get_token_stop :
      c ≡ sep → get_token_loop sep passed (c ∷ d ∷ s) ≡ some (trim_end sep passed, d ∷ s)
  unfolding get_token_loop
  get_token_stop e = rw ((==_iff c sep).1 e, get_token_loop) refl

  get_token_pass :
      c ≢ sep
      → get_token_loop sep passed (c ∷ d ∷ s) ≡ get_token_loop sep (passed ++ c ∷ []) (d ∷ s)
  unfolding get_token_loop
  get_token_pass ne = rw (==_no c sep ne, get_token_loop) refl

-- The token, and the tokens of what is left.
unfoldable yielded : ℕ → Option (Bytes × Bytes) → List Bytes
yielded sep none = []
yielded sep (some (t, rest)) = t ∷ tokens sep rest

-- `while (sep.GetToken(token))` sees what `GetToken` gives and then the tokens of the rest.
tokens-get_token :
    (sep : ℕ) (passed s : Bytes)
    → tokens_loop sep passed s ≡ yielded sep (get_token_loop sep passed s)
unfolding yielded tokens_loop get_token_loop tokens
tokens-get_token sep passed [] = refl
tokens-get_token sep passed (c ∷ []) = refl
tokens-get_token sep passed (c ∷ d ∷ s) = elim (ℕ_discrete c sep) [
  | yes e ↦
      tokens_stop sep passed c d s e ∙ sym (ap (yielded sep) (get_token_stop sep passed c d s e))
  | no ne ↦
      tokens_pass sep passed c d s ne
      ∙ (tokens-get_token sep (passed ++ c ∷ []) (d ∷ s)
          ∙ sym (ap (yielded sep) (get_token_pass sep passed c d s ne)))
]

trim_end-keeps : (sep : ℕ) (l : Bytes) → All (λ c. c ≢ sep) l → trim_end sep l ≡ l
unfolding trim_end
trim_end-keeps sep [] ok = refl
trim_end-keeps sep (c ∷ l) (ne, ok) = rw (trim_end-keeps sep l ok, ==_no c sep ne) refl

-- A label that is followed by the separator and more.
tokens-next :
    (sep : ℕ) (passed l : Bytes) (d : ℕ) (s : Bytes)
    → All (λ c. c ≢ sep) l
    → tokens_loop sep passed (l ++ sep ∷ d ∷ s) ≡ trim_end sep (passed ++ l) ∷ tokens sep (d ∷ s)
tokens-next sep passed [] d s ok =
    tokens_stop sep passed sep d s refl
    ∙ ap (λ t. trim_end sep t ∷ tokens sep (d ∷ s)) (sym (append-nil passed))
tokens-next sep passed (c ∷ []) d s (ne, ok) =
    tokens_pass sep passed c sep (d ∷ s) ne ∙ tokens_stop sep (passed ++ c ∷ []) sep d s refl
tokens-next sep passed (c ∷ b ∷ l) d s (ne, ok) =
    tokens_pass sep passed c b (l ++ sep ∷ d ∷ s) ne
    ∙ (tokens-next sep (passed ++ c ∷ []) (b ∷ l) d s ok
        ∙ ap (λ t. trim_end sep t ∷ tokens sep (d ∷ s)) (append_assoc passed (c ∷ []) (b ∷ l)))

-- A label that ends the text.
tokens-last :
    (sep : ℕ) (passed l : Bytes)
    → l ≢ []
    → All (λ c. c ≢ sep) l
    → tokens_loop sep passed l ≡ trim_end sep (passed ++ l) ∷ []
unfolding tokens_loop
tokens-last sep passed [] some_text ok = absurd (some_text refl)
tokens-last sep passed (c ∷ []) some_text ok = refl
tokens-last sep passed (c ∷ d ∷ l) some_text (ne, ok) =
    tokens_pass sep passed c d l ne
    ∙ (tokens-last sep (passed ++ c ∷ []) (d ∷ l) (λ e. cc) ok
        ∙ ap (λ t. trim_end sep t ∷ []) (append_assoc passed (c ∷ []) (d ∷ l)))

-- The tokens of labels that are joined are the labels.
pub tokens-join : (sep : ℕ) (ls : List Bytes) → All (IsLabel sep) ls → tokens sep (join sep ls) ≡ ls
unfolding join joined tokens tokens_loop
tokens-join sep [] ok = refl
tokens-join sep (l ∷ []) ((some_text, ok), rest) =
    rw (append-nil l, tokens-last sep [] l some_text ok, trim_end-keeps sep l ok) refl
tokens-join sep (l ∷ [] ∷ ls) (h, ((some_text, ok), rest)) = absurd (some_text refl)
tokens-join sep (l ∷ (c ∷ k) ∷ ls) ((some_text, ok), rest) =
    rw
      (
        tokens-next sep [] l c (k ++ joined sep ls) ok,
        trim_end-keeps sep l ok,
        tokens-join sep ((c ∷ k) ∷ ls) rest,
      )
      refl

-- The last label of a text is the token, and nothing is left.
get_token_loop-last :
    (sep : ℕ) (passed l : Bytes)
    → l ≢ []
    → All (λ c. c ≢ sep) l
    → get_token_loop sep passed l ≡ some (trim_end sep (passed ++ l), [])
unfolding get_token_loop
get_token_loop-last sep passed [] ne ok = absurd (ne refl)
get_token_loop-last sep passed (c ∷ []) ne ok = refl
get_token_loop-last sep passed (c ∷ d ∷ l) ne (other, ok) =
    get_token_pass sep passed c d l other
    ∙ (get_token_loop-last sep (passed ++ c ∷ []) (d ∷ l) (λ e. cc) ok
        ∙ ap (λ t. some (trim_end sep t, [])) (append_assoc passed (c ∷ []) (d ∷ l)))

pub get_token-last :
    (sep : ℕ) (l : Bytes) → l ≢ [] → All (λ c. c ≢ sep) l → get_token sep l ≡ some (l, [])
unfolding get_token
get_token-last sep l ne ok =
    get_token_loop-last sep [] l ne ok ∙ ap (λ t. some (t, [])) (trim_end-keeps sep l ok)
