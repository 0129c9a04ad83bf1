-- ===== src/Tokens.antt =====
-- src/hashcomp.cpp: `sepstream`, which cuts a text at a separator. The place of the stream is written
-- as the text that is left, since `GetToken` leaves `last_starting_position` and `n` at one place.
pub mod Join
use anope.Base.{
  ℕ, Bool, true, false, ◌&&◌, Option, none, some, List, [], ◌∷◌, ◌++◌, Bytes, ◌==◌, if◌then◌else◌,
}
use anope.Text.{is_empty}

-- The separators at the end of a token go.
unfoldable pub trim_end : ℕ → Bytes → Bytes
trim_end sep [] = []
trim_end sep (c ∷ s) =
    let rest = trim_end sep s in if c == sep && is_empty rest then [] else c ∷ rest

-- The loop of `GetToken`, with the characters of the token that it has passed.
unfoldable pub get_token_loop : ℕ → Bytes → Bytes → Option (Bytes × Bytes)
get_token_loop sep passed [] = none
get_token_loop sep passed (c ∷ []) = some (trim_end sep (passed ++ c ∷ []), [])
get_token_loop sep passed (c ∷ d ∷ s) =
    let rest = get_token_loop sep (passed ++ c ∷ []) (d ∷ s) in
    if c == sep then some (trim_end sep passed, d ∷ s) else rest

-- `GetToken`: the token and the text that is left, which is `GetRemaining`.
unfoldable pub get_token : ℕ → Bytes → Option (Bytes × Bytes)
get_token sep s = get_token_loop sep [] s

unfoldable pub stream_end : Bytes → Bool
stream_end s = is_empty s

-- The tokens that `while (sep.GetToken(token))` sees, with the characters passed.
unfoldable pub tokens_loop : ℕ → Bytes → Bytes → List Bytes
tokens_loop sep passed [] = []
tokens_loop sep passed (c ∷ []) = trim_end sep (passed ++ c ∷ []) ∷ []
tokens_loop sep passed (c ∷ d ∷ s) = elim (c == sep) [
  | true ↦ trim_end sep passed ∷ tokens_loop sep [] (d ∷ s)
  | false ↦ tokens_loop sep (passed ++ c ∷ []) (d ∷ s)
]

unfoldable pub tokens : ℕ → Bytes → List Bytes
tokens sep s = tokens_loop sep [] s
