-- ===== src/Dns/Pack.antt =====
-- src/dns.cpp: `PackName`. The bytes go into a buffer at a position; a write that the buffer has no
-- place for is `outside`.
use anope.Base.{ℕ, zero, suc, ◌+◌, ◌%◌, List, [], ◌∷◌, Bytes, ltb, if◌then◌else◌, length}
use anope.Dns.{Outcome, ok, refused, outside, after, u16}
use anope.Tokens.{tokens}

-- `output[i] = v`.
unfoldable pub put_byte : ℕ → ℕ → Bytes → Outcome Bytes
put_byte i v [] = outside
put_byte zero v (b ∷ output) = ok (v ∷ output)
put_byte (suc i) v (b ∷ output) = after (put_byte i v output) (λ output'. ok (b ∷ output'))

-- `memcpy` to a place.
unfoldable pub put_bytes : ℕ → Bytes → Bytes → Outcome Bytes
put_bytes i [] output = ok output
put_bytes i (v ∷ vs) output = after (put_byte i v output) (λ output'. put_bytes (suc i) vs output')

-- The loop: the length, as an `unsigned char`, and the characters of each token.
unfoldable pub pack_labels : List Bytes → ℕ → Bytes → Outcome (ℕ × Bytes)
pack_labels [] pos output = ok (pos, output)
pack_labels (t ∷ ts) pos output = after (put_byte pos (length t % 256) output) (λ output'.
    after (put_bytes (u16 (pos + 1)) t output')
      (λ output''. pack_labels ts (u16 (u16 (pos + 1) + length t)) output''))

-- `PackName`: the new position and the buffer.
unfoldable pub pack_name : Bytes → ℕ → ℕ → Bytes → Outcome (ℕ × Bytes)
pack_name output output_size pos name =
    if ltb output_size (length name + 2)
    then refused
    else after (pack_labels (tokens b'.' name) pos output) (λ (pos', output').
      after (put_byte pos' 0 output') (λ output''. ok (u16 (pos' + 1), output'')))
