-- ===== src/Buffers/Hex.antt =====
-- `Anope::Unhex` undoes `Anope::Hex`.
use Prim.Native.Nat.{bit_and}
use anope.Base.{ℕ, ◌/◌, ◌^◌, ◌<◌, ◌≡◌, refl, [], ◌∷◌, Bytes, ◌==◌, ==_iff, get_or, All}
use anope.Base.Bits.{every_below, every_below_at}
use anope.Buffers.{hex, hextable, nibble, unhex_byte, unhex}

hex_byte :
    (c : ℕ)
    → c < 256
    → unhex_byte (get_or hextable (c / 2 ^ 4) 0) (get_or hextable (bit_and c 0xF) 0) ≡ c
unfolding every_below unhex_byte nibble
hex_byte c h =
    (==_iff (unhex_byte (get_or hextable (c / 2 ^ 4) 0) (get_or hextable (bit_and c 0xF) 0)) c).0 (
      every_below_at 256
        (λ d. unhex_byte (get_or hextable (d / 2 ^ 4) 0) (get_or hextable (bit_and d 0xF) 0) == d) c
        refl h)

-- `Unhex` of `Hex` gives back every list of bytes.
pub unhex-hex : (bytes : Bytes) → All (λ c. c < 256) bytes → unhex (hex bytes) ≡ bytes
unfolding unhex hex
unhex-hex [] h = refl
unhex-hex (c ∷ bytes) (hc, h) = rw (hex_byte c hc, unhex-hex bytes h) refl
