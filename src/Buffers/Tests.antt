-- ===== src/Buffers/Tests.antt =====
-- The helpers of src/misc.cpp on concrete texts.
use anope.Base.{List, ◌≢◌, arith, ◌≡◌, refl, true, false, [], ◌∷◌, Bytes, codes, All}
use anope.Buffers.{
  hex, is_digit, skip_digit, skip_background, skip_color, is_dropped, normalize_loop,
  normalize_buffer, is_ident_char, every, is_valid_ident,
}
use anope.Buffers.Clean.{
  normalize_buffer_lem, IsPlain, Code, code_byte, ctrl, bold, line_feed, carriage_return, reverse,
  italic, underline, Piece, plain, code, color, spell,
}

hex_text : hex (codes "Ab~") ≡ codes "41627e"
unfolding hex
hex_text = refl

abbrev colored : Bytes
colored = 2 ∷ b'a' ∷ 3 ∷ b'1' ∷ b'2' ∷ b',' ∷ b'4' ∷ b'b' ∷ 31 ∷ b'c' ∷ []

normalized : normalize_buffer colored ≡ codes "abc"
unfolding normalize_buffer normalize_loop skip_color skip_background skip_digit is_digit is_dropped
normalized = refl

idents : (is_valid_ident 10 (codes "a-b.9") ≡ true) × (is_valid_ident 10 (codes "~a") ≡ false)
unfolding is_valid_ident every is_ident_char
idents = (refl, refl)

a-IsPlain : IsPlain b'a'
a-IsPlain = (λ e. omega (arith, e), λ k e. no_code k e)
  where
    no_code : (k : Code) → b'a' ≢ code_byte k
    no_code ctrl e = omega (arith, e)
    no_code bold e = omega (arith, e)
    no_code line_feed e = omega (arith, e)
    no_code carriage_return e = omega (arith, e)
    no_code reverse e = omega (arith, e)
    no_code italic e = omega (arith, e)
    no_code underline e = omega (arith, e)

four-IsPlain : IsPlain b'4'
four-IsPlain = (λ e. omega (arith, e), λ k e. no_code k e)
  where
    no_code : (k : Code) → b'4' ≢ code_byte k
    no_code ctrl e = omega (arith, e)
    no_code bold e = omega (arith, e)
    no_code line_feed e = omega (arith, e)
    no_code carriage_return e = omega (arith, e)
    no_code reverse e = omega (arith, e)
    no_code italic e = omega (arith, e)
    no_code underline e = omega (arith, e)

reset-IsPlain : IsPlain 15
reset-IsPlain = (λ e. omega (arith, e), λ k e. no_code k e)
  where
    no_code : (k : Code) → 15 ≢ code_byte k
    no_code ctrl e = omega (arith, e)
    no_code bold e = omega (arith, e)
    no_code line_feed e = omega (arith, e)
    no_code carriage_return e = omega (arith, e)
    no_code reverse e = omega (arith, e)
    no_code italic e = omega (arith, e)
    no_code underline e = omega (arith, e)

abbrev pieces : List Piece
pieces = code bold ∷ plain b'a' ∷ color 1 2 0 4 ∷ plain b'4' ∷ code underline ∷ plain 15 ∷ []

normalize_buffer_example :
    All IsPlain (normalize_buffer colored)
    × (normalize_buffer (normalize_buffer colored) ≡ normalize_buffer colored)
    × (normalize_buffer (spell pieces) ≡ b'a' ∷ b'4' ∷ 15 ∷ [])
normalize_buffer_example = normalize_buffer_lem colored pieces (
  tt,
  (
    a-IsPlain,
    (
      (omega arith, omega arith, omega arith, omega arith),
      (four-IsPlain, (tt, (reset-IsPlain, tt))),
    ),
  ),
)
