-- ===== src/Base64/Tests.antt =====
-- Tests of the codec of src/base64.cpp, and its theorems at concrete texts.
use anope.Base.{◌≡◌, refl, inl, none, some, [], arith, codes}
use anope.Base64.{
  encode, decode, digit, is_space, find_from, or_last, put, decode_loop, drop_zero, finish,
}
use anope.Base64.RoundTrip.{decode-encode}

encode_hello : encode (codes "Hello") ≡ codes "SGVsbG8="
unfolding encode digit
encode_hello = refl

decode_foreign : decode (codes "SGVs*bG8=") ≡ some (codes "Hel")
unfolding decode decode_loop is_space find_from put or_last finish
decode_foreign = refl

decode_empty : decode [] ≡ none
unfolding decode decode_loop finish drop_zero
decode_empty = refl

decode-encode_example : decode (encode (codes "Anope")) ≡ some (codes "Anope")
decode-encode_example = decode-encode (codes "Anope") (omega arith) (inl (omega arith))
