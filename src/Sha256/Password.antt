-- ===== src/Sha256/Password.antt =====
-- A password that was stored by `OnEncrypt` is accepted by `OnCheckAuthentication`.
use Prim.Native.Nat.{bit_and}
use anope.Base.{
  ℕ, ◌/◌, ◌%◌, ◌^◌, ◌<◌, ◌≡◌, refl, ap, Bool, true, false, not, some, List, [], ◌∷◌, ◌++◌, arith,
  Bytes, codes, ◌==◌, length, get_or, All,
}
use anope.Base.Bits.{every_below, every_below_at}
use anope.Text.Order.{equals_cs_iff}
use anope.Buffers.{hex, hextable}
use anope.Buffers.Hex.{unhex-hex}
use anope.Sha256.Blocks.{digest_same}
use anope.Sha256.{
  Working, word, unpack32, pack32, unpack_all, pack_words, Context, digest_of, on_encrypt, behind,
  iv_text, get_iv_from_pass, sha256_final, digest, get_iv_string, before, working_of, event_allow,
  check_authentication,
}

-- Eight words of 32 bits.
abbrev pub IsWords : Working → Type 0
IsWords s =
    (s.a < word)
    × (s.b < word)
    × (s.c < word)
    × (s.d < word)
    × (s.e < word)
    × (s.f < word)
    × (s.g < word)
    × (s.h < word)

unpack_all-All : (ws : List ℕ) → All (λ c. c < 256) (unpack_all ws)
unfolding unpack_all unpack32
unpack_all-All [] = tt
unpack_all-All (w ∷ ws) =
    (omega arith, (omega arith, (omega arith, (omega arith, unpack_all-All ws))))

digest_of-All : (s : Working) → All (λ c. c < 256) (digest_of s)
unfolding digest_of
digest_of-All s = unpack_all-All _

-- No digit of `hex` is a colon.
hex-All : (bytes : Bytes) → All (λ c. c < 256) bytes → All (λ c. (c == b':') ≡ false) (hex bytes)
unfolding hex every_below
hex-All [] h = tt
hex-All (c ∷ bytes) (hc, h) =
    let low = every_below_at 256 (λ d. not (get_or hextable (bit_and d 0xF) 0 == b':')) c refl hc in
    let high = every_below_at 256 (λ d. not (get_or hextable (d / 2 ^ 4) 0 == b':')) c refl hc in
    (negated _ high, (negated _ low, hex-All bytes h))
  where
    negated : (b : Bool) → not b ≡ true → b ≡ false
    negated true n = absurd (cc)
    negated false n = refl

behind_colon :
    (s rest : Bytes) → All (λ c. (c == b':') ≡ false) s → behind (s ++ b':' ∷ rest) ≡ some rest
unfolding behind
behind_colon [] rest h = refl
behind_colon (c ∷ s) rest (hc, h) = rw hc (behind_colon s rest h)

pack32-unpack32 :
    (x : ℕ)
    → x < word
    → pack32 (x / 2 ^ 24 % 256) (x / 2 ^ 16 % 256) (x / 2 ^ 8 % 256) (x % 256) ≡ x
unfolding pack32
pack32-unpack32 x h = omega arith

pack_words-unpack_all :
    (ws : List ℕ) (rest : Bytes)
    → All (λ w. w < word) ws
    → pack_words (length ws) (unpack_all ws ++ rest) ≡ ws
unfolding unpack_all unpack32 pack_words
pack_words-unpack_all [] [] h = refl
pack_words-unpack_all [] (c ∷ rest) h = refl
pack_words-unpack_all (w ∷ ws) rest (hw, h) =
    rw (pack32-unpack32 w hw, pack_words-unpack_all ws rest h) refl

digest-All : (iv : Working) (ctx : Context) (src : Bytes) → All (λ c. c < 256) (digest iv ctx src)
unfolding digest sha256_final
digest-All iv ctx src = digest_of-All _

behind-on_encrypt :
    (iv : Working) (ctx : Context) (src : Bytes)
    → behind (on_encrypt iv ctx src) ≡ some (hex (digest iv ctx src) ++ b':' ∷ hex (digest_of iv))
unfolding behind on_encrypt get_iv_string
behind-on_encrypt iv ctx src = refl

before-on_encrypt :
    (iv : Working) (ctx : Context) (src : Bytes) → before (on_encrypt iv ctx src) ≡ codes "sha256"
unfolding before on_encrypt
before-on_encrypt iv ctx src = refl

iv_text-on_encrypt :
    (iv : Working) (ctx : Context) (src : Bytes)
    → iv_text (on_encrypt iv ctx src) ≡ hex (digest_of iv)
unfolding iv_text
iv_text-on_encrypt iv ctx src =
    rw
      (
        behind-on_encrypt iv ctx src,
        iv_text,
        behind_colon (hex (digest iv ctx src)) (hex (digest_of iv))
            (hex-All _ (digest-All iv ctx src)),
      )
      refl

length-digest_of : (s : Working) → length (digest_of s) ≡ 32
unfolding digest_of unpack_all unpack32
length-digest_of s = refl

words-digest_of :
    (s : Working)
    → IsWords s
    → pack_words 8 (digest_of s ++ 0 ∷ []) ≡ s.a ∷ s.b ∷ s.c ∷ s.d ∷ s.e ∷ s.f ∷ s.g ∷ s.h ∷ []
unfolding digest_of
words-digest_of s (ha, hb, hc, hd, he, hf, hg, hh) =
    pack_words-unpack_all _ (0 ∷ []) (ha, (hb, (hc, (hd, (he, (hf, (hg, (hh, tt))))))))

-- The vector is read back from the stored text.
get_iv_from_pass-on_encrypt :
    (iv : Working) (ctx : Context) (password : Bytes)
    → IsWords iv
    → get_iv_from_pass (on_encrypt iv ctx password) ≡ some iv
unfolding get_iv_from_pass working_of
get_iv_from_pass-on_encrypt iv ctx password w =
    rw
      (
        iv_text-on_encrypt iv ctx password,
        unhex-hex (digest_of iv) (digest_of-All iv),
        length-digest_of iv,
        words-digest_of iv w,
      )
      refl

on_encrypt_same :
    (iv : Working) (ctx ctx' : Context) (password : Bytes)
    → on_encrypt iv ctx password ≡ on_encrypt iv ctx' password
unfolding on_encrypt
on_encrypt_same iv ctx ctx' password =
    ap (λ d. codes "sha256:" ++ hex d ++ b':' ∷ get_iv_string iv) (digest_same iv ctx ctx' password)

-- The text that `OnEncrypt` stores for a password, with a vector of eight words, lets
-- `OnCheckAuthentication` accept that password, whatever the contexts of the two hashes held before. The
-- stored text is the same for any context, and the vector is read back from it.
pub check_authentication-on_encrypt :
    (iv : Working) (ctx ctx' : Context) (password : Bytes)
    → IsWords iv
    → (check_authentication (some (on_encrypt iv ctx password)) ctx' password ≡ event_allow)
      × (on_encrypt iv ctx password ≡ on_encrypt iv ctx' password)
      × (get_iv_from_pass (on_encrypt iv ctx password) ≡ some iv)
unfolding check_authentication
check_authentication-on_encrypt iv ctx ctx' password w =
    let same = on_encrypt_same iv ctx ctx' password in
    let vector = get_iv_from_pass-on_encrypt iv ctx password w in
    (
      rw
          (
            behind-on_encrypt iv ctx password,
            before-on_encrypt iv ctx password,
            vector,
            check_authentication,
            (equals_cs_iff (codes "sha256") (codes "sha256")).1 refl,
            (equals_cs_iff (on_encrypt iv ctx password) (on_encrypt iv ctx' password)).1 same,
          )
          refl,
      same,
      vector,
    )
