-- ===== src/Sha256/Tests.antt =====
-- The hash on the standard test texts, and a password.
use anope.Base.{◌≡◌, ◌∷◌, refl, some, arith, codes}
use anope.Buffers.{hex}
use anope.Sha256.Password.{check_authentication-on_encrypt}
use anope.Sha256.{
  Working, shfr, rotr, xor3, ch, maj, f1, f2, f3, f4, unpack32, pack32, unpack_all, pack_words,
  schedule, round, rounds, compress, transform, Context, write_at, zeros, sha256_init,
  sha256_update, digest_of, sha256_final, digest, on_encrypt, get_iv_from_pass, event_allow,
  check_authentication,
}

abbrev standard : Working
standard = record {
  a = 0x6a09e667;
  b = 0xbb67ae85;
  c = 0x3c6ef372;
  d = 0xa54ff53a;
  e = 0x510e527f;
  f = 0x9b05688c;
  g = 0x1f83d9ab;
  h = 0x5be0cd19;
}

abbrev dirty : Context
dirty = record { tot_len = 3; len = 5; block = zeros 128; state = standard }

abc_digest :
    hex (digest standard dirty (codes "abc"))
    ≡ codes "ba7816bf8f01cfea414140de5dae2223b00361a396177a9cb410ff61f20015ad"
unfolding hex digest sha256_init sha256_update sha256_final digest_of transform compress rounds
    round schedule write_at zeros unpack_all unpack32 pack_words pack32 f1 f2 f3 f4 ch maj xor3 rotr
    shfr
abc_digest = refl

abbrev clean : Context
clean = record { tot_len = 0; len = 0; block = 0x55 ∷ zeros 127; state = standard }

check_authentication-on_encrypt_example :
    (check_authentication (some (on_encrypt standard dirty (codes "secret"))) clean (codes "secret")
      ≡ event_allow)
    × (on_encrypt standard dirty (codes "secret") ≡ on_encrypt standard clean (codes "secret"))
    × (get_iv_from_pass (on_encrypt standard dirty (codes "secret")) ≡ some standard)
check_authentication-on_encrypt_example =
    check_authentication-on_encrypt standard dirty clean (codes "secret") (
      omega arith,
      omega arith,
      omega arith,
      omega arith,
      omega arith,
      omega arith,
      omega arith,
      omega arith,
    )
