-- ===== src/Sha256.antt =====
-- src/modules/encryption/enc_sha256.cpp: the hash, and the passwords stored as `sha256:digest:iv`.
-- A 32-bit word is a number below 2 ^ 32 and sums wrap. Shifted parts that do not overlap are added
-- where the source joins them by `|`. A context starts with any contents, as it does on the stack.
pub mod Blocks
pub mod Password
mod Tests
use Prim.Native.Nat.{bit_and, bit_xor}
use anope.Base.{
  ℕ, zero, suc, ◌+◌, ◌-◌, ◌*◌, ◌/◌, ◌%◌, ◌^◌, not, Option, none, some, List, [], ◌∷◌, ◌++◌, Bytes,
  codes, ltb, ◌==◌, if◌then◌else◌, length, get_or, take, drop,
}
use anope.Text.{equals_cs}
use anope.Buffers.{hex, unhex}

abbrev pub word : ℕ
word = 2 ^ 32

unfoldable pub shfr : ℕ → ℕ → ℕ
shfr x n = x / 2 ^ n

unfoldable pub rotr : ℕ → ℕ → ℕ
rotr x n = x / 2 ^ n + x * 2 ^ (32 - n) % word

unfoldable pub xor3 : ℕ → ℕ → ℕ → ℕ
xor3 a b c = bit_xor (bit_xor a b) c

-- `CH` and `MAJ`; `~x` on a word.
unfoldable pub ch : ℕ → ℕ → ℕ → ℕ
ch x y z = bit_xor (bit_and x y) (bit_and (word - 1 - x) z)

unfoldable pub maj : ℕ → ℕ → ℕ → ℕ
maj x y z = xor3 (bit_and x y) (bit_and x z) (bit_and y z)

unfoldable pub f1 : ℕ → ℕ
f1 x = xor3 (rotr x 2) (rotr x 13) (rotr x 22)

unfoldable pub f2 : ℕ → ℕ
f2 x = xor3 (rotr x 6) (rotr x 11) (rotr x 25)

unfoldable pub f3 : ℕ → ℕ
f3 x = xor3 (rotr x 7) (rotr x 18) (shfr x 3)

unfoldable pub f4 : ℕ → ℕ
f4 x = xor3 (rotr x 17) (rotr x 19) (shfr x 10)

-- `UNPACK32` and `PACK32`, the highest byte first.
unfoldable pub unpack32 : ℕ → Bytes
unpack32 x = x / 2 ^ 24 % 256 ∷ x / 2 ^ 16 % 256 ∷ x / 2 ^ 8 % 256 ∷ x % 256 ∷ []

unfoldable pub pack32 : ℕ → ℕ → ℕ → ℕ → ℕ
pack32 a b c d = a * 2 ^ 24 + b * 2 ^ 16 + c * 2 ^ 8 + d

unfoldable pub unpack_all : List ℕ → Bytes
unpack_all [] = []
unpack_all (x ∷ xs) = unpack32 x ++ unpack_all xs

-- `n` words from the front.
unfoldable pub pack_words : ℕ → Bytes → List ℕ
pack_words (suc n) (a ∷ b ∷ c ∷ d ∷ rest) = pack32 a b c d ∷ pack_words n rest
pack_words n s = []

abbrev pub sha256_k : List ℕ
sha256_k =
    0x428a2f98 ∷ 0x71374491 ∷ 0xb5c0fbcf ∷ 0xe9b5dba5 ∷ 0x3956c25b ∷ 0x59f111f1 ∷ 0x923f82a4
    ∷ 0xab1c5ed5 ∷ 0xd807aa98 ∷ 0x12835b01 ∷ 0x243185be ∷ 0x550c7dc3 ∷ 0x72be5d74 ∷ 0x80deb1fe
    ∷ 0x9bdc06a7 ∷ 0xc19bf174 ∷ 0xe49b69c1 ∷ 0xefbe4786 ∷ 0x0fc19dc6 ∷ 0x240ca1cc ∷ 0x2de92c6f
    ∷ 0x4a7484aa ∷ 0x5cb0a9dc ∷ 0x76f988da ∷ 0x983e5152 ∷ 0xa831c66d ∷ 0xb00327c8 ∷ 0xbf597fc7
    ∷ 0xc6e00bf3 ∷ 0xd5a79147 ∷ 0x06ca6351 ∷ 0x14292967 ∷ 0x27b70a85 ∷ 0x2e1b2138 ∷ 0x4d2c6dfc
    ∷ 0x53380d13 ∷ 0x650a7354 ∷ 0x766a0abb ∷ 0x81c2c92e ∷ 0x92722c85 ∷ 0xa2bfe8a1 ∷ 0xa81a664b
    ∷ 0xc24b8b70 ∷ 0xc76c51a3 ∷ 0xd192e819 ∷ 0xd6990624 ∷ 0xf40e3585 ∷ 0x106aa070 ∷ 0x19a4c116
    ∷ 0x1e376c08 ∷ 0x2748774c ∷ 0x34b0bcb5 ∷ 0x391c0cb3 ∷ 0x4ed8aa4a ∷ 0x5b9cca4f ∷ 0x682e6ff3
    ∷ 0x748f82ee ∷ 0x78a5636f ∷ 0x84c87814 ∷ 0x8cc70208 ∷ 0x90befffa ∷ 0xa4506ceb ∷ 0xbef9a3f7
    ∷ 0xc67178f2 ∷ []

-- `SHA256_SCR`: the words from `j` on, `n` of them.
unfoldable pub schedule : ℕ → ℕ → List ℕ → List ℕ
schedule zero j w = w
schedule (suc n) j w =
    let x =
      (f4 (get_or w (j - 2) 0)
        + get_or w (j - 7) 0
        + f3 (get_or w (j - 15) 0)
        + get_or w (j - 16) 0)
      % word in
    schedule n (suc j) (w ++ x ∷ [])

pub record Working : Type 0 where
  pub a : ℕ
  pub b : ℕ
  pub c : ℕ
  pub d : ℕ
  pub e : ℕ
  pub f : ℕ
  pub g : ℕ
  pub h : ℕ

-- One round, with `k[j] + w[j]` given.
unfoldable pub round : ℕ → Working → Working
round kw v =
    let t1 = (v.h + f2 v.e + ch v.e v.f v.g + kw) % word in
    let t2 = (f1 v.a + maj v.a v.b v.c) % word in
    record {
      a = (t1 + t2) % word;
      b = v.a;
      c = v.b;
      d = v.c;
      e = (v.d + t1) % word;
      f = v.e;
      g = v.f;
      h = v.g;
    }

unfoldable pub rounds : List ℕ → List ℕ → Working → Working
rounds (k ∷ ks) (w ∷ ws) v = rounds ks ws (round (k + w) v)
rounds [] ws v = v
rounds (k ∷ ks) [] v = v

-- `wv[j] = ctx->h[j]`, the rounds, and `ctx->h[j] += wv[j]`, for one block.
unfoldable pub compress : Bytes → Working → Working
compress block s =
    let r = rounds sha256_k (schedule 48 16 (pack_words 16 block)) s in
    record {
      a = (s.a + r.a) % word;
      b = (s.b + r.b) % word;
      c = (s.c + r.c) % word;
      d = (s.d + r.d) % word;
      e = (s.e + r.e) % word;
      f = (s.f + r.f) % word;
      g = (s.g + r.g) % word;
      h = (s.h + r.h) % word;
    }

-- `SHA256Transform`, over `block_nb` blocks.
unfoldable pub transform : ℕ → Bytes → Working → Working
transform zero message s = s
transform (suc block_nb) message s =
    transform block_nb (drop 64 message) (compress (take 64 message) s)

pub record Context : Type 0 where
  pub tot_len : ℕ
  pub len : ℕ
  pub block : Bytes
  pub state : Working

-- `memcpy(block + i, bytes, length)`.
unfoldable pub write_at : Bytes → ℕ → Bytes → Bytes
write_at block i bytes = take i block ++ bytes ++ drop (i + length bytes) block

unfoldable pub zeros : ℕ → Bytes
zeros zero = []
zeros (suc n) = 0 ∷ zeros n

-- `SHA256Init`.
unfoldable pub sha256_init : Working → Context → Context
sha256_init iv ctx = record ctx { state = iv; len = 0; tot_len = 0 }

-- `SHA256Update`.
unfoldable pub sha256_update : Context → Bytes → Context
sha256_update ctx message =
    let len = length message in
    let tmp_len = 64 - ctx.len in
    let rem_len = if ltb len tmp_len then len else tmp_len in
    let block = write_at ctx.block ctx.len (take rem_len message) in
    let new_len = len - rem_len in
    let block_nb = new_len / 64 in
    let shifted = drop rem_len message in
    let rest = new_len % 64 in
    if ltb (ctx.len + len) 64 then record ctx { len = ctx.len + len; block = block } else record {
      tot_len = (ctx.tot_len + (block_nb + 1) * 64) % word;
      len = rest;
      block = write_at block 0 (take rest (drop (block_nb * 64) shifted));
      state = transform block_nb shifted (transform 1 block ctx.state);
    }

unfoldable pub digest_of : Working → Bytes
digest_of s = unpack_all (s.a ∷ s.b ∷ s.c ∷ s.d ∷ s.e ∷ s.f ∷ s.g ∷ s.h ∷ [])

-- `SHA256Final`.
unfoldable pub sha256_final : Context → Bytes
sha256_final ctx =
    let block_nb = if ltb 55 (ctx.len % 64) then 2 else 1 in
    let len_b = (ctx.tot_len + ctx.len) * 8 % word in
    let pm_len = block_nb * 64 in
    let cleared = write_at ctx.block ctx.len (zeros (pm_len - ctx.len)) in
    let marked = write_at cleared ctx.len (0x80 ∷ []) in
    digest_of (transform block_nb (write_at marked (pm_len - 4) (unpack32 len_b)) ctx.state)

unfoldable pub digest : Working → Context → Bytes → Bytes
digest iv ctx src = sha256_final (sha256_update (sha256_init iv ctx) src)

-- `GetIVString`.
unfoldable pub get_iv_string : Working → Bytes
get_iv_string iv = hex (digest_of iv)

-- The text `OnEncrypt` stores, with the initial vector that it uses.
unfoldable pub on_encrypt : Working → Context → Bytes → Bytes
on_encrypt iv ctx src = codes "sha256:" ++ hex (digest iv ctx src) ++ b':' ∷ get_iv_string iv

-- What stands behind the first `:`, and before it.
unfoldable pub behind : Bytes → Option Bytes
behind [] = none
behind (c ∷ s) = if c == b':' then some s else behind s

unfoldable pub before : Bytes → Bytes
before [] = []
before (c ∷ s) = if c == b':' then [] else c ∷ before s

-- The text that `GetIVFromPass` reads: where no `:` is found, `npos + 1` is 0 and it is the whole.
unfoldable pub iv_text : Bytes → Bytes
iv_text password = elim (behind password) [
  | none ↦ password
  | some rest ↦ elim (behind rest) [ none ↦ password | some buf ↦ buf ]
]

unfoldable pub working_of : List ℕ → Option Working
working_of (a ∷ b ∷ c ∷ d ∷ e ∷ f ∷ g ∷ h ∷ []) =
    some (record { a = a; b = b; c = c; d = d; e = e; f = f; g = g; h = h })
working_of s = none

-- `GetIVFromPass`. `none` stands for a write outside `buf2`, of 33 bytes, or a read of a byte of it
-- that was not written.
unfoldable pub get_iv_from_pass : Bytes → Option Working
get_iv_from_pass password =
    let bytes = unhex (iv_text password) in
    if ltb 32 (length bytes) then none else working_of (pack_words 8 (bytes ++ 0 ∷ []))

-- The outcome of `OnCheckAuthentication`; the re-encryption of an accepted password follows it.
pub data Outcome : Type 0 where
  event_continue event_allow undefined : Outcome

-- `pass` is the stored text of the account, `none` if no such account.
unfoldable pub check_authentication : Option Bytes → Context → Bytes → Outcome
check_authentication none ctx password = event_continue
check_authentication (some pass) ctx password = elim (behind pass) [
  | none ↦ event_continue
  | some rest ↦
      if not (equals_cs (before pass) (codes "sha256"))
      then event_continue
      else elim (get_iv_from_pass pass) [
        | none ↦ undefined
        | some iv ↦
            if equals_cs pass (on_encrypt iv ctx password) then event_allow else event_continue
      ]
]
