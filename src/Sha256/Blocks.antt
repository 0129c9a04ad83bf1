-- ===== src/Sha256/Blocks.antt =====
-- src/modules/encryption/enc_sha256.cpp: the hash does not depend on what a context held before.
use anope.Base.{
  ℕ, zero, suc, ◌+◌, ◌-◌, ◌*◌, ◌/◌, ◌%◌, ◌≤◌, ◌<◌, ◌≡◌, refl, sym, ap, ◌∙◌, inl, inr, true, false,
  [], ◌∷◌, ◌++◌, append_assoc, arith, Bytes, ltb, Bool-cases, dec_lt, length, length-append, take,
  drop,
}
use anope.Sha256.{
  Working, Context, word, transform, compress, write_at, zeros, sha256_init, sha256_update,
  sha256_final, digest, digest_of, unpack32,
}

-- What `take` and `drop` do to a text and its front.
take-front : (n : ℕ) (xs ys : Bytes) → n ≤ length xs → take n (xs ++ ys) ≡ take n xs
take-front zero xs ys le = refl
take-front (suc n) [] ys le = absurd (omega (arith, le))
take-front (suc n) (x ∷ xs) ys le = ap (λ t. x ∷ t) (take-front n xs ys (omega (arith, le)))

drop-front : (n : ℕ) (xs ys : Bytes) → n ≤ length xs → drop n (xs ++ ys) ≡ drop n xs ++ ys
drop-front zero xs ys le = refl
drop-front (suc n) [] ys le = absurd (omega (arith, le))
drop-front (suc n) (x ∷ xs) ys le = drop-front n xs ys (omega (arith, le))

take-drop : (n : ℕ) (xs : Bytes) → take n xs ++ drop n xs ≡ xs
take-drop zero xs = refl
take-drop (suc n) [] = refl
take-drop (suc n) (x ∷ xs) = ap (λ t. x ∷ t) (take-drop n xs)

length-take : (n : ℕ) (xs : Bytes) → n ≤ length xs → length (take n xs) ≡ n
length-take zero xs le = refl
length-take (suc n) [] le = absurd (omega (arith, le))
length-take (suc n) (x ∷ xs) le = ap suc (length-take n xs (omega (arith, le)))

length-drop : (n : ℕ) (xs : Bytes) → length (drop n xs) ≡ length xs - n
length-drop zero xs = omega arith
length-drop (suc n) [] = omega arith
length-drop (suc n) (x ∷ xs) = omega (arith, length-drop n xs)

take_whole : (n : ℕ) (xs : Bytes) → length xs ≤ n → take n xs ≡ xs
take_whole zero [] le = refl
take_whole zero (x ∷ xs) le = absurd (omega (arith, le))
take_whole (suc n) [] le = refl
take_whole (suc n) (x ∷ xs) le = ap (λ t. x ∷ t) (take_whole n xs (omega (arith, le)))

drop_whole : (n : ℕ) (xs : Bytes) → length xs ≤ n → drop n xs ≡ []
drop_whole zero [] le = refl
drop_whole zero (x ∷ xs) le = absurd (omega (arith, le))
drop_whole (suc n) [] le = refl
drop_whole (suc n) (x ∷ xs) le = drop_whole n xs (omega (arith, le))

length-zeros : (n : ℕ) → length (zeros n) ≡ n
unfolding zeros
length-zeros zero = refl
length-zeros (suc n) = ap suc (length-zeros n)

-- A write inside the front of a block leaves the rest, and the length of the front.
write_inside :
    (q t x : Bytes) (i : ℕ) → i + length x ≤ length q → write_at (q ++ t) i x ≡ write_at q i x ++ t
unfolding write_at
write_inside q t x i le =
    rw (take-front i q t (omega (arith, le)), drop-front (i + length x) q t le)
      (sym (append_assoc (take i q ++ x) (drop (i + length x) q) t))

length-write : (q x : Bytes) (i : ℕ) → i + length x ≤ length q → length (write_at q i x) ≡ length q
unfolding write_at
length-write q x i le = omega (
  arith,
  le,
  length-append (take i q ++ x) (drop (i + length x) q),
  length-append (take i q) x,
  length-take i q (omega (arith, le)),
  length-drop (i + length x) q,
)

-- `SHA256Transform` reads as many bytes as its blocks have.
transform-front :
    (n : ℕ) (front rest : Bytes) (s : Working)
    → length front ≡ n * 64
    → transform n (front ++ rest) s ≡ transform n front s
unfolding transform
transform-front zero front rest s e = refl
transform-front (suc n) front rest s e =
    rw (take-front 64 front rest (omega (arith, e)), drop-front 64 front rest (omega (arith, e)))
      (transform-front n (drop 64 front) rest (compress (take 64 front) s)
        (omega (arith, e, length-drop 64 front)))

-- A write right behind the front.
take_exact : (p t : Bytes) → take (length p) (p ++ t) ≡ p
take_exact [] t = refl
take_exact (c ∷ p) t = ap (λ l. c ∷ l) (take_exact p t)

drop_behind : (m n : ℕ) (p t : Bytes) → m ≡ length p + n → drop m (p ++ t) ≡ drop n t
drop_behind m n [] t e = let same : m ≡ n = omega (arith, e) in ap (λ k. drop k t) same
drop_behind zero n (c ∷ p) t e = absurd (omega (arith, e))
drop_behind (suc m) n (c ∷ p) t e = drop_behind m n p t (omega (arith, e))

write_behind : (p t x : Bytes) → write_at (p ++ t) (length p) x ≡ (p ++ x) ++ drop (length x) t
unfolding write_at
write_behind p t x = rw (take_exact p t, drop_behind (length p + length x) (length x) p t refl) refl

module _ (p : Bytes) (state : Working) (n : ℕ) (u : Bytes) (room : length p < n * 64)
    (place : length u ≤ n * 64) where
  -- The front of the block behind `SHA256Final`, and what it gives.
  padded : Bytes
  padded =
      write_at (write_at (p ++ zeros (n * 64 - length p)) (length p) (0x80 ∷ []))
        (n * 64 - length u) u

  front_lem : length (p ++ zeros (n * 64 - length p)) ≡ n * 64
  front_lem =
      omega
        (arith, room, length-append p (zeros (n * 64 - length p)), length-zeros (n * 64 - length p))

  marked_lem : length (write_at (p ++ zeros (n * 64 - length p)) (length p) (0x80 ∷ [])) ≡ n * 64
  marked_lem =
      length-write (p ++ zeros (n * 64 - length p)) (0x80 ∷ []) (length p)
        (omega (arith, room, front_lem))
      ∙ front_lem

  padded-lem :
      (t : Bytes)
      → transform n
          (write_at
            (write_at
              (write_at (p ++ t) (length p) (zeros (n * 64 - length p)))
              (length p)
              (0x80 ∷ []))
            (n * 64 - length u)
            u)
          state
        ≡ transform n padded state
  unfolding padded
  padded-lem t =
      let q = p ++ zeros (n * 64 - length p) in
      let rest = drop (length (zeros (n * 64 - length p))) t in
      let marked = write_at q (length p) (0x80 ∷ []) in
      rw
        (
          write_behind p t (zeros (n * 64 - length p)),
          write_inside q rest (0x80 ∷ []) (length p) (omega (arith, room, front_lem)),
          write_inside marked rest u (n * 64 - length u) (omega (arith, place, marked_lem)),
        )
        (transform-front n (write_at marked (n * 64 - length u) u) rest state (
          length-write marked u (n * 64 - length u) (omega (arith, place, marked_lem))
          ∙ marked_lem))

-- Two contexts with the same counts and state, and the same bytes as far as they are counted.
final_same :
    (p t t' : Bytes) (tot_len : ℕ) (state : Working)
    → length p < 64
    → sha256_final (record { tot_len = tot_len; len = length p; block = p ++ t; state = state })
      ≡ sha256_final (record { tot_len = tot_len; len = length p; block = p ++ t'; state = state })
unfolding sha256_final unpack32
final_same p t t' tot_len state short = elim (Bool-cases (ltb 55 (length p % 64))) [
  | inl two ↦
      let u = unpack32 ((tot_len + length p) * 8 % word) in
      rw two (
        ap digest_of (
          padded-lem p state 2 u (omega (arith, short)) (omega arith) t
          ∙ sym (padded-lem p state 2 u (omega (arith, short)) (omega arith) t')))
  | inr one ↦
      let u = unpack32 ((tot_len + length p) * 8 % word) in
      rw one (
        ap digest_of (
          padded-lem p state 1 u (omega (arith, short)) (omega arith) t
          ∙ sym (padded-lem p state 1 u (omega (arith, short)) (omega arith) t')))
]

-- What a message leaves in a context that was just started.
module _ (iv : Working) (message : Bytes) where
  Left : Context → Bytes → ℕ → Working → Type 0
  Left ctx p tot_len state =
      (t : Bytes) × (sha256_update (sha256_init iv ctx) message
        ≡ record { tot_len = tot_len; len = length p; block = p ++ t; state = state })

  short-Left : (ctx : Context) → length message < 64 → Left ctx message 0 iv
  unfolding Left sha256_update sha256_init write_at
  short-Left ctx lt =
      let near : ltb (length message) 64 ≡ true = ground (arith, lt) in
      let whole : take (length message) message ≡ message =
        take_whole (length message) message (omega arith) in
      let from_zero : 0 + length message ≡ length message = omega arith in
      let held : ℕ → Context = λ n. record {
        tot_len = 0;
        len = length message;
        block = message ++ drop n ctx.block;
        state = iv;
      } in
      (drop (0 + length message) ctx.block, rw (from_zero, near, whole) (ap held from_zero))

  long-Left :
      (ctx : Context)
      → 64 ≤ length message
      → Left ctx
          (drop ((length message - 64) / 64 * 64) (drop 64 message))
          ((0 + ((length message - 64) / 64 + 1) * 64) % word)
          (transform
            ((length message - 64) / 64)
            (drop 64 message)
            (transform 1 (take 64 message) iv))
  unfolding Left sha256_update sha256_init write_at
  long-Left ctx le =
      let far : ltb (length message) 64 ≡ false = ground (arith, le) in
      let from_zero : 0 + length message ≡ length message = omega arith in
      let nb = (length message - 64) / 64 in
      let p = drop (nb * 64) (drop 64 message) in
      let size : (length message - 64) % 64 ≡ length p =
        omega (arith, le, length-drop (nb * 64) (drop 64 message), length-drop 64 message) in
      let whole : take (length p) p ≡ p = take_whole (length p) p (omega arith) in
      let first = write_at ctx.block 0 (take 64 message) in
      let one : transform 1 first iv ≡ transform 1 (take 64 message) iv =
        transform-front 1 (take 64 message) (drop (0 + length (take 64 message)) ctx.block) iv
          (length-take 64 message le) in
      (
        drop (0 + length (take ((length message - 64) % 64) p)) first,
        rw (from_zero, far, one, size, whole) refl,
      )

-- Whatever two contexts held, a message has the same digest in both.
pub digest_same :
    (iv : Working) (ctx ctx' : Context) (message : Bytes)
    → digest iv ctx message ≡ digest iv ctx' message
unfolding digest Left
digest_same iv ctx ctx' message = elim (dec_lt (length message) 64) [
  | yes lt ↦
      let (t, e) = short-Left iv message ctx lt in
      let (t', e') = short-Left iv message ctx' lt in
      ap sha256_final e ∙ (final_same message t t' 0 iv lt ∙ sym (ap sha256_final e'))
  | no nlt ↦
      let le : 64 ≤ length message = omega (arith, nlt) in
      let nb = (length message - 64) / 64 in
      let p = drop (nb * 64) (drop 64 message) in
      let small : length p < 64 =
        omega (arith, le, length-drop (nb * 64) (drop 64 message), length-drop 64 message) in
      let (t, e) = long-Left iv message ctx le in
      let (t', e') = long-Left iv message ctx' le in
      ap sha256_final e
      ∙ (final_same p t t' ((0 + (nb + 1) * 64) % word)
            (transform nb (drop 64 message) (transform 1 (take 64 message) iv)) small
          ∙ sym (ap sha256_final e'))
]
