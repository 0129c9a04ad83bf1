-- ===== src/Cidr/Match.antt =====
-- Which addresses `cidr::match` (src/sockets.cpp) takes to lie in a range.
use Prim.Native.Nat.{bit_and}
use anope.Base.{
  ℕ, zero, suc, ◌+◌, ◌/◌, ◌%◌, ◌≤◌, ◌<◌, ◌≡◌, refl, ap, ◌≢◌, ◌↔◌, true, some, List, [], ◌∷◌, ◌++◌,
  arith, ◌==◌, length, take, drop,
}
use anope.Base.Bits.{every_below, every_below_at}
use anope.Cidr.{Address, Range, same_family, same_prefix, same_rest, match}

same_prefix_iff :
    (n : ℕ) (xs ys : List ℕ)
    → n ≤ length xs
    → n ≤ length ys
    → (same_prefix n xs ys ≡ some true) ↔ (take n xs ≡ take n ys)
unfolding same_prefix
same_prefix_iff zero xs ys hx hy = (λ _. refl, λ _. refl)
same_prefix_iff (suc n) [] ys hx hy = absurd (omega arith)
same_prefix_iff (suc n) (x ∷ xs) [] hx hy = absurd (omega arith)
same_prefix_iff (suc n) (x ∷ xs) (y ∷ ys) hx hy =
    let ih = same_prefix_iff n xs ys (omega arith) (omega arith) in ground (arith, ih)

-- For a length of whole bytes, an address of the same family lies in the range exactly if its
-- first `len` bits are those of the range. Both addresses have those bytes.
pub match_whole_iff :
    (c : Range) (other : Address)
    → c.len % 8 ≡ 0
    → same_family c.addr.family other.family ≡ true
    → c.len / 8 ≤ length c.addr.bytes
    → c.len / 8 ≤ length other.bytes
    → (match c other ≡ some true) ↔ (take (c.len / 8) c.addr.bytes ≡ take (c.len / 8) other.bytes)
unfolding match same_rest
match_whole_iff c other whole fam hc ho =
    let ih = same_prefix_iff (c.len / 8) c.addr.bytes other.bytes hc ho in ground (arith, ih)

same_prefix-append :
    (pre xs ys : List ℕ) → same_prefix (length pre) (pre ++ xs) (pre ++ ys) ≡ some true
unfolding same_prefix
same_prefix-append [] xs ys = refl
same_prefix-append (p ∷ pre) xs ys = ground (arith, same_prefix-append pre xs ys)

drop-append_left : (pre xs : List ℕ) → drop (length pre) (pre ++ xs) ≡ xs
drop-append_left [] xs = refl
drop-append_left (p ∷ pre) xs = drop-append_left pre xs

-- The masks 1 to 7 do not see the highest bit of a byte.
low_masks : (r b : ℕ) → r < 8 → b < 128 → (bit_and b r == bit_and (b + 128) r) ≡ true
unfolding every_below
low_masks r b hr hb =
    every_below_at 128 (λ y. bit_and y r == bit_and (y + 128) r) b
      (every_below_at 8 (λ q. every_below 128 (λ y. bit_and y q == bit_and (y + 128) q)) r refl hr)
      hb

same_rest_high_bit :
    (r b : ℕ) (xs ys : List ℕ) → r < 8 → b < 128 → same_rest r (b ∷ xs) ((b + 128) ∷ ys) ≡ some true
unfolding same_rest
same_rest_high_bit zero b xs ys hr hb = refl
same_rest_high_bit (suc r) b xs ys hr hb = ap some (low_masks (suc r) b hr hb)

-- For a length that is no number of whole bytes, an address is taken to lie in the range if it has the
-- whole bytes of the range and then the same byte but for its highest bit, which is set in the address and
-- not in the range, although the length still covers that bit.
pub match_high_bit :
    (c : Range) (other : Address) (pre xs ys : List ℕ) (b : ℕ)
    → c.len % 8 ≢ 0
    → same_family c.addr.family other.family ≡ true
    → length pre ≡ c.len / 8
    → b < 128
    → c.addr.bytes ≡ pre ++ b ∷ xs
    → other.bytes ≡ pre ++ (b + 128) ∷ ys
    → match c other ≡ some true
unfolding match
match_high_bit c other pre xs ys b partial fam hl hb ec eo =
    let cp = same_prefix-append pre (b ∷ xs) ((b + 128) ∷ ys) in
    let dc = drop-append_left pre (b ∷ xs) in
    let d' = drop-append_left pre ((b + 128) ∷ ys) in
    let r = same_rest_high_bit (c.len % 8) b xs ys (omega arith) hb in ground (arith, cp, dc, d', r)
