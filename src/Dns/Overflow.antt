-- ===== src/Dns/Overflow.antt =====
-- `PackName` behind other data in the buffer.
use anope.Base.{
  ℕ, zero, suc, ◌+◌, ◌%◌, ◌≤◌, ◌<◌, ◌≡◌, refl, sym, ap, ◌∙◌, false, List, [], ◌∷◌, ◌++◌, append-nil,
  append_assoc, arith, Bytes, ltb, length, drop, length-append, All, dec_lt,
}
use anope.Dns.{outside, after, u16, ok}
use anope.Dns.Safe.{u16_small}
use anope.Dns.Pack.{pack_name, put_byte, put_bytes, pack_labels}
use anope.Dns.Written.{
  snoc_shift, wire, IsDnsLabel, length-drop, put_byte_here, pack_one, pack_labels_here, labels_read,
}
use anope.Dns.RoundTrip.{split_at, length-join}
use anope.Tokens.Join.{join}

put_byte_end : (output : Bytes) (v : ℕ) → put_byte (length output) v output ≡ outside
unfolding put_byte after
put_byte_end [] v = refl
put_byte_end (b ∷ output) v = rw (put_byte_end output v) refl

put_bytes_over :
    (pre vs rest : Bytes)
    → length rest < length vs
    → put_bytes (length pre) vs (pre ++ rest) ≡ outside
unfolding put_bytes after
put_bytes_over pre [] rest lt = absurd (omega arith)
put_bytes_over pre (v ∷ vs) [] lt = rw (append-nil pre, put_byte_end pre v) refl
put_bytes_over pre (v ∷ vs) (o ∷ rest) lt =
    let next : suc (length pre) ≡ length (pre ++ v ∷ []) =
      omega (arith, length-append pre (v ∷ [])) in
    rw (put_byte_here pre v o rest, next, sym (append_assoc pre (v ∷ []) rest))
      (put_bytes_over (pre ++ v ∷ []) vs rest (omega arith))

pack_one_over :
    (l : Bytes) (ls : List Bytes) (pre rest : Bytes) (o : ℕ)
    → length l < 64
    → length rest < length l
    → length pre < 65535
    → pack_labels (l ∷ ls) (length pre) (pre ++ o ∷ rest) ≡ outside
unfolding pack_labels after
pack_one_over l ls pre rest o short over small =
    let n = length l in
    let byte : n % 256 ≡ n = omega (arith, short) in
    let start : u16 (length pre + 1) ≡ length (pre ++ n ∷ []) =
      u16_small (length pre + 1) (omega (arith, small)) ∙ sym (length-append pre (n ∷ [])) in
    rw
      (
        byte,
        put_byte_here pre n o rest,
        start,
        sym (snoc_shift pre n rest),
        put_bytes_over (pre ++ n ∷ []) l rest over,
      )
      refl

pack_labels_over :
    (ls : List Bytes) (pre rest : Bytes)
    → All IsDnsLabel ls
    → length rest < length (wire ls)
    → length pre + length rest < 65536
    → pack_labels ls (length pre) (pre ++ rest) ≡ outside
unfolding pack_labels wire after
pack_labels_over [] pre rest labels over small = absurd (omega arith)
pack_labels_over (l ∷ ls) pre [] ((label, short), labels) over small =
    let byte : length l % 256 ≡ length l = omega (arith, short) in
    rw (append-nil pre, byte, put_byte_end pre (length l)) refl
pack_labels_over (l ∷ ls) pre (o ∷ rest) ((label, short), labels) over small =
    elim (dec_lt (length rest) (length l)) [
      | yes lt ↦ pack_one_over l ls pre rest o short lt (omega (arith, small))
      | no nlt ↦
          let n = length l in
          let cut = length-drop n rest in
          pack_one l ls pre rest o short (omega (arith, nlt)) (omega (arith, small, nlt))
          ∙ pack_labels_over ls (pre ++ n ∷ l) (drop n rest) labels
              (omega (arith, over, nlt, cut, length-append l (wire ls)))
              (omega (arith, small, nlt, cut, length-append pre (n ∷ l)))
    ]

drop_all : (n : ℕ) (l : Bytes) → length l ≤ n → drop n l ≡ []
drop_all zero [] le = refl
drop_all zero (b ∷ l) le = absurd (omega arith)
drop_all (suc n) [] le = refl
drop_all (suc n) (b ∷ l) le = drop_all n l (omega arith)

-- The labels just fit, and the zero does not.
zero_over :
    (ls : List Bytes) (pre rest : Bytes)
    → All IsDnsLabel ls
    → length rest ≡ length (wire ls)
    → length pre + length rest < 65536
    → after {B = ℕ × Bytes} (pack_labels ls (length pre) (pre ++ rest)) (λ (end, output').
      after {B = ℕ × Bytes} (put_byte end 0 output') (λ output''. ok (u16 (end + 1), output'')))
      ≡ outside
unfolding after
zero_over ls pre rest labels full small =
    let place : length pre + length (wire ls) ≡ length (pre ++ wire ls) =
      sym (length-append pre (wire ls)) in
    rw
      (
        pack_labels_here ls pre rest labels (omega (arith, full)) (omega (arith, full, small)),
        drop_all (length (wire ls)) rest (omega (arith, full)),
        append-nil (wire ls),
        place,
        put_byte_end (pre ++ wire ls) 0,
      )
      refl

pack_name_over_at :
    (ls : List Bytes) (pre rest : Bytes) (size : ℕ)
    → All IsDnsLabel ls
    → length (join b'.' ls) + 2 ≤ size
    → length rest ≤ length (wire ls)
    → length pre + length rest < 65536
    → pack_name (pre ++ rest) size (length pre) (join b'.' ls) ≡ outside
unfolding pack_name after
pack_name_over_at ls pre rest size labels room over small =
    let free : ltb size (length (join b'.' ls) + 2) ≡ false = ground (arith, room) in
    rw (free, labels_read ls labels)
      (elim (dec_lt (length rest) (length (wire ls))) [
        | yes lt ↦ rw (pack_labels_over ls pre rest labels lt small) refl
        | no nlt ↦ zero_over ls pre rest labels (omega (arith, nlt, over)) small
      ])

-- Where the buffer as a whole is long enough for the name, but what is left of it behind the position is
-- not, `PackName` does not refuse the name and writes past the end of the buffer.
pub pack_name_over :
    (l : Bytes) (ls : List Bytes) (output : Bytes) (pos : ℕ)
    → All IsDnsLabel (l ∷ ls)
    → length output < 65536
    → pos ≤ length output
    → length (join b'.' (l ∷ ls)) + 2 ≤ length output
    → length output < pos + length (join b'.' (l ∷ ls)) + 2
    → pack_name output (length output) pos (join b'.' (l ∷ ls)) ≡ outside
pack_name_over l ls output pos labels small place room over =
    let name = join b'.' (l ∷ ls) in
    let (pre, rest, e, at) = split_at pos output place in
    let both : length output ≡ length pre + length rest = ap length e ∙ length-append pre rest in
    ap (λ o. pack_name o (length output) pos name) e
    ∙ (ap (λ p. pack_name (pre ++ rest) (length output) p name) (sym at)
        ∙ pack_name_over_at (l ∷ ls) pre rest (length output) labels room
            (omega (arith, both, at, over, length-join l ls)) (omega (arith, both, small)))
