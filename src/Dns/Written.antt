-- ===== src/Dns/Written.antt =====
-- What `PackName` writes into a buffer.
use anope.Base.{
  ℕ, zero, suc, ◌+◌, ◌-◌, ◌%◌, ◌≤◌, ◌<◌, ◌≡◌, refl, sym, ap, ◌∙◌, false, List, [], ◌∷◌, ◌++◌,
  append_assoc, arith, Bytes, ltb, length, drop, length-append, All,
}
use anope.Dns.{Outcome, ok, after, u16}
use anope.Dns.Safe.{u16_small}
use anope.Dns.Pack.{pack_name, put_byte, put_bytes, pack_labels}
use anope.Tokens.{tokens}
use anope.Tokens.Join.{IsLabel, join, tokens-join}

-- The labels as they stand in a packet.
unfoldable pub wire : List Bytes → Bytes
wire [] = []
wire (l ∷ ls) = length l ∷ (l ++ wire ls)

-- A label that a packet can hold.
abbrev pub IsDnsLabel : Bytes → Type 0
IsDnsLabel l = IsLabel b'.' l × (length l < 64)

drop-nil : (n : ℕ) → drop {A = ℕ} n [] ≡ []
drop-nil zero = refl
drop-nil (suc n) = refl

drop-append : (xs ys l : Bytes) → drop (length (xs ++ ys)) l ≡ drop (length ys) (drop (length xs) l)
drop-append [] ys l = refl
drop-append (x ∷ xs) ys [] = sym (drop-nil (length ys))
drop-append (x ∷ xs) ys (b ∷ l) = drop-append xs ys l

pub length-drop : (n : ℕ) (l : Bytes) → length (drop n l) ≡ length l - n
length-drop zero l = omega arith
length-drop (suc n) [] = omega arith
length-drop (suc n) (b ∷ l) = omega (arith, length-drop n l)

pub put_byte_here :
    (pre : Bytes) (v o : ℕ) (rest : Bytes)
    → put_byte (length pre) v (pre ++ o ∷ rest) ≡ ok (pre ++ v ∷ rest)
unfolding put_byte after
put_byte_here [] v o rest = refl
put_byte_here (b ∷ pre) v o rest = rw (put_byte_here pre v o rest) refl

pub snoc_shift : (pre : Bytes) (v : ℕ) (rest : Bytes) → (pre ++ v ∷ []) ++ rest ≡ pre ++ v ∷ rest
snoc_shift pre v rest = append_assoc pre (v ∷ []) rest

put_bytes_here :
    (pre vs rest : Bytes)
    → length vs ≤ length rest
    → put_bytes (length pre) vs (pre ++ rest) ≡ ok (pre ++ (vs ++ drop (length vs) rest))
unfolding put_bytes after
put_bytes_here pre [] rest le = refl
put_bytes_here pre (v ∷ vs) [] le = absurd (omega arith)
put_bytes_here pre (v ∷ vs) (o ∷ rest) le =
    ap (λ r. after r (λ output'. put_bytes (suc (length pre)) vs output'))
      (put_byte_here pre v o rest)
    ∙ (ap (λ i. put_bytes i vs (pre ++ v ∷ rest)) (omega (arith, length-append pre (v ∷ [])))
        ∙ (ap (put_bytes (length (pre ++ v ∷ [])) vs) (sym (snoc_shift pre v rest))
            ∙ (put_bytes_here (pre ++ v ∷ []) vs rest (omega arith)
                ∙ ap ok (snoc_shift pre v (vs ++ drop (length vs) rest)))))

pub pack_one :
    (l : Bytes) (ls : List Bytes) (pre rest : Bytes) (o : ℕ)
    → length l < 64
    → length l ≤ length rest
    → length pre + length l + 1 < 65536
    → pack_labels (l ∷ ls) (length pre) (pre ++ o ∷ rest)
      ≡ pack_labels ls
          (length (pre ++ length l ∷ l))
          ((pre ++ length l ∷ l) ++ drop (length l) rest)
unfolding pack_labels after
pack_one l ls pre rest o short le small =
    let n = length l in
    let byte : n % 256 ≡ n = omega (arith, short) in
    let start : u16 (length pre + 1) ≡ length (pre ++ n ∷ []) =
      u16_small (length pre + 1) (omega (arith, small)) ∙ sym (length-append pre (n ∷ [])) in
    let end : u16 (length (pre ++ n ∷ []) + n) ≡ length (pre ++ n ∷ l) =
      u16_small (length (pre ++ n ∷ []) + n) (omega (arith, small, length-append pre (n ∷ [])))
      ∙ omega (arith, length-append pre (n ∷ []), length-append pre (n ∷ l)) in
    rw
      (
        byte,
        put_byte_here pre n o rest,
        start,
        end,
        sym (snoc_shift pre n rest),
        put_bytes_here (pre ++ n ∷ []) l rest le,
      )
      (ap (pack_labels ls (length (pre ++ n ∷ l)))
        (snoc_shift pre n (l ++ drop n rest) ∙ sym (append_assoc pre (n ∷ l) (drop n rest))))

pub ok_pair :
    {m n : ℕ} {a b : Bytes} → m ≡ n → a ≡ b → ◌≡◌ {A = Outcome (ℕ × Bytes)} (ok (m, a)) (ok (n, b))
ok_pair e e' = rw (e, e') refl

-- The buffer behind the labels, and the place behind them.
pub pack_labels_here :
    (ls : List Bytes) (pre rest : Bytes)
    → All IsDnsLabel ls
    → length (wire ls) ≤ length rest
    → length pre + length (wire ls) < 65536
    → pack_labels ls (length pre) (pre ++ rest)
      ≡ ok (length pre + length (wire ls), pre ++ (wire ls ++ drop (length (wire ls)) rest))
unfolding pack_labels wire
pack_labels_here [] pre rest labels le small = ap (λ n. ok (n, pre ++ rest)) (omega arith)
pack_labels_here (l ∷ ls) pre [] labels le small = absurd (omega arith)
pack_labels_here (l ∷ ls) pre (o ∷ rest) ((label, short), labels) le small =
    let n = length l in
    let sum : length (l ++ wire ls) ≡ n + length (wire ls) = length-append l (wire ls) in
    let long : length (pre ++ n ∷ l) ≡ length pre + (n + 1) =
      length-append pre (n ∷ l) ∙ omega arith in
    let place : length (pre ++ n ∷ l) + length (wire ls)
        ≡ length pre + suc (length (l ++ wire ls)) =
      omega (arith, long, sum) in
    let buffer : (pre ++ n ∷ l) ++ (wire ls ++ drop (length (wire ls)) (drop n rest))
        ≡ pre ++ n ∷ ((l ++ wire ls) ++ drop (length (wire ls)) (drop n rest)) =
      append_assoc pre (n ∷ l) (wire ls ++ drop (length (wire ls)) (drop n rest))
      ∙ ap (λ s. pre ++ n ∷ s)
          (sym (append_assoc l (wire ls) (drop (length (wire ls)) (drop n rest)))) in
    pack_one l ls pre rest o short (omega (arith, le, sum)) (omega (arith, small, sum))
    ∙ (pack_labels_here ls (pre ++ n ∷ l) (drop n rest) labels
          (omega (arith, le, sum, length-drop n rest)) (omega (arith, small, sum, long))
        ∙ ok_pair place (rw (drop-append l (wire ls) rest) buffer))

drop_cons : (n : ℕ) (l : Bytes) → n < length l → (o : ℕ) × (drop n l ≡ o ∷ drop (suc n) l)
drop_cons n [] lt = absurd (omega arith)
drop_cons zero (b ∷ l) lt = (b, refl)
drop_cons (suc n) (b ∷ l) lt = drop_cons n l (omega arith)

only_labels : (ls : List Bytes) → All IsDnsLabel ls → All (IsLabel b'.') ls
only_labels [] labels = labels
only_labels (l ∷ ls) ((label, short), labels) = (label, only_labels ls labels)

pub labels_read : (ls : List Bytes) → All IsDnsLabel ls → tokens b'.' (join b'.' ls) ≡ ls
labels_read ls labels = tokens-join b'.' ls (only_labels ls labels)

-- `PackName` of labels writes them, and a zero, at the position.
pub pack_name_here :
    (ls : List Bytes) (pre rest : Bytes) (size : ℕ)
    → All IsDnsLabel ls
    → length (wire ls) + 1 ≤ length rest
    → length pre + length (wire ls) + 1 < 65536
    → length (join b'.' ls) + 2 ≤ size
    → pack_name (pre ++ rest) size (length pre) (join b'.' ls)
      ≡ ok (
        length pre + length (wire ls) + 1,
        pre ++ (wire ls ++ 0 ∷ drop (suc (length (wire ls))) rest),
      )
unfolding pack_name after
pack_name_here ls pre rest size labels le small room =
    let free : ltb size (length (join b'.' ls) + 2) ≡ false = ground (arith, room) in
    let (o, cut) = drop_cons (length (wire ls)) rest (omega (arith, le)) in
    let front : length pre + length (wire ls) ≡ length (pre ++ wire ls) =
      sym (length-append pre (wire ls)) in
    let split : pre ++ (wire ls ++ o ∷ drop (suc (length (wire ls))) rest)
        ≡ (pre ++ wire ls) ++ o ∷ drop (suc (length (wire ls))) rest =
      sym (append_assoc pre (wire ls) (o ∷ drop (suc (length (wire ls))) rest)) in
    rw
      (
        free,
        labels_read ls labels,
        pack_labels_here ls pre rest labels (omega (arith, le)) (omega (arith, small)),
        cut,
        split,
      )
      (ap (λ r. after r (λ output''. ok (u16 (length pre + length (wire ls) + 1), output'')))
          (ap (λ i. put_byte i 0 ((pre ++ wire ls) ++ o ∷ drop (suc (length (wire ls))) rest)) front
            ∙ put_byte_here (pre ++ wire ls) 0 o (drop (suc (length (wire ls))) rest))
        ∙ ok_pair (u16_small (length pre + length (wire ls) + 1) (omega (arith, small)))
            (append_assoc pre (wire ls) (0 ∷ drop (suc (length (wire ls))) rest)))
