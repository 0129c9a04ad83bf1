-- ===== src/Dns/RoundTrip.antt =====
-- A name that `PackName` wrote, read by `UnpackName`.
use Prim.Native.Nat.{bit_and}
use anope.Base.{
  ℕ, zero, suc, ◌+◌, ◌≤◌, ◌<◌, ◌≡◌, refl, sym, ap, ◌∙◌, ◌≢◌, true, false, not, List, [], ◌∷◌, ◌++◌,
  append-nil, append_assoc, arith, Bytes, ltb, leb, ◌==◌, if◌then◌else◌, length, drop,
  length-append, All,
}
use anope.Base.Bits.{every_below, every_below_at}
use anope.Dns.{
  Outcome, ok, after, byte_at, bytes_at, is_pointer, add_label, Rest, unpack_label, unpack_round,
  unpack_loop, unpack_name,
}
use anope.Dns.Safe.{u16_small}
use anope.Dns.Pack.{pack_name}
use anope.Dns.Written.{wire, IsDnsLabel, pack_name_here}
use anope.Text.{is_empty}
use anope.Tokens.Join.{joined, join}

byte_at_here : (pre : Bytes) (b : ℕ) (rest : Bytes) → byte_at (length pre) (pre ++ b ∷ rest) ≡ ok b
unfolding byte_at
byte_at_here [] b rest = refl
byte_at_here (a ∷ pre) b rest = byte_at_here pre b rest

bytes_at_here :
    (pre vs rest : Bytes) → bytes_at (length vs) (length pre) (pre ++ (vs ++ rest)) ≡ ok vs
unfolding bytes_at after
bytes_at_here pre [] rest = refl
bytes_at_here pre (v ∷ vs) rest =
    let next : suc (length pre) ≡ length (pre ++ v ∷ []) =
      omega (arith, length-append pre (v ∷ [])) in
    rw
      (
        byte_at_here pre v (vs ++ rest),
        next,
        sym (append_assoc pre (v ∷ []) (vs ++ rest)),
        bytes_at_here (pre ++ v ∷ []) vs rest,
      )
      refl

short_no_pointer : (n : ℕ) → n < 64 → is_pointer n ≡ false
unfolding every_below
short_no_pointer n lt = ap not (every_below_at 64 (λ k. bit_and k 0xC0 == 0) n refl lt)

-- A round at a label that is no pointer.
label_round :
    (input : Bytes) (size : ℕ) (rest : Rest) (name : Bytes) (at n m : ℕ) (l : Bytes)
    → n < 64
    → byte_at at input ≡ ok n
    → bytes_at n (suc at) input ≡ ok l
    → byte_at (at + (n + 1)) input ≡ ok m
    → at + (n + 1) < size
    → size < 65536
    → unpack_round input size rest name at at ≡ (
        if m == 0
        then ok (add_label name l, at + (n + 1) + 1)
        else rest (add_label name l) (at + (n + 1)) (at + (n + 1)))
unfolding unpack_round unpack_label after
label_round input size rest name at n m l short first label last inside small =
    let room : leb size (at + n) ≡ false = ground (arith, inside) in
    let more : leb size (at + (n + 1)) ≡ false = ground (arith, inside) in
    let moved : ltb at (at + (n + 1)) ≡ true = ground arith in
    rw
      (
        first,
        short_no_pointer n short,
        room,
        label,
        u16_small (at + (n + 1)) (omega (arith, inside, small)),
        more,
        last,
        moved,
        u16_small (at + (n + 1) + 1) (omega (arith, inside, small)),
      )
      refl

-- The labels added to a name.
unfoldable add_labels : Bytes → List Bytes → Bytes
add_labels name [] = name
add_labels name (l ∷ ls) = add_labels (add_label name l) ls

wire_round :
    (size : ℕ) (go_on : Rest) (name pre l : Bytes) (m : ℕ) (back input : Bytes)
    → input ≡ pre ++ length l ∷ (l ++ m ∷ back)
    → length l < 64
    → length pre + (length l + 1) < size
    → size < 65536
    → unpack_round input size go_on name (length pre) (length pre) ≡ (
        if m == 0
        then ok (add_label name l, length pre + (length l + 1) + 1)
        else go_on (add_label name l) (length pre + (length l + 1)) (length pre + (length l + 1)))
wire_round size go_on name pre l m back input e short inside small =
    let n = length l in
    let next : length (pre ++ n ∷ []) ≡ suc (length pre) =
      length-append pre (n ∷ []) ∙ omega arith in
    let end : length (pre ++ n ∷ l) ≡ length pre + (n + 1) =
      length-append pre (n ∷ l) ∙ omega arith in
    label_round input size go_on name (length pre) n m l short
      (ap (byte_at (length pre)) e ∙ byte_at_here pre n (l ++ m ∷ back))
      (ap (λ i. bytes_at n i input) (sym next)
        ∙ (ap (bytes_at n (length (pre ++ n ∷ [])))
              (e ∙ sym (append_assoc pre (n ∷ []) (l ++ m ∷ back)))
            ∙ bytes_at_here (pre ++ n ∷ []) l (m ∷ back)))
      (ap (λ i. byte_at i input) (sym end)
        ∙ (ap (byte_at (length (pre ++ n ∷ l))) (e ∙ sym (append_assoc pre (n ∷ l) (m ∷ back)))
            ∙ byte_at_here (pre ++ n ∷ l) m back))
      inside small

label_length : (l : Bytes) → l ≢ [] → (length l == 0) ≡ false
label_length [] some_text = absurd (some_text refl)
label_length (c ∷ l) some_text = ground arith

length-wire :
    (l : Bytes) (ls : List Bytes) → length (wire (l ∷ ls)) ≡ length l + 1 + length (wire ls)
unfolding wire
length-wire l ls = omega (arith, length-append l (wire ls))

ok_name :
    {name : Bytes} {m n : ℕ} → m ≡ n → ◌≡◌ {A = Outcome (Bytes × ℕ)} (ok (name, m)) (ok (name, n))
ok_name e = rw e refl

module _ (size : ℕ) (small : size < 65536) where
  -- `UnpackName` at labels that stand in the buffer with a zero behind them.
  unpack_wire :
      (l : Bytes) (ls : List Bytes) (rounds : ℕ) (name pre rest input : Bytes)
      → input ≡ pre ++ (wire (l ∷ ls) ++ 0 ∷ rest)
      → All IsDnsLabel (l ∷ ls)
      → length ls ≤ rounds
      → length pre + length (wire (l ∷ ls)) < size
      → unpack_loop input size (suc rounds) name (length pre) (length pre)
        ≡ ok (add_labels name (l ∷ ls), length pre + length (wire (l ∷ ls)) + 1)
  unfolding unpack_loop wire add_labels
  unpack_wire l [] rounds name pre rest input e ((label, short), labels) fuel inside =
      wire_round size (unpack_loop input size rounds) name pre l 0 rest input
        (e ∙ ap (λ s. pre ++ length l ∷ s) (append_assoc l [] (0 ∷ rest))) short
        (omega (arith, inside, length-wire l [])) small
      ∙ ok_name (omega (arith, length-wire l []))
  unpack_wire l (k ∷ ls) zero name pre rest input e labels fuel inside = absurd (omega arith)
  unpack_wire l (k ∷ ls) (suc rounds) name pre rest input e
        ((label, short), (((some_text, nodot), short'), labels)) fuel inside =
      let n = length l in
      let long : length pre + (n + 1) ≡ length (pre ++ n ∷ l) =
        sym (length-append pre (n ∷ l) ∙ omega arith) in
      let all : length (wire (l ∷ k ∷ ls)) ≡ n + 1 + length (wire (k ∷ ls)) =
        length-wire l (k ∷ ls) in
      let e' = e ∙ ap (λ s. pre ++ n ∷ s) (append_assoc l (wire (k ∷ ls)) (0 ∷ rest)) in
      wire_round size (unpack_loop input size (suc rounds)) name pre l (length k)
        ((k ++ wire ls) ++ 0 ∷ rest) input e' short (omega (arith, inside, all)) small
      ∙ rw (label_length k some_text, long)
          (unpack_wire k ls rounds (add_label name l) (pre ++ n ∷ l) rest input
              (e' ∙ sym (append_assoc pre (n ∷ l) (wire (k ∷ ls) ++ 0 ∷ rest)))
              (((some_text, nodot), short'), labels) (omega arith)
              (omega (arith, inside, all, long))
            ∙ ok_name (omega (arith, all, long)))

add_labels-joined :
    (c : ℕ) (s : Bytes) (ls : List Bytes) → add_labels (c ∷ s) ls ≡ c ∷ (s ++ joined b'.' ls)
unfolding add_labels add_label joined is_empty
add_labels-joined c s [] = ap (λ t. c ∷ t) (sym (append-nil s))
add_labels-joined c s (l ∷ ls) =
    add_labels-joined c (s ++ b'.' ∷ l) ls
    ∙ ap (λ t. c ∷ t) (append_assoc s (b'.' ∷ l) (joined b'.' ls))

add_labels-join :
    (l : Bytes) (ls : List Bytes) → l ≢ [] → add_labels [] (l ∷ ls) ≡ join b'.' (l ∷ ls)
unfolding add_labels add_label join is_empty
add_labels-join [] ls some_text = absurd (some_text refl)
add_labels-join (c ∷ l) ls some_text = add_labels-joined c l ls

length-joined : (ls : List Bytes) → length (wire ls) ≡ length (joined b'.' ls)
unfolding joined wire
length-joined [] = refl
length-joined (l ∷ ls) =
    omega (arith, length-append l (wire ls), length-append l (joined b'.' ls), length-joined ls)

pub length-join :
    (l : Bytes) (ls : List Bytes) → length (wire (l ∷ ls)) ≡ length (join b'.' (l ∷ ls)) + 1
unfolding join
length-join l ls =
    omega (arith, length-wire l ls, length-append l (joined b'.' ls), length-joined ls)

pub split_at :
    (n : ℕ) (s : Bytes)
    → n ≤ length s
    → (pre : Bytes) × (rest : Bytes) × (s ≡ pre ++ rest) × (length pre ≡ n)
split_at zero s le = ([], s, refl, refl)
split_at (suc n) [] le = absurd (omega arith)
split_at (suc n) (b ∷ s) le =
    let (pre, rest, e, e') = split_at n s (omega arith) in
    (b ∷ pre, rest, ap (λ t. b ∷ t) e, ap suc e')

-- The name that is read where `PackName` wrote it, the position of the writer and that of the reader.
unfoldable pub write_read : Bytes → ℕ → ℕ → ℕ → Bytes → Outcome (Bytes × (ℕ × ℕ))
write_read output size rounds pos name = after (pack_name output size pos name) (λ (end, packet).
    after (unpack_name packet size rounds pos) (λ (name', end'). ok (name', (end, end'))))

-- A name of labels of 1 to 63 characters other than the dot that `PackName` writes into a buffer with
-- room for it is the name that `UnpackName` reads there, if it may go round once for each label; both
-- leave the position behind the zero. The buffer's size is that given, below 65536.
pub unpack_name-pack_name :
    (l : Bytes) (ls : List Bytes) (output : Bytes) (pos rounds : ℕ)
    → All IsDnsLabel (l ∷ ls)
    → length output < 65536
    → pos + length (join b'.' (l ∷ ls)) + 2 ≤ length output
    → length ls ≤ rounds
    → write_read output (length output) (suc rounds) pos (join b'.' (l ∷ ls))
      ≡ ok (
        join b'.' (l ∷ ls),
        (pos + length (join b'.' (l ∷ ls)) + 2, pos + length (join b'.' (l ∷ ls)) + 2),
      )
unfolding write_read after unpack_name
unpack_name-pack_name l ls output pos rounds labels small room fuel =
    let name = join b'.' (l ∷ ls) in
    let (pre, rest, e, place) = split_at pos output (omega (arith, room)) in
    let packed = wire (l ∷ ls) in
    let packet = pre ++ (packed ++ 0 ∷ drop (suc (length packed)) rest) in
    let long : length packed ≡ length name + 1 = length-join l ls in
    let both : length output ≡ length pre + length rest = ap length e ∙ length-append pre rest in
    let written : pack_name output (length output) pos name
        ≡ ok (length pre + length packed + 1, packet) =
      ap (λ o. pack_name o (length output) pos name) e
      ∙ (ap (λ p. pack_name (pre ++ rest) (length output) p name) (sym place)
          ∙ pack_name_here (l ∷ ls) pre rest (length output) labels
              (omega (arith, long, room, both, place)) (omega (arith, long, room, place, small))
              (omega (arith, room))) in
    let inside : leb (length output) pos ≡ false = ground (arith, room) in
    let read : unpack_loop packet (length output) (suc rounds) [] pos pos
        ≡ ok (name, length pre + length packed + 1) =
      ap (λ p. unpack_loop packet (length output) (suc rounds) [] p p) (sym place)
      ∙ (unpack_wire (length output) small l ls rounds [] pre (drop (suc (length packed)) rest)
            packet refl labels fuel (omega (arith, long, room, place))
          ∙ ap (λ n. Outcome.ok (n, length pre + length packed + 1))
              (add_labels-join l ls (labels.0.0.0))) in
    let end : length pre + length packed + 1 ≡ pos + length name + 2 = omega (arith, long, place) in
    rw (written, inside, read, end) refl
