-- ===== src/Dns/Safe.antt =====
-- Reads of a packet stay inside it.
use anope.Base.{
  ℕ, zero, suc, ◌+◌, ◌≤◌, ◌<◌, ◌≡◌, refl, Bool, true, false, [], ◌∷◌, arith, Bytes, ltb, leb, ◌==◌,
  if◌then◌else◌, length, dec_lt, dec_le,
}
use anope.Dns.{
  Outcome, ok, refused, outside, unfinished, after, u16, byte_at, bytes_at, Rest, unpack_label,
  is_pointer, pointed, add_label, unpack_round, unpack_loop, unpack_name,
}

unfoldable pub is_outside : {A : Type 0} → Outcome A → Bool
is_outside (ok a) = false
is_outside refused = false
is_outside outside = true
is_outside unfinished = false

pub after-inside :
    {A B : Type 0} (o : Outcome A) (k : A → Outcome B)
    → is_outside o ≡ false
    → ((a : A) → o ≡ ok a → is_outside (k a) ≡ false)
    → is_outside (after o k) ≡ false
unfolding after is_outside
after-inside (ok a) k inside rest = rest a refl
after-inside refused k inside rest = refl
after-inside outside k inside rest = inside
after-inside unfinished k inside rest = refl

pub byte_at-inside :
    (i : ℕ) (input : Bytes) → i < length input → is_outside (byte_at i input) ≡ false
unfolding byte_at is_outside
byte_at-inside i [] lt = absurd (omega arith)
byte_at-inside zero (b ∷ input) lt = refl
byte_at-inside (suc i) (b ∷ input) lt = byte_at-inside i input (omega arith)

pub bytes_at-inside :
    (count i : ℕ) (input : Bytes)
    → i + count ≤ length input
    → is_outside (bytes_at count i input) ≡ false
unfolding bytes_at is_outside
bytes_at-inside zero i input le = refl
bytes_at-inside (suc count) i input le =
    after-inside (byte_at i input) _ (byte_at-inside i input (omega arith)) (λ b e.
      after-inside (bytes_at count (suc i) input) _
        (bytes_at-inside count (suc i) input (omega arith)) (λ bs e'. refl))

-- A test that refuses what is too large.
pub guarded :
    {A : Type 0} (size n : ℕ) (o : Outcome A)
    → (n < size → is_outside o ≡ false)
    → is_outside (if leb size n then refused else o) ≡ false
unfolding is_outside
guarded size n o rest = elim (dec_lt n size) [
  | yes lt ↦ let e : leb size n ≡ false = ground arith in rw e (rest lt)
  | no nlt ↦ let e : leb size n ≡ true = ground arith in rw e refl
]

pub guarded_past :
    {A : Type 0} (size n : ℕ) (o : Outcome A)
    → (n ≤ size → is_outside o ≡ false)
    → is_outside (if ltb size n then refused else o) ≡ false
unfolding is_outside
guarded_past size n o rest = elim (dec_le n size) [
  | yes le ↦ let e : ltb size n ≡ false = ground arith in rw e (rest le)
  | no nle ↦ let e : ltb size n ≡ true = ground arith in rw e refl
]

pub u16_small : (n : ℕ) → n < 65536 → u16 n ≡ n
unfolding u16
u16_small n lt = omega arith

pub u16_le : (n : ℕ) → u16 n ≤ n
unfolding u16
u16_le n = omega arith

pub if-inside :
    {A : Type 0} (b : Bool) (o o' : Outcome A)
    → is_outside o ≡ false
    → is_outside o' ≡ false
    → is_outside (if b then o else o') ≡ false
if-inside true o o' h h' = h
if-inside false o o' h h' = h'

module _ (input : Bytes) (input_size : ℕ) (received : input_size ≤ length input) where
  abbrev IsSafe : Rest → Type 0
  IsSafe rest =
      (name : Bytes) (pos_ptr pos : ℕ)
      → pos_ptr < input_size
      → is_outside (rest name pos_ptr pos) ≡ false

  unpack_label-inside :
      (rest : Rest) (name : Bytes) (offset pos_ptr pos : ℕ)
      → IsSafe rest
      → is_outside (unpack_label input input_size rest name offset pos_ptr pos) ≡ false
  unfolding unpack_label is_outside
  unpack_label-inside rest name offset pos_ptr pos safe =
      guarded input_size (pos_ptr + offset) _ (λ lt.
        after-inside (bytes_at offset (suc pos_ptr) input) _
          (bytes_at-inside offset (suc pos_ptr) input (omega arith))
          (λ label e.
            let end = u16 (pos_ptr + (offset + 1)) in
            guarded input_size end _ (λ lt'.
              after-inside (byte_at end input) _ (byte_at-inside end input (omega arith))
                (λ offset' e'.
                  if-inside (offset' == 0) _ _ refl
                    (safe (add_label name label) end (if ltb pos end then end else pos) lt')))))

  unpack_round-inside : (rest : Rest) → IsSafe rest → IsSafe (unpack_round input input_size rest)
  unfolding unpack_round
  unpack_round-inside rest safe name pos_ptr pos lt =
      after-inside (byte_at pos_ptr input) _ (byte_at-inside pos_ptr input (omega arith))
        (λ offset e.
          if-inside (is_pointer offset) _ _
            (guarded input_size (pos_ptr + 1) _ (λ lt'.
              after-inside (byte_at (pos_ptr + 1) input) _
                (byte_at-inside (pos_ptr + 1) input (omega arith))
                (λ low e'. guarded input_size (pointed offset low) _ (λ lt''.
                  after-inside (byte_at (pointed offset low) input) _
                    (byte_at-inside (pointed offset low) input (omega arith))
                    (λ length e''.
                      unpack_label-inside rest name length (pointed offset low) (u16 (pos + 1))
                        safe)))))
            (unpack_label-inside rest name offset pos_ptr pos safe))

  unpack_loop-inside : (rounds : ℕ) → IsSafe (unpack_loop input input_size rounds)
  unfolding unpack_loop is_outside
  unpack_loop-inside zero name pos_ptr pos lt = refl
  unpack_loop-inside (suc rounds) name pos_ptr pos lt =
      unpack_round-inside (unpack_loop input input_size rounds) (unpack_loop-inside rounds) name
        pos_ptr pos lt

  pub unpack_name-inside :
      (rounds pos : ℕ) → is_outside (unpack_name input input_size rounds pos) ≡ false
  unfolding unpack_name
  unpack_name-inside rounds pos = guarded input_size pos _ (unpack_loop-inside rounds [] pos pos)
