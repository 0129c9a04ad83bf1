-- ===== src/Dns.antt =====
-- src/dns.cpp: names, questions and resource records of a DNS packet. A packet is a list of bytes with
-- the number of bytes received; a position is an `unsigned short`. A read or write at a place that the
-- buffer does not have is `outside`, a `SocketException` is `refused`. The loop of `UnpackName` runs on
-- a number of rounds and is `unfinished` where it used them up.
pub mod Safe
pub mod Packet
pub mod PacketSafe
pub mod Pack
pub mod Written
pub mod RoundTrip
pub mod Overflow
pub mod Endless
mod Tests
use Prim.Native.Nat.{bit_and, bit_or}
use anope.Base.{
  ℕ, zero, suc, ◌+◌, ◌*◌, ◌%◌, ◌^◌, Bool, not, [], ◌∷◌, ◌++◌, Bytes, ltb, leb, ◌==◌, if◌then◌else◌,
  length,
}
use anope.Text.{is_empty}
use anope.Tokens.{tokens}

pub data Outcome (A : Type 0) : Type 0 where
  ok : A → Outcome A
  refused outside unfinished : Outcome A

unfoldable pub after : {A B : Type 0} → Outcome A → (A → Outcome B) → Outcome B
after (ok a) k = k a
after refused k = refused
after outside k = outside
after unfinished k = unfinished

-- An `unsigned short`.
unfoldable pub u16 : ℕ → ℕ
u16 n = n % 65536

-- `input[i]`.
unfoldable pub byte_at : ℕ → Bytes → Outcome ℕ
byte_at i [] = outside
byte_at zero (b ∷ input) = ok b
byte_at (suc i) (b ∷ input) = byte_at i input

-- `count` bytes from a place on.
unfoldable pub bytes_at : ℕ → ℕ → Bytes → Outcome Bytes
bytes_at zero i input = ok []
bytes_at (suc count) i input =
    after (byte_at i input) (λ b. after (bytes_at count (suc i) input) (λ bs. ok (b ∷ bs)))

-- `DNS_POINTER` and `DNS_LABEL`.
abbrev pub is_pointer : ℕ → Bool
is_pointer offset = not (bit_and offset 0xC0 == 0)

abbrev pub pointed : ℕ → ℕ → ℕ
pointed offset low = bit_or (bit_and offset 0x3F * 2 ^ 8) low

-- A name with one more label, which may be empty.
unfoldable pub add_label : Bytes → Bytes → Bytes
add_label name label = if is_empty name then label else name ++ b'.' ∷ label

abbrev pub Rest : Type 0
Rest = Bytes → ℕ → ℕ → Outcome (Bytes × ℕ)

module _ (input : Bytes) (input_size : ℕ) where
  -- A round of the loop behind the pointer: the label at `pos_ptr`, and the test of the loop. `rest`
  -- is the next round.
  unfoldable pub unpack_label : Rest → Bytes → ℕ → ℕ → ℕ → Outcome (Bytes × ℕ)
  unpack_label rest name offset pos_ptr pos =
      if leb input_size (pos_ptr + offset)
      then refused
      else after (bytes_at offset (suc pos_ptr) input) (λ label.
        let end = u16 (pos_ptr + (offset + 1)) in
        let name' = add_label name label in
        if leb input_size end
        then refused
        else after (byte_at end input) (λ offset'.
          let pos' = if ltb pos end then end else pos in
          if offset' == 0 then ok (name', u16 (pos' + 1)) else rest name' end pos'))

  -- A round of the loop of `UnpackName`: the pointer first, where there is one.
  unfoldable pub unpack_round : Rest → Bytes → ℕ → ℕ → Outcome (Bytes × ℕ)
  unpack_round rest name pos_ptr pos = after (byte_at pos_ptr input) (λ offset.
      if is_pointer offset
      then (if leb input_size (pos_ptr + 1)
          then refused
          else after (byte_at (pos_ptr + 1) input) (λ low.
            let target = pointed offset low in
            if leb input_size target
            then refused
            else after (byte_at target input)
                (λ length. unpack_label rest name length target (u16 (pos + 1)))))
      else unpack_label rest name offset pos_ptr pos)

  unfoldable pub unpack_loop : ℕ → Rest
  unpack_loop zero name pos_ptr pos = unfinished
  unpack_loop (suc rounds) name pos_ptr pos = unpack_round (unpack_loop rounds) name pos_ptr pos

  -- `UnpackName`: the name and the new position.
  unfoldable pub unpack_name : ℕ → ℕ → Outcome (Bytes × ℕ)
  unpack_name rounds pos = if leb input_size pos then refused else unpack_loop rounds [] pos pos
