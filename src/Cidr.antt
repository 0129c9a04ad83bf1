-- ===== src/Cidr.antt =====
-- src/sockets.cpp, class `cidr`: an address range and the test of an address against it.
-- `inet_pton` is a parameter: it gives the bytes of the address, or nothing for an invalid text.
pub mod Match
mod Tests
use Prim.Native.Nat.{bit_and}
use anope.Base.{
  ℕ, zero, suc, ◌+◌, ◌-◌, ◌*◌, ◌/◌, ◌%◌, ◌^◌, Bool, true, false, ◌&&◌, ◌||◌, Option, none, some,
  List, [], ◌∷◌, Bytes, ltb, leb, ◌==◌, if◌then◌else◌, drop,
}
use anope.Text.{find, find_last, substr}

pub data Family : Type 0 where
  inet inet6 : Family

-- `sockaddrs`, as far as ranges are concerned.
pub record Address : Type 0 where
  pub family : Family
  pub bytes : List ℕ

pub record Range : Type 0 where
  pub addr : Address
  pub ip : Bytes
  pub len : ℕ

-- A value, or the exception that the constructor throws.
pub data Made : Type 0 where
  made : Range → Made
  socket_exception convert_exception : Made

unfoldable pub is_digit : ℕ → Bool
is_digit c = leb b'0' c && leb c b'9'

-- `is_pos_number_only`: digits and dots.
unfoldable pub digits_and_dots : Bytes → Bool
digits_and_dots [] = true
digits_and_dots (c ∷ s) = (is_digit c || c == b'.') && digits_and_dots s

-- `istringstream >> unsigned`, on digits and dots: the digits must fill the text and fit.
unfoldable pub digits_from : Bytes → ℕ → Option ℕ
digits_from [] n = some n
digits_from (c ∷ s) n = if is_digit c then digits_from s (n * 10 + (c - b'0')) else none

unfoldable pub to_unsigned : Bytes → Option ℕ
to_unsigned [] = none
to_unsigned (c ∷ s) = elim (digits_from (c ∷ s) 0) [
  | none ↦ none
  | some n ↦ if ltb n (2 ^ 32) then some n else none
]

unfoldable pub family_of : Bytes → Family
family_of ip = elim (find b':' ip) [ none ↦ inet | some i ↦ inet6 ]

module _ (pton : Family → Bytes → Option (List ℕ)) where
  -- `addr.pton(family, ip)` and the range over it.
  unfoldable pub with_address : Family → Bytes → ℕ → Made
  with_address fam ip len = elim (pton fam ip) [
    | none ↦ socket_exception
    | some b ↦ made (record { addr = record { family = fam; bytes = b }; ip = ip; len = len })
  ]

  -- `cidr(ip)`. The length is stored in an `unsigned char`.
  unfoldable pub make : Bytes → Made
  make ip = elim (find_last b'/' ip) [
    | none ↦ with_address (family_of ip) ip (elim (family_of ip) [ inet ↦ 32 | inet6 ↦ 128 ])
    | some sl ↦
        if digits_and_dots (drop (suc sl) ip)
        then elim (to_unsigned (drop (suc sl) ip)) [
          | none ↦ convert_exception
          | some n ↦ with_address (family_of ip) (substr 0 sl ip) (n % 256)
        ]
        else socket_exception
  ]

  -- `cidr(ip, len)`.
  unfoldable pub make_len : Bytes → ℕ → Made
  make_len ip len = with_address (family_of ip) ip (len % 256)

unfoldable pub same_family : Family → Family → Bool
same_family inet inet = true
same_family inet6 inet6 = true
same_family inet inet6 = false
same_family inet6 inet = false

-- `!memcmp(ip, their_ip, n)`, `none` for a read behind the address.
unfoldable pub same_prefix : ℕ → List ℕ → List ℕ → Option Bool
same_prefix zero xs ys = some true
same_prefix (suc n) [] ys = none
same_prefix (suc n) (x ∷ xs) [] = none
same_prefix (suc n) (x ∷ xs) (y ∷ ys) = if x == y then same_prefix n xs ys else some false

-- `(*ip & byte) == (*their_ip & byte)` with `byte = cidr_len % 8`. Behind the address only the
-- mask 0 gives a result that does not depend on what lies there.
unfoldable pub same_rest : ℕ → List ℕ → List ℕ → Option Bool
same_rest zero xs ys = some true
same_rest (suc r) (x ∷ xs) (y ∷ ys) = some (bit_and x (suc r) == bit_and y (suc r))
same_rest (suc r) [] ys = none
same_rest (suc r) (x ∷ xs) [] = none

-- `cidr::match`; `none` where it reads behind the address.
unfoldable pub match : Range → Address → Option Bool
match c other =
    if same_family c.addr.family other.family
    then elim (same_prefix (c.len / 8) c.addr.bytes other.bytes) [
      | none ↦ none
      | some same ↦
          if same
          then same_rest (c.len % 8) (drop (c.len / 8) c.addr.bytes) (drop (c.len / 8) other.bytes)
          else some false
    ]
    else some false
