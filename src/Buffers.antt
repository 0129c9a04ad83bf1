-- ===== src/Buffers.antt =====
-- src/misc.cpp: the conversions between bytes and hexadecimal digits, `normalizeBuffer`, and the tests
-- of texts and times that the commands share. A byte is a number below 256.
pub mod Hex
pub mod Clean
mod Tests
use Prim.Native.Nat.{bit_and}
use anope.Base.{
  ℕ, zero, suc, ◌+◌, ◌-◌, ◌*◌, ◌/◌, ◌%◌, ◌^◌, Bool, true, false, ◌&&◌, ◌||◌, Option, none, some, [],
  ◌∷◌, Bytes, codes, ltb, leb, ◌==◌, if◌then◌else◌, length, get_or,
}
use anope.Text.{contains, has_any}

abbrev pub hextable : Bytes
hextable = codes "0123456789abcdef"

-- `Anope::Hex`, both of them: `data` has the given length.
unfoldable pub hex : Bytes → Bytes
hex [] = []
hex (c ∷ rest) = get_or hextable (c / 2 ^ 4) 0 ∷ get_or hextable (bit_and c 0xF) 0 ∷ hex rest

-- A digit as it is computed, modulo 256: a `char` is signed, and the sum is cut to a byte in the end.
unfoldable pub nibble : ℕ → ℕ
nibble h =
    if leb 128 h then h + 256 - b'0' else if leb b'a' h then h - b'a' + 10 else h + 256 - b'0'

unfoldable pub unhex_byte : ℕ → ℕ → ℕ
unhex_byte h l = (nibble h * 2 ^ 4 % 256 + nibble l) % 256

-- `Anope::Unhex`: behind a text of odd length `src[i + 1]` reads the terminating 0.
unfoldable pub unhex : Bytes → Bytes
unhex [] = []
unhex (h ∷ []) = unhex_byte h 0 ∷ []
unhex (h ∷ l ∷ src) = unhex_byte h l ∷ unhex src

unfoldable pub is_digit : ℕ → Bool
is_digit c = leb b'0' c && leb c b'9'

-- What stands behind one more digit, if there is one: `if (isdigit(buf[i + 1])) ++i;`.
unfoldable pub skip_digit : Bytes → Bytes
skip_digit [] = []
skip_digit (c ∷ s) = if is_digit c then s else c ∷ s

-- The background colour: a comma and up to two digits.
unfoldable pub skip_background : Bytes → Bytes
skip_background [] = []
skip_background (c ∷ s) = if c == b',' then skip_digit (skip_digit s) else c ∷ s

-- Behind the code 3: a digit, one more, and the background; nothing if no digit follows.
unfoldable pub skip_color : Bytes → Bytes
skip_color [] = []
skip_color (c ∷ s) = if is_digit c then skip_background (skip_digit s) else c ∷ s

-- The codes that the `switch` drops, but for the code 3.
unfoldable pub is_dropped : ℕ → Bool
is_dropped c = c == 1 || c == 2 || c == 10 || c == 13 || c == 22 || c == 29 || c == 31

-- The loop, on fuel: a round reads at least one byte.
unfoldable pub normalize_loop : ℕ → Bytes → Bytes
normalize_loop zero s = []
normalize_loop (suc fuel) [] = []
normalize_loop (suc fuel) (c ∷ s) = elim (c == 3) [
  | true ↦ normalize_loop fuel (skip_color s)
  | false ↦ elim (is_dropped c) [ true ↦ normalize_loop fuel s | false ↦ c ∷ normalize_loop fuel s ]
]

unfoldable pub normalize_buffer : Bytes → Bytes
normalize_buffer buf = normalize_loop (length buf) buf

-- `IsValidIdent` with `Config->UserLen`.
unfoldable pub is_ident_char : ℕ → Bool
is_ident_char c =
    leb b'A' c && leb c b'Z'
    || leb b'a' c && leb c b'z'
    || leb b'0' c && leb c b'9'
    || c == b'.'
    || c == b'-'

unfoldable pub every : (ℕ → Bool) → Bytes → Bool
every p [] = true
every p (c ∷ s) = if p c then every p s else false

unfoldable pub is_valid_ident : ℕ → Bytes → Bool
is_valid_ident user_len [] = false
is_valid_ident user_len (c ∷ s) =
    if ltb user_len (length (c ∷ s)) then false else every is_ident_char (c ∷ s)

-- What `IsValidHost` reads of the configuration.
pub record HostRules : Type 0 where
  pub host_len : ℕ
  pub vhost_disallow_be : Bytes
  pub vhost_chars : Bytes
  pub vhost_undotted : Bool

unfoldable pub last_byte : ℕ → Bytes → ℕ
last_byte c [] = c
last_byte c (d ∷ s) = last_byte d s

-- The loop: the number of dots, or `none` for a character that is not allowed.
unfoldable pub count_dots : Bytes → Bytes → ℕ → Option ℕ
count_dots chars [] dots = some dots
count_dots chars (c ∷ s) dots =
    let rest = count_dots chars s (if c == b'.' then suc dots else dots) in
    if contains c chars then rest else none

unfoldable pub is_valid_host : HostRules → Bytes → Bool
is_valid_host rules [] = false
is_valid_host rules (c ∷ s) =
    if ltb rules.host_len (length (c ∷ s))
    then false
    else if contains c rules.vhost_disallow_be
    then false
    else if contains (last_byte c s) rules.vhost_disallow_be
    then false
    else elim (count_dots rules.vhost_chars (c ∷ s) 0) [
      | none ↦ false
      | some dots ↦ rules.vhost_undotted || ltb 0 dots
    ]

unfoldable pub str_is_wildcard : Bytes → Bool
str_is_wildcard str = has_any (codes "*?") str

-- `find_first_not_of('*') == npos`.
unfoldable pub str_is_pure_wildcard : Bytes → Bool
str_is_pure_wildcard str = every (λ c. c == b'*') str
