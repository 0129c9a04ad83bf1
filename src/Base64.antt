-- ===== src/Base64.antt =====
-- src/base64.cpp: `Anope::B64Encode` and `Anope::B64Decode`. A byte is a number below 256.
pub mod Steps
pub mod RoundTrip
mod Tests
use Prim.Native.Nat.{bit_and, bit_or}
use anope.Base.{
  ℕ, zero, suc, ◌+◌, ◌*◌, ◌/◌, ◌^◌, Bool, true, false, ◌&&◌, ◌||◌, Option, none, some, [], ◌∷◌,
  ◌++◌, Bytes, codes, leb, ◌==◌, if◌then◌else◌, get_or,
}

abbrev pub base64 : Bytes
base64 = codes "ABCDEFGHIJKLMNOPQRSTUVWXYZabcdefghijklmnopqrstuvwxyz0123456789+/"

abbrev pub pad64 : ℕ
pad64 = b'='

-- `Base64[i]`; `encode` asks for indices below 64 only.
unfoldable pub digit : ℕ → ℕ
digit i = get_or base64 i 0

-- Whole groups of three bytes first, then the padding of one or two bytes.
unfoldable pub encode : Bytes → Bytes
encode [] = []
encode (a ∷ []) =
    digit (a / 2 ^ 2) ∷ digit (bit_and a 0x03 * 2 ^ 4 + 0 / 2 ^ 4) ∷ pad64 ∷ pad64 ∷ []
encode (a ∷ b ∷ []) =
    digit (a / 2 ^ 2)
    ∷ digit (bit_and a 0x03 * 2 ^ 4 + b / 2 ^ 4)
    ∷ digit (bit_and b 0x0f * 2 ^ 2 + 0 / 2 ^ 6)
    ∷ pad64
    ∷ []
encode (a ∷ b ∷ c ∷ rest) =
    digit (a / 2 ^ 2)
    ∷ digit (bit_and a 0x03 * 2 ^ 4 + b / 2 ^ 4)
    ∷ digit (bit_and b 0x0f * 2 ^ 2 + c / 2 ^ 6)
    ∷ digit (bit_and c 0x3f)
    ∷ encode rest

-- `isspace` of the C locale.
unfoldable pub is_space : ℕ → Bool
is_space c = c == 32 || leb 9 c && leb c 13

-- `string::find` of one character.
unfoldable pub find_from : Bytes → ℕ → ℕ → Option ℕ
find_from [] c i = none
find_from (x ∷ xs) c i = if x == c then some i else find_from xs c (suc i)

-- `target[target.length() - 1] |= v`.
unfoldable pub or_last : ℕ → Bytes → Bytes
or_last v [] = []
or_last v (x ∷ []) = bit_or x v ∷ []
or_last v (x ∷ y ∷ xs) = x ∷ or_last v (y ∷ xs)

pub data State : Type 0 where
  first second third fourth : State

-- The `switch` on `state`, with the target and the next state.
unfoldable pub put : State → ℕ → Bytes → State × Bytes
put first pos target = (second, target ++ pos * 2 ^ 2 ∷ [])
put second pos target = (third, or_last (pos / 2 ^ 4) target ++ bit_and pos 0x0f * 2 ^ 4 ∷ [])
put third pos target = (fourth, or_last (pos / 2 ^ 2) target ++ bit_and pos 0x03 * 2 ^ 6 ∷ [])
put fourth pos target = (first, or_last pos target)

-- How the loop is left: by its end or the `break`, or by the `return` at a foreign character.
pub data Exit : Type 0 where
  ended : Bytes → Exit
  returned : Bytes → Exit

unfoldable pub decode_loop : Bytes → State → Bytes → Exit
decode_loop [] state target = ended target
decode_loop (ch ∷ rest) state target = elim (is_space ch) [
  | true ↦ decode_loop rest state target
  | false ↦ elim (ch == pad64) [
    | true ↦ ended target
    | false ↦ elim (find_from base64 ch 0) [
      | none ↦ returned target
      | some pos ↦ let (state', target') = put state pos target in decode_loop rest state' target'
    ]
  ]
]

-- `if (!target[target.length() - 1]) target.erase(target.length() - 1)`, which reads outside an
-- empty target: `none`.
unfoldable pub drop_zero : Bytes → Option Bytes
drop_zero [] = none
drop_zero (zero ∷ []) = some []
drop_zero (suc x ∷ []) = some (suc x ∷ [])
drop_zero (x ∷ y ∷ xs) = elim (drop_zero (y ∷ xs)) [ none ↦ none | some ys ↦ some (x ∷ ys) ]

unfoldable pub finish : Exit → Option Bytes
finish (ended target) = drop_zero target
finish (returned target) = some target

-- `none` stands for the read outside the target.
unfoldable pub decode : Bytes → Option Bytes
decode src = finish (decode_loop src first [])
