-- ===== src/Bytes.antt =====
-- Byte strings as lists of numbers, with the standard library's comparison of them (bytes.Compare,
-- bytes.Equal); a Go string is the list of its UTF-8 bytes.
pub mod Order
pub mod Codec
use eacrpool.Prelude.{
  ℕ, ◌+◌, ◌-◌, ◌*◌, ◌/◌, ◌%◌, ◌^◌, ◌≡◌, ◌↔◌, refl, Bool, true, false, ◌&&◌, Option, none, some,
  List, [], ◌∷◌, ◌++◌, arith, ltb, leb, ◌==◌, if◌then◌else◌,
}

abbrev pub Bytes : Type 0
Bytes = List ℕ

-- bytes.Equal, and == on strings
unfoldable pub equal : Bytes → Bytes → Bool
equal [] [] = true
equal (x ∷ xs) (y ∷ ys) = let rest = equal xs ys in if x == y then rest else false
equal _ _ = false

-- bytes.Compare a b < 0
unfoldable pub less : Bytes → Bytes → Bool
less [] [] = false
less [] (y ∷ ys) = true
less (x ∷ xs) [] = false
less (x ∷ xs) (y ∷ ys) =
    let rest = less xs ys in if ltb x y then true else if ltb y x then false else rest

pub equal_refl : (a : Bytes) → equal a a ≡ true
unfolding equal
equal_refl [] = refl
equal_refl (x ∷ xs) = ground (arith, equal_refl xs)

pub equal-eq : (a b : Bytes) → equal a b ≡ true → a ≡ b
unfolding equal
equal-eq [] [] h = refl
equal-eq (x ∷ xs) (y ∷ ys) h = ground (arith, equal-eq xs ys)
equal-eq _ _ h = ground arith

pub equal_of_eq : (a b : Bytes) → a ≡ b → equal a b ≡ true
equal_of_eq a b h = rw h (equal_refl b)

pub equal_iff : (a b : Bytes) → (equal a b ≡ true) ↔ (a ≡ b)
equal_iff a b = (equal-eq a b, equal_of_eq a b)

-- binary.BigEndian.PutUint32 and binary.LittleEndian.PutUint32 on four fresh bytes
unfoldable pub put_uint32_be : ℕ → Bytes
put_uint32_be n = (n / 2 ^ 24 % 256) ∷ (n / 2 ^ 16 % 256) ∷ (n / 2 ^ 8 % 256) ∷ (n % 256) ∷ []

unfoldable pub put_uint32_le : ℕ → Bytes
put_uint32_le n = (n % 256) ∷ (n / 2 ^ 8 % 256) ∷ (n / 2 ^ 16 % 256) ∷ (n / 2 ^ 24 % 256) ∷ []

-- binary.BigEndian.PutUint64 on eight fresh bytes
unfoldable pub put_uint64_be : ℕ → Bytes
unfolding put_uint32_be
put_uint64_be n = put_uint32_be (n / 2 ^ 32) ++ put_uint32_be n

-- binary.BigEndian.Uint32 and binary.LittleEndian.Uint32; `none` is the panic on a short slice
unfoldable pub uint32_be : Bytes → Option ℕ
uint32_be (a ∷ b ∷ c ∷ d ∷ _) = some (a * 2 ^ 24 + b * 2 ^ 16 + c * 2 ^ 8 + d)
uint32_be _ = none

unfoldable pub uint32_le : Bytes → Option ℕ
uint32_le (a ∷ b ∷ c ∷ d ∷ _) = some (a + b * 2 ^ 8 + c * 2 ^ 16 + d * 2 ^ 24)
uint32_le _ = none

unfoldable pub uint64_be : Bytes → Option ℕ
uint64_be (a ∷ b ∷ c ∷ d ∷ e ∷ f ∷ g ∷ h ∷ _) =
    some (
      (a * 2 ^ 24 + b * 2 ^ 16 + c * 2 ^ 8 + d) * 2 ^ 32
      + (e * 2 ^ 24 + f * 2 ^ 16 + g * 2 ^ 8 + h))
uint64_be _ = none

-- the lower-case digit of hex.EncodeToString
unfoldable pub hex_digit : ℕ → ℕ
hex_digit n = if ltb n 10 then 48 + n else 87 + n

unfoldable pub hex_encode : Bytes → Bytes
unfolding hex_digit
hex_encode [] = []
hex_encode (b ∷ bs) = hex_digit (b / 16) ∷ hex_digit (b % 16) ∷ hex_encode bs

-- the value of a hexadecimal character of either case
unfoldable pub from_hex_char : ℕ → Option ℕ
from_hex_char c =
    if leb 48 c && leb c 57
    then some (c - 48)
    else if leb 97 c && leb c 102
    then some (c - 87)
    else if leb 65 c && leb c 70
    then some (c - 55)
    else none

-- hex.DecodeString; `none` is its error
unfoldable pub hex_decode : Bytes → Option Bytes
hex_decode [] = some []
hex_decode (x ∷ []) = none
hex_decode (x ∷ y ∷ rest) = elim (from_hex_char x) [
  | none ↦ none
  | some a ↦ elim (from_hex_char y) [
    | none ↦ none
    | some b ↦ elim (hex_decode rest) [ none ↦ none | some bs ↦ some ((a * 16 + b) ∷ bs) ]
  ]
]
