-- ===== src/Bytes/Codec.antt =====
-- The fixed-width and hexadecimal encodings of numbers and bytes.
use eacrpool.Prelude.{
  ℕ, ◌+◌, ◌*◌, ◌/◌, ◌%◌, ◌^◌, ◌≤◌, ◌<◌, ◌≡◌, refl, ap, ◌∙◌, true, false, some, [], ◌∷◌, ◌++◌, arith,
  length, All, ltb, if◌then◌else◌,
}
use mathlib.Core.Path.{ap₂}
use eacrpool.Bytes.{
  Bytes, less, put_uint32_be, put_uint32_le, put_uint64_be, uint32_be, uint32_le, uint64_be,
  hex_digit, hex_encode, from_hex_char, hex_decode,
}

abbrev pub IsByte : ℕ → Type 0
IsByte b = b < 256

pub uint32_be-put_uint32_be : (n : ℕ) → n < 2 ^ 32 → uint32_be (put_uint32_be n) ≡ some n
unfolding uint32_be put_uint32_be
uint32_be-put_uint32_be n h = ap some (omega arith)

pub uint32_le-put_uint32_le : (n : ℕ) → n < 2 ^ 32 → uint32_le (put_uint32_le n) ≡ some n
unfolding uint32_le put_uint32_le
uint32_le-put_uint32_le n h = ap some (omega arith)

-- of any number, the low 32 bits
pub uint32_le-put_uint32_le_mod : (n : ℕ) → uint32_le (put_uint32_le n) ≡ some (n % 2 ^ 32)
unfolding uint32_le put_uint32_le
uint32_le-put_uint32_le_mod n = ap some (omega arith)

pub uint64_be-put_uint64_be : (n : ℕ) → n < 2 ^ 64 → uint64_be (put_uint64_be n) ≡ some n
unfolding uint64_be put_uint64_be
uint64_be-put_uint64_be n h = ap some (omega arith)

block : (m h h' : ℕ) → h < h' → h * m + m ≤ h' * m
block m h h' p = grind arith

-- The first digit decides, unless it is equal on both sides.
ltb_digit :
    (m h h' l l' : ℕ)
    → l < m
    → l' < m
    → (if ltb h h' then true else if ltb h' h then false else ltb l l')
      ≡ ltb (h * m + l) (h' * m + l')
ltb_digit m h h' l l' p q = ground (arith, block m h h', block m h' h)

less_digit :
    (m h h' l l' : ℕ) (rest rest' : Bytes)
    → l < m
    → l' < m
    → less rest rest' ≡ ltb l l'
    → less (h ∷ rest) (h' ∷ rest') ≡ ltb (h * m + l) (h' * m + l')
unfolding less
less_digit m h h' l l' rest rest' p q e = rw e (ltb_digit m h h' l l' p q)

less_one : (x y : ℕ) → less (x ∷ []) (y ∷ []) ≡ ltb x y
unfolding less
less_one x y = ground arith

less_four :
    (a b c d a' b' c' d' : ℕ)
    → (b < 256) × (c < 256) × (d < 256) × (b' < 256) × (c' < 256) × (d' < 256)
    → less (a ∷ b ∷ c ∷ d ∷ []) (a' ∷ b' ∷ c' ∷ d' ∷ [])
      ≡ ltb
          (a * 2 ^ 24 + (b * 2 ^ 16 + (c * 256 + d)))
          (a' * 2 ^ 24 + (b' * 2 ^ 16 + (c' * 256 + d')))
less_four a b c d a' b' c' d' h = less_digit (2 ^ 24) a a' _ _ _ _ (omega arith) (omega arith) (
    less_digit (2 ^ 16) b b' _ _ _ _ (omega arith) (omega arith)
      (less_digit 256 c c' d d' _ _ (omega arith) (omega arith) (less_one d d')))

four_digits :
    (n : ℕ)
    → n < 2 ^ 32
    → (n / 2 ^ 24 % 256) * 2 ^ 24
        + ((n / 2 ^ 16 % 256) * 2 ^ 16 + ((n / 2 ^ 8 % 256) * 256 + n % 256))
      ≡ n
four_digits n h = omega arith

-- Big-endian byte strings compare as the numbers do.
pub less-put_uint32_be :
    (x y : ℕ) → x < 2 ^ 32 → y < 2 ^ 32 → less (put_uint32_be x) (put_uint32_be y) ≡ ltb x y
unfolding put_uint32_be
less-put_uint32_be x y h k =
    less_four _ _ _ _ _ _ _ _ (omega arith) ∙ ap₂ ltb (four_digits x h) (four_digits y k)

from_hex_char-hex_digit : (n : ℕ) → n < 16 → from_hex_char (hex_digit n) ≡ some n
unfolding from_hex_char hex_digit
from_hex_char-hex_digit n h = ground arith

pub hex_decode-hex_encode : (bs : Bytes) → All IsByte bs → hex_decode (hex_encode bs) ≡ some bs
unfolding hex_decode hex_encode
hex_decode-hex_encode [] h = refl
hex_decode-hex_encode (b ∷ bs) h = ground (
  arith,
  from_hex_char-hex_digit (b / 16),
  from_hex_char-hex_digit (b % 16),
  hex_decode-hex_encode bs h.1,
)

pub length-hex_encode : (bs : Bytes) → length (hex_encode bs) ≡ 2 * length bs
unfolding hex_encode
length-hex_encode [] = refl
length-hex_encode (b ∷ bs) = omega (arith, length-hex_encode bs)

pub hex_encode-append : (xs ys : Bytes) → hex_encode (xs ++ ys) ≡ hex_encode xs ++ hex_encode ys
unfolding hex_encode
hex_encode-append [] ys = refl
hex_encode-append (b ∷ xs) ys =
    ap (λ l. hex_digit (b / 16) ∷ hex_digit (b % 16) ∷ l) (hex_encode-append xs ys)

pub put_uint32_be-IsByte : (n : ℕ) → All IsByte (put_uint32_be n)
unfolding put_uint32_be
put_uint32_be-IsByte n = omega arith
