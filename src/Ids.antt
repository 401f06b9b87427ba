-- ===== src/Ids.antt =====
-- The parts of ids that jobs, accepted work and payments share: heights and nanosecond times as
-- big-endian bytes, and the height that the first eight characters of an id encode.
use eacrpool.Prelude.{
  ℕ, ◌^◌, ◌<◌, ◌≡◌, refl, none, some, ◌++◌, arith, ltb, length, take, if◌then◌else◌, length-append,
}
use eacrpool.Errors.{Result, ok, err, panic, foreign}
use eacrpool.Bytes.{Bytes, put_uint32_be, put_uint64_be, uint32_be, hex_encode, hex_decode}
use eacrpool.Bytes.Codec.{hex_decode-hex_encode, put_uint32_be-IsByte}

unfoldable pub height_to_big_endian_bytes : ℕ → Bytes
height_to_big_endian_bytes height = put_uint32_be height

-- `b[0:4]` panics on fewer than four bytes, as `uint32_be` does.
unfoldable pub big_endian_bytes_to_height : Bytes → Result ℕ
big_endian_bytes_to_height b = elim (uint32_be b) [ none ↦ panic | some h ↦ ok h ]

-- `nano` is the bit pattern of the int64
unfoldable pub nano_to_big_endian_bytes : ℕ → Bytes
nano_to_big_endian_bytes nano = put_uint64_be nano

-- `hex.DecodeString(string(k[:8]))`: slicing a shorter key panics.
unfoldable pub decode_prefix : Bytes → Result Bytes
decode_prefix k =
    if ltb (length k) 8
    then panic
    else elim (hex_decode (take 8 k)) [ none ↦ err foreign | some b ↦ ok b ]

-- the id begins with the encoded height
pub record HasHeight (h : ℕ) (k : Bytes) : Type 0 where
  pub bounded : h < 2 ^ 32
  pub rest : Bytes
  pub shape : k ≡ hex_encode (put_uint32_be h) ++ rest

length-prefix : (h : ℕ) → length (hex_encode (put_uint32_be h)) ≡ 8
unfolding hex_encode put_uint32_be
length-prefix h = refl

take-prefix :
    (h : ℕ) (rest : Bytes)
    → take 8 (hex_encode (put_uint32_be h) ++ rest) ≡ hex_encode (put_uint32_be h)
unfolding hex_encode put_uint32_be
take-prefix h rest = refl

pub decode_prefix-HasHeight :
    (h : ℕ) (k : Bytes) → HasHeight h k → decode_prefix k ≡ ok (put_uint32_be h)
unfolding decode_prefix
decode_prefix-HasHeight h k p = rw p.shape (
    ground (
      arith,
      take-prefix h p.rest,
      length-append (hex_encode (put_uint32_be h)) p.rest,
      length-prefix h,
      hex_decode-hex_encode (put_uint32_be h) (put_uint32_be-IsByte h),
    ))
