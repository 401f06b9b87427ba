-- ===== src/Int64.antt =====
-- int64 values as 64-bit patterns: Go's wrapping arithmetic and signed comparison. dcrutil.Amount is
-- such a number of atoms.
use eacrpool.Prelude.{ℕ, ◌+◌, ◌-◌, ◌%◌, ◌^◌, ◌<◌, ◌≡◌, Bool, arith, ltb}

abbrev pub Int64 : Type 0
Int64 = ℕ

abbrev pub InRange : Int64 → Type 0
InRange a = a < 2 ^ 64

unfoldable pub add64 : Int64 → Int64 → Int64
add64 a b = (a + b) % 2 ^ 64

unfoldable pub sub64 : Int64 → Int64 → Int64
sub64 a b = (a + 2 ^ 64 - b) % 2 ^ 64

-- a < b, as signed numbers
unfoldable pub less64 : Int64 → Int64 → Bool
less64 a b = ltb ((a + 2 ^ 63) % 2 ^ 64) ((b + 2 ^ 63) % 2 ^ 64)

pub add64-InRange : (a b : Int64) → InRange (add64 a b)
unfolding add64
add64-InRange a b = omega arith

pub add64_assoc : (a b c : Int64) → add64 (add64 a b) c ≡ add64 a (add64 b c)
unfolding add64
add64_assoc a b c = omega arith

pub add64_comm : (a b : Int64) → add64 a b ≡ add64 b a
unfolding add64
add64_comm a b = omega arith
