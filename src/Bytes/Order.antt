-- ===== src/Bytes/Order.antt =====
-- The order of byte strings (bytes.Compare).
use eacrpool.Prelude.{◌≡◌, refl, true, false, [], ◌∷◌, arith}
use eacrpool.Bytes.{Bytes, less, equal}

pub less_irrefl : (a : Bytes) → less a a ≡ false
unfolding less
less_irrefl [] = refl
less_irrefl (x ∷ xs) = ground (arith, less_irrefl xs)

pub less_trans : (a b c : Bytes) → less a b ≡ true → less b c ≡ true → less a c ≡ true
unfolding less
less_trans [] [] c h k = ground arith
less_trans [] (y ∷ b) [] h k = ground arith
less_trans [] (y ∷ b) (z ∷ c) h k = refl
less_trans (x ∷ a) [] c h k = ground arith
less_trans (x ∷ a) (y ∷ b) [] h k = ground arith
less_trans (x ∷ a) (y ∷ b) (z ∷ c) h k = ground (arith, less_trans a b c)

pub less_connected : (a b : Bytes) → less a b ≡ false → less b a ≡ false → equal a b ≡ true
unfolding less equal
less_connected [] [] h k = refl
less_connected (x ∷ a) (y ∷ b) h k = ground (arith, less_connected a b)
less_connected (x ∷ a) [] h k = ground arith
less_connected [] (y ∷ b) h k = ground arith
