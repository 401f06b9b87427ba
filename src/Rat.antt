-- ===== src/Rat.antt =====
-- math/big's Rat, for the non-negative values that share weights have: a numerator over a
-- denominator. big.Rat keeps lowest terms; here two fractions of one value may differ, and `Same`
-- says that they have one value.
use eacrpool.Prelude.{
  ℕ, ◌+◌, ◌*◌, ◌<◌, ◌≡◌, Bool, List, [], ◌∷◌, map, arith, ap, sym, ◌∙◌, ◌/◌, ◌==◌,
}
use native.Mathlib.Nat.{mul-div_cancel}

pub record Rat : Type 0 where
  pub num : ℕ
  pub den : ℕ

abbrev pub zero_rat : Rat
zero_rat = record { num = 0; den = 1 }

abbrev pub one_rat : Rat
one_rat = record { num = 1; den = 1 }

abbrev pub Same : Rat → Rat → Type 0
Same a b = a.num * b.den ≡ b.num * a.den

unfoldable pub add : Rat → Rat → Rat
add a b = record { num = a.num * b.den + b.num * a.den; den = a.den * b.den }

-- Quo; the caller sees to a divisor that is not zero.
unfoldable pub quo : Rat → Rat → Rat
quo a b = record { num = a.num * b.den; den = a.den * b.num }

-- Cmp(ZeroRat) == 0
abbrev pub is_zero : Rat → Bool
is_zero a = a.num == 0

-- a number above zero, with a denominator
pub record IsPositive (a : Rat) : Type 0 where
  pub num_pos : 0 < a.num
  pub den_pos : 0 < a.den

Rat-ext : (a b : Rat) → a.num ≡ b.num → a.den ≡ b.den → a ≡ b
Rat-ext a b p q = λ i. record { num = p i; den = q i }

pub add_comm : (a b : Rat) → add a b ≡ add b a
unfolding add
add_comm a b = Rat-ext _ _ (omega arith) (omega arith)

pub add_assoc : (a b c : Rat) → add (add a b) c ≡ add a (add b c)
unfolding add
add_assoc a b c = Rat-ext _ _ (omega arith) (omega arith)

pub zero-add : (a : Rat) → add zero_rat a ≡ a
unfolding add
zero-add a = Rat-ext _ _ (omega arith) (omega arith)

pub add-IsPositive : (a b : Rat) → IsPositive a → IsPositive b → IsPositive (add a b)
unfolding add
add-IsPositive a b p q = record { num_pos = grind arith; den_pos = grind arith }

unfoldable pub sum : List Rat → Rat
sum [] = zero_rat
sum (r ∷ rs) = add r (sum rs)

-- Dividing each part by `t` divides the sum by it.
pub sum-map-quo : (t : Rat) (rs : List Rat) → Same (sum (map (λ r. quo r t) rs)) (quo (sum rs) t)
unfolding sum add quo
sum-map-quo t [] = omega arith
sum-map-quo t (r ∷ rs) =
    omega (arith, ap (λ (x : ℕ). x * (r.den * r.den * t.num)) (sum-map-quo t rs))

mul_right_cancel : (a b m : ℕ) → 0 < m → a * m ≡ b * m → a ≡ b
mul_right_cancel a b m p e = sym (mul-div_cancel a p) ∙ ap (λ x. x / m) e ∙ mul-div_cancel b p

-- What has the value of `t` over `t` is one.
pub Same-one : (x t : Rat) → IsPositive t → Same x (quo t t) → Same x one_rat
unfolding quo
Same-one x t p h =
    mul_right_cancel (x.num * 1) (1 * x.den) (t.den * t.num) (grind arith) (omega arith)
