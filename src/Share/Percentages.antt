-- ===== src/Share/Percentages.antt =====
-- pool/share.go, sharePercentages: the parts of the accounts.
use eacrpool.Prelude.{
  ◌≡◌, refl, sym, ap, ◌∙◌, List, [], ◌∷◌, map, arith, All, filter, if◌then◌else◌, Bool-cases, inl,
  inr,
}
use mathlib.Core.Path.{subst}
use eacrpool.Errors.{ok}
use eacrpool.Bytes.{Bytes, equal, equal_refl, equal-eq}
use eacrpool.Rat.{
  Rat, Same, IsPositive, zero_rat, one_rat, add, quo, sum, add_assoc, add_comm, zero-add,
  add-IsPositive, sum-map-quo, Same-one,
}
use eacrpool.Share.{Share, Tally, add_weight, tally_loop, percentage_loop, share_percentages}

abbrev pub parts : Tally → List Rat
parts = map (λ e. e.1)

abbrev pub weights : List Share → List Rat
weights = map (λ s. s.weight)

-- the part of an account, or zero
abbrev pub part_of : Bytes → Tally → Rat
part_of a [] = zero_rat
part_of a ((b, c) ∷ t) = if equal b a then c else part_of a t

-- weights added up from the left
unfoldable pub add_all : Rat → List Rat → Rat
add_all acc [] = acc
add_all acc (w ∷ ws) = add_all (add acc w) ws

swap_last : (c w s : Rat) → add (add c w) s ≡ add (add c s) w
swap_last c w s = add_assoc c w s ∙ ap (add c) (add_comm w s) ∙ sym (add_assoc c s w)

sum-add_weight :
    (a : Bytes) (w : Rat) (t : Tally) → sum (parts (add_weight a w t)) ≡ add (sum (parts t)) w
unfolding sum add_weight
sum-add_weight a w [] = add_comm w zero_rat
sum-add_weight a w ((b, c) ∷ t) = elim (Bool-cases (equal b a)) [
  | inl same ↦ rw same (swap_last c w (sum (parts t)))
  | inr other ↦ rw other (ap (add c) (sum-add_weight a w t) ∙ sym (add_assoc c (sum (parts t)) w))
]

tally_loop-total :
    (acc : Rat) (t : Tally) (shares : List Share)
    → sum (parts t) ≡ acc
    → let (total, t') = tally_loop acc t shares in
      (total ≡ add_all acc (weights shares)) × (sum (parts t') ≡ total)
unfolding tally_loop add_all
tally_loop-total acc t [] h = (refl, h)
tally_loop-total acc t (s ∷ shares) h =
    tally_loop-total (add acc s.weight) (add_weight s.account s.weight t) shares
      (sum-add_weight s.account s.weight t ∙ ap (λ x. add x s.weight) h)

part_of-add_weight :
    (a b : Bytes) (w : Rat) (t : Tally)
    → part_of a (add_weight b w t) ≡ (if equal b a then add (part_of a t) w else part_of a t)
unfolding add_weight
part_of-add_weight a b w [] = ground (arith, zero-add w)
part_of-add_weight a b w ((c, x) ∷ t) =
    ground
      (arith, part_of-add_weight a b w t, equal-eq c b, equal-eq c a, equal-eq b a, equal_refl a)

-- The tally holds for an account the weights of its shares, added in their order.
tally_loop-part :
    (a : Bytes) (acc : Rat) (t : Tally) (shares : List Share)
    → part_of a (tally_loop acc t shares).1
      ≡ add_all (part_of a t) (weights (filter (λ s. equal s.account a) shares))
unfolding tally_loop add_all
tally_loop-part a acc t [] = refl
tally_loop-part a acc t (s ∷ shares) = ground (
  arith,
  tally_loop-part a (add acc s.weight) (add_weight s.account s.weight t) shares,
  part_of-add_weight a s.account s.weight t,
)

-- No part of the tally is zero.
abbrev NonZero : Tally → Type 0
NonZero = All (λ e. IsPositive e.1)

NonZero-add_weight :
    (a : Bytes) (w : Rat) (t : Tally) → IsPositive w → NonZero t → NonZero (add_weight a w t)
unfolding add_weight
NonZero-add_weight a w [] p h = (p, tt)
NonZero-add_weight a w ((b, c) ∷ t) p h = elim (Bool-cases (equal b a)) [
  | inl same ↦ rw same (add-IsPositive c w h.0 p, h.1)
  | inr other ↦ rw other (h.0, NonZero-add_weight a w t p h.1)
]

NonZero-tally_loop :
    (acc : Rat) (t : Tally) (shares : List Share)
    → All (λ s. IsPositive s.weight) shares
    → NonZero t
    → NonZero (tally_loop acc t shares).1
unfolding tally_loop
NonZero-tally_loop acc t [] p h = h
NonZero-tally_loop acc t (s ∷ shares) p h =
    NonZero-tally_loop (add acc s.weight) (add_weight s.account s.weight t) shares p.1
      (NonZero-add_weight s.account s.weight t p.0 h)

abbrev pub divided : Rat → Tally → Tally
divided total [] = []
divided total ((a, c) ∷ t) = (a, quo c total) ∷ divided total t

percentage_loop_lem :
    (total : Rat) (t : Tally) → NonZero t → percentage_loop total t ≡ ok (divided total t)
unfolding percentage_loop
percentage_loop_lem total [] h = refl
percentage_loop_lem total ((a, c) ∷ t) h =
    let pos = h.0.num_pos in ground (arith, percentage_loop_lem total t h.1)

add_all-IsPositive :
    (acc : Rat) (shares : List Share)
    → IsPositive acc
    → All (λ s. IsPositive s.weight) shares
    → IsPositive (add_all acc (weights shares))
unfolding add_all
add_all-IsPositive acc [] p h = p
add_all-IsPositive acc (s ∷ shares) p h =
    add_all-IsPositive (add acc s.weight) shares (add-IsPositive acc s.weight p h.0) h.1

parts-divided :
    (total : Rat) (t : Tally) → parts (divided total t) ≡ map (λ r. quo r total) (parts t)
parts-divided total [] = refl
parts-divided total ((a, c) ∷ t) = ap (◌∷◌ (quo c total)) (parts-divided total t)

divided-sum :
    (total : Rat) (t : Tally)
    → IsPositive total
    → sum (parts t) ≡ total
    → Same (sum (parts (divided total t))) one_rat
divided-sum total t p h = rw parts-divided (
    Same-one (sum (map (λ r. quo r total) (parts t))) total p (
      subst (λ x. Same (sum (map (λ r. quo r total) (parts t))) (quo x total)) h
        (sum-map-quo total (parts t))))

-- the weights of all shares, and those of an account
abbrev pub total_weight : List Share → Rat
total_weight shares = add_all zero_rat (weights shares)

abbrev pub account_weight : Bytes → List Share → Rat
account_weight a shares = total_weight (filter (λ s. equal s.account a) shares)

abbrev tallied : List Share → Tally
tallied shares = (tally_loop zero_rat [] shares).1

first-IsPositive :
    (s : Share) (shares : List Share)
    → All (λ s. IsPositive s.weight) (s ∷ shares)
    → IsPositive (total_weight (s ∷ shares))
unfolding add_all
first-IsPositive s shares p =
    add_all-IsPositive (add zero_rat s.weight) shares (rw zero-add p.0) p.1

-- Of at least one share, all of positive weight, sharePercentages makes the parts that a tally has
-- when each is divided by the total weight, which is positive. The tally holds for each account the
-- weight of its shares, and the percentages add up to one.
pub share_percentages_whole :
    (s : Share) (shares : List Share)
    → All (λ s. IsPositive s.weight) (s ∷ shares)
    → (t : Tally) × (share_percentages (s ∷ shares) ≡ ok (divided (total_weight (s ∷ shares)) t))
      × ((a : Bytes) → part_of a t ≡ account_weight a (s ∷ shares))
      × Same (sum (parts (divided (total_weight (s ∷ shares)) t))) one_rat
      × IsPositive (total_weight (s ∷ shares))
unfolding share_percentages sum
share_percentages_whole s shares p =
    let (total, same) = tally_loop-total zero_rat [] (s ∷ shares) refl in
    let pos = first-IsPositive s shares p in
    (
      tallied (s ∷ shares),
      rw (← total) (percentage_loop_lem _ _ (NonZero-tally_loop zero_rat [] (s ∷ shares) p tt)),
      λ a. tally_loop-part a zero_rat [] (s ∷ shares),
      divided-sum _ _ pos (same ∙ total),
      pos,
    )
