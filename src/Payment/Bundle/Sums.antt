-- ===== src/Payment/Bundle/Sums.antt =====
-- pool/payment.go, generatePaymentBundles: the sums of the amounts.
use eacrpool.Prelude.{◌≡◌, refl, sym, ap, ◌∙◌, List, [], ◌∷◌, ◌++◌, arith, Bool-cases, inl, inr}
use eacrpool.Int64.{Int64, add64, add64_assoc}
use eacrpool.Bytes.{equal}
use eacrpool.Payment.{Payment}
use eacrpool.Payment.Bundle.{
  PaymentBundle, total_from, total, add_payment, bundle_loop, generate_payment_bundles,
}

-- the totals of the bundles, added from the left as generatePaymentDetails adds them
unfoldable pub sum_totals : Int64 → List PaymentBundle → Int64
sum_totals acc [] = acc
sum_totals acc (bdl ∷ rest) = sum_totals (add64 acc (total bdl)) rest

total_from-append :
    (acc : Int64) (ps : List Payment) (p : Payment)
    → total_from acc (ps ++ p ∷ []) ≡ add64 (total_from acc ps) p.amount
unfolding total_from
total_from-append acc [] p = refl
total_from-append acc (q ∷ ps) p = total_from-append (add64 acc q.amount) ps p

add64_right : (a b c : Int64) → add64 (add64 a b) c ≡ add64 (add64 a c) b
unfolding add64
add64_right a b c = omega arith

sum_totals-add :
    (acc x : Int64) (bs : List PaymentBundle)
    → sum_totals (add64 acc x) bs ≡ add64 (sum_totals acc bs) x
unfolding sum_totals
sum_totals-add acc x [] = refl
sum_totals-add acc x (bdl ∷ rest) =
    ap (λ t. sum_totals t rest) (add64_right acc x (total bdl))
    ∙ sum_totals-add (add64 acc (total bdl)) x rest

add64_zero : (acc x : Int64) → add64 acc (add64 0 x) ≡ add64 acc x
unfolding add64
add64_zero acc x = omega arith

sum_totals-add_payment :
    (acc : Int64) (p : Payment) (bs : List PaymentBundle)
    → sum_totals acc (add_payment p bs) ≡ add64 (sum_totals acc bs) p.amount
unfolding sum_totals add_payment total total_from
sum_totals-add_payment acc p [] = add64_zero acc p.amount
sum_totals-add_payment acc p (bdl ∷ rest) = elim (Bool-cases (equal p.account bdl.account)) [
  | inl same ↦ rw same (
      ap (λ t. sum_totals t rest)
        (ap (add64 acc) (total_from-append 0 bdl.payments p)
          ∙ sym (add64_assoc acc (total bdl) p.amount))
      ∙ sum_totals-add (add64 acc (total bdl)) p.amount rest)
  | inr other ↦ rw other (sum_totals-add_payment (add64 acc (total bdl)) p rest)
]

bundle_loop-sum :
    (acc : Int64) (bs : List PaymentBundle) (ps : List Payment)
    → sum_totals acc (bundle_loop bs ps) ≡ total_from (sum_totals acc bs) ps
unfolding bundle_loop total_from
bundle_loop-sum acc bs [] = refl
bundle_loop-sum acc bs (p ∷ ps) =
    bundle_loop-sum acc (add_payment p bs) ps
    ∙ ap (λ t. total_from t ps) (sum_totals-add_payment acc p bs)

-- The totals of the bundles add up to the sum of the payments, in wrapping arithmetic.
sum_totals-generate_payment_bundles :
    (acc : Int64) (ps : List Payment)
    → sum_totals acc (generate_payment_bundles ps) ≡ total_from acc ps
unfolding generate_payment_bundles sum_totals
sum_totals-generate_payment_bundles acc ps = bundle_loop-sum acc [] ps
