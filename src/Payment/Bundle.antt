-- ===== src/Payment/Bundle.antt =====
-- pool/payment.go: PaymentBundle, its total, and the grouping of payments by account.
pub mod Grouping
pub mod Sums
use eacrpool.Prelude.{ℕ, List, [], ◌∷◌, ◌++◌, map, if◌then◌else◌}
use eacrpool.Bytes.{Bytes, equal}
use eacrpool.Int64.{Int64, add64}
use eacrpool.Payment.{Payment}

pub record PaymentBundle : Type 0 where
  pub account : Bytes
  pub payments : List Payment

unfoldable pub new_payment_bundle : Bytes → PaymentBundle
new_payment_bundle account = record { account = account; payments = [] }

-- the loop of Total, from `total`
unfoldable pub total_from : Int64 → List Payment → Int64
total_from total [] = total
total_from total (payment ∷ rest) = total_from (add64 total payment.amount) rest

unfoldable pub total : PaymentBundle → Int64
unfolding total_from
total bundle = total_from 0 bundle.payments

abbrev pub as_paid : ℕ → Bytes → Payment → Payment
as_paid height txid pmt = record pmt { transaction_id = txid; paid_on_height = height }

unfoldable pub update_as_paid : ℕ → Bytes → PaymentBundle → PaymentBundle
update_as_paid height txid bundle = record bundle {
  payments = map (as_paid height txid) bundle.payments;
}

-- The inner loop: the payment joins the first bundle of its account, or a new one at the end.
unfoldable pub add_payment : Payment → List PaymentBundle → List PaymentBundle
unfolding new_payment_bundle
add_payment payment [] =
    record (new_payment_bundle payment.account) { payments = payment ∷ [] } ∷ []
add_payment payment (bdl ∷ rest) =
    if equal payment.account bdl.account
    then record bdl { payments = bdl.payments ++ payment ∷ [] } ∷ rest
    else bdl ∷ add_payment payment rest

unfoldable pub bundle_loop : List PaymentBundle → List Payment → List PaymentBundle
unfolding add_payment
bundle_loop bundles [] = bundles
bundle_loop bundles (payment ∷ rest) = bundle_loop (add_payment payment bundles) rest

unfoldable pub generate_payment_bundles : List Payment → List PaymentBundle
unfolding bundle_loop
generate_payment_bundles payments = bundle_loop [] payments
