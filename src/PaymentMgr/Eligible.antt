-- ===== src/PaymentMgr/Eligible.antt =====
-- pool/paymentmgr.go: fetchEligiblePaymentBundles, the bundles that a payout pays.
pub mod Filter
use eacrpool.Prelude.{
  ℕ, zero, suc, Bool, Option, none, some, List, [], ◌∷◌, ◌++◌, length, take, drop, if◌then◌else◌,
}
use eacrpool.Errors.{Result, ok, err, panic}
use eacrpool.Bytes.{Bytes}
use eacrpool.Bolt.{Bolt}
use eacrpool.Int64.{Int64, less64}
use eacrpool.Json.{Json}
use eacrpool.Db.{Db}
use eacrpool.Payment.{Payment}
use eacrpool.Payment.Query.{fetch_mature_pending_payments}
use eacrpool.Payment.Bundle.{PaymentBundle, total, generate_payment_bundles}
use eacrpool.PaymentMgr.{is_payment_requested}

-- `bundles[i]`
unfoldable pub bundle_at : ℕ → List PaymentBundle → Option PaymentBundle
bundle_at i [] = none
bundle_at zero (b ∷ bs) = some b
bundle_at (suc i) (b ∷ bs) = bundle_at i bs

-- `min` is MinPayment, `dust` is txrules.IsDustAmount at the default relay fee, and `reqs` are the
-- accounts that asked for their payment.
module _ (min : Int64) (dust : Int64 → Bool) (reqs : List Bytes) where
  -- The loop, with `suc idx` for a round at `idx`. It never meets an index out of range, where it
  -- would panic; `none` is that case.
  unfoldable pub eligible_loop : ℕ → List PaymentBundle → Option (List PaymentBundle)
  eligible_loop zero bundles = some bundles
  eligible_loop (suc idx) bundles = elim (bundle_at idx bundles) [
    | none ↦ none
    | some bundle ↦
        let without = take idx bundles ++ drop (suc idx) bundles in
        eligible_loop idx (
          if less64 (total bundle) min
          then (if is_payment_requested bundle.account reqs
              then (if dust (total bundle) then without else bundles)
              else without)
          else bundles)
  ]

  unfoldable pub fetch_eligible_payment_bundles :
      {B : Bolt} → Json Payment → ℕ → Db B → Result (List PaymentBundle)
  unfolding eligible_loop
  fetch_eligible_payment_bundles json height d =
      elim (fetch_mature_pending_payments json height d) [
        | err e ↦ err e
        | panic ↦ panic
        | ok payments ↦
            let bundles = generate_payment_bundles payments in
            elim (eligible_loop (length bundles) bundles) [ none ↦ panic | some bs ↦ ok bs ]
      ]
