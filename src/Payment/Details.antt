-- ===== src/Payment/Details.antt =====
-- pool/payment.go: generatePaymentDetails, the outputs of a payout transaction.
pub mod Conservation
use eacrpool.Prelude.{List, [], ◌∷◌, if◌then◌else◌}
use eacrpool.Errors.{Result, ok, err, panic}
use eacrpool.Bytes.{Bytes, equal}
use eacrpool.Bolt.{Bolt}
use eacrpool.Int64.{Int64, add64}
use eacrpool.Json.{Json}
use eacrpool.Account.{Account, fetch_account}
use eacrpool.Db.{Db}
use eacrpool.Db.Buckets.{pool_fees_k}
use eacrpool.Payment.Bundle.{PaymentBundle, total}

-- a Go map from addresses to amounts
abbrev pub Outputs : Type 0
Outputs = List (Bytes × Int64)

-- `pmts[k] = v`
unfoldable pub set_output : Bytes → Int64 → Outputs → Outputs
set_output k v [] = (k, v) ∷ []
set_output k v ((j, w) ∷ m) = if equal j k then (k, v) ∷ m else (j, w) ∷ set_output k v m

-- `delete(pmts, k)`
unfoldable pub delete_output : Bytes → Outputs → Outputs
delete_output k [] = []
delete_output k ((j, w) ∷ m) = if equal j k then m else (j, w) ∷ delete_output k m

module _ {B : Bolt} (json : Json Account) (d : Db B) where
  -- The address that a bundle is paid to: the pool fee address for the fees, the account's address
  -- for any other.
  unfoldable pub destination : Bytes → PaymentBundle → Result Bytes
  destination pool_fee_addr p =
      if equal p.account pool_fees_k
      then ok pool_fee_addr
      else elim (fetch_account json p.account d) [
        | err e ↦ err e
        | panic ↦ panic
        | ok acc ↦ ok acc.address
      ]

  unfoldable pub details_loop :
      Bytes → Outputs → Int64 → List PaymentBundle → Result (Outputs × Int64)
  unfolding destination set_output
  details_loop pool_fee_addr pmts target_amt [] = ok (pmts, target_amt)
  details_loop pool_fee_addr pmts target_amt (p ∷ rest) = elim (destination pool_fee_addr p) [
    | err e ↦ err e
    | panic ↦ panic
    | ok addr ↦
        details_loop pool_fee_addr (set_output addr (total p) pmts) (add64 target_amt (total p))
          rest
  ]

  unfoldable pub generate_payment_details : Bytes → List PaymentBundle → Result (Outputs × Int64)
  unfolding details_loop
  generate_payment_details pool_fee_addr eligible_pmts =
      details_loop pool_fee_addr [] 0 eligible_pmts
