-- ===== src/Payment/Query.antt =====
-- pool/payment.go: filterPayments and the queries over it, and the latest payments of an account.
pub mod Filtered
pub mod Latest
use eacrpool.Prelude.{
  ℕ, zero, ◌-◌, Bool, true, List, [], ◌∷◌, ◌++◌, ◌&&◌, ◌==◌, ltb, leb, length, drop, reverse,
  if◌then◌else◌,
}
use eacrpool.Errors.{Result, ok, err, panic}
use eacrpool.Bytes.{Bytes, equal}
use eacrpool.Bolt.{Bolt}
use eacrpool.Json.{Json}
use eacrpool.Db.{BucketName, Db, payment_bkt, payment_archive_bkt, fetch_bucket}
use eacrpool.Db.Records.{decoded}
use eacrpool.Payment.{Payment}

module _ (json : Json Payment) where
  -- the loop of filterPayments, from the first entry to the last
  unfoldable pub filter_loop :
      (Payment → Bool) → List Payment → List (Bytes × Bytes) → Result (List Payment)
  filter_loop wanted payments [] = ok payments
  filter_loop wanted payments ((k, v) ∷ rest) = elim (decoded json v) [
    | err e ↦ err e
    | panic ↦ panic
    | ok payment ↦
        filter_loop wanted (if wanted payment then payments ++ payment ∷ [] else payments) rest
  ]

  module _ {B : Bolt} where
    unfoldable pub filter_payments : (Payment → Bool) → Db B → Result (List Payment)
    unfolding filter_loop
    filter_payments wanted d = elim (fetch_bucket payment_bkt d) [
      | err e ↦ err e
      | panic ↦ panic
      | ok b ↦ filter_loop wanted [] (B.entries b)
    ]

    unfoldable pub fetch_pending_payments : Db B → Result (List Payment)
    fetch_pending_payments = filter_payments (λ p. p.paid_on_height == 0)

    unfoldable pub fetch_mature_pending_payments : ℕ → Db B → Result (List Payment)
    fetch_mature_pending_payments height =
        filter_payments (λ p. p.paid_on_height == 0 && leb p.estimated_maturity height)

    unfoldable pub fetch_pending_payments_at_height : ℕ → Db B → Result (List Payment)
    fetch_pending_payments_at_height height =
        filter_payments (λ p. p.paid_on_height == 0 && p.height == height)

  -- The loop of fetchPendingPaymentsForAccount and fetchArchivedPaymentsForAccount, over the entries
  -- from the last to the first: `k[16:]` is the account of the id, and panics on a shorter key. The
  -- archive's loop takes every payment of the account.
  unfoldable pub account_loop :
      (Payment → Bool) → Bytes → ℕ → List Payment → List (Bytes × Bytes) → Result (List Payment)
  account_loop wanted id n pmts [] = ok pmts
  account_loop wanted id n pmts ((k, v) ∷ rest) =
      let skip = account_loop wanted id n pmts rest in
      if ltb (length k) 16
      then panic
      else if equal (drop 16 k) id
      then elim (decoded json v) [
        | err e ↦ err e
        | panic ↦ panic
        | ok payment ↦
            let pmts' = pmts ++ payment ∷ [] in
            let more = account_loop wanted id n pmts' rest in
            if wanted payment then (if length pmts' == n then ok pmts' else more) else skip
      ]
      else skip

  module _ {B : Bolt} where
    unfoldable pub latest_of :
        BucketName → (Payment → Bool) → Bytes → ℕ → Db B → Result (List Payment)
    latest_of bkt wanted id zero d = ok []
    latest_of bkt wanted id n d = elim (fetch_bucket bkt d) [
      | err e ↦ err e
      | panic ↦ panic
      | ok b ↦ account_loop wanted id n [] (reverse (B.entries b))
    ]

    unfoldable pub fetch_archived_payments_for_account : Bytes → ℕ → Db B → Result (List Payment)
    fetch_archived_payments_for_account id n d = latest_of payment_archive_bkt (λ p. true) id n d

    unfoldable pub fetch_pending_payments_for_account : Bytes → ℕ → Db B → Result (List Payment)
    fetch_pending_payments_for_account id n d =
        latest_of payment_bkt (λ p. p.paid_on_height == 0) id n d

    unfoldable pub fetch_payments_for_account : Bytes → ℕ → Db B → Result (List Payment)
    fetch_payments_for_account id n d = elim (fetch_pending_payments_for_account id n d) [
      | err e ↦ err e
      | panic ↦ panic
      | ok pmts ↦
          if ltb (length pmts) n
          then elim (fetch_archived_payments_for_account id (n - length pmts) d) [
            | err e ↦ err e
            | panic ↦ panic
            | ok apmts ↦ ok (pmts ++ apmts)
          ]
          else ok pmts
    ]
