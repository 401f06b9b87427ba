-- ===== src/Payment/Archive.antt =====
-- pool/payment.go: ArchivePayments moves the payments of a bundle to the archive.
pub mod Moves
use eacrpool.Prelude.{ℕ, suc, List, [], ◌∷◌}
use eacrpool.Errors.{Result, ok, err, panic}
use eacrpool.Bolt.{Bolt}
use eacrpool.Json.{Json}
use eacrpool.Db.{Db, Tx, payment_bkt, payment_archive_bkt, fetch_bucket, update, write, put, ◌>>◌}
use eacrpool.Payment.{Payment, payment_id}
use eacrpool.Payment.Bundle.{PaymentBundle}

-- a payment with the time at which it is archived
abbrev pub archived_at : ℕ → Payment → Payment
archived_at now pmt = record pmt { created_on = now }

-- The loop, from its `i`-th round: `clock i` is what the clock reads in that round.
module _ (B : Bolt) (json : Json Payment) (clock : ℕ → ℕ) where
  unfoldable pub archive_loop :
      ℕ → List Payment → B.Bucket → B.Bucket → Result (B.Bucket × B.Bucket)
  unfolding put
  archive_loop i [] pbkt abkt = ok (pbkt, abkt)
  archive_loop i (pmt ∷ rest) pbkt abkt =
      let pmt' = archived_at (clock i) pmt in
      elim (put B abkt (payment_id pmt') (json.marshal pmt')) [
        | err e ↦ err e
        | panic ↦ panic
        | ok abkt' ↦ archive_loop (suc i) rest (B.delete pbkt (payment_id pmt)) abkt'
      ]

module _ {B : Bolt} (json : Json Payment) (clock : ℕ → ℕ) where
  unfoldable pub archive_payments_tx : PaymentBundle → Tx B (Unit {0})
  unfolding archive_loop
  archive_payments_tx bundle d = elim (fetch_bucket payment_bkt d) [
    | err e ↦ err e
    | panic ↦ panic
    | ok pbkt ↦ elim (fetch_bucket payment_archive_bkt d) [
      | err e ↦ err e
      | panic ↦ panic
      | ok abkt ↦ elim (archive_loop B json clock 0 bundle.payments pbkt abkt) [
        | err e ↦ err e
        | panic ↦ panic
        | ok (pbkt', abkt') ↦ (write payment_bkt pbkt' >> write payment_archive_bkt abkt') d
      ]
    ]
  ]

  unfoldable pub archive_payments : PaymentBundle → Db B → Result (Unit {0}) × Db B
  unfolding archive_payments_tx
  archive_payments bundle = update (archive_payments_tx bundle)
