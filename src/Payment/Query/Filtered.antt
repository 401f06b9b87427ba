-- ===== src/Payment/Query/Filtered.antt =====
-- pool/payment.go, filterPayments and the queries that use it.
use eacrpool.Prelude.{
  ◌≡◌, sym, ap, Bool, some, List, [], ◌∷◌, ◌++◌, arith, filter, leb, ◌==◌, ◌&&◌, ℕ,
}
use mathlib.Core.List.{append_assoc, append-nil}
use eacrpool.Errors.{ok}
use eacrpool.Bytes.{Bytes}
use eacrpool.Bolt.{Bolt}
use eacrpool.Json.{Json}
use eacrpool.Db.{Db, payment_bkt, fetch_bucket}
use eacrpool.Db.Records.{decoded}
use eacrpool.Payment.{Payment}
use eacrpool.Payment.Query.{
  filter_loop, filter_payments, fetch_pending_payments, fetch_mature_pending_payments,
  fetch_pending_payments_at_height,
}

module _ (json : Json Payment) where
  -- Every value of a walk decodes, to these payments.
  abbrev pub Holds : List (Bytes × Bytes) → List Payment → Type 0
  Holds [] [] = Unit
  Holds ((k, v) ∷ l) (p ∷ ps) = (json.unmarshal v ≡ some p) × Holds l ps
  Holds _ _ = ⊥

  filter_loop_lem :
      (wanted : Payment → Bool) (acc : List Payment) (l : List (Bytes × Bytes)) (ps : List Payment)
      → Holds l ps
      → filter_loop json wanted acc l ≡ ok (acc ++ filter wanted ps)
  unfolding filter_loop decoded
  filter_loop_lem wanted acc [] [] h = ap ok (sym (append-nil acc))
  filter_loop_lem wanted acc ((k, v) ∷ l) (p ∷ ps) h = ground (
    arith,
    filter_loop_lem wanted (acc ++ p ∷ []) l ps h.1,
    filter_loop_lem wanted acc l ps h.1,
    append_assoc acc (p ∷ []) (filter wanted ps),
  )
  filter_loop_lem wanted acc [] (p ∷ ps) h = absurd h
  filter_loop_lem wanted acc (e ∷ l) [] h = absurd h

  pub filter_payments_lem :
      {B : Bolt} (wanted : Payment → Bool) (d : Db B) {b : B.Bucket} (ps : List Payment)
      → fetch_bucket payment_bkt d ≡ ok b
      → Holds (B.entries b) ps
      → filter_payments json wanted d ≡ ok (filter wanted ps)
  unfolding filter_payments
  filter_payments_lem {B} wanted d {b} ps found all =
      ground (arith, filter_loop_lem wanted [] (B.entries b) ps all)

  module _ {B : Bolt} (height : ℕ) (d : Db B) {b : B.Bucket} (ps : List Payment) where
    -- Where the payment bucket holds the payments `ps`, the queries return, in key order: the unpaid
    -- ones; the unpaid ones whose estimated maturity is reached; the unpaid ones of a height.
    pub pending_payments :
        fetch_bucket payment_bkt d ≡ ok b
        → Holds (B.entries b) ps
        → (fetch_pending_payments json d ≡ ok (filter (λ p. p.paid_on_height == 0) ps))
          × (fetch_mature_pending_payments json height d
              ≡ ok (filter (λ p. p.paid_on_height == 0 && leb p.estimated_maturity height) ps))
          × (fetch_pending_payments_at_height json height d
              ≡ ok (filter (λ p. p.paid_on_height == 0 && p.height == height) ps))
    unfolding fetch_pending_payments fetch_mature_pending_payments fetch_pending_payments_at_height
    pending_payments found all = (
      filter_payments_lem _ d ps found all,
      filter_payments_lem _ d ps found all,
      filter_payments_lem _ d ps found all,
    )
